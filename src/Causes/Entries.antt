-- ===== src/Causes/Entries.antt =====
-- What CancellationReasons say of the table, and what a handler that reads them may raise.
use pl8_base.Base.{
  ◌≡◌, refl, ◌∙◌, sym, ap, ℕ, Bool, true, false, Bool-cases, inl, inr, Option, none, some, List,
  arith, is_some, get_elem?, if◌then◌else◌,
}
use pl8_base.Errors.{Error, Result, ok, err, Exec, raise, pure, ◌>>=◌}
use pl8_base.Errors.Bind.{bind-ok}
use pl8_base.Dynamo.{
  Item, Table, Client, ClientError, Reply, replied, client_error, botocore_error, Write,
  conditions_hold, transact_write_items,
}
use pl8_base.Dynamo.Documented.{IsDynamo, Outcome, old_row}
use pl8_base.Types.{Gzip}
use pl8_base.Manager.Keeps.{Keeps}
use pl8_base.Manager.Parse.{BaseObject, parse_item, parse_kind}
use pl8_base.Manager.Failure.{
  is_failed_entry, failed_reason_item, reason_item, cancellation_reasons,
}
use pl8_base.Issue.Blame.{refused_true, named_reason}
use pl8_base.Causes.Rules.{
  Raises, IsLenient, Raises-bind-known, Raises-raise, Raises-failed_reason_item,
}

-- Each entry that the reasons name did not meet its conditions, and its reason has the row.
abbrev pub Said : ClientError → List Write → Table → Type 0
Said exc ws t =
    (k : ℕ) (w : Write)
    → get_elem? ws k ≡ some w
    → is_failed_entry exc k ≡ true
    → (conditions_hold t w ≡ false) × (reason_item exc k ≡ old_row t w)

Outcome-Said :
    (ws : List Write) (t t' : Table) (exc : ClientError)
    → Outcome {A = Unit {0}} ws t (client_error exc) t'
    → Said exc ws t'
unfolding cancellation_reasons
Outcome-Said ws t t' exc o k w at_w failed =
    let (r, (at_r, named)) = named_reason exc k failed in
    let (cond, item) = refused_true ws t exc t' k w r o at_w at_r named in
    (cond, rw (reason_item, at_r) item)

module _ (c : Client) (d : IsDynamo c) {R : Error → Table → Type 0} {A : Type 0} where
  -- An exception after a transaction comes with a table that is as the reasons say.
  pub Raises-transact :
      (ws : List Write) (handle : Reply (Unit {0}) → Exec c.State A)
      → ((a : Unit {0}) → Raises c R (handle (replied a)))
      → Raises c R (handle botocore_error)
      → ((exc : ClientError) (t : Table)
          → Said exc ws t
          → Raises c (λ e u. R e t) (handle (client_error exc)))
      → ((P : Table → Type 0) (r : Reply (Unit {0})) → Keeps c P (handle r))
      → Raises c R (transact_write_items c ws >>= handle)
  unfolding ◌>>=◌ transact_write_items
  Raises-transact ws handle kr kb kc quiet = record {
    because = λ s e h.
        let (r, s') = c.transact_write_items ws s in
        of_reply r (c.table s) s' (d.transact_outcome ws s) e h;
  }
    where
      of_reply :
          (r : Reply (Unit {0})) (t : Table) (s' : c.State)
          → Outcome ws t r (c.table s')
          → (e : Error) → (handle r s').0 ≡ err e
          → R e (c.table (handle r s').1)
      of_reply (replied a) t s' o e h = (kr a).because s' e h
      of_reply botocore_error t s' o e h = kb.because s' e h
      of_reply (client_error exc) t s' o e h =
          (quiet (R e) (client_error exc)).at s'
            ((kc exc (c.table s') (Outcome-Said ws t (c.table s') exc o)).because s' e h)

module _ (c : Client) (z : Gzip) where
  -- Only the row that is there parses to an item.
  pub parsed_presence :
      (o : Option Item) (s : c.State) (old : Option BaseObject)
      → (parse_item c z o s).0 ≡ ok old
      → is_some old ≡ is_some o
  unfolding parse_item pure
  parsed_presence none s old h = ground arith
  parsed_presence (some item) s old h =
      let (x, (got, rest)) = bind-ok (parse_kind c z (item _) item) _ s old h in ground arith

  failed_reason_item-presence :
      (exc : ClientError) (k : ℕ) (s : c.State) (a : Bool × Option BaseObject)
      → (failed_reason_item c z exc k s).0 ≡ ok a
      → a.0 ≡ true
      → (is_failed_entry exc k ≡ true) × (is_some a.1 ≡ is_some (reason_item exc k))
  unfolding failed_reason_item pure
  failed_reason_item-presence exc k s a h set = elim (Bool-cases (is_failed_entry exc k)) [
    | inl e ↦
        let (old, (got, rest)) = bind-ok (parse_item c z (reason_item exc k)) _ s a (rw e at h) in
        let same = parsed_presence (reason_item exc k) s old got in
        (e, ap (λ (p : Bool × Option BaseObject). is_some p.1) (sym (ok_injective rest)) ∙ same)
    | inr e ↦
        absurd_flags (ap (λ (p : Bool × Option BaseObject). p.0) (ok_injective (rw e at h)) ∙ set)
  ]
    where
      ok_injective :
          {p q : Bool × Option BaseObject}
          → Path (Result (Bool × Option BaseObject)) (ok p) (ok q)
          → p ≡ q
      ok_injective h = ground arith

      absurd_flags : {B : Type 0} → false ≡ true → B
      absurd_flags h = ground arith

  module _ {R : Error → Table → Type 0} (lenient : IsLenient R) {A : Type 0} where
    -- One entry of a handler, and the rest of it.
    pub Raises-entry :
        (exc : ClientError) (k : ℕ) (bad : Option BaseObject → Error) (rest : Exec c.State A)
        → ((old : Option BaseObject)
            → is_failed_entry exc k ≡ true
            → is_some old ≡ is_some (reason_item exc k)
            → (t : Table) → R (bad old) t)
        → Raises c R rest
        → Raises c R (failed_reason_item c z exc k >>= λ a. if a.0 then raise (bad a.1) else rest)
    Raises-entry exc k bad rest said kr =
        Raises-bind-known c _ _ (Raises-failed_reason_item c z lenient exc k)
          λ a s got. of_flag a.0 a.1 (λ set. failed_reason_item-presence exc k s a got set)
      where
        of_flag :
            (b : Bool) (old : Option BaseObject)
            → (b ≡ true
                → (is_failed_entry exc k ≡ true) × (is_some old ≡ is_some (reason_item exc k)))
            → Raises c R (if b then raise (bad old) else rest)
        of_flag true old named = Raises-raise c (bad old) (said old (named refl).0 (named refl).1)
        of_flag false old named = kr
