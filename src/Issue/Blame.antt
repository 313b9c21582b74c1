-- ===== src/Issue/Blame.antt =====
-- What apply_idempotent_transaction is right about: the entry that it names did not meet its
-- conditions.
use pl8_base.Base.{
  ℕ, zero, suc, ◌+◌, ◌≡◌, refl, ap, ◌∙◌, sym, ◌||◌, Bool, true, false, Bool-cases, inl, inr, Option,
  none, some, List, [], ◌∷◌, get_elem?, length, arith, if◌then◌else◌,
}
use mathlib.Core.Path.{subst}
use pl8_base.Errors.{Result, ok, pure, raise, ◌>>=◌}
use pl8_base.Errors.Bind.{bind-ok}
use pl8_base.Dynamo.{
  Table, Write, Client, ClientError, Reason, Reply, replied, client_error, botocore_error,
  conditions_hold, transact_write_items,
}
use pl8_base.Dynamo.Documented.{
  IsDynamo, Outcome, applied, refused, applied_unknown, lost, applied_lost, ReasonsFit,
  names_failure, old_row, reasons_of, is_definite,
}
use pl8_base.Types.{Gzip}
use text.Mathlib.Text.{◌==◌ as str_eq}
use pl8_base.Const.{condition_failed_reason, condition_failed_code, transact_conflict_code}
use pl8_base.Manager.Parse.{BaseObject}
use pl8_base.Manager.Failure.{
  code_is, is_failed_entry, raise_for_transaction_conflict, failed_reason_item,
  cancellation_reasons,
}
use pl8_base.Manager.RetryLaws.{state_at, retried-ends}
use pl8_base.Issue.Sweep.{first_failed, on_idempotent, apply_idempotent_transaction}
use pl8_base.Issue.BlockerSteps.{Keeps-on_idempotent}

some_injective : {A : Type 0} {a b : A} → Path (Option A) (some a) (some b) → a ≡ b
some_injective h = ground arith

-- The entry failed, and the reason carries the row that its request asks for.
abbrev pub FailedOn : Table → Write → Reason → Type 0
FailedOn t w r = (conditions_hold t w ≡ false) × (r.item ≡ old_row t w)

-- A reason that names a failure is true of its entry.
reason_true :
    (t : Table) (ws : List Write) (rs : List Reason) (k : ℕ) (w : Write) (r : Reason)
    → ReasonsFit t ws rs
    → get_elem? ws k ≡ some w
    → get_elem? rs k ≡ some r
    → names_failure r.code ≡ true
    → FailedOn t w r
reason_true t ws [] k w r fit at_w at_r named = ground arith
reason_true t [] (q ∷ rs) k w r fit at_w at_r named = ground arith
reason_true t (v ∷ ws) (q ∷ rs) zero w r fit at_w at_r named =
    let same_write : v ≡ w = some_injective at_w in
    let same_reason : r ≡ q = sym (some_injective at_r) in
    subst (λ (u : Write). FailedOn t u r) same_write
      (subst (λ (p : Reason). (conditions_hold t v ≡ false) × (p.item ≡ old_row t v))
        (sym same_reason)
        (fit.0 (subst (λ (p : Reason). names_failure p.code ≡ true) same_reason named)))
reason_true t (v ∷ ws) (q ∷ rs) (suc k) w r fit at_w at_r named =
    reason_true t ws rs k w r fit.1 at_w at_r named

pub named_reason :
    (exc : ClientError) (k : ℕ)
    → is_failed_entry exc k ≡ true
    → (r : Reason) × ((get_elem? (reasons_of exc) k ≡ some r) × (names_failure r.code ≡ true))
unfolding is_failed_entry cancellation_reasons
named_reason exc k h = of_found (get_elem? (reasons_of exc) k) refl h
  where
    of_found :
        (o : Option Reason)
        → get_elem? (reasons_of exc) k ≡ o
        → elim o [ none ↦ false | some r ↦ code_is condition_failed_reason r.code ] ≡ true
        → (r : Reason) × ((get_elem? (reasons_of exc) k ≡ some r) × (names_failure r.code ≡ true))
    of_found none found h = ground arith
    of_found (some r) found h = (r, (found, ground arith))

definite_reason :
    (e : ClientError) (k : ℕ) (r : Reason)
    → get_elem? (reasons_of e) k ≡ some r
    → is_definite e ≡ true
definite_reason e k r h = of_reasons e.reasons h
  where
    of_reasons :
        (o : Option (List Reason))
        → get_elem? (elim o [ none ↦ [] | some rs ↦ rs ]) k ≡ some r
        → (elim o [
          | some (q ∷ rs) ↦ true
          | _ ↦ str_eq e.code transact_conflict_code || str_eq e.code condition_failed_code
        ])
          ≡ true
    of_reasons none h = ground arith
    of_reasons (some []) h = ground arith
    of_reasons (some (q ∷ rs)) h = refl

pub error_injective :
    {A : Type 0} {a b : ClientError} → Path (Reply A) (client_error a) (client_error b) → a ≡ b
error_injective h = ground arith

-- A named reason tells that nothing was written, and of the table that is there.
pub refused_true :
    (ws : List Write) (t : Table) (exc : ClientError) (t' : Table) (k : ℕ) (w : Write) (r : Reason)
    → Outcome {A = Unit {0}} ws t (client_error exc) t'
    → get_elem? ws k ≡ some w
    → get_elem? (reasons_of exc) k ≡ some r
    → names_failure r.code ≡ true
    → FailedOn t' w r
refused_true ws t exc t' k w r (applied a e ap_ ac q) at_w at_r named = ground arith
refused_true ws t exc t' k w r (refused x e q fit) at_w at_r named =
    subst (λ (u : Table). FailedOn u w r) (sym q)
      (reason_true t ws (reasons_of x) k w r fit at_w
        (subst (λ (y : ClientError). get_elem? (reasons_of y) k ≡ some r) (error_injective e) at_r)
        named)
refused_true ws t exc t' k w r (applied_unknown x e d ap_ ac q fit) at_w at_r named = absurd_flags (
    sym (
      subst (λ (y : ClientError). is_definite y ≡ true) (error_injective e)
        (definite_reason exc k r at_r))
    ∙ d)
  where
    absurd_flags : {A : Type 0} → true ≡ false → A
    absurd_flags h = ground arith
refused_true ws t exc t' k w r (lost e q) at_w at_r named = ground arith
refused_true ws t exc t' k w r (applied_lost e ap_ ac q) at_w at_r named = ground arith

module _ (c : Client) (z : Gzip) where
  pub failed_reason_item-named :
      (exc : ClientError) (k : ℕ) (s : c.State) (old : Option BaseObject)
      → (failed_reason_item c z exc k s).0 ≡ ok (true, old)
      → is_failed_entry exc k ≡ true
  unfolding failed_reason_item pure
  failed_reason_item-named exc k s old h = elim (Bool-cases (is_failed_entry exc k)) [
    | inl e ↦ e
    | inr e ↦ absurd_pair (rw e at h)
  ]
    where
      absurd_pair :
          {A : Type 0}
          → Path (Result (Bool × Option BaseObject)) (ok (false, none)) (ok (true, old))
          → A
      absurd_pair h = ground arith

  -- The index that the loop returns is that of a failed entry.
  first_failed-named :
      (exc : ClientError) (index left k : ℕ) (s : c.State)
      → (first_failed c z exc index left s).0 ≡ ok (false, some k)
      → is_failed_entry exc k ≡ true
  unfolding first_failed raise pure
  first_failed-named exc index zero k s h = ground arith
  first_failed-named exc index (suc left) k s h =
      let (entry, (got, rest)) = bind-ok (failed_reason_item c z exc index) _ s (false, some k) h in
      of_entry entry.0 entry.1 _ got rest (first_failed-named exc (index + 1) left k)
    where
      of_entry :
          (b : Bool) (old : Option BaseObject) (s' : c.State)
          → (failed_reason_item c z exc index s).0 ≡ ok (b, old)
          → ((if b then pure (false, some index) else first_failed c z exc (index + 1) left) s').0
            ≡ ok (false, some k)
          → ((s' : c.State)
              → (first_failed c z exc (index + 1) left s').0 ≡ ok (false, some k)
              → is_failed_entry exc k ≡ true)
          → is_failed_entry exc k ≡ true
      of_entry true old s' got rest later =
          subst (λ (i : ℕ). is_failed_entry exc i ≡ true) (same_index rest)
            (failed_reason_item-named exc index s old got)
        where
          same_index :
              Path (Result (Bool × Option ℕ)) (ok (false, some index)) (ok (false, some k))
              → index ≡ k
          same_index h = ground arith
      of_entry false old s' got rest later = later s' rest

  -- A reply that the loop takes for a failed entry comes with a table on which the entry fails.
  reply_blames :
      (ws : List Write) (t : Table) (r : Reply (Unit {0})) (t' : Table) (k : ℕ) (w : Write)
      (s : c.State)
      → Outcome ws t r t'
      → get_elem? ws k ≡ some w
      → (on_idempotent c z ws r s).0 ≡ ok (false, some k)
      → conditions_hold t' w ≡ false
  unfolding pure raise
  reply_blames ws t (replied a) t' k w s o at_w h = ground arith
  reply_blames ws t botocore_error t' k w s o at_w h = ground arith
  reply_blames ws t (client_error exc) t' k w s o at_w h =
      let (u, (got, rest)) =
        bind-ok (raise_for_transaction_conflict c z exc) _ s (false, some k) h in
      let (r, (at_r, named)) = named_reason exc k (first_failed-named exc 0 (length ws) k _ rest) in
      (refused_true ws t exc t' k w r o at_w at_r named).0

  -- Where apply_idempotent_transaction names an entry as failed, the table that it leaves does not
  -- meet the entry's conditions.
  pub apply_idempotent_transaction-failed :
      (d : IsDynamo c) (ws : List Write) (k : ℕ) (w : Write) (s : c.State)
      → get_elem? ws k ≡ some w
      → (apply_idempotent_transaction c z ws s).0 ≡ ok (false, some k)
      → conditions_hold (c.table (apply_idempotent_transaction c z ws s).1) w ≡ false
  unfolding apply_idempotent_transaction ◌>>=◌ transact_write_items
  apply_idempotent_transaction-failed d ws k w s at_w h =
      let attempt = transact_write_items c ws >>= on_idempotent c z ws in
      let (n, (few, before, same, last)) = retried-ends c attempt s in
      subst (λ p. conditions_hold (c.table p.1) w ≡ false) (sym same)
        (of_attempt (state_at c 5 100 attempt 0 n s) (ap (λ p. p.0) (sym same) ∙ h))
    where
      of_attempt :
          (s' : c.State)
          → ((transact_write_items c ws >>= on_idempotent c z ws) s').0 ≡ ok (false, some k)
          → conditions_hold (c.table ((transact_write_items c ws >>= on_idempotent c z ws) s').1) w
            ≡ false
      of_attempt s' h' =
          let (r, s'') = c.transact_write_items ws s' in
          (Keeps-on_idempotent c z d {P = λ t. conditions_hold t w ≡ false} ws r).at s'' (
            reply_blames ws (c.table s') r (c.table s'') k w s'' (d.transact_outcome ws s') at_w h')
