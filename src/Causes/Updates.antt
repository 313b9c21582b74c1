-- ===== src/Causes/Updates.antt =====
-- The exceptions of apply_update, and of transition_issue.
use pl8_base.Base.{
  ◌≡◌, refl, ap, sym, true, false, ◌||◌, ◌∙◌, Bool-cases, inl, inr, Option, none, some, is_some,
  arith, List, [], ◌∷◌,
}
use mathlib.Core.Path.{subst}
use pl8_base.Base.Int.{ℤ}
use pl8_base.Base.Text.{Text}
use pl8_base.Errors.{Error, missing, version_conflict, internal, python_error, ok, err, Exec, ◌>>=◌}
use pl8_base.Dynamo.{
  Item, Table, Client, ClientError, Reason, Key, Write, Reply, replied, client_error,
  botocore_error, lookup, conditions_hold, write_item,
}
use pl8_base.Dynamo.Documented.{
  IsDynamo, Outcome, applied, refused, applied_unknown, lost, applied_lost, old_row, is_definite,
}
use text.Mathlib.Text.{◌==◌ as str_eq}
use pl8_base.Const.{transact_conflict_code, condition_failed_code}
use pl8_base.Issue.Blame.{error_injective}
use pl8_base.Causes.Entries.{parsed_presence}
use pl8_base.Types.{Gzip}
use pl8_base.Manager.Keeps.{Keeps}
use pl8_base.Manager.Reads.{Keeps-on_update}
use pl8_base.Manager.Parse.{BaseObject, parse_item}
use pl8_base.Manager.Update.{
  UpdateArgs, update_request, apply_update, on_update, on_failed_condition, is_stale,
  parse_attributes, parsed_or_error,
}
use pl8_base.Manager.Failure.{is_condition_failure, old_item_from_exc}
use pl8_base.Causes.Rules.{
  Raises, IsLenient, fixed-IsLenient, Raises-pure, Raises-raise, Raises-bind, Raises-bind-known,
  Raises-parse_item, Raises-raise_for_transaction_conflict,
}

some_of : {A : Type 0} (o : Option A) → is_some o ≡ true → (a : A) × (o ≡ some a)
some_of none h = ground arith
some_of (some a) h = (a, refl)

none_of : {A : Type 0} (o : Option A) → is_some o ≡ false → o ≡ none
none_of none h = refl
none_of (some a) h = ground arith

-- A failed condition is a definite error, so nothing was written.
failed-refused :
    (ws : List Write) (t t' : Table) (exc : ClientError)
    → Outcome {A = Option Item} ws t (client_error exc) t'
    → is_condition_failure exc ≡ true
    → t' ≡ t
unfolding is_condition_failure
failed-refused ws t t' exc (applied a e ap ac q) failed = ground arith
failed-refused ws t t' exc (refused x e q fit) failed = q
failed-refused ws t t' exc (applied_unknown x e d ap_ ac q fit) failed = absurd_flags (
    sym (definite exc.reasons)
    ∙ subst (λ (y : ClientError). is_definite y ≡ false) (sym (error_injective e)) d)
  where
    definite :
        (o : Option (List Reason))
        → (elim o [
          | some (r ∷ rs) ↦ true
          | _ ↦ str_eq exc.code transact_conflict_code || str_eq exc.code condition_failed_code
        ])
          ≡ true
    definite none = ground arith
    definite (some []) = ground arith
    definite (some (r ∷ rs)) = refl

    absurd_flags : {A : Type 0} → true ≡ false → A
    absurd_flags h = ground arith
failed-refused ws t t' exc (lost e q) failed = ground arith
failed-refused ws t t' exc (applied_lost e ap ac q) failed = ground arith

module _ (c : Client) (z : Gzip) where
  -- The row at a key is there, and reads as the entity.
  pub record Reads (key : Key) (object : BaseObject) (t : Table) : Type 0 where
    pub row : Item
    pub at_key : lookup key t ≡ some row
    pub state : c.State
    pub reads : (parse_item c z (some row) state).0 ≡ ok (some object)

  -- What an update needs of `R` at the row of a key.
  pub record Explains (R : Error → Table → Type 0) (key : Key) (version : Option ℤ)
      (classify : BaseObject → Exec c.State (Unit {0})) : Type 0 where
    pub lenient : IsLenient R
    pub at_missing : (t : Table) → lookup key t ≡ none → R missing t
    pub at_version :
        (t : Table) (old : BaseObject)
        → Reads key old t
        → is_stale c z version old ≡ true
        → R version_conflict t
    pub at_classify :
        (t : Table) (old : BaseObject) → Reads key old t → Raises c (λ e u. R e t) (classify old)

  module _ {R : Error → Table → Type 0} {key : Key} {version : Option ℤ}
      {classify : BaseObject → Exec c.State (Unit {0})} (x : Explains R key version classify) where
    module _ (t : Table) where
      on_old :
          (old : Option BaseObject)
          → (is_some old ≡ false → lookup key t ≡ none)
          → ((object : BaseObject) → old ≡ some object → Reads key object t)
          → Raises c (λ e u. R e t) (on_failed_condition c z version classify old)
      on_old none gone there = Raises-raise c missing (λ u. x.at_missing t (gone refl))
      on_old (some old) gone there = elim (Bool-cases (is_stale c z version old)) [
        | inl e ↦
            rw e (Raises-raise c version_conflict (λ u. x.at_version t old (there old refl) e))
        | inr e ↦ rw e (
            Raises-bind c _ _ (x.at_classify t old (there old refl))
              λ _. Raises-raise c internal (λ u. x.lenient.at_internal t))
      ]

      -- A parsed row is that of the table.
      read_there :
          (o : Option Item) (s : c.State) (object : BaseObject) (old : Option BaseObject)
          → o ≡ lookup key t
          → is_some old ≡ is_some o
          → (parse_item c z o s).0 ≡ ok (some object)
          → is_some old ≡ true
          → Reads key object t
      read_there o s object old same presence got there =
          let (row, at) = some_of o (sym presence ∙ there) in
          record {
            row = row;
            at_key = sym same ∙ at;
            state = s;
            reads = subst (λ (i : Option Item). (parse_item c z i s).0 ≡ ok (some object)) at got;
          }

      pub on_exc :
          (exc : ClientError)
          → (is_condition_failure exc ≡ true → exc.item ≡ lookup key t)
          → Raises c (λ e u. R e t) (on_update c z version classify (client_error exc))
      unfolding old_item_from_exc
      on_exc exc item =
          let l = fixed-IsLenient t x.lenient in
          Raises-bind c _ _ (Raises-raise_for_transaction_conflict c z l exc) λ _.
            elim (Bool-cases (is_condition_failure exc)) [
              | inl e ↦ rw e (
                  Raises-bind-known c _ _ (Raises-parse_item c z l exc.item) λ old s got.
                    on_old old
                      (λ h. none_of (lookup key t) (
                        ap is_some (sym (item e))
                        ∙ (sym (parsed_presence c z exc.item s old got) ∙ h)))
                      (λ object same.
                        read_there exc.item s object old (item e)
                          (parsed_presence c z exc.item s old got) (got ∙ ap ok same)
                          (ap is_some same)))
              | inr e ↦ rw e (Raises-raise c internal (λ u. x.lenient.at_internal t))
            ]

module _ (c : Client) (z : Gzip) {R : Error → Table → Type 0} (lenient : IsLenient R) where
  Raises-parsed_or_error : (o : Option BaseObject) → Raises c R (parsed_or_error c z o)
  Raises-parsed_or_error none = Raises-raise c python_error lenient.at_python_error
  Raises-parsed_or_error (some object) = Raises-pure c object

  Raises-parse_attributes : (item : Option Item) → Raises c R (parse_attributes c z item)
  Raises-parse_attributes item =
      Raises-bind c _ _ (Raises-parse_item c z lenient item) Raises-parsed_or_error

module _ (c : Client) (z : Gzip) (d : IsDynamo c) {R : Error → Table → Type 0} (args : UpdateArgs)
    {classify : BaseObject → Exec c.State (Unit {0})} where
  -- An exception of an update comes with a table that explains it.
  pub Raises-apply_update :
      (now : Text) (version : Option ℤ)
      → Explains c z R args.key version classify
      → ((P : Table → Type 0) (old : BaseObject) → Keeps c P (classify old))
      → Raises c R (apply_update c z (update_request now args) version classify)
  unfolding apply_update ◌>>=◌ write_item update_request is_condition_failure
  Raises-apply_update now version x quiet = record {
    because = λ s e h.
        let (r, s') = c.write_item (update_request now args) s in
        of_reply r (c.table s) s' (d.write_outcome (update_request now args) s)
          (d.write_reason (update_request now args) s) e h;
  }
    where
      of_reply :
          (r : Reply (Option Item)) (t : Table) (s' : c.State)
          → Outcome (update_request now args ∷ []) t r (c.table s')
          → ((exc : ClientError)
              → r ≡ client_error exc
              → is_condition_failure exc ≡ true
              → (conditions_hold t (update_request now args) ≡ false)
                × (exc.item ≡ old_row t (update_request now args)))
          → (e : Error) → (on_update c z version classify r s').0 ≡ err e
          → R e (c.table (on_update c z version classify r s').1)
      of_reply (replied item) t s' o reason e h =
          (Raises-parse_attributes c z x.lenient item).because s' e h
      of_reply botocore_error t s' o reason e h =
          (Raises-raise c {R = R} internal x.lenient.at_internal).because s' e h
      of_reply (client_error exc) t s' o reason e h =
          (Keeps-on_update c z d version classify (quiet (R e)) (client_error exc)).at s' (
            (on_exc c z x (c.table s') exc λ failed.
                (reason exc refl failed).1
                ∙ ap (lookup args.key) (sym (failed-refused _ t (c.table s') exc o failed))).because
              s' e h)
