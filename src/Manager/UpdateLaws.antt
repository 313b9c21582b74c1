-- ===== src/Manager/UpdateLaws.antt =====
-- What an update that _build_update makes does to the version of a row.
use pl8_base.Base.{
  ◌≡◌, refl, ◌∙◌, ap, Bool, true, false, Option, none, some, List, [], ◌∷◌, arith, is_some, all,
  map, ◌++◌,
}
use pl8_base.Base.Int.{ℤ, pos, ◌+ℤ◌, eqb_ℤ, eqb_ℤ_iff}
use pl8_base.Base.Text.{Text}
use pl8_base.Dynamo.{
  Attr, Val, num, attr_is, Item, stored, number_or_zero, Table, lookup, is_accepted, holds, equals,
  run_clause, update, new_row, increment, Clause, Condition, val_eq_iff, row_or_empty,
}
use pl8_base.Manager.Update.{
  UpdateArgs, update_request, update_clauses, version_condition, equals_condition,
  differs_condition,
}
use pl8_base.Counts.Neutral.{touches, run_clauses-untouched}

val_at_version : (o : Option Val) (v : ℤ) → attr_is o (num v) ≡ true → number_or_zero o ≡ v
val_at_version none v h = ground arith
val_at_version (some w) v h = ap number_or_zero (ap some ((val_eq_iff w (num v)).0 h))

expected_version :
    (o : Option Item) (v : ℤ)
    → holds o (equals Attr.version (num v)) ≡ true
    → stored Attr.version o ≡ v
expected_version none v h = ground arith
expected_version (some item) v h = val_at_version (item Attr.version) v h

-- Whether a row's version is what the caller expects, if the caller expects one.
abbrev pub is_expected : Option ℤ → ℤ → Bool
is_expected none stored_version = true
is_expected (some v) stored_version = eqb_ℤ stored_version v

is_expected-held :
    (version : Option ℤ) (o : Option Item) (cs : List Condition)
    → all (holds o) (version_condition version ++ cs) ≡ true
    → is_expected version (stored Attr.version o) ≡ true
is_expected-held none o cs h = refl
is_expected-held (some v) o cs h =
    let e : stored Attr.version o ≡ v = expected_version o v (ground arith) in
    (eqb_ℤ_iff (stored Attr.version o) v).1 e

-- The clauses behind the first, which counts the version up.
abbrev pub other_clauses : Text → UpdateArgs → List Clause
other_clauses now args = elim (update_clauses now args) [ [] ↦ [] | _ ∷ cs ↦ cs ]

-- An update that is accepted found its row, at the version that it expects if it expects one, and
-- it leaves the version one higher. Its attributes are not to name the version.
pub update_request-version :
    (now : Text) (args : UpdateArgs) (t : Table)
    → touches Attr.version (other_clauses now args) ≡ false
    → is_accepted t (update_request now args) ≡ true
    → (is_some (lookup args.key t) ≡ true)
      × (is_expected args.version (stored Attr.version (lookup args.key t)) ≡ true)
      × (stored Attr.version (new_row (update (update_clauses now args)) (lookup args.key t))
          ≡ stored Attr.version (lookup args.key t) +ℤ pos 1)
unfolding update_request
update_request-version now args t alone accepted = (
  ground arith,
  is_expected-held args.version (lookup args.key t)
      (map equals_condition args.expected_vals ++ map differs_condition args.excluded_vals)
      (ground arith),
  ap number_or_zero (
        run_clauses-untouched Attr.version (other_clauses now args)
          (run_clause (increment Attr.version (pos 1)) (row_or_empty (lookup args.key t))) alone)
      ∙ same_version (lookup args.key t),
)
  where
    same_version :
        (o : Option Item)
        → number_or_zero (row_or_empty o Attr.version) +ℤ pos 1 ≡ stored Attr.version o +ℤ pos 1
    same_version none = refl
    same_version (some item) = refl
