-- ===== src/Manager/Failure.antt =====
-- How manager.py reads a failed call: conflicts, failed conditions, cancellation reasons.
use text.Mathlib.Text.{◌==◌ as str_eq}
use pl8_base.Base.{
  ℕ, Bool, true, false, Option, none, some, List, [], String, any, get_elem?, if◌then◌else◌,
}
use pl8_base.Errors.{transaction_conflict, missing, internal, Exec, pure, raise, ◌>>=◌}
use pl8_base.Const.{
  transact_conflict_reason, transact_conflict_code, condition_failed_reason, condition_failed_code,
}
use pl8_base.Dynamo.{
  Item, Key, Client, Reason, ClientError, Reply, replied, client_error, botocore_error, get_item,
}
use pl8_base.Types.{Gzip}
use pl8_base.Manager.Parse.{BaseObject, parse_item}

-- `reason.get("Code") == code`
abbrev pub code_is : String → Option String → Bool
code_is code none = false
code_is code (some c) = str_eq c code

unfoldable pub cancellation_reasons : ClientError → List Reason
cancellation_reasons exc = elim exc.reasons [ none ↦ [] | some rs ↦ rs ]

-- What raise_for_transaction_conflict tests.
unfoldable pub is_transaction_conflict : ClientError → Bool
unfolding cancellation_reasons
is_transaction_conflict exc = elim (str_eq exc.code transact_conflict_code) [
  | true ↦ true
  | false ↦ any (λ r. code_is transact_conflict_reason r.code) (cancellation_reasons exc)
]

unfoldable pub is_condition_failure : ClientError → Bool
is_condition_failure exc = str_eq exc.code condition_failed_code

-- Whether the entry at an index failed its condition.
unfoldable pub is_failed_entry : ClientError → ℕ → Bool
unfolding cancellation_reasons
is_failed_entry exc index = elim (get_elem? (cancellation_reasons exc) index) [
  | none ↦ false
  | some r ↦ code_is condition_failed_reason r.code
]

-- The item that the reason at an index carries.
abbrev pub reason_item : ClientError → ℕ → Option Item
reason_item exc index = elim (get_elem? (cancellation_reasons exc) index) [
  | none ↦ none
  | some r ↦ r.item
]

module _ (c : Client) (z : Gzip) where
  unfoldable pub raise_for_transaction_conflict : ClientError → Exec c.State (Unit {0})
  raise_for_transaction_conflict exc =
      if is_transaction_conflict exc then raise transaction_conflict else pure tt

  unfoldable pub failed_reason_item : ClientError → ℕ → Exec c.State (Bool × Option BaseObject)
  failed_reason_item exc index =
      if is_failed_entry exc index
      then (do old ← parse_item c z (reason_item exc index); pure (true, old))
      else pure (false, none)

  unfoldable pub old_item_from_exc : ClientError → Exec c.State (Option BaseObject)
  old_item_from_exc exc = parse_item c z exc.item

  abbrev pub on_get_item : Reply (Option Item) → Exec c.State (Option BaseObject)
  on_get_item (replied none) = raise missing
  on_get_item (replied (some item)) = parse_item c z (some item)
  on_get_item (client_error _) = raise internal
  on_get_item botocore_error = raise internal

  unfoldable pub get_primary_item : Key → Exec c.State (Option BaseObject)
  get_primary_item key = do reply ← get_item c key; on_get_item reply
