-- ===== src/Dynamo/Documented.antt =====
-- What the manager relies on of the services, as they document it: a write is applied whole or not
-- at all, never one that names a row twice, a cancelled write applies nothing, and a reported reason is true. A call that breaks off
-- may have been applied. Reads may be stale, so nothing is assumed of what they return.
use text.Mathlib.Text.{◌==◌ as str_eq}
use pl8_base.Base.{
  ◌≡◌, Bool, true, false, ◌||◌, Option, none, some, List, [], ◌∷◌, String, all, ℕ, if◌then◌else◌,
}
use pl8_base.Base.Text.{Text}
use pl8_base.Const.{condition_failed_code, condition_failed_reason, transact_conflict_code}
use pl8_base.Dynamo.Rows.{Item}
use pl8_base.Dynamo.PrimaryKey.{Key}
use pl8_base.Dynamo.Tables.{Table, lookup}
use pl8_base.Dynamo.Request.{Write, conditions_hold, is_accepted, apply_writes, new_row}
use pl8_base.Dynamo.Transaction.{is_distinct}
use pl8_base.Dynamo.Queries.{Query}
use pl8_base.Dynamo.Clients.{
  Client, ClientError, Reason, Reply, replied, client_error, botocore_error,
}

-- An error that says that nothing was written: a conflict, a failed condition, a cancellation.
abbrev pub is_definite : ClientError → Bool
is_definite e = elim e.reasons [
  | some (r ∷ rs) ↦ true
  | _ ↦ str_eq e.code transact_conflict_code || str_eq e.code condition_failed_code
]

-- What ReturnValuesOnConditionCheckFailure hands back.
abbrev pub old_row : Table → Write → Option Item
old_row t w = if w.returns_old then lookup w.key t else none

abbrev pub names_failure : Option String → Bool
names_failure none = false
names_failure (some code) = str_eq code condition_failed_reason

-- The reasons are aligned with the entries, and one that names a failed condition is true.
abbrev pub ReasonsFit : Table → List Write → List Reason → Type 0
ReasonsFit t ws [] = Unit
ReasonsFit t [] (r ∷ rs) = Unit
ReasonsFit t (w ∷ ws) (r ∷ rs) =
    (names_failure r.code ≡ true → (conditions_hold t w ≡ false) × (r.item ≡ old_row t w))
    × ReasonsFit t ws rs

abbrev pub reasons_of : ClientError → List Reason
reasons_of e = elim e.reasons [ none ↦ [] | some rs ↦ rs ]

-- What became of some writes: the reply, and the table before and after.
pub data Outcome {ℓ} {A : Type ℓ} (ws : List Write) (t : Table) (r : Reply A) (t' : Table)
    : Type ℓ where
  applied :
      (a : A)
      → r ≡ replied a
      → is_distinct ws ≡ true
      → all (is_accepted t) ws ≡ true
      → t' ≡ apply_writes ws t
      → Outcome ws t r t'
  refused :
      (e : ClientError)
      → r ≡ client_error e
      → t' ≡ t
      → ReasonsFit t ws (reasons_of e)
      → Outcome ws t r t'
  applied_unknown :
      (e : ClientError)
      → r ≡ client_error e
      → is_definite e ≡ false
      → is_distinct ws ≡ true
      → all (is_accepted t) ws ≡ true
      → t' ≡ apply_writes ws t
      → ReasonsFit t ws (reasons_of e)
      → Outcome ws t r t'
  lost : r ≡ botocore_error → t' ≡ t → Outcome ws t r t'
  applied_lost :
      r ≡ botocore_error
      → is_distinct ws ≡ true
      → all (is_accepted t) ws ≡ true
      → t' ≡ apply_writes ws t
      → Outcome ws t r t'

pub record IsDynamo (c : Client) : Type 0 where
  pub isotime_quiet : (s : c.State) → c.table (c.isotime s).1 ≡ c.table s
  pub choice_quiet : (alphabet : Text) (s : c.State) → c.table (c.choice alphabet s).1 ≡ c.table s
  pub uuid7_quiet : (s : c.State) → c.table (c.uuid7 s).1 ≡ c.table s
  pub sleep_quiet : (interval : ℕ) (s : c.State) → c.table (c.sleep interval s) ≡ c.table s
  pub time_quiet : (s : c.State) → c.table (c.time s).1 ≡ c.table s
  pub query_quiet : (q : Query) (s : c.State) → c.table (c.query q s).1 ≡ c.table s
  pub get_item_quiet : (key : Key) (s : c.State) → c.table (c.get_item key s).1 ≡ c.table s
  pub transact_outcome :
      (ws : List Write) (s : c.State)
      → Outcome ws
          (c.table s)
          (c.transact_write_items ws s).0
          (c.table (c.transact_write_items ws s).1)
  pub write_outcome :
      (w : Write) (s : c.State)
      → Outcome (w ∷ []) (c.table s) (c.write_item w s).0 (c.table (c.write_item w s).1)
  -- A single write that failed its condition.
  pub write_reason :
      (w : Write) (s : c.State) (e : ClientError)
      → (c.write_item w s).0 ≡ client_error e
      → str_eq e.code condition_failed_code ≡ true
      → (conditions_hold (c.table s) w ≡ false) × (e.item ≡ old_row (c.table s) w)
  -- The attributes that a write returns are those of the row as written.
  pub write_returns :
      (w : Write) (s : c.State) (o : Option Item)
      → (c.write_item w s).0 ≡ replied o
      → o ≡ new_row w.action (lookup w.key (c.table s))
