-- ===== src/Dynamo/Request.antt =====
-- The writes that the manager sends, as clauses, and what DynamoDB documents that they do.
use pl8_base.Base.{Bool, true, false, not, ◌&&◌, Option, none, some, List, [], ◌∷◌, all, is_some}
use pl8_base.Base.Int.{ℤ, ◌+ℤ◌}
use pl8_base.Dynamo.Rows.{Attr, Val, num, Item, val_eq, set_attr, number_or_zero, is_number}
use pl8_base.Dynamo.PrimaryKey.{Key}
use pl8_base.Dynamo.Tables.{Table, lookup, write_row}

-- The clauses of a ConditionExpression, which are joined by AND. Every row has a PK, so
-- `attribute_exists(#PK)` says that the row is there.
pub data Condition : Type 0 where
  row_exists row_not_exists : Condition
  equals differs : Attr → Val → Condition

-- The clauses of an UpdateExpression: `SET #a = :v`, `SET #a = #a + :d`, `ADD #a :d`, `REMOVE #a`.
pub data Clause : Type 0 where
  set : Attr → Val → Clause
  increment add : Attr → ℤ → Clause
  remove : Attr → Clause

pub data Action : Type 0 where
  condition_check delete : Action
  put : Item → Action
  update : List Clause → Action

-- A TransactItems entry, or the request of a single write.
pub record Write : Type 0 where
  pub key : Key
  pub action : Action
  pub conditions : List Condition
  -- ReturnValuesOnConditionCheckFailure is ALL_OLD.
  pub returns_old : Bool

-- `#a <> :v` holds of an attribute that is absent.
abbrev pub attr_is : Option Val → Val → Bool
attr_is none v = false
attr_is (some w) v = val_eq w v

abbrev pub holds : Option Item → Condition → Bool
holds o row_exists = is_some o
holds o row_not_exists = not (is_some o)
holds none (equals a v) = false
holds (some item) (equals a v) = attr_is (item a) v
holds none (differs a v) = true
holds (some item) (differs a v) = not (attr_is (item a) v)

abbrev pub run_clause : Clause → Item → Item
run_clause (set a v) item = set_attr a (some v) item
run_clause (increment a d) item = set_attr a (some (num (number_or_zero (item a) +ℤ d))) item
run_clause (add a d) item = set_attr a (some (num (number_or_zero (item a) +ℤ d))) item
run_clause (remove a) item = set_attr a none item

abbrev pub run_clauses : List Clause → Item → Item
run_clauses [] item = item
run_clauses (c ∷ cs) item = run_clauses cs (run_clause c item)

-- An update of a missing row begins with an empty one.
abbrev pub row_or_empty : Option Item → Item
row_or_empty none = λ _. none
row_or_empty (some item) = item

-- `#a + :d` is refused where `#a` is no number; `ADD` takes an absent attribute for 0.
abbrev pub clause_fits : Item → Clause → Bool
clause_fits item (increment a d) = is_number (item a)
clause_fits item (add a d) = elim (item a) [ none ↦ true | some v ↦ is_number (some v) ]
clause_fits item _ = true

abbrev pub action_fits : Action → Option Item → Bool
action_fits (update cs) o = all (clause_fits (row_or_empty o)) cs
action_fits _ o = true

-- The row that an applied write leaves.
abbrev pub new_row : Action → Option Item → Option Item
new_row condition_check o = o
new_row delete o = none
new_row (put item) o = some item
new_row (update cs) o = some (run_clauses cs (row_or_empty o))

-- All conditions of one write, on the table before the transaction.
abbrev pub conditions_hold : Table → Write → Bool
conditions_hold t w = all (holds (lookup w.key t)) w.conditions

abbrev pub is_accepted : Table → Write → Bool
is_accepted t w = conditions_hold t w && action_fits w.action (lookup w.key t)

abbrev pub apply_write : Write → Table → Table
apply_write w t = write_row w.key (new_row w.action (lookup w.key t)) t

-- The entries of a transaction name distinct rows, so their order does not matter.
abbrev pub apply_writes : List Write → Table → Table
apply_writes [] t = t
apply_writes (w ∷ ws) t = apply_writes ws (apply_write w t)
