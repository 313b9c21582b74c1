-- ===== src/Manager/Reads.antt =====
-- What parses replies or reads rows writes nothing.
use pl8_base.Base.{ℕ, ◌∷◌, [], Bool, true, false, Option, none, some}
use pl8_base.Base.Int.{ℤ}
use pl8_base.Errors.{Exec}
use pl8_base.Dynamo.{
  Val, text, Item, Key, Table, Write, Client, ClientError, Reply, replied, client_error,
  botocore_error,
}
use pl8_base.Dynamo.Documented.{IsDynamo}
use pl8_base.Types.{Gzip}
use pl8_base.Manager.Parse.{BaseObject, parse_item, parse_kind, isotime_if, uuid7_if, built}
use pl8_base.Manager.Failure.{
  raise_for_transaction_conflict, failed_reason_item, old_item_from_exc, on_get_item,
  get_primary_item,
}
use pl8_base.Manager.Update.{
  UpdateArgs, build_update, on_failed_condition, parsed_or_error, parse_attributes, on_update,
  apply_update,
}
use pl8_base.Manager.Keeps.{Keeps, WritesKeep, Keeps-write_item, keeps_rules}

module _ (c : Client) (z : Gzip) (d : IsDynamo c) {P : Table → Type 0} where
  Keeps-isotime_if : (b : Bool) → Keeps c P (isotime_if c z b)
  Keeps-isotime_if true = search (keeps_rules, d)
  Keeps-isotime_if false = search keeps_rules

  Keeps-uuid7_if : (b : Bool) → Keeps c P (uuid7_if c z b)
  Keeps-uuid7_if true = search (keeps_rules, d)
  Keeps-uuid7_if false = search keeps_rules

  Keeps-built : {A : Type 0} (o : Option A) → Keeps c P (built o)
  Keeps-built none = search keeps_rules
  Keeps-built (some x) = search keeps_rules

  ruleset parse_rules = (keeps_rules, Keeps-isotime_if, Keeps-uuid7_if, Keeps-built)

  Keeps-parse_kind : (v : Option Val) (item : Item) → Keeps c P (parse_kind c z v item)
  Keeps-parse_kind none item = search keeps_rules
  Keeps-parse_kind (some (text kind)) item = search parse_rules depth 12
  Keeps-parse_kind (some _) item = search keeps_rules

  pub Keeps-parse_item : (o : Option Item) → Keeps c P (parse_item c z o)
  unfolding parse_item
  Keeps-parse_item none = search keeps_rules
  Keeps-parse_item (some item) = search (keeps_rules, Keeps-parse_kind)

  pub Keeps-raise_for_transaction_conflict :
      (exc : ClientError) → Keeps c P (raise_for_transaction_conflict c z exc)
  unfolding raise_for_transaction_conflict
  Keeps-raise_for_transaction_conflict exc = search keeps_rules

  pub Keeps-failed_reason_item :
      (exc : ClientError) (index : ℕ) → Keeps c P (failed_reason_item c z exc index)
  unfolding failed_reason_item
  Keeps-failed_reason_item exc index = search (keeps_rules, Keeps-parse_item)

  pub Keeps-old_item_from_exc : (exc : ClientError) → Keeps c P (old_item_from_exc c z exc)
  unfolding old_item_from_exc
  Keeps-old_item_from_exc exc = Keeps-parse_item exc.item

  Keeps-on_get_item : (r : Reply (Option Item)) → Keeps c P (on_get_item c z r)
  Keeps-on_get_item (replied none) = search keeps_rules
  Keeps-on_get_item (replied (some item)) = Keeps-parse_item (some item)
  Keeps-on_get_item (client_error exc) = search keeps_rules
  Keeps-on_get_item botocore_error = search keeps_rules

  pub Keeps-get_primary_item : (key : Key) → Keeps c P (get_primary_item c z key)
  unfolding get_primary_item
  Keeps-get_primary_item key = search (keeps_rules, d, Keeps-on_get_item)

  pub Keeps-build_update : (args : UpdateArgs) → Keeps c P (build_update c z args)
  unfolding build_update
  Keeps-build_update args = search (keeps_rules, d)

  Keeps-parsed : (o : Option BaseObject) → Keeps c P (parsed_or_error c z o)
  Keeps-parsed none = search keeps_rules
  Keeps-parsed (some x) = search keeps_rules

  Keeps-parse_attributes : (o : Option Item) → Keeps c P (parse_attributes c z o)
  Keeps-parse_attributes o = search (keeps_rules, Keeps-parse_item, Keeps-parsed)

  pub ruleset read_rules = (
    Keeps-raise_for_transaction_conflict, Keeps-failed_reason_item, Keeps-old_item_from_exc,
    Keeps-get_primary_item, Keeps-build_update,
  )

  module _ (version : Option ℤ) (classify : BaseObject → Exec c.State (Unit {0}))
      (quiet : (x : BaseObject) → Keeps c P (classify x)) where
    Keeps-on_failed_condition :
        (old : Option BaseObject) → Keeps c P (on_failed_condition c z version classify old)
    Keeps-on_failed_condition none = search keeps_rules
    Keeps-on_failed_condition (some old) = search (keeps_rules, quiet)

    pub Keeps-on_update : (r : Reply (Option Item)) → Keeps c P (on_update c z version classify r)
    Keeps-on_update (replied item) = Keeps-parse_attributes item
    Keeps-on_update (client_error exc) = search (
      keeps_rules, Keeps-raise_for_transaction_conflict, Keeps-old_item_from_exc,
      Keeps-on_failed_condition,
    )
    Keeps-on_update botocore_error = search keeps_rules

    -- An update keeps what its request keeps.
    pub Keeps-apply_update :
        (request : Write)
        → WritesKeep P (request ∷ [])
        → Keeps c P (apply_update c z request version classify)
    unfolding apply_update
    Keeps-apply_update request step =
        search (keeps_rules, Keeps-write_item c d request step, Keeps-on_update)
