-- ===== src/Manager/Update.antt =====
-- _build_update and apply_update (manager.py). The expression texts and their placeholder
-- dictionaries are represented by the clauses that they spell.
use pl8_base.Base.{
  Bool, true, false, not, Option, none, some, List, [], ◌∷◌, ◌++◌, map, if◌then◌else◌,
}
use pl8_base.Base.Int.{ℤ, pos, eqb_ℤ}
use pl8_base.Base.Text.{Text}
use pl8_base.Errors.{
  internal, missing, version_conflict, python_error, Exec, pure, raise, ◌>>=◌, ◌>>◌,
}
use pl8_base.Dynamo.{
  Attr, Val, text, num, Item, Key, attr_eq, Condition, row_exists, equals, differs, Clause, set,
  increment, remove, Write, update, Client, Reply, replied, client_error, botocore_error, isotime,
  write_item,
}
use pl8_base.Types.{Gzip}
use pl8_base.Manager.Parse.{BaseObject, object_version, parse_item}
use pl8_base.Manager.Failure.{
  raise_for_transaction_conflict, is_condition_failure, old_item_from_exc,
}

-- The keyword arguments of _build_update, each with its default in `plain_update`.
pub record UpdateArgs : Type 0 where
  pub key : Key
  pub version : Option ℤ
  pub expected_vals : List (Attr × Val)
  pub excluded_vals : List (Attr × Val)
  pub increments : List (Attr × ℤ)
  pub remove_attrs : List Attr
  pub attrs : List (Attr × Val)

abbrev pub plain_update : Key → UpdateArgs
plain_update key = record {
  key = key;
  version = none;
  expected_vals = [];
  excluded_vals = [];
  increments = [];
  remove_attrs = [];
  attrs = [];
}

-- One entry of a dict display: a key that is there keeps its place and takes the new value.
abbrev put_attr : Attr → Val → List (Attr × Val) → List (Attr × Val)
put_attr a v [] = (a, v) ∷ []
put_attr a v ((b, w) ∷ d) = if attr_eq a b then (a, v) ∷ d else (b, w) ∷ put_attr a v d

-- `{**d, **attrs}`
abbrev pub merge_attrs : List (Attr × Val) → List (Attr × Val) → List (Attr × Val)
merge_attrs d [] = d
merge_attrs d ((a, v) ∷ attrs) = merge_attrs (put_attr a v d) attrs

abbrev pub version_condition : Option ℤ → List Condition
version_condition none = []
version_condition (some v) = equals Attr.version (num v) ∷ []

abbrev set_clause : Attr × Val → Clause
set_clause (a, v) = set a v

abbrev increment_clause : Attr × ℤ → Clause
increment_clause (a, d) = increment a d

abbrev pub equals_condition : Attr × Val → Condition
equals_condition (a, v) = equals a v

abbrev pub differs_condition : Attr × Val → Condition
differs_condition (a, v) = differs a v

-- The clauses of its UpdateExpression.
abbrev pub update_clauses : Text → UpdateArgs → List Clause
update_clauses now args =
    increment Attr.version (pos 1)
    ∷ (map set_clause (merge_attrs ((Attr.updated_at, text now) ∷ []) args.attrs)
        ++ (map increment_clause args.increments ++ map remove args.remove_attrs))

-- The clauses of its ConditionExpression.
abbrev pub update_conditions : UpdateArgs → List Condition
update_conditions args =
    row_exists
    ∷ (version_condition args.version
        ++ (map equals_condition args.expected_vals ++ map differs_condition args.excluded_vals))

-- The request that _build_update returns, at what isotime() read.
unfoldable pub update_request : Text → UpdateArgs → Write
update_request now args = record {
  key = args.key;
  action = update (update_clauses now args);
  conditions = update_conditions args;
  returns_old = true;
}

module _ (c : Client) (z : Gzip) where
  unfoldable pub build_update : UpdateArgs → Exec c.State Write
  unfolding update_request
  build_update args = do now ← isotime c; pure (update_request now args)

  -- `version is not None and old.version != version`
  abbrev pub is_stale : Option ℤ → BaseObject → Bool
  is_stale none old = false
  is_stale (some v) old = not (eqb_ℤ (object_version old) v)

  abbrev pub on_failed_condition :
      Option ℤ
      → (BaseObject → Exec c.State (Unit {0}))
      → Option BaseObject
      → Exec c.State BaseObject
  on_failed_condition version classify none = raise missing
  on_failed_condition version classify (some old) =
      if is_stale version old then raise version_conflict else (do classify old; raise internal)

  abbrev pub parsed_or_error : Option BaseObject → Exec c.State BaseObject
  parsed_or_error none = raise python_error
  parsed_or_error (some x) = pure x

  -- `return self.parse_item(resp["Attributes"])`
  abbrev pub parse_attributes : Option Item → Exec c.State BaseObject
  parse_attributes item = do parsed ← parse_item c z item; parsed_or_error parsed

  abbrev pub on_update :
      Option ℤ
      → (BaseObject → Exec c.State (Unit {0}))
      → Reply (Option Item)
      → Exec c.State BaseObject
  on_update version classify (replied item) = parse_attributes item
  on_update version classify (client_error exc) = do
    raise_for_transaction_conflict c z exc
    if is_condition_failure exc
        then (do old ← old_item_from_exc c z exc; on_failed_condition version classify old)
        else raise internal
  on_update version classify botocore_error = raise internal

  unfoldable pub apply_update :
      Write → Option ℤ → (BaseObject → Exec c.State (Unit {0})) → Exec c.State BaseObject
  apply_update request version classify = do
    reply ← write_item c request
    on_update version classify reply
