-- ===== src/Space.antt =====
-- mixins/space.py: class SpaceMixin.
pub mod Steps
use pl8_base.Base.{Bool, true, false, Option, none, some, List, [], ◌∷◌, ◌++◌, if◌then◌else◌}
use pl8_base.Base.Int.{ℤ, pos}
use pl8_base.Base.Text.{Text, codes}
use pl8_base.Errors.{
  Error, bad_args, already_exists, missing, internal, space_not_empty, python_error, Result, ok,
  err, Exec, pure, raise, lift, ◌>>=◌, ◌>>◌,
}
use pl8_base.Dynamo.{
  Attr, Val, text, num, bytes, Item, Key, row_exists, row_not_exists, equals, add, Write, put,
  update, delete, Client, isotime, write_item, Reply, replied, client_error, botocore_error,
}
use pl8_base.Types.{
  Gzip, SpaceInfo, init_space, first_version, default_type_version, space_info_key,
}
use pl8_base.Types.Serialize.{serialize_space, serialized_pk}
use pl8_base.Util.{Value, str, validate_space_id, validate_creator}
use pl8_base.Manager.Parse.{BaseObject, space_info}
use pl8_base.Manager.Failure.{
  raise_for_transaction_conflict, is_condition_failure, old_item_from_exc, get_primary_item,
}
use pl8_base.Manager.Retry.{retried}
use pl8_base.Manager.Update.{UpdateArgs, plain_update, build_update, apply_update}

-- space_issue_count_update
unfoldable pub space_issue_count_update : Text → ℤ → Write
space_issue_count_update space_id delta = record {
  key = space_info_key space_id;
  action = update (add Attr.issue_count delta ∷ []);
  conditions = row_exists ∷ [];
  returns_old = false;
}

-- `SpaceInfo(space_id=…, name=…, description=…, creator=…)` at a reading of the clock.
unfoldable pub new_space : Text → Text → Text → Text → Text → SpaceInfo
new_space now space_id name description creator = init_space now (record {
  pk = none;
  sk = none;
  gsi1pk = none;
  gsi1sk = none;
  type_version = default_type_version;
  created_at = none;
  updated_at = none;
  version = first_version;
  space_id = space_id;
  name = name;
  description = description;
  creator = creator;
  issue_count = pos 0;
})

-- The put_item of create_space.
unfoldable pub put_space : Gzip → SpaceInfo → Write
put_space z x = record {
  key = serialized_pk x.pk x.sk;
  action = put (serialize_space z x);
  conditions = row_not_exists ∷ [];
  returns_old = false;
}

-- The delete_item of delete_space.
unfoldable pub delete_empty_space : Text → Write
delete_empty_space space_id = record {
  key = space_info_key space_id;
  action = delete;
  conditions = row_exists ∷ equals Attr.issue_count (num (pos 0)) ∷ [];
  returns_old = true;
}

module _ (c : Client) (z : Gzip) where
  abbrev pub on_create_space : SpaceInfo → Reply (Option Item) → Exec c.State SpaceInfo
  on_create_space x (replied _) = pure x
  on_create_space x (client_error exc) = do
    raise_for_transaction_conflict c z exc
    if is_condition_failure exc then raise already_exists else raise internal
  on_create_space x botocore_error = raise internal

  abbrev pub write_space : SpaceInfo → Exec c.State SpaceInfo
  write_space x = do reply ← write_item c (put_space z x); on_create_space x reply

  unfoldable pub create_space : Text → Text → Text → Text → Exec c.State SpaceInfo
  create_space space_id name description creator = retried c do
    lift (validate_space_id (str space_id))
    lift (validate_creator (str creator))
    now ← isotime c
    write_space (new_space now space_id name description creator)

  unfoldable pub get_space : Text → Exec c.State (Option BaseObject)
  get_space space_id = do
    lift (validate_space_id (str space_id))
    get_primary_item c z (space_info_key space_id)

  -- The attrs that update_space sets.
  abbrev pub space_attrs : Option Text → Option Text → List (Attr × Val)
  space_attrs name description =
      elim name [ none ↦ [] | some t ↦ (Attr.name, text t) ∷ [] ]
      ++ elim description [ none ↦ [] | some t ↦ (Attr.description, bytes (z.compress t)) ∷ [] ]

  abbrev pub update_space_attrs : Text → Option ℤ → List (Attr × Val) → Exec c.State BaseObject
  update_space_attrs space_id version [] = raise bad_args
  update_space_attrs space_id version (a ∷ attrs) = do
    request ←
        build_update c z
          (record (plain_update (space_info_key space_id)) { version = version; attrs = a ∷ attrs })
    apply_update c z request version (λ _. pure tt)

  unfoldable pub update_space :
      Text → Option Text → Option Text → Option ℤ → Exec c.State BaseObject
  update_space space_id name description version = retried c do
    lift (validate_space_id (str space_id))
    update_space_attrs space_id version (space_attrs name description)

  abbrev pub on_kept_space : Option BaseObject → Exec c.State (Unit {0})
  on_kept_space none = raise missing
  on_kept_space (some (space_info old)) = raise space_not_empty
  on_kept_space (some _) = raise python_error

  abbrev pub on_delete_space : Reply (Option Item) → Exec c.State (Unit {0})
  on_delete_space (replied _) = pure tt
  on_delete_space (client_error exc) = do
    raise_for_transaction_conflict c z exc
    if is_condition_failure exc
        then (do old ← old_item_from_exc c z exc; on_kept_space old)
        else raise internal
  on_delete_space botocore_error = raise internal

  abbrev pub remove_space : Text → Exec c.State (Unit {0})
  remove_space space_id = do
    reply ← write_item c (delete_empty_space space_id)
    on_delete_space reply

  unfoldable pub delete_space : Text → Exec c.State (Unit {0})
  delete_space space_id =
      retried c do lift (validate_space_id (str space_id)); remove_space space_id
