-- ===== src/Space/Steps.antt =====
-- What the Space operations keep of the table, from what their requests keep.
use pl8_base.Base.{◌≡◌, false, Option, none, some, List, [], ◌∷◌}
use pl8_base.Base.Int.{ℤ}
use pl8_base.Base.Text.{Text, contains}
use pl8_base.Dynamo.{Attr, Val, Item, Table, Client, Reply, replied, client_error, botocore_error}
use pl8_base.Dynamo.Documented.{IsDynamo}
use pl8_base.Types.{Gzip, SpaceInfo, space_info_key}
use pl8_base.Manager.Parse.{BaseObject, space_info}
use pl8_base.Manager.Update.{plain_update, update_request}
use pl8_base.Manager.Keeps.{Keeps, WritesKeep, Keeps-write_item, Keeps-retried, keeps_rules}
use pl8_base.Manager.Reads.{
  Keeps-raise_for_transaction_conflict, Keeps-old_item_from_exc, Keeps-apply_update,
}
use pl8_base.Manager.Validated.{Keeps-validated, Keeps-bind-build_update}
use pl8_base.Space.{
  put_space, new_space, delete_empty_space, create_space, update_space, delete_space,
  on_create_space, on_kept_space, on_delete_space, space_attrs, update_space_attrs,
}

module _ (c : Client) (z : Gzip) (d : IsDynamo c) {P : Table → Type 0} where
  Keeps-on_create_space :
      (x : SpaceInfo) (r : Reply (Option Item)) → Keeps c P (on_create_space c z x r)
  Keeps-on_create_space x (replied _) = search keeps_rules
  Keeps-on_create_space x (client_error exc) =
      search (keeps_rules, Keeps-raise_for_transaction_conflict c z d)
  Keeps-on_create_space x botocore_error = search keeps_rules

  pub Keeps-create_space :
      (space_id name description creator : Text)
      → ((now : Text)
          → contains b'#' space_id ≡ false
          → WritesKeep P (put_space z (new_space now space_id name description creator) ∷ []))
      → Keeps c P (create_space c z space_id name description creator)
  unfolding create_space
  Keeps-create_space space_id name description creator step = Keeps-retried c d _ (
      Keeps-validated c space_id _ λ h. search (
        keeps_rules,
        d,
        λ (now : Text).
            Keeps-write_item c d (put_space z (new_space now space_id name description creator))
              (step now h),
        Keeps-on_create_space,
      ))

  pub Keeps-update_space_attrs :
      (space_id : Text) (version : Option ℤ) (attrs : List (Attr × Val))
      → ((now : Text)
          → WritesKeep P (
              update_request now (record (plain_update (space_info_key space_id)) {
                version = version;
                attrs = attrs;
              })
              ∷ []))
      → Keeps c P (update_space_attrs c z space_id version attrs)
  Keeps-update_space_attrs space_id version [] step = search keeps_rules
  Keeps-update_space_attrs space_id version (a ∷ attrs) step =
      Keeps-bind-build_update c z d _ _
        λ now. Keeps-apply_update c z d version _ (λ _. search keeps_rules) _ (step now)

  pub Keeps-update_space :
      (space_id : Text) (name description : Option Text) (version : Option ℤ)
      → ((now : Text)
          → contains b'#' space_id ≡ false
          → WritesKeep P (
              update_request now (record (plain_update (space_info_key space_id)) {
                version = version;
                attrs = space_attrs c z name description;
              })
              ∷ []))
      → Keeps c P (update_space c z space_id name description version)
  unfolding update_space
  Keeps-update_space space_id name description version step = Keeps-retried c d _ (
      Keeps-validated c space_id _ λ h.
        Keeps-update_space_attrs space_id version (space_attrs c z name description)
          (λ now. step now h))

  Keeps-on_kept_space : (old : Option BaseObject) → Keeps c P (on_kept_space c z old)
  Keeps-on_kept_space none = search keeps_rules
  Keeps-on_kept_space (some (space_info old)) = search keeps_rules
  Keeps-on_kept_space (some _) = search keeps_rules

  Keeps-on_delete_space : (r : Reply (Option Item)) → Keeps c P (on_delete_space c z r)
  Keeps-on_delete_space (replied _) = search keeps_rules
  Keeps-on_delete_space (client_error exc) = search (
    keeps_rules,
    Keeps-raise_for_transaction_conflict c z d,
    Keeps-old_item_from_exc c z d,
    Keeps-on_kept_space,
  )
  Keeps-on_delete_space botocore_error = search keeps_rules

  pub Keeps-delete_space :
      (space_id : Text)
      → (contains b'#' space_id ≡ false → WritesKeep P (delete_empty_space space_id ∷ []))
      → Keeps c P (delete_space c z space_id)
  unfolding delete_space
  Keeps-delete_space space_id step = Keeps-retried c d _ (
      Keeps-validated c space_id _ λ h. search (
        keeps_rules,
        Keeps-write_item c d (delete_empty_space space_id) (step h),
        Keeps-on_delete_space,
      ))
