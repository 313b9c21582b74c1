-- ===== src/Issue/Steps.antt =====
-- What the operations on Issues keep of the table, from what their requests keep.
use pl8_base.Base.{◌≡◌, ℕ, ltb, zero, suc, false, Option, List, [], ◌∷◌}
use pl8_base.Base.Int.{ℤ}
use pl8_base.Base.Text.{Text, contains}
use pl8_base.Errors.{missing, internal, bad_args, Exec}
use pl8_base.Const.{min_issue_id_len, max_issue_id_len}
use pl8_base.Dynamo.{Attr, Val, Table, Client, Reply, replied, client_error, botocore_error}
use pl8_base.Dynamo.Documented.{IsDynamo}
use pl8_base.Types.{Gzip, IssueInfo, IssueStatus, issue_info_key}
use pl8_base.Util.{draw, gen_issue_id, default_id_alphabet}
use pl8_base.Manager.Parse.{BaseObject, issue_info}
use pl8_base.Manager.Update.{plain_update, update_request}
use pl8_base.Manager.Keeps.{
  Keeps, WritesKeep, Keeps-transact, Keeps-retried, Keeps-bind, Keeps-pure, Keeps-raise, Keeps-lift,
  Keeps-if, Keeps-choice, Keeps-isotime, keeps_rules,
}
use pl8_base.Manager.Reads.{
  Keeps-raise_for_transaction_conflict, Keeps-failed_reason_item, Keeps-apply_update,
}
use pl8_base.Manager.Validated.{Keeps-validated, Keeps-bind-build_update}
use pl8_base.Issue.Writes.{new_issue, transition_args, create_issue_items, delete_issue_items}
use pl8_base.Issue.Crud.{
  on_create_issue, create_issue_loop, create_issue, issue_attrs, update_issue_attrs, update_issue,
  classify_transition, transition_issue, on_delete_issue, delete_issue,
}

module _ (c : Client) (z : Gzip) (d : IsDynamo c) {P : Table → Type 0} where
  Keeps-draw : (alphabet : Text) (n : ℕ) → Keeps c P (draw c alphabet n)
  unfolding draw
  Keeps-draw alphabet zero = search keeps_rules
  Keeps-draw alphabet (suc n) =
      Keeps-bind c _ _ (Keeps-choice c d alphabet)
        λ char. Keeps-bind c _ _ (Keeps-draw alphabet n) (λ rest. Keeps-pure c _)

  Keeps-gen_issue_id : (n : ℕ) (alphabet : Text) → Keeps c P (gen_issue_id c n alphabet)
  unfolding gen_issue_id
  Keeps-gen_issue_id n alphabet =
      Keeps-if c (ltb n min_issue_id_len) _ _ (Keeps-raise c bad_args)
        (Keeps-if c (ltb max_issue_id_len n) _ _ (Keeps-raise c bad_args) (Keeps-draw alphabet n))

  Keeps-on_create_issue :
      (x : IssueInfo) (again : Exec c.State IssueInfo) (r : Reply (Unit {0}))
      → Keeps c P again
      → Keeps c P (on_create_issue c z x again r)
  Keeps-on_create_issue x again (replied _) k = search keeps_rules
  Keeps-on_create_issue x again (client_error exc) k =
      Keeps-bind c _ _ (Keeps-raise_for_transaction_conflict c z d exc) λ _.
        Keeps-bind c _ _ (Keeps-failed_reason_item c z d exc 0) λ space.
          Keeps-if c space.0 _ _ (Keeps-raise c missing) (
            Keeps-bind c _ _ (Keeps-failed_reason_item c z d exc 1)
              λ issue. Keeps-if c issue.0 _ _ k (Keeps-raise c internal))
  Keeps-on_create_issue x again botocore_error k = search keeps_rules

  module _ (space_id title description creator : Text) where
    Keeps-create_issue_loop :
        (status : IssueStatus) (n : ℕ)
        → ((now id : Text)
            → WritesKeep P (
                create_issue_items z space_id
                  (new_issue now space_id id title description status creator)))
        → Keeps c P (create_issue_loop c z space_id title description status creator n)
    unfolding create_issue_loop
    Keeps-create_issue_loop status zero step = search keeps_rules
    Keeps-create_issue_loop status (suc n) step =
        Keeps-bind c _ _ (Keeps-gen_issue_id 6 default_id_alphabet) λ id.
          Keeps-bind c _ _ (Keeps-isotime c d) λ now.
            Keeps-bind c _ _ (Keeps-transact c d _ (step now id))
              λ r. Keeps-on_create_issue _ _ r (Keeps-create_issue_loop status n step)

    pub Keeps-create_issue :
        (status : Text)
        → ((now id : Text) (s : IssueStatus)
            → contains b'#' space_id ≡ false
            → WritesKeep P (
                create_issue_items z space_id
                  (new_issue now space_id id title description s creator)))
        → Keeps c P (create_issue c z space_id title description status creator)
    unfolding create_issue
    Keeps-create_issue status step = Keeps-retried c d _ (
        Keeps-validated c space_id _ λ h. Keeps-bind c _ _ (Keeps-lift c _) λ _.
          Keeps-bind c _ _ (Keeps-lift c _)
            λ s. Keeps-create_issue_loop s _ (λ now id. step now id s h))

  pub Keeps-update_issue_attrs :
      (space_id issue_id : Text) (version : Option ℤ) (attrs : List (Attr × Val))
      → ((now : Text)
          → WritesKeep P (
              update_request now (record (plain_update (issue_info_key space_id issue_id)) {
                version = version;
                attrs = attrs;
              })
              ∷ []))
      → Keeps c P (update_issue_attrs c z space_id issue_id version attrs)
  Keeps-update_issue_attrs space_id issue_id version [] step = search keeps_rules
  Keeps-update_issue_attrs space_id issue_id version (a ∷ attrs) step =
      Keeps-bind-build_update c z d _ _
        λ now. Keeps-apply_update c z d version _ (λ _. search keeps_rules) _ (step now)

  pub Keeps-update_issue :
      (space_id issue_id : Text) (title description : Option Text) (version : Option ℤ)
      → ((now : Text)
          → contains b'#' space_id ≡ false
          → WritesKeep P (
              update_request now (record (plain_update (issue_info_key space_id issue_id)) {
                version = version;
                attrs = issue_attrs c z title description;
              })
              ∷ []))
      → Keeps c P (update_issue c z space_id issue_id title description version)
  unfolding update_issue
  Keeps-update_issue space_id issue_id title description version step = Keeps-retried c d _ (
      Keeps-validated c space_id _ λ h.
        Keeps-update_issue_attrs space_id issue_id version (issue_attrs c z title description)
          (λ now. step now h))

  pub Keeps-classify : (s : IssueStatus) (x : BaseObject) → Keeps c P (classify_transition c z s x)
  Keeps-classify s (issue_info old) = search keeps_rules
  Keeps-classify s _ = search keeps_rules

  pub Keeps-transition_issue :
      (space_id issue_id status : Text) (version : Option ℤ)
      → ((read_at now : Text) (s : IssueStatus)
          → contains b'#' space_id ≡ false
          → WritesKeep P
              (update_request now (transition_args read_at space_id issue_id s version) ∷ []))
      → Keeps c P (transition_issue c z space_id issue_id status version)
  unfolding transition_issue
  Keeps-transition_issue space_id issue_id status version step = Keeps-retried c d _ (
      Keeps-validated c space_id _ λ h. Keeps-bind c _ _ (Keeps-lift c _) λ s.
        Keeps-bind c _ _ (Keeps-isotime c d) λ read_at.
          Keeps-bind-build_update c z d _ _
            λ now. Keeps-apply_update c z d version _ (Keeps-classify s) _ (step read_at now s h))

  pub Keeps-on_delete_issue : (r : Reply (Unit {0})) → Keeps c P (on_delete_issue c z r)
  Keeps-on_delete_issue (replied _) = search keeps_rules
  Keeps-on_delete_issue (client_error exc) =
      search
        (keeps_rules, Keeps-raise_for_transaction_conflict c z d, Keeps-failed_reason_item c z d)
        depth 12
  Keeps-on_delete_issue botocore_error = search keeps_rules

  pub Keeps-delete_issue :
      (space_id issue_id : Text)
      → (contains b'#' space_id ≡ false → WritesKeep P (delete_issue_items space_id issue_id))
      → Keeps c P (delete_issue c z space_id issue_id)
  unfolding delete_issue
  Keeps-delete_issue space_id issue_id step = Keeps-retried c d _ (
      Keeps-validated c space_id _ λ h. search (
        keeps_rules,
        Keeps-transact c d (delete_issue_items space_id issue_id) (step h),
        Keeps-on_delete_issue,
      ))
