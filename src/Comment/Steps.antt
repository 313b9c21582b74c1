-- ===== src/Comment/Steps.antt =====
-- What the operations on IssueComments keep of the table, from what their requests keep.
use pl8_base.Base.{◌≡◌, false, Option, [], ◌∷◌}
use pl8_base.Base.Int.{ℤ}
use pl8_base.Base.Text.{Text, contains}
use pl8_base.Errors.{ok}
use pl8_base.Dynamo.{Attr, bytes, Table, Client, Reply, replied, client_error, botocore_error}
use pl8_base.Dynamo.Documented.{IsDynamo}
use pl8_base.Types.{Gzip, IssueComment, comment_key}
use pl8_base.Manager.Parse.{time_of}
use pl8_base.Manager.Update.{plain_update, update_request}
use pl8_base.Manager.Keeps.{
  Keeps, WritesKeep, Keeps-transact, Keeps-retried, Keeps-bind, Keeps-pure, Keeps-lift, Keeps-uuid7,
  keeps_rules,
}
use pl8_base.Manager.Reads.{
  Keeps-raise_for_transaction_conflict, Keeps-failed_reason_item, Keeps-apply_update,
}
use pl8_base.Manager.Validated.{Keeps-validated, Keeps-bind-lift, Keeps-bind-build_update}
use pl8_base.Comment.{
  new_comment, create_comment_items, delete_comment_items, on_create_comment, create_issue_comment,
  update_issue_comment, on_delete_comment, delete_issue_comment,
}

module _ (c : Client) (z : Gzip) (d : IsDynamo c) {P : Table → Type 0} where
  pub Keeps-on_create_comment :
      (x : IssueComment) (r : Reply (Unit {0})) → Keeps c P (on_create_comment c z x r)
  Keeps-on_create_comment x (replied _) = search keeps_rules
  Keeps-on_create_comment x (client_error exc) =
      search
        (keeps_rules, Keeps-raise_for_transaction_conflict c z d, Keeps-failed_reason_item c z d)
        depth 20
  Keeps-on_create_comment x botocore_error = search keeps_rules

  module _ (space_id issue_id : Text) where
    pub Keeps-create_issue_comment :
        (body creator : Text)
        → ((id : Text) (x : IssueComment)
            → contains b'#' space_id ≡ false
            → new_comment (time_of c z) id space_id issue_id body creator ≡ ok x
            → WritesKeep P (create_comment_items z space_id issue_id x))
        → Keeps c P (create_issue_comment c z space_id issue_id body creator)
    unfolding create_issue_comment
    Keeps-create_issue_comment body creator step = Keeps-retried c d _ (
        Keeps-validated c space_id _ λ h. Keeps-bind c _ _ (Keeps-lift c _) λ _.
          Keeps-bind c _ _ (Keeps-uuid7 c d) λ id. Keeps-bind-lift c _ _ λ x made.
            Keeps-bind c _ _ (Keeps-transact c d _ (step id x h made)) (Keeps-on_create_comment x))

    pub Keeps-update_issue_comment :
        (comment_id body : Text) (version : Option ℤ)
        → ((now : Text)
            → contains b'#' space_id ≡ false
            → WritesKeep P (
                update_request now
                  (record (plain_update (comment_key space_id issue_id comment_id)) {
                    version = version;
                    attrs = (Attr.body, bytes (z.compress body)) ∷ [];
                  })
                ∷ []))
        → Keeps c P (update_issue_comment c z space_id issue_id comment_id body version)
    unfolding update_issue_comment
    Keeps-update_issue_comment comment_id body version step = Keeps-validated c space_id _ λ h.
        Keeps-bind-build_update c z d _ _
          λ now. Keeps-apply_update c z d version _ (λ _. Keeps-pure c _) _ (step now h)

    pub Keeps-on_delete_comment : (r : Reply (Unit {0})) → Keeps c P (on_delete_comment c z r)
    Keeps-on_delete_comment (replied _) = search keeps_rules
    Keeps-on_delete_comment (client_error exc) =
        search
          (keeps_rules, Keeps-raise_for_transaction_conflict c z d, Keeps-failed_reason_item c z d)
          depth 20
    Keeps-on_delete_comment botocore_error = search keeps_rules

    pub Keeps-delete_issue_comment :
        (comment_id : Text)
        → (contains b'#' space_id ≡ false
            → WritesKeep P (delete_comment_items space_id issue_id comment_id))
        → Keeps c P (delete_issue_comment c z space_id issue_id comment_id)
    unfolding delete_issue_comment
    Keeps-delete_issue_comment comment_id step = Keeps-retried c d _ (
        Keeps-validated c space_id _
          λ h. Keeps-bind c _ _ (Keeps-transact c d _ (step h)) Keeps-on_delete_comment)
