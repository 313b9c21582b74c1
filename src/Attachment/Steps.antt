-- ===== src/Attachment/Steps.antt =====
-- What the attachment operations keep of the table, from what their requests keep.
use pl8_base.Base.{ℕ, ◌≡◌, false, Option, none, some}
use pl8_base.Base.Int.{ℤ}
use pl8_base.Base.Text.{Text, contains}
use pl8_base.Errors.{ok, internal, attachment_status, python_error, raise, ◌>>=◌}
use pl8_base.Dynamo.{Table, Client, ClientError, Reply, replied, client_error, botocore_error}
use pl8_base.Dynamo.Documented.{IsDynamo}
use pl8_base.Types.{Gzip, IssueAttachment, is_uploaded}
use pl8_base.Storage.{Storage, Post}
use pl8_base.Manager.Parse.{
  BaseObject, space_info, issue_info, issue_comment, issue_attachment, issue_blocker, time_of,
}
use pl8_base.Manager.Update.{update_request}
use pl8_base.Manager.Keeps.{
  Keeps, WritesKeep, Keeps-transact, Keeps-retried, Keeps-bind, Keeps-if, Keeps-pure, Keeps-raise,
  Keeps-lift, Keeps-uuid7, Keeps-time, Keeps-isotime, keeps_rules,
}
use pl8_base.Manager.Reads.{
  Keeps-raise_for_transaction_conflict, Keeps-failed_reason_item, Keeps-get_primary_item,
}
use pl8_base.Manager.Validated.{Keeps-validated, Keeps-bind-lift, Keeps-bind-build_update}
use pl8_base.Attachment.{
  require_storage, new_attachment, upload_items, confirm_args, confirm_items, on_put_refused,
  on_link_refused, on_upload, initiate_issue_attachment_upload, on_confirm, confirm_item,
  confirm_issue_attachment_uploaded, resign, resign_issue_attachment_upload, with_url,
  get_issue_attachment,
}
use pl8_base.Attachment.StorageSteps.{
  Quiet, Keeps-with_storage, Keeps-presigned_attachment_post, Keeps-presigned_attachment_url,
  Keeps-head_attachment_object,
}

module _ (c : Client) (z : Gzip) (d : IsDynamo c) (storage : Option (Storage c.State))
    (quiet : Quiet c storage) {P : Table → Type 0} where
  Keeps-on_put_refused :
      (link : Option Text) (exc : ClientError) → Keeps c P (on_put_refused c z storage link exc)
  Keeps-on_put_refused link exc = search (keeps_rules, Keeps-failed_reason_item c z d) depth 12

  Keeps-on_link_refused :
      (link : Option Text) (exc : ClientError) → Keeps c P (on_link_refused c z storage link exc)
  Keeps-on_link_refused none exc = Keeps-on_put_refused none exc
  Keeps-on_link_refused (some id) exc =
      search (keeps_rules, Keeps-failed_reason_item c z d, Keeps-on_put_refused) depth 12

  Keeps-on_upload :
      (link : Option Text) (x : IssueAttachment) (post : Post) (r : Reply (Unit {0}))
      → Keeps c P (on_upload c z storage link x post r)
  Keeps-on_upload link x post (replied _) = Keeps-pure c _
  Keeps-on_upload link x post (client_error exc) =
      search
        (
          keeps_rules,
          Keeps-raise_for_transaction_conflict c z d,
          Keeps-failed_reason_item c z d,
          Keeps-on_link_refused,
        )
        depth 20
  Keeps-on_upload link x post botocore_error = Keeps-raise c internal

  pub Keeps-initiate_issue_attachment_upload :
      (sp id name content_type : Text) (size : ℤ) (creator : Text) (link : Option Text)
      → ((uuid : Text) (seconds : ℕ) (x : IssueAttachment)
          → contains b'#' sp ≡ false
          → new_attachment (time_of c z) uuid seconds sp id name content_type size creator link
            ≡ ok x
          → WritesKeep P (upload_items sp id link x))
      → Keeps c P
          (initiate_issue_attachment_upload c z storage sp id name content_type size creator link)
  unfolding initiate_issue_attachment_upload
  Keeps-initiate_issue_attachment_upload sp id name content_type size creator link step =
      Keeps-retried c d _ (
        Keeps-validated c sp _ λ h. Keeps-bind c _ _ (Keeps-lift c _) λ _.
          Keeps-bind c _ _ (Keeps-lift c _) λ _. Keeps-bind c _ _ (Keeps-lift c _) λ _.
            Keeps-bind c _ _ (Keeps-lift c _) λ _. Keeps-bind c _ _ (Keeps-lift c _) λ _.
              Keeps-with_storage c storage quiet _ λ st q.
                Keeps-bind c _ _ (Keeps-time c d) λ seconds.
                  Keeps-bind c _ _ (Keeps-uuid7 c d) λ uuid. Keeps-bind-lift c _ _ λ x made.
                    Keeps-bind c _ _ (Keeps-presigned_attachment_post c storage quiet x) λ post.
                      Keeps-bind c _ _ (Keeps-transact c d _ (step uuid seconds x h made))
                        (Keeps-on_upload link x post))

  Keeps-resign : (o : Option BaseObject) → Keeps c P (resign c z storage o)
  Keeps-resign (some (issue_attachment x)) =
      Keeps-if c (is_uploaded x.status) _ _ (Keeps-raise c attachment_status)
        (Keeps-bind c _ _ (Keeps-presigned_attachment_post c storage quiet x) λ _. Keeps-pure c _)
  Keeps-resign (some (issue_info x)) = Keeps-raise c attachment_status
  Keeps-resign (some (space_info x)) = Keeps-raise c python_error
  Keeps-resign (some (issue_comment x)) = Keeps-raise c python_error
  Keeps-resign (some (issue_blocker x)) = Keeps-raise c python_error
  Keeps-resign none = Keeps-raise c python_error

  pub Keeps-resign_issue_attachment_upload :
      (sp id aid : Text) → Keeps c P (resign_issue_attachment_upload c z storage sp id aid)
  unfolding resign_issue_attachment_upload
  Keeps-resign_issue_attachment_upload sp id aid =
      Keeps-validated c sp _ λ h. Keeps-bind c _ _ (Keeps-get_primary_item c z d _) Keeps-resign

  Keeps-with_url : (o : Option BaseObject) → Keeps c P (with_url c z storage o)
  Keeps-with_url (some (issue_attachment x)) =
      Keeps-if c (is_uploaded x.status) _ _
        (Keeps-bind c _ _ (Keeps-presigned_attachment_url c storage quiet x) λ _. Keeps-pure c _)
        (Keeps-pure c _)
  Keeps-with_url (some (issue_info x)) = Keeps-raise c python_error
  Keeps-with_url (some (space_info x)) = Keeps-raise c python_error
  Keeps-with_url (some (issue_comment x)) = Keeps-raise c python_error
  Keeps-with_url (some (issue_blocker x)) = Keeps-raise c python_error
  Keeps-with_url none = Keeps-raise c python_error

  pub Keeps-get_issue_attachment :
      (sp id aid : Text) → Keeps c P (get_issue_attachment c z storage sp id aid)
  unfolding get_issue_attachment
  Keeps-get_issue_attachment sp id aid =
      Keeps-validated c sp _ λ h. Keeps-bind c _ _ (Keeps-get_primary_item c z d _) Keeps-with_url

  Keeps-on_confirm :
      (x : IssueAttachment) (r : Reply (Unit {0})) → Keeps c P (on_confirm c z storage x r)
  Keeps-on_confirm x (replied _) = Keeps-pure c x
  Keeps-on_confirm x (client_error exc) =
      search
        (keeps_rules, Keeps-raise_for_transaction_conflict c z d, Keeps-failed_reason_item c z d)
        depth 30
  Keeps-on_confirm x botocore_error = Keeps-raise c internal

  module _ (sp id aid : Text)
      (step : (updated_at now : Text) (link : Option Text) (size : ℤ) (content_type : Text)
        → contains b'#' sp ≡ false
        → WritesKeep P (
            confirm_items sp id link
              (update_request now (confirm_args updated_at sp id aid size content_type))))
      (h : contains b'#' sp ≡ false) where
    no_attachment :
        Keeps c P (require_storage storage >>= λ st. raise {A = IssueAttachment} python_error)
    no_attachment = Keeps-with_storage c storage quiet _ λ st q. Keeps-raise c python_error

    Keeps-confirm_item : (o : Option BaseObject) → Keeps c P (confirm_item c z storage sp id aid o)
    Keeps-confirm_item (some (issue_attachment x)) =
        Keeps-bind c _ _ (Keeps-head_attachment_object c storage quiet x) λ head.
          Keeps-bind c _ _ (Keeps-isotime c d) λ updated_at.
            Keeps-bind-build_update c z d _ _ λ now.
              Keeps-bind c _ _ (Keeps-transact c d _ (step updated_at now x.comment_id _ _ h))
                (Keeps-on_confirm _)
    Keeps-confirm_item (some (issue_info x)) = no_attachment
    Keeps-confirm_item (some (space_info x)) = no_attachment
    Keeps-confirm_item (some (issue_comment x)) = no_attachment
    Keeps-confirm_item (some (issue_blocker x)) = no_attachment
    Keeps-confirm_item none = no_attachment

  pub Keeps-confirm_issue_attachment_uploaded :
      (sp id aid : Text)
      → ((updated_at now : Text) (link : Option Text) (size : ℤ) (content_type : Text)
          → contains b'#' sp ≡ false
          → WritesKeep P (
              confirm_items sp id link
                (update_request now (confirm_args updated_at sp id aid size content_type))))
      → Keeps c P (confirm_issue_attachment_uploaded c z storage sp id aid)
  unfolding confirm_issue_attachment_uploaded
  Keeps-confirm_issue_attachment_uploaded sp id aid step = Keeps-retried c d _ (
      Keeps-validated c sp _ λ h.
        Keeps-bind c _ _ (Keeps-get_primary_item c z d _) (Keeps-confirm_item sp id aid step h))
