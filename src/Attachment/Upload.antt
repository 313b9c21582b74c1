-- ===== src/Attachment/Upload.antt =====
-- initiate, resign and confirm of an upload, and get_issue_attachment.
use pl8_base.Base.{Option, none, some, if◌then◌else◌}
use pl8_base.Base.Int.{ℤ, pos, ◌+ℤ◌}
use pl8_base.Base.Text.{Text}
use pl8_base.Errors.{
  Error, missing, internal, already_exists, attachment_status, python_error, Result, ok, err, Exec,
  pure, raise, lift, ◌>>=◌, ◌>>◌,
}
use pl8_base.Dynamo.{
  Client, ClientError, Reply, replied, client_error, botocore_error, isotime, uuid7, time,
  transact_write_items,
}
use pl8_base.Types.{Gzip, IssueAttachment, uploaded, is_uploaded, or_default, shown, attachment_key}
use pl8_base.Util.{
  str, int, validate_space_id, validate_creator, validate_attachment_name, validate_content_type,
  validate_attachment_size,
}
use pl8_base.Manager.Parse.{BaseObject, issue_info, issue_attachment, isotime_from_uuid7, time_of}
use pl8_base.Manager.Failure.{raise_for_transaction_conflict, failed_reason_item, get_primary_item}
use pl8_base.Manager.Retry.{retried}
use pl8_base.Manager.Update.{build_update}
use pl8_base.Storage.{Storage, Post}
use pl8_base.Attachment.Requests.{
  new_attachment, upload_items, put_index, confirm_args, confirm_items,
}
use pl8_base.Attachment.Signing.{
  require_storage, presigned_attachment_post, presigned_attachment_url, head_attachment_object,
}

module _ (c : Client) (z : Gzip) where
  -- validate_comment_id and validate_attachment_id: a UUIDv7.
  unfoldable pub validate_uuid7 : Text → Result (Unit {0})
  validate_uuid7 id = elim (isotime_from_uuid7 c z id) [ ok _ ↦ ok tt | err e ↦ err e ]

  abbrev pub validate_link : Option Text → Result (Unit {0})
  validate_link none = ok tt
  validate_link (some comment_id) = validate_uuid7 comment_id

module _ (c : Client) (z : Gzip) (storage : Option (Storage c.State)) where
  -- The put's own reason, behind those of the checks.
  abbrev pub on_put_refused : Option Text → ClientError → Exec c.State (IssueAttachment × Post)
  on_put_refused comment_id exc = do
    row ← failed_reason_item c z exc (put_index comment_id)
    if row.0 then raise already_exists else raise internal

  abbrev pub on_link_refused : Option Text → ClientError → Exec c.State (IssueAttachment × Post)
  on_link_refused none exc = on_put_refused none exc
  on_link_refused (some comment_id) exc = do
    comment ← failed_reason_item c z exc 1
    if comment.0 then raise missing else on_put_refused (some comment_id) exc

  abbrev pub on_upload :
      Option Text
      → IssueAttachment
      → Post
      → Reply (Unit {0})
      → Exec c.State (IssueAttachment × Post)
  on_upload comment_id x post (replied _) = pure (x, post)
  on_upload comment_id x post (client_error exc) = do
    raise_for_transaction_conflict c z exc
    issue ← failed_reason_item c z exc 0
    if issue.0 then raise missing else on_link_refused comment_id exc
  on_upload comment_id x post botocore_error = raise internal

  -- Signed before the row is written.
  abbrev pub write_upload :
      Text → Text → Option Text → IssueAttachment → Exec c.State (IssueAttachment × Post)
  write_upload space_id issue_id comment_id x = do
    post ← presigned_attachment_post storage x
    reply ← transact_write_items c (upload_items space_id issue_id comment_id x)
    on_upload comment_id x post reply

  unfoldable pub initiate_issue_attachment_upload :
      Text → Text → Text → Text → ℤ → Text → Option Text → Exec c.State (IssueAttachment × Post)
  initiate_issue_attachment_upload space_id issue_id name content_type size creator comment_id =
      retried c do
        lift (validate_space_id (str space_id))
        lift (validate_creator (str creator))
        lift (validate_attachment_name (str name))
        lift (validate_content_type (str content_type))
        lift (validate_attachment_size (int size))
        lift (validate_link c z comment_id)
        _ ← require_storage storage
        seconds ← time c
        id ← uuid7 c
        x ← lift (
            new_attachment (time_of c z) id seconds space_id issue_id name content_type size creator
              comment_id)
        write_upload space_id issue_id comment_id x

  -- `attachment.status` is there on an Issue too, and then not PENDING.
  abbrev pub resign : Option BaseObject → Exec c.State (IssueAttachment × Post)
  resign (some (issue_attachment x)) =
      if is_uploaded x.status
      then raise attachment_status
      else (do post ← presigned_attachment_post storage x; pure (x, post))
  resign (some (issue_info _)) = raise attachment_status
  resign _ = raise python_error

  unfoldable pub resign_issue_attachment_upload :
      Text → Text → Text → Exec c.State (IssueAttachment × Post)
  resign_issue_attachment_upload space_id issue_id attachment_id = do
    lift (validate_space_id (str space_id))
    item ← get_primary_item c z (attachment_key space_id issue_id attachment_id)
    resign item

  -- `old.status` in the message: an old row of another class has none, but for an Issue.
  abbrev pub status_error : BaseObject → Error
  status_error (issue_attachment _) = attachment_status
  status_error (issue_info _) = attachment_status
  status_error _ = python_error

  -- The attachment as confirm returns it.
  abbrev pub confirmed : IssueAttachment → Text → ℤ → Text → IssueAttachment
  confirmed x updated_at size content_type = record x {
    status = uploaded;
    size = size;
    content_type = content_type;
    expires_at = none;
    updated_at = some updated_at;
    version = x.version +ℤ pos 1;
  }

  abbrev pub on_confirm : IssueAttachment → Reply (Unit {0}) → Exec c.State IssueAttachment
  on_confirm x (replied _) = pure x
  on_confirm x (client_error exc) = do
    raise_for_transaction_conflict c z exc
    row ← failed_reason_item c z exc 0
    if row.0 then raise (elim row.1 [ none ↦ missing | some old ↦ status_error old ]) else (do
      issue ← failed_reason_item c z exc 1
      if issue.0 then raise missing else (do
        comment ← failed_reason_item c z exc 2
        if comment.0 then raise missing else raise internal))
  on_confirm x botocore_error = raise internal

  abbrev pub write_confirm :
      Text → Text → Text → IssueAttachment → ℤ → Text → Exec c.State IssueAttachment
  write_confirm space_id issue_id attachment_id x size content_type = do
    updated_at ← isotime c
    confirm ←
        build_update c z (confirm_args updated_at space_id issue_id attachment_id size content_type)
    reply ← transact_write_items c (confirm_items space_id issue_id x.comment_id confirm)
    on_confirm (confirmed x updated_at size content_type) reply

  -- Only an attachment has an S3 key; the storage is looked for first.
  abbrev pub confirm_item : Text → Text → Text → Option BaseObject → Exec c.State IssueAttachment
  confirm_item space_id issue_id attachment_id (some (issue_attachment x)) = do
    head ← head_attachment_object storage x
    write_confirm space_id issue_id attachment_id x head.content_length
        (shown (or_default x.content_type head.content_type))
  confirm_item space_id issue_id attachment_id _ = do
    _ ← require_storage storage
    raise python_error

  unfoldable pub confirm_issue_attachment_uploaded :
      Text → Text → Text → Exec c.State IssueAttachment
  confirm_issue_attachment_uploaded space_id issue_id attachment_id = retried c do
    lift (validate_space_id (str space_id))
    item ← get_primary_item c z (attachment_key space_id issue_id attachment_id)
    confirm_item space_id issue_id attachment_id item

  abbrev pub with_url : Option BaseObject → Exec c.State (IssueAttachment × Option Text)
  with_url (some (issue_attachment x)) =
      if is_uploaded x.status
      then (do url ← presigned_attachment_url storage x; pure (x, some url))
      else pure (x, none)
  with_url _ = raise python_error

  unfoldable pub get_issue_attachment :
      Text → Text → Text → Exec c.State (IssueAttachment × Option Text)
  get_issue_attachment space_id issue_id attachment_id = do
    lift (validate_space_id (str space_id))
    item ← get_primary_item c z (attachment_key space_id issue_id attachment_id)
    with_url item
