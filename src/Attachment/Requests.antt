-- ===== src/Attachment/Requests.antt =====
-- The requests that the attachment operations send.
use pl8_base.Base.{ℕ, ◌+◌, Bool, true, false, Option, none, some, List, [], ◌∷◌, ◌++◌}
use pl8_base.Base.Int.{ℤ, pos}
use pl8_base.Base.Text.{Text}
use pl8_base.Errors.{bad_args, Result, ok, err}
use pl8_base.Const.{attachment_pending_ttl_seconds}
use pl8_base.Dynamo.{
  Attr, Val, text, num, Key, row_exists, row_not_exists, equals, Write, condition_check, put,
  delete,
}
use pl8_base.Types.{
  IssueAttachment, AttachmentStatus, pending, uploaded, attachment_status_text, init_attachment,
  first_version, default_type_version, shown, issue_info_key, comment_key, attachment_key,
  attachment_s3_key,
}
use pl8_base.Types.Serialize.{serialize_attachment, serialized_pk}
use pl8_base.Manager.Update.{UpdateArgs, plain_update}
use pl8_base.Issue.{counter_update, issue_num_attachments_update}

-- IssueAttachment.s3_key
abbrev pub s3_key : IssueAttachment → Text
s3_key x = attachment_s3_key x.space_id x.issue_id (shown x.attachment_id)

-- attachment_key at an attachment's own ids, as the deletes name the row.
abbrev pub own_key : IssueAttachment → Key
own_key x = attachment_key x.space_id x.issue_id (shown x.attachment_id)

abbrev pub attachment_status_val : AttachmentStatus → Val
attachment_status_val s = text (attachment_status_text s)

-- comment_num_attachments_update (issue.py)
unfoldable pub comment_num_attachments_update : Text → Text → Text → ℤ → Write
comment_num_attachments_update space_id issue_id comment_id delta =
    counter_update (comment_key space_id issue_id comment_id) Attr.num_attachments delta

-- The fields that initiate_issue_attachment_upload gives, at a reading of the clock in seconds.
abbrev pub pending_fields : ℕ → Text → Text → Text → Text → ℤ → Text → Option Text → IssueAttachment
pending_fields seconds space_id issue_id name content_type size creator comment_id = record {
  pk = none;
  sk = none;
  gsi1pk = none;
  gsi1sk = none;
  type_version = default_type_version;
  created_at = none;
  updated_at = none;
  version = first_version;
  space_id = space_id;
  issue_id = issue_id;
  name = name;
  creator = creator;
  content_type = content_type;
  size = size;
  attachment_id = none;
  comment_id = comment_id;
  status = pending;
  expires_at = some (pos (seconds + attachment_pending_ttl_seconds));
}

-- The IssueAttachment of initiate_issue_attachment_upload at a fresh uuid7.
unfoldable pub new_attachment :
    (Text → Option Text)
    → Text
    → ℕ
    → Text
    → Text
    → Text
    → Text
    → ℤ
    → Text
    → Option Text
    → Result IssueAttachment
new_attachment time id seconds space_id issue_id name content_type size creator comment_id =
    elim (init_attachment time id
      (pending_fields seconds space_id issue_id name content_type size creator comment_id)) [
        | none ↦ err bad_args
        | some x ↦ ok x
      ]

-- A ConditionCheck that a row is there.
unfoldable pub check_exists : Key → Write
check_exists key = record {
  key = key;
  action = condition_check;
  conditions = row_exists ∷ [];
  returns_old = false;
}

unfoldable pub put_attachment : IssueAttachment → Write
put_attachment x = record {
  key = serialized_pk x.pk x.sk;
  action = put (serialize_attachment x);
  conditions = row_not_exists ∷ [];
  returns_old = false;
}

-- The comment's ConditionCheck is there only where a comment is named.
abbrev pub comment_checks : Text → Text → Option Text → List Write
comment_checks space_id issue_id none = []
comment_checks space_id issue_id (some comment_id) =
    check_exists (comment_key space_id issue_id comment_id) ∷ []

abbrev pub upload_items : Text → Text → Option Text → IssueAttachment → List Write
upload_items space_id issue_id comment_id x =
    check_exists (issue_info_key space_id issue_id)
    ∷ (comment_checks space_id issue_id comment_id ++ put_attachment x ∷ [])

-- put_index
abbrev pub put_index : Option Text → ℕ
put_index none = 1
put_index (some _) = 2

-- The arguments of _build_update in confirm_issue_attachment_uploaded.
unfoldable pub confirm_args : Text → Text → Text → Text → ℤ → Text → UpdateArgs
confirm_args updated_at space_id issue_id attachment_id size content_type =
    record (plain_update (attachment_key space_id issue_id attachment_id)) {
      expected_vals = (Attr.status, attachment_status_val pending) ∷ [];
      remove_attrs = Attr.expires_at ∷ [];
      attrs =
          (Attr.status, attachment_status_val uploaded)
          ∷ (Attr.size, num size)
          ∷ (Attr.content_type, text content_type)
          ∷ (Attr.updated_at, text updated_at)
          ∷ [];
    }

-- Which counter an entry of attachment_counter_updates moves.
pub data CounterName : Type 0 where
  issue_counter comment_counter : CounterName

-- attachment_counter_updates
abbrev pub comment_counters : Bool → Text → Text → Option Text → ℤ → List (CounterName × Write)
comment_counters true space_id issue_id (some comment_id) delta =
    (comment_counter, comment_num_attachments_update space_id issue_id comment_id delta) ∷ []
comment_counters _ space_id issue_id _ delta = []

abbrev pub issue_counters : Bool → Text → Text → ℤ → List (CounterName × Write)
issue_counters true space_id issue_id delta =
    (issue_counter, issue_num_attachments_update space_id issue_id delta) ∷ []
issue_counters false space_id issue_id delta = []

unfoldable pub attachment_counter_updates :
    IssueAttachment → ℤ → Bool → Bool → List (CounterName × Write)
attachment_counter_updates x delta with_issue with_comment =
    issue_counters with_issue x.space_id x.issue_id delta
    ++ comment_counters with_comment x.space_id x.issue_id x.comment_id delta

-- The transaction of confirm_issue_attachment_uploaded; `confirm` is the row's update.
abbrev comment_count : Text → Text → Option Text → List Write
comment_count space_id issue_id none = []
comment_count space_id issue_id (some comment_id) =
    comment_num_attachments_update space_id issue_id comment_id (pos 1) ∷ []

abbrev pub confirm_items : Text → Text → Option Text → Write → List Write
confirm_items space_id issue_id comment_id confirm =
    confirm
    ∷ (issue_num_attachments_update space_id issue_id (pos 1)
        ∷ comment_count space_id issue_id comment_id)

-- uploaded_attachment_delete and pending_attachment_delete
abbrev delete_in_status : AttachmentStatus → IssueAttachment → Write
delete_in_status status x = record {
  key = own_key x;
  action = delete;
  conditions = row_exists ∷ equals Attr.status (attachment_status_val status) ∷ [];
  returns_old = true;
}

unfoldable pub uploaded_attachment_delete : IssueAttachment → Write
uploaded_attachment_delete x = delete_in_status uploaded x

unfoldable pub pending_attachment_delete : IssueAttachment → Write
pending_attachment_delete x = delete_in_status pending x

-- The transaction that deletes an UPLOADED row with its counters.
abbrev pub entries : List (CounterName × Write) → List Write
entries [] = []
entries ((_, w) ∷ l) = w ∷ entries l

abbrev pub uncount_items : IssueAttachment → List (CounterName × Write) → List Write
uncount_items x counters = uploaded_attachment_delete x ∷ entries counters
