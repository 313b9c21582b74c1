-- ===== src/Types/RoundTrip.antt =====
-- An entity that is written by `serialize` is read back by `from_item` as it was.
use pl8_base.Base.{◌≡◌, refl, ap, Option, none, some}
use pl8_base.Base.Int.{ℤ}
use pl8_base.Base.Text.{Text}
use pl8_base.Types.Enums.{
  IssueStatus, todo, blocked, in_progress, done, issue_status_text, parse_issue_status,
  AttachmentStatus, pending, uploaded, attachment_status_text, parse_attachment_status,
}
use pl8_base.Types.Entities.{
  SpaceInfo, IssueInfo, IssueComment, IssueAttachment, IssueBlocker, init_space, init_issue,
  init_comment, init_attachment, init_blocker,
}
use pl8_base.Types.Compression.{Gzip}
use pl8_base.Types.Serialize.{
  serialize_space, serialize_issue, serialize_comment, serialize_attachment, serialize_blocker,
  key_val, text_or_null, num_or_null,
}
use pl8_base.Types.FromItem.{
  space_from_item, issue_from_item, comment_from_item, attachment_from_item, blocker_from_item,
  read_optional, read_optional_num,
}

pub parse_issue_status-issue_status_text :
    (s : IssueStatus) → parse_issue_status (issue_status_text s) ≡ some s
parse_issue_status-issue_status_text todo = refl
parse_issue_status-issue_status_text blocked = refl
parse_issue_status-issue_status_text in_progress = refl
parse_issue_status-issue_status_text done = refl

parse_attachment_status-attachment_status_text :
    (s : AttachmentStatus) → parse_attachment_status (attachment_status_text s) ≡ some s
parse_attachment_status-attachment_status_text pending = refl
parse_attachment_status-attachment_status_text uploaded = refl

read_optional-key_val : (o : Option Text) → read_optional (key_val o) ≡ some o
read_optional-key_val none = refl
read_optional-key_val (some t) = refl

read_optional-text_or_null : (o : Option Text) → read_optional (text_or_null o) ≡ some o
read_optional-text_or_null none = refl
read_optional-text_or_null (some t) = refl

read_optional_num-num_or_null : (o : Option ℤ) → read_optional_num (num_or_null o) ≡ some o
read_optional_num-num_or_null none = refl
read_optional_num-num_or_null (some n) = refl

ruleset reads = (
  parse_issue_status-issue_status_text, parse_attachment_status-attachment_status_text,
  read_optional-key_val, read_optional-text_or_null, read_optional_num-num_or_null,
)

module _ (z : Gzip) where
  -- SpaceInfo.from_item reads an object back from the item that serialize wrote, if __post_init__
  -- leaves the object as it is.
  pub space_from_item-serialize :
      (now : Text) (x : SpaceInfo)
      → init_space now x ≡ x
      → space_from_item z now (serialize_space z x) ≡ some x
  unfolding space_from_item serialize_space
  space_from_item-serialize now x built = simp (reads, z.decompress-compress) (ap some built)

  -- IssueInfo.from_item reads an object back from the item that serialize wrote, if __post_init__
  -- leaves the object as it is.
  pub issue_from_item-serialize :
      (now : Text) (x : IssueInfo)
      → init_issue now x ≡ x
      → issue_from_item z now (serialize_issue z x) ≡ some x
  unfolding issue_from_item serialize_issue
  issue_from_item-serialize now x built = simp (reads, z.decompress-compress) (ap some built)

  -- IssueComment.from_item reads an object back from the item that serialize wrote, if
  -- __post_init__ leaves the object as it is.
  pub comment_from_item-serialize :
      (time_of : Text → Option Text) (new_id : Text) (x : IssueComment)
      → init_comment time_of new_id x ≡ some x
      → comment_from_item z time_of new_id (serialize_comment z x) ≡ some x
  unfolding comment_from_item serialize_comment
  comment_from_item-serialize time_of new_id x built = simp (reads, z.decompress-compress) built

-- IssueAttachment.from_item reads an object back from the item that serialize wrote, if
-- __post_init__ leaves the object as it is.
pub attachment_from_item-serialize :
    (time_of : Text → Option Text) (new_id : Text) (x : IssueAttachment)
    → init_attachment time_of new_id x ≡ some x
    → attachment_from_item time_of new_id (serialize_attachment x) ≡ some x
unfolding attachment_from_item serialize_attachment
attachment_from_item-serialize time_of new_id x built = simp reads built

-- IssueBlocker.from_item reads an object back from the item that serialize wrote, if __post_init__
-- leaves the object as it is.
pub blocker_from_item-serialize :
    (now : Text) (x : IssueBlocker)
    → init_blocker now x ≡ x
    → blocker_from_item now (serialize_blocker x) ≡ some x
unfolding blocker_from_item serialize_blocker
blocker_from_item-serialize now x built = simp reads (ap some built)
