-- ===== src/Types/Entities.antt =====
-- The structs of types/issue.py and types/space.py with the __post_init__ that finishes them.
-- A field declared `str | None` is an `Option Text`, also where it is never None once built.
use pl8_base.Base.{Bool, Option, none, some, [], ◌∷◌}
use mathlib.Core.Option.{map}
use pl8_base.Base.Int.{ℤ, pos}
use pl8_base.Base.Text.{Text, codes}
use pl8_base.Types.Enums.{IssueStatus, issue_status_text, AttachmentStatus}
use pl8_base.Types.Keys.{
  info_sk, space_pk, issue_pk, comment_sk, attachment_sk, blocker_sk, issue_gsi1pk, issue_gsi1sk,
  attachment_gsi1pk, blocker_gsi1pk, blocker_gsi1sk,
}

-- `not x` of a `str | None`: None and "" are replaced.
abbrev pub or_default : Text → Option Text → Option Text
or_default d none = some d
or_default d (some []) = some d
or_default d (some (c ∷ t)) = some (c ∷ t)

-- A key attribute that is None is rendered.
abbrev pub or_rendered : Text → Option Text → Option Text
or_rendered t none = some t
or_rendered t (some s) = some s

-- What an f-string or a format shows of a `str | None`.
abbrev pub shown : Option Text → Text
shown none = codes "None"
shown (some t) = t

pub record SpaceInfo : Type 0 where
  pub pk : Option Text
  pub sk : Option Text
  pub gsi1pk : Option Text
  pub gsi1sk : Option Text
  pub type_version : Text
  pub created_at : Option Text
  pub updated_at : Option Text
  pub version : ℤ
  pub space_id : Text
  pub name : Text
  pub description : Text
  pub creator : Text
  pub issue_count : ℤ

pub record IssueInfo : Type 0 where
  pub pk : Option Text
  pub sk : Option Text
  pub gsi1pk : Option Text
  pub gsi1sk : Option Text
  pub type_version : Text
  pub created_at : Option Text
  pub updated_at : Option Text
  pub version : ℤ
  pub issue_id : Text
  pub space_id : Text
  pub title : Text
  pub description : Text
  pub status : IssueStatus
  pub creator : Text
  pub status_updated_at : Option Text
  pub num_active_blockers : ℤ
  pub num_comments : ℤ
  pub num_attachments : ℤ

pub record IssueComment : Type 0 where
  pub pk : Option Text
  pub sk : Option Text
  pub type_version : Text
  pub created_at : Option Text
  pub updated_at : Option Text
  pub version : ℤ
  pub space_id : Text
  pub issue_id : Text
  pub body : Text
  pub creator : Text
  pub comment_id : Option Text
  pub num_attachments : ℤ

pub record IssueAttachment : Type 0 where
  pub pk : Option Text
  pub sk : Option Text
  pub gsi1pk : Option Text
  pub gsi1sk : Option Text
  pub type_version : Text
  pub created_at : Option Text
  pub updated_at : Option Text
  pub version : ℤ
  pub space_id : Text
  pub issue_id : Text
  pub name : Text
  pub creator : Text
  pub content_type : Text
  pub size : ℤ
  pub attachment_id : Option Text
  pub comment_id : Option Text
  pub status : AttachmentStatus
  pub expires_at : Option ℤ

pub record IssueBlocker : Type 0 where
  pub pk : Option Text
  pub sk : Option Text
  pub gsi1pk : Option Text
  pub gsi1sk : Option Text
  pub type_version : Text
  pub created_at : Option Text
  pub updated_at : Option Text
  pub version : ℤ
  pub blocking_issue_space_id : Text
  pub blocking_issue_id : Text
  pub blocked_issue_space_id : Text
  pub blocked_issue_id : Text
  pub is_blocking_issue_done : Bool

abbrev pub first_version : ℤ
first_version = pos 1

abbrev pub default_type_version : Text
default_type_version = codes "0.0.1"

-- SpaceInfo has BaseObject.__post_init__; `now` is what isotime() reads.
unfoldable pub init_space : Text → SpaceInfo → SpaceInfo
init_space now x =
    let created = or_default now x.created_at in
    record x {
      created_at = created;
      updated_at = or_default (shown created) x.updated_at;
      pk = or_rendered (space_pk x.space_id) x.pk;
      sk = or_rendered info_sk x.sk;
      gsi1pk = or_rendered (codes "SPACES") x.gsi1pk;
      gsi1sk = or_rendered (space_pk x.space_id) x.gsi1sk;
    }

unfoldable pub init_issue : Text → IssueInfo → IssueInfo
init_issue now x =
    let created = or_default now x.created_at in
    let status_updated = or_default (shown created) x.status_updated_at in
    record x {
      created_at = created;
      status_updated_at = status_updated;
      updated_at = or_default (shown created) x.updated_at;
      pk = or_rendered (issue_pk x.space_id x.issue_id) x.pk;
      sk = or_rendered info_sk x.sk;
      gsi1pk = or_rendered (issue_gsi1pk x.space_id (issue_status_text x.status)) x.gsi1pk;
      gsi1sk = or_rendered (issue_gsi1sk (shown status_updated) x.issue_id) x.gsi1sk;
    }

unfoldable pub init_blocker : Text → IssueBlocker → IssueBlocker
init_blocker now x =
    let created = or_default now x.created_at in
    record x {
      created_at = created;
      updated_at = or_default (shown created) x.updated_at;
      pk = or_rendered (issue_pk x.blocking_issue_space_id x.blocking_issue_id) x.pk;
      sk = or_rendered (blocker_sk x.blocked_issue_space_id x.blocked_issue_id) x.sk;
      gsi1pk = or_rendered (blocker_gsi1pk x.blocked_issue_space_id x.blocked_issue_id) x.gsi1pk;
      gsi1sk = or_rendered (blocker_gsi1sk x.blocking_issue_space_id x.blocking_issue_id) x.gsi1sk;
    }

-- The created_at of a struct that reads it out of its id; `time_of` is isotime_from_uuid7, which
-- may raise.
abbrev pub created_from_id : (Text → Option Text) → Text → Option Text → Option Text
created_from_id time_of id none = time_of id
created_from_id time_of id (some []) = time_of id
created_from_id time_of id (some (c ∷ t)) = some (c ∷ t)

abbrev comment_built : Text → IssueComment → Text → IssueComment
comment_built id x created = record x {
  comment_id = some id;
  created_at = some created;
  updated_at = or_default created x.updated_at;
  pk = or_rendered (issue_pk x.space_id x.issue_id) x.pk;
  sk = or_rendered (comment_sk id) x.sk;
}

-- `new_id` is a fresh uuid7.
unfoldable pub init_comment : (Text → Option Text) → Text → IssueComment → Option IssueComment
init_comment time_of new_id x =
    let id = shown (or_default new_id x.comment_id) in
    map (comment_built id x) (created_from_id time_of id x.created_at)

-- The GSI1 keys of an attachment that is linked to no comment are cleared.
abbrev linked_only : Option Text → Option Text → Option Text
linked_only none key = none
linked_only (some _) key = key

abbrev attachment_built : Text → IssueAttachment → Text → IssueAttachment
attachment_built id x created =
    let index_pk = attachment_gsi1pk x.space_id x.issue_id (shown x.comment_id) in
    record x {
      attachment_id = some id;
      created_at = some created;
      updated_at = or_default created x.updated_at;
      pk = or_rendered (issue_pk x.space_id x.issue_id) x.pk;
      sk = or_rendered (attachment_sk id) x.sk;
      gsi1pk = linked_only x.comment_id (or_rendered index_pk x.gsi1pk);
      gsi1sk = linked_only x.comment_id (or_rendered (attachment_sk id) x.gsi1sk);
    }

unfoldable pub init_attachment :
    (Text → Option Text) → Text → IssueAttachment → Option IssueAttachment
init_attachment time_of new_id x =
    let id = shown (or_default new_id x.attachment_id) in
    map (attachment_built id x) (created_from_id time_of id x.created_at)
