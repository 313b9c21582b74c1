-- ===== src/Types/Dict.antt =====
-- BaseObject.dict, compress_value, serialize and public_dict (types/base.py) as the base class has
-- them: a dict of an entity's fields, and what is made of each attribute of it.
use pl8_base.Base.{Bool, true, false, ◌&&◌, Option, none, some, if◌then◌else◌}
use pl8_base.Base.Text.{codes}
use pl8_base.Errors.{bad_args, Result, ok, err}
use pl8_base.Dynamo.{Attr, Val, text, num, flag, bytes, null, Item}
use pl8_base.Types.Enums.{issue_status_text, attachment_status_text}
use pl8_base.Types.Entities.{SpaceInfo, IssueInfo, IssueComment, IssueAttachment, IssueBlocker}
use pl8_base.Types.Compression.{Gzip}
use pl8_base.Types.Serialize.{text_or_null, num_or_null}

-- KEY_ATTRS of the types that are in the index, and of IssueComment, which is not.
abbrev pub is_key_attr : Attr → Bool
is_key_attr Attr.pk = true
is_key_attr Attr.sk = true
is_key_attr Attr.gsi1pk = true
is_key_attr Attr.gsi1sk = true
is_key_attr _ = false

abbrev pub is_comment_key_attr : Attr → Bool
is_comment_key_attr Attr.pk = true
is_comment_key_attr Attr.sk = true
is_comment_key_attr _ = false

-- COMPRESSED_ATTRS of SpaceInfo and IssueInfo, of IssueComment, and of the other two.
abbrev pub is_description : Attr → Bool
is_description Attr.description = true
is_description _ = false

abbrev pub is_body : Attr → Bool
is_body Attr.body = true
is_body _ = false

abbrev pub is_none : Attr → Bool
is_none _ = false

-- dict() of a SpaceInfo.
unfoldable pub dict_space : SpaceInfo → Item
dict_space x Attr.kind = some (text (codes "SpaceInfo"))
dict_space x Attr.pk = text_or_null x.pk
dict_space x Attr.sk = text_or_null x.sk
dict_space x Attr.gsi1pk = text_or_null x.gsi1pk
dict_space x Attr.gsi1sk = text_or_null x.gsi1sk
dict_space x Attr.type_version = some (text x.type_version)
dict_space x Attr.created_at = text_or_null x.created_at
dict_space x Attr.updated_at = text_or_null x.updated_at
dict_space x Attr.version = some (num x.version)
dict_space x Attr.space_id = some (text x.space_id)
dict_space x Attr.name = some (text x.name)
dict_space x Attr.description = some (text x.description)
dict_space x Attr.creator = some (text x.creator)
dict_space x Attr.issue_count = some (num x.issue_count)
dict_space x _ = none

-- dict() of an IssueInfo.
unfoldable pub dict_issue : IssueInfo → Item
dict_issue x Attr.kind = some (text (codes "IssueInfo"))
dict_issue x Attr.pk = text_or_null x.pk
dict_issue x Attr.sk = text_or_null x.sk
dict_issue x Attr.gsi1pk = text_or_null x.gsi1pk
dict_issue x Attr.gsi1sk = text_or_null x.gsi1sk
dict_issue x Attr.type_version = some (text x.type_version)
dict_issue x Attr.created_at = text_or_null x.created_at
dict_issue x Attr.updated_at = text_or_null x.updated_at
dict_issue x Attr.version = some (num x.version)
dict_issue x Attr.issue_id = some (text x.issue_id)
dict_issue x Attr.space_id = some (text x.space_id)
dict_issue x Attr.title = some (text x.title)
dict_issue x Attr.description = some (text x.description)
dict_issue x Attr.status = some (text (issue_status_text x.status))
dict_issue x Attr.creator = some (text x.creator)
dict_issue x Attr.status_updated_at = text_or_null x.status_updated_at
dict_issue x Attr.num_active_blockers = some (num x.num_active_blockers)
dict_issue x Attr.num_comments = some (num x.num_comments)
dict_issue x Attr.num_attachments = some (num x.num_attachments)
dict_issue x _ = none

-- dict() of an IssueComment.
unfoldable pub dict_comment : IssueComment → Item
dict_comment x Attr.kind = some (text (codes "IssueComment"))
dict_comment x Attr.pk = text_or_null x.pk
dict_comment x Attr.sk = text_or_null x.sk
dict_comment x Attr.type_version = some (text x.type_version)
dict_comment x Attr.created_at = text_or_null x.created_at
dict_comment x Attr.updated_at = text_or_null x.updated_at
dict_comment x Attr.version = some (num x.version)
dict_comment x Attr.space_id = some (text x.space_id)
dict_comment x Attr.issue_id = some (text x.issue_id)
dict_comment x Attr.body = some (text x.body)
dict_comment x Attr.creator = some (text x.creator)
dict_comment x Attr.comment_id = text_or_null x.comment_id
dict_comment x Attr.num_attachments = some (num x.num_attachments)
dict_comment x _ = none

-- dict() of an IssueAttachment.
unfoldable pub dict_attachment : IssueAttachment → Item
dict_attachment x Attr.kind = some (text (codes "IssueAttachment"))
dict_attachment x Attr.pk = text_or_null x.pk
dict_attachment x Attr.sk = text_or_null x.sk
dict_attachment x Attr.gsi1pk = text_or_null x.gsi1pk
dict_attachment x Attr.gsi1sk = text_or_null x.gsi1sk
dict_attachment x Attr.type_version = some (text x.type_version)
dict_attachment x Attr.created_at = text_or_null x.created_at
dict_attachment x Attr.updated_at = text_or_null x.updated_at
dict_attachment x Attr.version = some (num x.version)
dict_attachment x Attr.space_id = some (text x.space_id)
dict_attachment x Attr.issue_id = some (text x.issue_id)
dict_attachment x Attr.name = some (text x.name)
dict_attachment x Attr.creator = some (text x.creator)
dict_attachment x Attr.content_type = some (text x.content_type)
dict_attachment x Attr.size = some (num x.size)
dict_attachment x Attr.attachment_id = text_or_null x.attachment_id
dict_attachment x Attr.comment_id = text_or_null x.comment_id
dict_attachment x Attr.status = some (text (attachment_status_text x.status))
dict_attachment x Attr.expires_at = num_or_null x.expires_at
dict_attachment x _ = none

-- dict() of an IssueBlocker.
unfoldable pub dict_blocker : IssueBlocker → Item
dict_blocker x Attr.kind = some (text (codes "IssueBlocker"))
dict_blocker x Attr.pk = text_or_null x.pk
dict_blocker x Attr.sk = text_or_null x.sk
dict_blocker x Attr.gsi1pk = text_or_null x.gsi1pk
dict_blocker x Attr.gsi1sk = text_or_null x.gsi1sk
dict_blocker x Attr.type_version = some (text x.type_version)
dict_blocker x Attr.created_at = text_or_null x.created_at
dict_blocker x Attr.updated_at = text_or_null x.updated_at
dict_blocker x Attr.version = some (num x.version)
dict_blocker x Attr.blocking_issue_space_id = some (text x.blocking_issue_space_id)
dict_blocker x Attr.blocking_issue_id = some (text x.blocking_issue_id)
dict_blocker x Attr.blocked_issue_space_id = some (text x.blocked_issue_space_id)
dict_blocker x Attr.blocked_issue_id = some (text x.blocked_issue_id)
dict_blocker x Attr.is_blocking_issue_done = some (flag x.is_blocking_issue_done)
dict_blocker x _ = none

-- `v is None`, of a value as TypeSerializer takes it.
abbrev is_null : Val → Bool
is_null null = true
is_null _ = false

module _ (z : Gzip) (compressed is_key : Attr → Bool) where
  -- A compressed attribute has to be a string.
  unfoldable pub compress_value : Attr → Val → Result Val
  compress_value a (text t) = if compressed a then ok (bytes (z.compress t)) else ok (text t)
  compress_value a v = if compressed a then err bad_args else ok v

  abbrev present : Result Val → Result (Option Val)
  present (ok v) = ok (some v)
  present (err e) = err e

  -- What serialize makes of one attribute of the dict: nothing, where it is a key attribute and None.
  unfoldable pub serialize_attr : Item → Attr → Result (Option Val)
  unfolding compress_value
  serialize_attr d a = elim (d a) [
    | none ↦ ok none
    | some v ↦ if is_null v && is_key a then ok none else present (compress_value a v)
  ]

-- dict() without the key attributes.
unfoldable pub public_dict : (Attr → Bool) → Item → Item
public_dict is_key d a = if is_key a then none else d a
