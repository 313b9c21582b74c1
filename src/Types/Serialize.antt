-- ===== src/Types/Serialize.antt =====
-- BaseObject.serialize and compress_value (types/base.py), at each entity: the rows that are written.
use pl8_base.Base.{Option, none, some}
use pl8_base.Base.Int.{ℤ}
use pl8_base.Base.Text.{Text, codes}
use pl8_base.Dynamo.{Attr, Val, text, num, flag, bytes, null, Item, Key}
use pl8_base.Types.Enums.{issue_status_text, attachment_status_text}
use pl8_base.Types.Entities.{
  SpaceInfo, IssueInfo, IssueComment, IssueAttachment, IssueBlocker, shown,
}
use pl8_base.Types.Compression.{Gzip}

-- A key attribute that is None is left out of the row.
abbrev pub key_val : Option Text → Option Val
key_val none = none
key_val (some t) = some (text t)

-- Any other None is a NULL.
abbrev pub text_or_null : Option Text → Option Val
text_or_null none = some null
text_or_null (some t) = some (text t)

abbrev pub num_or_null : Option ℤ → Option Val
num_or_null none = some null
num_or_null (some n) = some (num n)

-- BaseObject.serialized_pk.
abbrev pub serialized_pk : Option Text → Option Text → Key
serialized_pk pk sk = record { pk = shown pk; sk = shown sk }

module _ (z : Gzip) where
  unfoldable pub serialize_space : SpaceInfo → Item
  serialize_space x Attr.kind = some (text (codes "SpaceInfo"))
  serialize_space x Attr.pk = key_val x.pk
  serialize_space x Attr.sk = key_val x.sk
  serialize_space x Attr.gsi1pk = key_val x.gsi1pk
  serialize_space x Attr.gsi1sk = key_val x.gsi1sk
  serialize_space x Attr.type_version = some (text x.type_version)
  serialize_space x Attr.created_at = text_or_null x.created_at
  serialize_space x Attr.updated_at = text_or_null x.updated_at
  serialize_space x Attr.version = some (num x.version)
  serialize_space x Attr.space_id = some (text x.space_id)
  serialize_space x Attr.name = some (text x.name)
  serialize_space x Attr.description = some (bytes (z.compress x.description))
  serialize_space x Attr.creator = some (text x.creator)
  serialize_space x Attr.issue_count = some (num x.issue_count)
  serialize_space x _ = none

  unfoldable pub serialize_issue : IssueInfo → Item
  serialize_issue x Attr.kind = some (text (codes "IssueInfo"))
  serialize_issue x Attr.pk = key_val x.pk
  serialize_issue x Attr.sk = key_val x.sk
  serialize_issue x Attr.gsi1pk = key_val x.gsi1pk
  serialize_issue x Attr.gsi1sk = key_val x.gsi1sk
  serialize_issue x Attr.type_version = some (text x.type_version)
  serialize_issue x Attr.created_at = text_or_null x.created_at
  serialize_issue x Attr.updated_at = text_or_null x.updated_at
  serialize_issue x Attr.version = some (num x.version)
  serialize_issue x Attr.issue_id = some (text x.issue_id)
  serialize_issue x Attr.space_id = some (text x.space_id)
  serialize_issue x Attr.title = some (text x.title)
  serialize_issue x Attr.description = some (bytes (z.compress x.description))
  serialize_issue x Attr.status = some (text (issue_status_text x.status))
  serialize_issue x Attr.creator = some (text x.creator)
  serialize_issue x Attr.status_updated_at = text_or_null x.status_updated_at
  serialize_issue x Attr.num_active_blockers = some (num x.num_active_blockers)
  serialize_issue x Attr.num_comments = some (num x.num_comments)
  serialize_issue x Attr.num_attachments = some (num x.num_attachments)
  serialize_issue x _ = none

  unfoldable pub serialize_comment : IssueComment → Item
  serialize_comment x Attr.kind = some (text (codes "IssueComment"))
  serialize_comment x Attr.pk = key_val x.pk
  serialize_comment x Attr.sk = key_val x.sk
  serialize_comment x Attr.type_version = some (text x.type_version)
  serialize_comment x Attr.created_at = text_or_null x.created_at
  serialize_comment x Attr.updated_at = text_or_null x.updated_at
  serialize_comment x Attr.version = some (num x.version)
  serialize_comment x Attr.space_id = some (text x.space_id)
  serialize_comment x Attr.issue_id = some (text x.issue_id)
  serialize_comment x Attr.body = some (bytes (z.compress x.body))
  serialize_comment x Attr.creator = some (text x.creator)
  serialize_comment x Attr.comment_id = text_or_null x.comment_id
  serialize_comment x Attr.num_attachments = some (num x.num_attachments)
  serialize_comment x _ = none

unfoldable pub serialize_attachment : IssueAttachment → Item
serialize_attachment x Attr.kind = some (text (codes "IssueAttachment"))
serialize_attachment x Attr.pk = key_val x.pk
serialize_attachment x Attr.sk = key_val x.sk
serialize_attachment x Attr.gsi1pk = key_val x.gsi1pk
serialize_attachment x Attr.gsi1sk = key_val x.gsi1sk
serialize_attachment x Attr.type_version = some (text x.type_version)
serialize_attachment x Attr.created_at = text_or_null x.created_at
serialize_attachment x Attr.updated_at = text_or_null x.updated_at
serialize_attachment x Attr.version = some (num x.version)
serialize_attachment x Attr.space_id = some (text x.space_id)
serialize_attachment x Attr.issue_id = some (text x.issue_id)
serialize_attachment x Attr.name = some (text x.name)
serialize_attachment x Attr.creator = some (text x.creator)
serialize_attachment x Attr.content_type = some (text x.content_type)
serialize_attachment x Attr.size = some (num x.size)
serialize_attachment x Attr.attachment_id = text_or_null x.attachment_id
serialize_attachment x Attr.comment_id = text_or_null x.comment_id
serialize_attachment x Attr.status = some (text (attachment_status_text x.status))
serialize_attachment x Attr.expires_at = num_or_null x.expires_at
serialize_attachment x _ = none

unfoldable pub serialize_blocker : IssueBlocker → Item
serialize_blocker x Attr.kind = some (text (codes "IssueBlocker"))
serialize_blocker x Attr.pk = key_val x.pk
serialize_blocker x Attr.sk = key_val x.sk
serialize_blocker x Attr.gsi1pk = key_val x.gsi1pk
serialize_blocker x Attr.gsi1sk = key_val x.gsi1sk
serialize_blocker x Attr.type_version = some (text x.type_version)
serialize_blocker x Attr.created_at = text_or_null x.created_at
serialize_blocker x Attr.updated_at = text_or_null x.updated_at
serialize_blocker x Attr.version = some (num x.version)
serialize_blocker x Attr.blocking_issue_space_id = some (text x.blocking_issue_space_id)
serialize_blocker x Attr.blocking_issue_id = some (text x.blocking_issue_id)
serialize_blocker x Attr.blocked_issue_space_id = some (text x.blocked_issue_space_id)
serialize_blocker x Attr.blocked_issue_id = some (text x.blocked_issue_id)
serialize_blocker x Attr.is_blocking_issue_done = some (flag x.is_blocking_issue_done)
serialize_blocker x _ = none
