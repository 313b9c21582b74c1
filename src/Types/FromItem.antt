-- ===== src/Types/FromItem.antt =====
-- BaseObject.from_item (types/base.py), at each entity: the checked reading of a row. `none` is an
-- error of gzip or of msgspec's conversion, which checks the tag and the type of every field.
use pl8_base.Base.{Bool, Option, none, some, if◌then◌else◌}
use pl8_base.Base.Int.{ℤ, pos}
use pl8_base.Base.Text.{Text, codes, text_eq}
use pl8_base.Dynamo.{Attr, Val, text, num, flag, bytes, null, Item}
use pl8_base.Types.Enums.{
  IssueStatus, parse_issue_status, AttachmentStatus, parse_attachment_status, pending,
}
use pl8_base.Types.Entities.{
  SpaceInfo, IssueInfo, IssueComment, IssueAttachment, IssueBlocker, init_space, init_issue,
  init_comment, init_attachment, init_blocker, default_type_version, first_version,
}
use pl8_base.Types.Compression.{Gzip}

infixl 5 ◌>>=◌ ◌>>◌
abbrev ◌>>=◌ {ℓ κ} : {A : Type ℓ} {B : Type κ} → Option A → (A → Option B) → Option B
none >>= f = none
some a >>= f = f a

abbrev ◌>>◌ {ℓ} : {B : Type ℓ} → Option (Unit {0}) → Option B → Option B
m >> k = m >>= λ _. k

-- A field with no default: `str`, `int`, `bool`.
abbrev read_text : Option Val → Option Text
read_text (some (text t)) = some t
read_text _ = none

abbrev read_flag : Option Val → Option Bool
read_flag (some (flag b)) = some b
read_flag _ = none

abbrev read_num : Option Val → Option ℤ
read_num (some (num n)) = some n
read_num _ = none

-- A field with a default, which an absent attribute takes.
abbrev read_text_or : Text → Option Val → Option Text
read_text_or d none = some d
read_text_or d (some v) = read_text (some v)

abbrev read_num_or : ℤ → Option Val → Option ℤ
read_num_or d none = some d
read_num_or d (some v) = read_num (some v)

-- `str | None = None`
abbrev pub read_optional : Option Val → Option (Option Text)
read_optional none = some none
read_optional (some null) = some none
read_optional (some (text t)) = some (some t)
read_optional _ = none

-- `int | None = None`
abbrev pub read_optional_num : Option Val → Option (Option ℤ)
read_optional_num none = some none
read_optional_num (some null) = some none
read_optional_num (some (num n)) = some (some n)
read_optional_num _ = none

abbrev read_status : Option Val → Option IssueStatus
read_status (some (text t)) = parse_issue_status t
read_status _ = none

abbrev read_attachment_status : Option Val → Option AttachmentStatus
read_attachment_status none = some pending
read_attachment_status (some (text t)) = parse_attachment_status t
read_attachment_status _ = none

-- The tag field "type" names the struct; msgspec refuses another.
abbrev check_tag : Text → Option Val → Option (Unit {0})
check_tag tag (some (text t)) = if text_eq t tag then some tt else none
check_tag tag _ = none

module _ (z : Gzip) where
  -- An attribute of COMPRESSED_ATTRS.
  abbrev read_compressed : Option Val → Option Text
  read_compressed (some (bytes b)) = z.decompress b
  read_compressed _ = none

  unfoldable pub space_from_item : Text → Item → Option SpaceInfo
  unfolding init_space
  space_from_item now item = do
    description ← read_compressed (item Attr.description)
    check_tag (codes "SpaceInfo") (item Attr.kind)
    pk ← read_optional (item Attr.pk)
    sk ← read_optional (item Attr.sk)
    gsi1pk ← read_optional (item Attr.gsi1pk)
    gsi1sk ← read_optional (item Attr.gsi1sk)
    type_version ← read_text_or default_type_version (item Attr.type_version)
    created_at ← read_optional (item Attr.created_at)
    updated_at ← read_optional (item Attr.updated_at)
    version ← read_num_or first_version (item Attr.version)
    space_id ← read_text (item Attr.space_id)
    name ← read_text (item Attr.name)
    creator ← read_text (item Attr.creator)
    issue_count ← read_num_or (pos 0) (item Attr.issue_count)
    some (
        init_space now (record {
          pk = pk;
          sk = sk;
          gsi1pk = gsi1pk;
          gsi1sk = gsi1sk;
          type_version = type_version;
          created_at = created_at;
          updated_at = updated_at;
          version = version;
          space_id = space_id;
          name = name;
          description = description;
          creator = creator;
          issue_count = issue_count;
        }))

  unfoldable pub issue_from_item : Text → Item → Option IssueInfo
  unfolding init_issue
  issue_from_item now item = do
    description ← read_compressed (item Attr.description)
    check_tag (codes "IssueInfo") (item Attr.kind)
    pk ← read_optional (item Attr.pk)
    sk ← read_optional (item Attr.sk)
    gsi1pk ← read_optional (item Attr.gsi1pk)
    gsi1sk ← read_optional (item Attr.gsi1sk)
    type_version ← read_text_or default_type_version (item Attr.type_version)
    created_at ← read_optional (item Attr.created_at)
    updated_at ← read_optional (item Attr.updated_at)
    version ← read_num_or first_version (item Attr.version)
    issue_id ← read_text (item Attr.issue_id)
    space_id ← read_text (item Attr.space_id)
    title ← read_text (item Attr.title)
    status ← read_status (item Attr.status)
    creator ← read_text (item Attr.creator)
    status_updated_at ← read_optional (item Attr.status_updated_at)
    num_active_blockers ← read_num_or (pos 0) (item Attr.num_active_blockers)
    num_comments ← read_num_or (pos 0) (item Attr.num_comments)
    num_attachments ← read_num_or (pos 0) (item Attr.num_attachments)
    some (
        init_issue now (record {
          pk = pk;
          sk = sk;
          gsi1pk = gsi1pk;
          gsi1sk = gsi1sk;
          type_version = type_version;
          created_at = created_at;
          updated_at = updated_at;
          version = version;
          issue_id = issue_id;
          space_id = space_id;
          title = title;
          description = description;
          status = status;
          creator = creator;
          status_updated_at = status_updated_at;
          num_active_blockers = num_active_blockers;
          num_comments = num_comments;
          num_attachments = num_attachments;
        }))

  unfoldable pub comment_from_item : (Text → Option Text) → Text → Item → Option IssueComment
  unfolding init_comment
  comment_from_item time_of new_id item = do
    body ← read_compressed (item Attr.body)
    check_tag (codes "IssueComment") (item Attr.kind)
    pk ← read_optional (item Attr.pk)
    sk ← read_optional (item Attr.sk)
    type_version ← read_text_or default_type_version (item Attr.type_version)
    created_at ← read_optional (item Attr.created_at)
    updated_at ← read_optional (item Attr.updated_at)
    version ← read_num_or first_version (item Attr.version)
    space_id ← read_text (item Attr.space_id)
    issue_id ← read_text (item Attr.issue_id)
    creator ← read_text (item Attr.creator)
    comment_id ← read_optional (item Attr.comment_id)
    num_attachments ← read_num_or (pos 0) (item Attr.num_attachments)
    init_comment time_of new_id (record {
      pk = pk;
      sk = sk;
      type_version = type_version;
      created_at = created_at;
      updated_at = updated_at;
      version = version;
      space_id = space_id;
      issue_id = issue_id;
      body = body;
      creator = creator;
      comment_id = comment_id;
      num_attachments = num_attachments;
    })

unfoldable pub attachment_from_item : (Text → Option Text) → Text → Item → Option IssueAttachment
unfolding init_attachment
attachment_from_item time_of new_id item = do
  check_tag (codes "IssueAttachment") (item Attr.kind)
  pk ← read_optional (item Attr.pk)
  sk ← read_optional (item Attr.sk)
  gsi1pk ← read_optional (item Attr.gsi1pk)
  gsi1sk ← read_optional (item Attr.gsi1sk)
  type_version ← read_text_or default_type_version (item Attr.type_version)
  created_at ← read_optional (item Attr.created_at)
  updated_at ← read_optional (item Attr.updated_at)
  version ← read_num_or first_version (item Attr.version)
  space_id ← read_text (item Attr.space_id)
  issue_id ← read_text (item Attr.issue_id)
  name ← read_text (item Attr.name)
  creator ← read_text (item Attr.creator)
  content_type ← read_text (item Attr.content_type)
  size ← read_num (item Attr.size)
  attachment_id ← read_optional (item Attr.attachment_id)
  comment_id ← read_optional (item Attr.comment_id)
  status ← read_attachment_status (item Attr.status)
  expires_at ← read_optional_num (item Attr.expires_at)
  init_attachment time_of new_id (record {
    pk = pk;
    sk = sk;
    gsi1pk = gsi1pk;
    gsi1sk = gsi1sk;
    type_version = type_version;
    created_at = created_at;
    updated_at = updated_at;
    version = version;
    space_id = space_id;
    issue_id = issue_id;
    name = name;
    creator = creator;
    content_type = content_type;
    size = size;
    attachment_id = attachment_id;
    comment_id = comment_id;
    status = status;
    expires_at = expires_at;
  })

unfoldable pub blocker_from_item : Text → Item → Option IssueBlocker
unfolding init_blocker
blocker_from_item now item = do
  check_tag (codes "IssueBlocker") (item Attr.kind)
  pk ← read_optional (item Attr.pk)
  sk ← read_optional (item Attr.sk)
  gsi1pk ← read_optional (item Attr.gsi1pk)
  gsi1sk ← read_optional (item Attr.gsi1sk)
  type_version ← read_text_or default_type_version (item Attr.type_version)
  created_at ← read_optional (item Attr.created_at)
  updated_at ← read_optional (item Attr.updated_at)
  version ← read_num_or first_version (item Attr.version)
  blocking_issue_space_id ← read_text (item Attr.blocking_issue_space_id)
  blocking_issue_id ← read_text (item Attr.blocking_issue_id)
  blocked_issue_space_id ← read_text (item Attr.blocked_issue_space_id)
  blocked_issue_id ← read_text (item Attr.blocked_issue_id)
  is_blocking_issue_done ← read_flag (item Attr.is_blocking_issue_done)
  some (
      init_blocker now (record {
        pk = pk;
        sk = sk;
        gsi1pk = gsi1pk;
        gsi1sk = gsi1sk;
        type_version = type_version;
        created_at = created_at;
        updated_at = updated_at;
        version = version;
        blocking_issue_space_id = blocking_issue_space_id;
        blocking_issue_id = blocking_issue_id;
        blocked_issue_space_id = blocked_issue_space_id;
        blocked_issue_id = blocked_issue_id;
        is_blocking_issue_done = is_blocking_issue_done;
      }))
