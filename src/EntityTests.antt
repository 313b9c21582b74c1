-- ===== src/EntityTests.antt =====
-- The round trips of the entities, each at one of its kind.
use pl8_base.Base.{◌≡◌, refl, false, none, some}
use pl8_base.Base.Int.{pos}
use pl8_base.Base.Text.{Text, codes}
use pl8_base.Types.{
  Gzip, SpaceInfo, IssueInfo, IssueComment, IssueAttachment, IssueBlocker, init_space, init_issue,
  init_comment, init_attachment, init_blocker, todo, pending, default_type_version, first_version,
}
use pl8_base.Types.Serialize.{
  serialize_space, serialize_issue, serialize_comment, serialize_attachment, serialize_blocker,
}
use pl8_base.Types.FromItem.{
  space_from_item, issue_from_item, comment_from_item, attachment_from_item, blocker_from_item,
}
use pl8_base.Dynamo.{Attr}
use pl8_base.Types.Dict.{
  is_key_attr, is_comment_key_attr, dict_space, dict_issue, dict_comment, dict_attachment,
  dict_blocker, public_dict,
}
use pl8_base.Types.DictLaws.{public_dict-keys}
use pl8_base.Types.RoundTrip.{
  space_from_item-serialize, issue_from_item-serialize, comment_from_item-serialize,
  attachment_from_item-serialize, blocker_from_item-serialize,
}

abbrev plain : Gzip
plain = record { compress = λ t. t; decompress = some; decompress-compress = λ t. refl }

abbrev a_space : Text
a_space = codes "team-1"

abbrev now : Text
now = codes "2025-01-01T00:00:00.000Z"

abbrev kept_space : SpaceInfo
kept_space = record {
  pk = some (codes "SPACE#team-1");
  sk = some (codes "100#INFO");
  gsi1pk = some (codes "SPACES");
  gsi1sk = some (codes "SPACE#team-1");
  type_version = default_type_version;
  created_at = some now;
  updated_at = some now;
  version = first_version;
  space_id = a_space;
  name = codes "Team";
  description = codes "all of us";
  creator = codes "ann";
  issue_count = pos 4;
}

space_from_item-serialize_example :
    space_from_item plain now (serialize_space plain kept_space) ≡ some kept_space
unfolding init_space
space_from_item-serialize_example = space_from_item-serialize plain now kept_space refl

abbrev kept_issue : IssueInfo
kept_issue = record {
  pk = some (codes "ISSUE#team-1#aaaaaa");
  sk = some (codes "100#INFO");
  gsi1pk = some (codes "ISSUESPACESTATUS#team-1#TODO");
  gsi1sk = some (codes "STATUSUPDATED#2025#ISSUE#aaaaaa");
  type_version = default_type_version;
  created_at = some now;
  updated_at = some now;
  version = pos 2;
  issue_id = codes "aaaaaa";
  space_id = a_space;
  title = codes "Bug";
  description = codes "text";
  status = todo;
  creator = codes "ann";
  status_updated_at = some now;
  num_active_blockers = pos 1;
  num_comments = pos 2;
  num_attachments = pos 0;
}

issue_from_item-serialize_example :
    issue_from_item plain now (serialize_issue plain kept_issue) ≡ some kept_issue
unfolding init_issue
issue_from_item-serialize_example = issue_from_item-serialize plain now kept_issue refl

abbrev kept_comment : IssueComment
kept_comment = record {
  pk = some (codes "ISSUE#team-1#aaaaaa");
  sk = some (codes "500#COMMENT#c1");
  type_version = default_type_version;
  created_at = some now;
  updated_at = some now;
  version = first_version;
  space_id = a_space;
  issue_id = codes "aaaaaa";
  body = codes "hello";
  creator = codes "ann";
  comment_id = some (codes "c1");
  num_attachments = pos 0;
}

comment_from_item-serialize_example :
    comment_from_item plain (λ id. none) (codes "c2") (serialize_comment plain kept_comment)
    ≡ some kept_comment
unfolding init_comment
comment_from_item-serialize_example =
    comment_from_item-serialize plain (λ id. none) (codes "c2") kept_comment refl

abbrev kept_attachment : IssueAttachment
kept_attachment = record {
  pk = some (codes "ISSUE#team-1#aaaaaa");
  sk = some (codes "600#ATTACHMENT#f1");
  gsi1pk = none;
  gsi1sk = none;
  type_version = default_type_version;
  created_at = some now;
  updated_at = some now;
  version = first_version;
  space_id = a_space;
  issue_id = codes "aaaaaa";
  name = codes "log.txt";
  creator = codes "ann";
  content_type = codes "text/plain";
  size = pos 12;
  attachment_id = some (codes "f1");
  comment_id = none;
  status = pending;
  expires_at = some (pos 100);
}

attachment_from_item-serialize_example :
    attachment_from_item (λ id. none) (codes "f2") (serialize_attachment kept_attachment)
    ≡ some kept_attachment
unfolding init_attachment
attachment_from_item-serialize_example =
    attachment_from_item-serialize (λ id. none) (codes "f2") kept_attachment refl

abbrev kept_blocker : IssueBlocker
kept_blocker = record {
  pk = some (codes "ISSUE#team-1#aaaaaa");
  sk = some (codes "800#BLOCKEDISSUE#team-1#bbbbbb");
  gsi1pk = some (codes "BLOCKEDISSUE#team-1#bbbbbb");
  gsi1sk = some (codes "500#BLOCKINGISSUE#team-1#aaaaaa");
  type_version = default_type_version;
  created_at = some now;
  updated_at = some now;
  version = first_version;
  blocking_issue_space_id = a_space;
  blocking_issue_id = codes "aaaaaa";
  blocked_issue_space_id = a_space;
  blocked_issue_id = codes "bbbbbb";
  is_blocking_issue_done = false;
}

blocker_from_item-serialize_example :
    blocker_from_item now (serialize_blocker kept_blocker) ≡ some kept_blocker
unfolding init_blocker
blocker_from_item-serialize_example = blocker_from_item-serialize now kept_blocker refl

public_dict-keys_example :
    (public_dict is_key_attr
        (dict_space (record kept_space { pk = none; sk = none; gsi1pk = none; gsi1sk = none }))
        Attr.pk
      ≡ public_dict is_key_attr (dict_space kept_space) Attr.pk)
    × (public_dict is_key_attr
          (dict_issue (record kept_issue { pk = none; sk = none; gsi1pk = none; gsi1sk = none }))
          Attr.pk
        ≡ public_dict is_key_attr (dict_issue kept_issue) Attr.pk)
    × (public_dict is_comment_key_attr
          (dict_comment (record kept_comment { pk = none; sk = none }))
          Attr.pk
        ≡ public_dict is_comment_key_attr (dict_comment kept_comment) Attr.pk)
    × (public_dict is_key_attr
          (dict_attachment
            (record kept_attachment { pk = none; sk = none; gsi1pk = none; gsi1sk = none }))
          Attr.pk
        ≡ public_dict is_key_attr (dict_attachment kept_attachment) Attr.pk)
    × (public_dict is_key_attr
          (dict_blocker
            (record kept_blocker { pk = none; sk = none; gsi1pk = none; gsi1sk = none }))
          Attr.pk
        ≡ public_dict is_key_attr (dict_blocker kept_blocker) Attr.pk)
public_dict-keys_example =
    public_dict-keys Attr.pk none none none none kept_space kept_issue kept_comment kept_attachment
      kept_blocker
