-- ===== src/Samples.antt =====
-- Values that the tests share.
use pl8_base.Base.{refl, none, some, [], ◌++◌}
use pl8_base.Base.Int.{pos}
use pl8_base.Base.Text.{Text, codes}
use pl8_base.Dynamo.{Table, replied}
use pl8_base.Storage.{Storage}
use pl8_base.Types.{
  Gzip, IssueAttachment, pending, uploaded, issue_pk, default_type_version, first_version,
}

-- A gzip that stores a text as it is.
abbrev pub plain : Gzip
plain = record { compress = λ t. t; decompress = some; decompress-compress = λ t. refl }

abbrev pub a_space : Text
a_space = codes "team-1"

abbrev pub now : Text
now = codes "2025-01-01T00:00:00.000Z"

-- An attachment that is read as PENDING, where its row is UPLOADED by now.
abbrev pub an_id : Text
an_id = codes "01900000-0000-7000-8000-000000000000"

abbrev pub stale : IssueAttachment
stale = record {
  pk = some (issue_pk a_space (codes "aaaaaa"));
  sk = some (codes "600#ATTACHMENT#" ++ an_id);
  gsi1pk = none;
  gsi1sk = none;
  type_version = default_type_version;
  created_at = some now;
  updated_at = some now;
  version = first_version;
  space_id = a_space;
  issue_id = codes "aaaaaa";
  name = codes "log.txt";
  creator = codes "ann";
  content_type = codes "text/plain";
  size = pos 5;
  attachment_id = some an_id;
  comment_id = none;
  status = pending;
  expires_at = some (pos 1_700_003_600);
}

abbrev pub current : IssueAttachment
current = record stale { status = uploaded; expires_at = none }

abbrev pub a_storage : Storage Table
a_storage = record {
  generate_presigned_post = λ key content_type size expires t.
      (replied (record { url = codes "https://bucket"; fields = [] }), t);
  generate_presigned_url = λ key disposition expires t. (replied (codes "https://bucket"), t);
  head_object = λ key t. (replied (record { content_length = pos 5; content_type = none }), t);
  delete_object = λ key t. (replied tt, t);
}
