-- ===== src/Types/DictLaws.antt =====
-- The rows of the entities as BaseObject.serialize makes them of their dicts, and public_dict.
use pl8_base.Base.{◌≡◌, Option, arith}
use pl8_base.Errors.{ok}
use pl8_base.Base.Text.{Text}
use pl8_base.Dynamo.{Attr}
use pl8_base.Types.Entities.{SpaceInfo, IssueInfo, IssueComment, IssueAttachment, IssueBlocker}
use pl8_base.Types.Compression.{Gzip}
use pl8_base.Types.Serialize.{
  serialize_space, serialize_issue, serialize_comment, serialize_attachment, serialize_blocker,
}
use pl8_base.Types.Dict.{
  is_key_attr, is_comment_key_attr, is_description, is_body, is_none, dict_space, dict_issue,
  dict_comment, dict_attachment, dict_blocker, serialize_attr, compress_value, public_dict,
}

module _ (z : Gzip) (a : Attr) where
  pub space_attr :
      (x : SpaceInfo)
      → serialize_attr z is_description is_key_attr (dict_space x) a ≡ ok (serialize_space z x a)
  unfolding serialize_attr compress_value dict_space serialize_space
  space_attr x = ground arith

  pub issue_attr :
      (x : IssueInfo)
      → serialize_attr z is_description is_key_attr (dict_issue x) a ≡ ok (serialize_issue z x a)
  unfolding serialize_attr compress_value dict_issue serialize_issue
  issue_attr x = ground arith

  pub comment_attr :
      (x : IssueComment)
      → serialize_attr z is_body is_comment_key_attr (dict_comment x) a
        ≡ ok (serialize_comment z x a)
  unfolding serialize_attr compress_value dict_comment serialize_comment
  comment_attr x = ground arith

  pub attachment_attr :
      (x : IssueAttachment)
      → serialize_attr z is_none is_key_attr (dict_attachment x) a ≡ ok (serialize_attachment x a)
  unfolding serialize_attr compress_value dict_attachment serialize_attachment
  attachment_attr x = ground arith

  pub blocker_attr :
      (x : IssueBlocker)
      → serialize_attr z is_none is_key_attr (dict_blocker x) a ≡ ok (serialize_blocker x a)
  unfolding serialize_attr compress_value dict_blocker serialize_blocker
  blocker_attr x = ground arith

module _ (a : Attr) (pk sk gsi1pk gsi1sk : Option Text) where
  space_public :
      (x : SpaceInfo)
      → public_dict is_key_attr
          (dict_space (record x { pk = pk; sk = sk; gsi1pk = gsi1pk; gsi1sk = gsi1sk }))
          a
        ≡ public_dict is_key_attr (dict_space x) a
  unfolding public_dict dict_space
  space_public x = ground arith

  issue_public :
      (x : IssueInfo)
      → public_dict is_key_attr
          (dict_issue (record x { pk = pk; sk = sk; gsi1pk = gsi1pk; gsi1sk = gsi1sk }))
          a
        ≡ public_dict is_key_attr (dict_issue x) a
  unfolding public_dict dict_issue
  issue_public x = ground arith

  comment_public :
      (x : IssueComment)
      → public_dict is_comment_key_attr (dict_comment (record x { pk = pk; sk = sk })) a
        ≡ public_dict is_comment_key_attr (dict_comment x) a
  unfolding public_dict dict_comment
  comment_public x = ground arith

  attachment_public :
      (x : IssueAttachment)
      → public_dict is_key_attr
          (dict_attachment (record x { pk = pk; sk = sk; gsi1pk = gsi1pk; gsi1sk = gsi1sk }))
          a
        ≡ public_dict is_key_attr (dict_attachment x) a
  unfolding public_dict dict_attachment
  attachment_public x = ground arith

  blocker_public :
      (x : IssueBlocker)
      → public_dict is_key_attr
          (dict_blocker (record x { pk = pk; sk = sk; gsi1pk = gsi1pk; gsi1sk = gsi1sk }))
          a
        ≡ public_dict is_key_attr (dict_blocker x) a
  unfolding public_dict dict_blocker
  blocker_public x = ground arith

  -- public_dict tells nothing of the key attributes: entities that differ in them only have the same
  -- public_dict, at each of the five types.
  pub public_dict-keys :
      (space : SpaceInfo) (issue : IssueInfo) (comment : IssueComment)
      (attachment : IssueAttachment) (blocker : IssueBlocker)
      → (public_dict is_key_attr
            (dict_space (record space { pk = pk; sk = sk; gsi1pk = gsi1pk; gsi1sk = gsi1sk }))
            a
          ≡ public_dict is_key_attr (dict_space space) a)
        × (public_dict is_key_attr
              (dict_issue (record issue { pk = pk; sk = sk; gsi1pk = gsi1pk; gsi1sk = gsi1sk }))
              a
            ≡ public_dict is_key_attr (dict_issue issue) a)
        × (public_dict is_comment_key_attr (dict_comment (record comment { pk = pk; sk = sk })) a
            ≡ public_dict is_comment_key_attr (dict_comment comment) a)
        × (public_dict is_key_attr
              (dict_attachment
                (record attachment { pk = pk; sk = sk; gsi1pk = gsi1pk; gsi1sk = gsi1sk }))
              a
            ≡ public_dict is_key_attr (dict_attachment attachment) a)
        × (public_dict is_key_attr
              (dict_blocker (record blocker { pk = pk; sk = sk; gsi1pk = gsi1pk; gsi1sk = gsi1sk }))
              a
            ≡ public_dict is_key_attr (dict_blocker blocker) a)
  public_dict-keys space issue comment attachment blocker = (
    space_public space,
    issue_public issue,
    comment_public comment,
    attachment_public attachment,
    blocker_public blocker,
  )
