-- ===== src/Comment.antt =====
-- mixins/comment.py: class CommentMixin, without its paged reads.
pub mod Made
pub mod Steps
use pl8_base.Base.{Bool, true, false, Option, none, some, List, [], ◌∷◌, if◌then◌else◌}
use pl8_base.Base.Int.{ℤ, pos, negsuc}
use pl8_base.Base.Text.{Text}
use pl8_base.Errors.{
  Error, bad_args, missing, internal, already_exists, Result, ok, err, Exec, pure, raise, lift,
  ◌>>=◌, ◌>>◌,
}
use pl8_base.Dynamo.{
  Attr, bytes, Item, row_exists, row_not_exists, Write, put, delete, Client, Reply, replied,
  client_error, botocore_error, uuid7, transact_write_items,
}
use pl8_base.Types.{
  Gzip, IssueComment, init_comment, first_version, default_type_version, comment_key,
}
use pl8_base.Types.Serialize.{serialize_comment, serialized_pk}
use pl8_base.Util.{Value, str, validate_space_id, validate_creator}
use pl8_base.Manager.Parse.{BaseObject, time_of, isotime_from_uuid7}
use pl8_base.Manager.Failure.{raise_for_transaction_conflict, failed_reason_item, get_primary_item}
use pl8_base.Manager.Retry.{retried}
use pl8_base.Manager.Update.{UpdateArgs, plain_update, build_update, apply_update}
use pl8_base.Issue.{issue_num_comments_update}

-- The fields that create_issue_comment gives.
abbrev comment_fields : Text → Text → Text → Text → IssueComment
comment_fields space_id issue_id body creator = record {
  pk = none;
  sk = none;
  type_version = default_type_version;
  created_at = none;
  updated_at = none;
  version = first_version;
  space_id = space_id;
  issue_id = issue_id;
  body = body;
  creator = creator;
  comment_id = none;
  num_attachments = pos 0;
}

-- The IssueComment of create_issue_comment at a fresh uuid7, with the error of isotime_from_uuid7.
unfoldable pub new_comment :
    (Text → Option Text) → Text → Text → Text → Text → Text → Result IssueComment
new_comment time id space_id issue_id body creator =
    elim (init_comment time id (comment_fields space_id issue_id body creator)) [
      | none ↦ err bad_args
      | some x ↦ ok x
    ]

unfoldable pub put_comment : Gzip → IssueComment → Write
put_comment z x = record {
  key = serialized_pk x.pk x.sk;
  action = put (serialize_comment z x);
  conditions = row_not_exists ∷ [];
  returns_old = false;
}

unfoldable pub delete_comment : Text → Text → Text → Write
delete_comment space_id issue_id comment_id = record {
  key = comment_key space_id issue_id comment_id;
  action = delete;
  conditions = row_exists ∷ [];
  returns_old = false;
}

-- The TransactItems, in the order that CancellationReasons come back in.
abbrev pub create_comment_items : Gzip → Text → Text → IssueComment → List Write
create_comment_items z space_id issue_id x =
    issue_num_comments_update space_id issue_id (pos 1) ∷ put_comment z x ∷ []

abbrev pub delete_comment_items : Text → Text → Text → List Write
delete_comment_items space_id issue_id comment_id =
    delete_comment space_id issue_id comment_id
    ∷ issue_num_comments_update space_id issue_id (negsuc 0)
    ∷ []

module _ (c : Client) (z : Gzip) where
  abbrev pub on_create_comment : IssueComment → Reply (Unit {0}) → Exec c.State IssueComment
  on_create_comment x (replied _) = pure x
  on_create_comment x (client_error exc) = do
    raise_for_transaction_conflict c z exc
    issue ← failed_reason_item c z exc 0
    if issue.0 then raise missing else (do
      comment ← failed_reason_item c z exc 1
      if comment.0 then raise already_exists else raise internal)
  on_create_comment x botocore_error = raise internal

  abbrev pub write_comment : Text → Text → IssueComment → Exec c.State IssueComment
  write_comment space_id issue_id x = do
    reply ← transact_write_items c (create_comment_items z space_id issue_id x)
    on_create_comment x reply

  unfoldable pub create_issue_comment : Text → Text → Text → Text → Exec c.State IssueComment
  create_issue_comment space_id issue_id body creator = retried c do
    lift (validate_space_id (str space_id))
    lift (validate_creator (str creator))
    id ← uuid7 c
    x ← lift (new_comment (time_of c z) id space_id issue_id body creator)
    write_comment space_id issue_id x

  unfoldable pub get_issue_comment : Text → Text → Text → Exec c.State (Option BaseObject)
  get_issue_comment space_id issue_id comment_id = do
    lift (validate_space_id (str space_id))
    get_primary_item c z (comment_key space_id issue_id comment_id)

  -- Not retried.
  unfoldable pub update_issue_comment :
      Text → Text → Text → Text → Option ℤ → Exec c.State BaseObject
  update_issue_comment space_id issue_id comment_id body version = do
    lift (validate_space_id (str space_id))
    request ← build_update c z (record (plain_update (comment_key space_id issue_id comment_id)) {
      version = version;
      attrs = (Attr.body, bytes (z.compress body)) ∷ [];
    })
    apply_update c z request version (λ _. pure tt)

  abbrev pub on_delete_comment : Reply (Unit {0}) → Exec c.State (Unit {0})
  on_delete_comment (replied _) = pure tt
  on_delete_comment (client_error exc) = do
    raise_for_transaction_conflict c z exc
    comment ← failed_reason_item c z exc 0
    if comment.0 then raise missing else (do
      issue ← failed_reason_item c z exc 1
      if issue.0 then raise missing else raise internal)
  on_delete_comment botocore_error = raise internal

  unfoldable pub delete_issue_comment : Text → Text → Text → Exec c.State (Unit {0})
  delete_issue_comment space_id issue_id comment_id = retried c do
    lift (validate_space_id (str space_id))
    reply ← transact_write_items c (delete_comment_items space_id issue_id comment_id)
    on_delete_comment reply
