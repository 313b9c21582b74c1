-- ===== src/CauseTests.antt =====
-- Operations that are refused over a table in memory, and what their exceptions say of it.
use pl8_base.Base.{◌≡◌, refl, none, some, [], ◌∷◌}
use pl8_base.Base.Int.{pos}
use pl8_base.Base.Text.{Text, codes}
use pl8_base.Errors.{err, missing, blocking_issue_done, still_blocked}
use pl8_base.Dynamo.{Table, lookup}
use pl8_base.Dynamo.Memory.{memory, memory-IsDynamo}
use pl8_base.Types.{
  IssueInfo, todo, blocked, done, IssueStatus, issue_info_key, space_info_key, first_version,
  default_type_version,
}
use pl8_base.Types.Serialize.{serialize_issue}
use pl8_base.Issue.{add_issue_blocker, transition_issue, delete_issue}
use pl8_base.Comment.{create_issue_comment}
use pl8_base.Causes.Blockers.{AddCause, add_issue_blocker-AddCause}
use pl8_base.Causes.Transition.{TransitionCause, transition_issue-TransitionCause}
use pl8_base.Causes.Counted.{
  MissingCause, delete_issue-MissingCause, CommentCause, create_issue_comment-CommentCause,
}
use pl8_base.Samples.{plain, a_space, now}

-- A stored Issue with two active blockers.
abbrev pub an_issue : Text → IssueStatus → IssueInfo
an_issue id status = record {
  pk = some (codes "ISSUE#team-1#aaaaaa");
  sk = some (codes "100#INFO");
  gsi1pk = some (codes "ISSUESPACESTATUS#team-1#DONE");
  gsi1sk = some (codes "STATUSUPDATED#2025-01-01T00:00:00.000Z#ISSUE#aaaaaa");
  type_version = default_type_version;
  created_at = some now;
  updated_at = some now;
  version = first_version;
  issue_id = id;
  space_id = a_space;
  title = codes "Bug";
  description = codes "text";
  status = status;
  creator = codes "ann";
  status_updated_at = some now;
  num_active_blockers = pos 2;
  num_comments = pos 0;
  num_attachments = pos 0;
}

abbrev one_issue : IssueStatus → Table
one_issue status =
    (
      issue_info_key a_space (codes "aaaaaa"),
      serialize_issue plain (an_issue (codes "aaaaaa") status),
    )
    ∷ []

abbrev empty : Table
empty = []

add_refused :
    (add_issue_blocker memory plain a_space
      (codes "aaaaaa")
      a_space
      (codes "bbbbbb")
      (one_issue done)).0
    ≡ err blocking_issue_done
unfolding add_issue_blocker lookup pl8_base.Dynamo.isotime pl8_base.Dynamo.transact_write_items
    pl8_base.Dynamo.uuid7 pl8_base.Errors.lift pl8_base.Errors.pure pl8_base.Errors.raise
    pl8_base.Errors.◌>>=◌ pl8_base.Issue.block_args pl8_base.Issue.check_not_done
    pl8_base.Issue.new_blocker pl8_base.Issue.put_blocker
    pl8_base.Manager.Failure.cancellation_reasons pl8_base.Manager.Failure.failed_reason_item
    pl8_base.Manager.Failure.is_failed_entry pl8_base.Manager.Failure.is_transaction_conflict
    pl8_base.Manager.Failure.raise_for_transaction_conflict
    pl8_base.Manager.Parse.isotime_from_uuid7 pl8_base.Manager.Parse.parse_item
    pl8_base.Manager.Retry.retried pl8_base.Manager.Retry.retry_loop
    pl8_base.Manager.Retry.retry_on_transaction_conflict pl8_base.Manager.Update.build_update
    pl8_base.Manager.Update.update_request pl8_base.Types.FromItem.attachment_from_item
    pl8_base.Types.FromItem.blocker_from_item pl8_base.Types.FromItem.comment_from_item
    pl8_base.Types.FromItem.issue_from_item pl8_base.Types.FromItem.space_from_item
    pl8_base.Types.Serialize.serialize_blocker pl8_base.Types.init_attachment
    pl8_base.Types.init_blocker pl8_base.Types.init_comment pl8_base.Types.init_issue
    pl8_base.Types.init_space pl8_base.Util.validate_space_id serialize_issue
add_refused = refl

add_issue_blocker-AddCause_example :
    AddCause a_space
      (codes "aaaaaa")
      a_space
      (codes "bbbbbb")
      blocking_issue_done
      (add_issue_blocker memory plain a_space
        (codes "aaaaaa")
        a_space
        (codes "bbbbbb")
        (one_issue done)).1
add_issue_blocker-AddCause_example =
    add_issue_blocker-AddCause a_space (codes "aaaaaa") a_space (codes "bbbbbb") memory plain
      (one_issue done) blocking_issue_done memory-IsDynamo add_refused

move_refused :
    (transition_issue memory plain a_space
      (codes "aaaaaa")
      (codes "DONE")
      none
      (one_issue blocked)).0
    ≡ err still_blocked
unfolding lookup pl8_base.Dynamo.isotime pl8_base.Dynamo.uuid7 pl8_base.Dynamo.write_item
    pl8_base.Errors.lift pl8_base.Errors.pure pl8_base.Errors.raise pl8_base.Errors.◌>>=◌
    pl8_base.Issue.transition_args pl8_base.Manager.Failure.cancellation_reasons
    pl8_base.Manager.Failure.is_condition_failure pl8_base.Manager.Failure.is_transaction_conflict
    pl8_base.Manager.Failure.old_item_from_exc
    pl8_base.Manager.Failure.raise_for_transaction_conflict
    pl8_base.Manager.Parse.isotime_from_uuid7 pl8_base.Manager.Parse.parse_item
    pl8_base.Manager.Retry.retried pl8_base.Manager.Retry.retry_loop
    pl8_base.Manager.Retry.retry_on_transaction_conflict pl8_base.Manager.Update.apply_update
    pl8_base.Manager.Update.build_update pl8_base.Manager.Update.update_request
    pl8_base.Types.FromItem.attachment_from_item pl8_base.Types.FromItem.blocker_from_item
    pl8_base.Types.FromItem.comment_from_item pl8_base.Types.FromItem.issue_from_item
    pl8_base.Types.FromItem.space_from_item pl8_base.Types.init_attachment
    pl8_base.Types.init_blocker pl8_base.Types.init_comment pl8_base.Types.init_issue
    pl8_base.Types.init_space pl8_base.Util.validate_issue_status pl8_base.Util.validate_space_id
    serialize_issue transition_issue
move_refused = refl

transition_issue-TransitionCause_example :
    TransitionCause memory plain a_space
      (codes "aaaaaa")
      none
      still_blocked
      (transition_issue memory plain a_space
        (codes "aaaaaa")
        (codes "DONE")
        none
        (one_issue blocked)).1
transition_issue-TransitionCause_example =
    transition_issue-TransitionCause memory plain a_space (codes "aaaaaa") none (codes "DONE")
      (one_issue blocked) still_blocked memory-IsDynamo move_refused

comment_refused :
    (create_issue_comment memory plain a_space
      (codes "aaaaaa")
      (codes "hello")
      (codes "ann")
      empty).0
    ≡ err missing
unfolding create_issue_comment lookup pl8_base.Comment.new_comment pl8_base.Comment.put_comment
    pl8_base.Dynamo.isotime pl8_base.Dynamo.transact_write_items pl8_base.Dynamo.uuid7
    pl8_base.Errors.lift pl8_base.Errors.pure pl8_base.Errors.raise pl8_base.Errors.◌>>=◌
    pl8_base.Issue.issue_num_comments_update pl8_base.Manager.Failure.cancellation_reasons
    pl8_base.Manager.Failure.failed_reason_item pl8_base.Manager.Failure.is_failed_entry
    pl8_base.Manager.Failure.is_transaction_conflict
    pl8_base.Manager.Failure.raise_for_transaction_conflict
    pl8_base.Manager.Parse.isotime_from_uuid7 pl8_base.Manager.Parse.parse_item
    pl8_base.Manager.Retry.retried pl8_base.Manager.Retry.retry_loop
    pl8_base.Manager.Retry.retry_on_transaction_conflict
    pl8_base.Types.FromItem.attachment_from_item pl8_base.Types.FromItem.blocker_from_item
    pl8_base.Types.FromItem.comment_from_item pl8_base.Types.FromItem.issue_from_item
    pl8_base.Types.FromItem.space_from_item pl8_base.Types.Serialize.serialize_comment
    pl8_base.Types.init_attachment pl8_base.Types.init_blocker pl8_base.Types.init_comment
    pl8_base.Types.init_issue pl8_base.Types.init_space pl8_base.Util.validate_creator
    pl8_base.Util.validate_space_id
comment_refused = refl

create_issue_comment-CommentCause_example :
    CommentCause memory plain memory-IsDynamo a_space
      (codes "aaaaaa")
      missing
      (create_issue_comment memory plain a_space
        (codes "aaaaaa")
        (codes "hello")
        (codes "ann")
        empty).1
create_issue_comment-CommentCause_example =
    create_issue_comment-CommentCause memory plain memory-IsDynamo a_space (codes "aaaaaa")
      (codes "hello") (codes "ann") empty missing comment_refused

delete_refused : (delete_issue memory plain a_space (codes "aaaaaa") empty).0 ≡ err missing
unfolding delete_issue lookup pl8_base.Dynamo.transact_write_items pl8_base.Errors.◌>>=◌
    pl8_base.Issue.delete_issue_info pl8_base.Manager.Failure.failed_reason_item
    pl8_base.Manager.Failure.is_failed_entry pl8_base.Manager.Failure.is_transaction_conflict
    pl8_base.Manager.Failure.raise_for_transaction_conflict pl8_base.Manager.Parse.parse_item
    pl8_base.Manager.Retry.retried pl8_base.Space.space_issue_count_update
    pl8_base.Util.validate_space_id
delete_refused = refl

-- There is neither the Issue nor its Space.
delete_issue-MissingCause_example :
    MissingCause
      (issue_info_key a_space (codes "aaaaaa"))
      (space_info_key a_space)
      missing
      (delete_issue memory plain a_space (codes "aaaaaa") empty).1
delete_issue-MissingCause_example =
    delete_issue-MissingCause memory plain memory-IsDynamo a_space (codes "aaaaaa") empty missing
      delete_refused
