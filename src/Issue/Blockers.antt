-- ===== src/Issue/Blockers.antt =====
-- add_issue_blocker, delete_issue_blocker, and the single steps of the event handlers:
-- satisfy_issue_blocker and handle_issue_num_active_blockers_zeroed.
use pl8_base.Base.{◌&&◌, Option, none, some, if◌then◌else◌}
use pl8_base.Base.Text.{Text, text_eq}
use pl8_base.Errors.{
  Error, bad_args, missing, internal, already_exists, blocking_issue_done, terminal_status, Exec,
  pure, raise, lift, ◌>>=◌, ◌>>◌,
}
use pl8_base.Dynamo.{
  Item, Key, Client, Reply, replied, client_error, botocore_error, isotime, write_item,
  transact_write_items,
}
use pl8_base.Types.{Gzip, IssueBlocker}
use pl8_base.Types.Serialize.{serialized_pk}
use pl8_base.Util.{str, validate_space_id}
use pl8_base.Manager.Parse.{BaseObject}
use pl8_base.Manager.Failure.{
  raise_for_transaction_conflict, failed_reason_item, is_condition_failure,
}
use pl8_base.Manager.Retry.{retried}
use pl8_base.Manager.Update.{build_update}
use pl8_base.Issue.Writes.{
  new_blocker, add_blocker_items, active_delete_items, block_args, release_args, unblock_args,
  satisfied_blocker_delete,
}

-- Of an old item that is missing or there.
abbrev pub by_presence : Option BaseObject → Error → Error → Error
by_presence none gone there = gone
by_presence (some _) gone there = there

module _ (c : Client) (z : Gzip) where
  abbrev pub on_add_blocker : IssueBlocker → Reply (Unit {0}) → Exec c.State IssueBlocker
  on_add_blocker x (replied _) = pure x
  on_add_blocker x (client_error exc) = do
    raise_for_transaction_conflict c z exc
    blocking ← failed_reason_item c z exc 0
    if blocking.0 then raise (by_presence blocking.1 missing blocking_issue_done) else (do
      blocked ← failed_reason_item c z exc 1
      if blocked.0 then raise (by_presence blocked.1 missing terminal_status) else (do
        row ← failed_reason_item c z exc 2
        if row.0 then raise already_exists else raise internal))
  on_add_blocker x botocore_error = raise internal

  -- What add_issue_blocker does once its arguments are accepted.
  abbrev pub write_blocker : Text → Text → Text → Text → Exec c.State IssueBlocker
  write_blocker blocking_space blocking blocked_space blocked = do
    created ← isotime c
    now ← isotime c
    request ← build_update c z (block_args now blocked_space blocked)
    reply ← transact_write_items c (
        add_blocker_items blocking_space blocking request
          (new_blocker created blocking_space blocking blocked_space blocked))
    on_add_blocker (new_blocker created blocking_space blocking blocked_space blocked) reply

  unfoldable pub add_issue_blocker : Text → Text → Text → Text → Exec c.State IssueBlocker
  add_issue_blocker blocking_space blocking blocked_space blocked = retried c do
    lift (validate_space_id (str blocking_space))
    lift (validate_space_id (str blocked_space))
    if text_eq blocking_space blocked_space && text_eq blocking blocked
        then raise bad_args
        else write_blocker blocking_space blocking blocked_space blocked

  abbrev pub on_satisfied_delete : Reply (Option Item) → Exec c.State (Unit {0})
  on_satisfied_delete (replied _) = pure tt
  on_satisfied_delete (client_error exc) = do
    raise_for_transaction_conflict c z exc
    if is_condition_failure exc then raise missing else raise internal
  on_satisfied_delete botocore_error = raise internal

  -- The blocker is satisfied already, or gone.
  abbrev pub delete_satisfied : Key → Exec c.State (Unit {0})
  delete_satisfied key = do
    reply ← write_item c (satisfied_blocker_delete key)
    on_satisfied_delete reply

  abbrev pub on_active_delete : Key → Reply (Unit {0}) → Exec c.State (Unit {0})
  on_active_delete key (replied _) = pure tt
  on_active_delete key (client_error exc) = do
    raise_for_transaction_conflict c z exc
    issue ← failed_reason_item c z exc 1
    if issue.0 then raise missing else (do
      blocker ← failed_reason_item c z exc 0
      if blocker.0 then delete_satisfied key else raise internal)
  on_active_delete key botocore_error = raise internal

  -- The active form is tried first, then the bare delete.
  abbrev pub remove_blocker : Key → Text → Text → Exec c.State (Unit {0})
  remove_blocker key blocked_space blocked = do
    request ← build_update c z (release_args blocked_space blocked)
    reply ← transact_write_items c (active_delete_items key request)
    on_active_delete key reply

  unfoldable pub delete_issue_blocker : Text → Text → Text → Text → Exec c.State (Unit {0})
  delete_issue_blocker blocking_space blocking blocked_space blocked = retried c do
    lift (validate_space_id (str blocking_space))
    lift (validate_space_id (str blocked_space))
    created ← isotime c
    remove_blocker
        (let x = new_blocker created blocking_space blocking blocked_space blocked in
          serialized_pk x.pk x.sk)
        blocked_space blocked

  abbrev pub on_unblock : Reply (Option Item) → Exec c.State (Unit {0})
  on_unblock (replied _) = pure tt
  on_unblock (client_error exc) = do
    raise_for_transaction_conflict c z exc
    if is_condition_failure exc then pure tt else raise internal
  on_unblock botocore_error = raise internal

  unfoldable pub handle_issue_num_active_blockers_zeroed : Text → Text → Exec c.State (Unit {0})
  handle_issue_num_active_blockers_zeroed space_id issue_id = retried c do
    lift (validate_space_id (str space_id))
    now ← isotime c
    request ← build_update c z (unblock_args now space_id issue_id)
    reply ← write_item c request
    on_unblock reply
