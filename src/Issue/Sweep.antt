-- ===== src/Issue/Sweep.antt =====
-- apply_idempotent_transaction, delete_row (manager.py), and the steps that the sweeps repeat.
use pl8_base.Base.{
  ℕ, zero, suc, ◌+◌, Bool, true, false, Option, none, some, List, length, if◌then◌else◌,
}
use pl8_base.Base.Text.{Text}
use pl8_base.Errors.{internal, Exec, pure, raise, ◌>>=◌, ◌>>◌}
use pl8_base.Dynamo.{
  Item, Key, Write, Client, ClientError, Reply, replied, client_error, botocore_error, write_item,
  transact_write_items,
}
use pl8_base.Types.{Gzip, IssueBlocker}
use pl8_base.Types.Serialize.{serialized_pk}
use pl8_base.Manager.Failure.{
  raise_for_transaction_conflict, failed_reason_item, is_condition_failure,
}
use pl8_base.Manager.Retry.{retried}
use pl8_base.Manager.Update.{build_update}
use pl8_base.Issue.Writes.{
  satisfy_items, active_delete_items, release_args, satisfied_args, row_delete,
}

module _ (c : Client) (z : Gzip) where
  -- `for index in range(len(items))` from `index` on, with the entries that are left.
  unfoldable pub first_failed : ClientError → ℕ → ℕ → Exec c.State (Bool × Option ℕ)
  first_failed exc index zero = raise internal
  first_failed exc index (suc left) = do
    entry ← failed_reason_item c z exc index
    if entry.0 then pure (false, some index) else first_failed exc (index + 1) left

  abbrev pub on_idempotent : List Write → Reply (Unit {0}) → Exec c.State (Bool × Option ℕ)
  on_idempotent items (replied _) = pure (true, none)
  on_idempotent items (client_error exc) = do
    raise_for_transaction_conflict c z exc
    first_failed exc 0 (length items)
  on_idempotent items botocore_error = raise internal

  unfoldable pub apply_idempotent_transaction : List Write → Exec c.State (Bool × Option ℕ)
  apply_idempotent_transaction items =
      retried c do reply ← transact_write_items c items; on_idempotent items reply

  abbrev pub on_delete_row : Reply (Option Item) → Exec c.State (Unit {0})
  on_delete_row (replied _) = pure tt
  on_delete_row (client_error exc) = do
    raise_for_transaction_conflict c z exc
    if is_condition_failure exc then pure tt else raise internal
  on_delete_row botocore_error = raise internal

  unfoldable pub delete_row : Key → Exec c.State (Unit {0})
  delete_row key = retried c do reply ← write_item c (row_delete key); on_delete_row reply

  unfoldable pub satisfy_issue_blocker : IssueBlocker → Text → Text → Exec c.State (Unit {0})
  satisfy_issue_blocker x space_id issue_id = do
    mark ← build_update c z (satisfied_args (serialized_pk x.pk x.sk))
    release ← build_update c z (release_args x.blocked_issue_space_id x.blocked_issue_id)
    apply_idempotent_transaction (satisfy_items space_id issue_id mark release)
    pure tt

  -- The decrementing form, for a blocker that was active when it was read.
  abbrev pub sweep_active : IssueBlocker → Exec c.State Bool
  sweep_active x = do
    release ← build_update c z (release_args x.blocked_issue_space_id x.blocked_issue_id)
    applied ← apply_idempotent_transaction (active_delete_items (serialized_pk x.pk x.sk) release)
    pure applied.0

  unfoldable pub delete_blocker_for_sweep : IssueBlocker → Exec c.State (Unit {0})
  delete_blocker_for_sweep x = do
    applied ← (if x.is_blocking_issue_done then pure false else sweep_active x)
    if applied then pure tt else delete_row (serialized_pk x.pk x.sk)
