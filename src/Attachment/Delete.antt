-- ===== src/Attachment/Delete.antt =====
-- delete_attachment_with_counters and delete_issue_attachment, and handle_issue_attachment_deleted.
use pl8_base.Base.{
  ℕ, zero, suc, Bool, true, false, Option, none, some, List, [], ◌∷◌, get_elem?, if◌then◌else◌,
}
use pl8_base.Base.Int.{negsuc}
use pl8_base.Base.Text.{Text}
use pl8_base.Errors.{
  internal, storage_internal, python_error, Exec, pure, raise, lift, catch_missing, ◌>>=◌, ◌>>◌,
}
use pl8_base.Dynamo.{Write, Client, Reply, replied, client_error, botocore_error}
use pl8_base.Types.{Gzip, IssueAttachment, is_uploaded, attachment_key, attachment_s3_key}
use pl8_base.Util.{str, validate_space_id}
use pl8_base.Manager.Parse.{BaseObject, issue_attachment}
use pl8_base.Manager.Failure.{get_primary_item}
use pl8_base.Issue.{apply_idempotent_transaction}
use pl8_base.Storage.{Storage, delete_object}
use pl8_base.Attachment.Requests.{
  CounterName, issue_counter, comment_counter, attachment_counter_updates, uncount_items, own_key,
  pending_attachment_delete,
}
use pl8_base.Attachment.Signing.{require_storage}
use pl8_base.Attachment.Upload.{validate_uuid7}

-- ATTACHMENT_DELETE_ATTEMPTS
abbrev pub attachment_delete_attempts : ℕ
attachment_delete_attempts = 4

-- What an attempt on an UPLOADED row comes to: the row is gone, or a counter's row is.
pub data Uncounted : Type 0 where
  row_gone : Uncounted
  counter_gone : CounterName → Uncounted
  no_such_entry : Uncounted

abbrev pub gone_entry : Option (CounterName × Write) → Uncounted
gone_entry none = no_such_entry
gone_entry (some (name, _)) = counter_gone name

-- `applied or failed_index == 0`, and `counters[failed_index - 1][0]`.
abbrev pub uncounted : List (CounterName × Write) → Bool → Option ℕ → Uncounted
uncounted counters true failed_index = row_gone
uncounted counters false none = no_such_entry
uncounted counters false (some zero) = row_gone
uncounted counters false (some (suc i)) = gone_entry (get_elem? counters i)

module _ (c : Client) (z : Gzip) where
  -- The row as it is read again, where a PENDING delete was refused; `none` where it is gone.
  abbrev pub reread : IssueAttachment → Exec c.State (Option (Option BaseObject))
  reread x = catch_missing (get_primary_item c z (own_key x))

  -- The end, or once more without the counter whose row is gone.
  abbrev pub drop_counter :
      (Bool → Bool → Exec c.State (Unit {0})) → Bool → Bool → Uncounted → Exec c.State (Unit {0})
  drop_counter again with_issue with_comment row_gone = pure tt
  drop_counter again with_issue with_comment (counter_gone issue_counter) = again false with_comment
  drop_counter again with_issue with_comment (counter_gone comment_counter) = again with_issue false
  drop_counter again with_issue with_comment no_such_entry = raise python_error

  abbrev pub go_round :
      (IssueAttachment → Exec c.State (Unit {0}))
      → Option (Option BaseObject)
      → Exec c.State (Unit {0})
  go_round again none = pure tt
  go_round again (some (some (issue_attachment y))) = again y
  go_round again (some _) = raise python_error

  -- The loop of delete_attachment_with_counters, with the attempts that are left.
  unfoldable pub delete_ladder : ℕ → IssueAttachment → Bool → Bool → Exec c.State (Unit {0})
  delete_ladder zero x with_issue with_comment = raise internal
  delete_ladder (suc n) x with_issue with_comment =
      if is_uploaded x.status
      then (do
        applied ←
            apply_idempotent_transaction c z
              (uncount_items x (attachment_counter_updates x (negsuc 0) with_issue with_comment))
        drop_counter (delete_ladder n x) with_issue with_comment (
            uncounted (attachment_counter_updates x (negsuc 0) with_issue with_comment) applied.0
              applied.1))
      else (do
        applied ← apply_idempotent_transaction c z (pending_attachment_delete x ∷ [])
        if applied.0 then pure tt else (do
          again ← reread x
          go_round (λ y. delete_ladder n y with_issue with_comment) again))

  unfoldable pub delete_attachment_with_counters :
      IssueAttachment → Bool → Bool → Exec c.State (Unit {0})
  delete_attachment_with_counters = delete_ladder attachment_delete_attempts

  -- delete_attachment_with_counters on what was read, which only an attachment passes.
  abbrev pub delete_item_with_counters : Option BaseObject → Exec c.State (Unit {0})
  delete_item_with_counters (some (issue_attachment x)) =
      delete_attachment_with_counters x true true
  delete_item_with_counters _ = raise python_error

  unfoldable pub delete_issue_attachment : Text → Text → Text → Exec c.State (Unit {0})
  delete_issue_attachment space_id issue_id attachment_id = do
    lift (validate_space_id (str space_id))
    item ← get_primary_item c z (attachment_key space_id issue_id attachment_id)
    delete_item_with_counters item

  module _ (storage : Option (Storage c.State)) where
    abbrev pub on_delete_object : Reply (Unit {0}) → Exec c.State (Unit {0})
    on_delete_object (replied _) = pure tt
    on_delete_object (client_error _) = raise storage_internal
    on_delete_object botocore_error = raise storage_internal

    unfoldable pub handle_issue_attachment_deleted : Text → Text → Text → Exec c.State (Unit {0})
    handle_issue_attachment_deleted space_id issue_id attachment_id = do
      lift (validate_space_id (str space_id))
      lift (validate_uuid7 c z attachment_id)
      st ← require_storage storage
      reply ← delete_object st (attachment_s3_key space_id issue_id attachment_id)
      on_delete_object reply
