-- ===== src/Handlers.antt =====
-- The event handlers that sweep over pages: handle_issue_done, handle_issue_deleted and
-- handle_issue_comment_deleted.
pub mod Stored
pub mod Steps
use pl8_base.Base.{ℕ, Bool, true, false, ◌&&◌, Option, none, some, if◌then◌else◌}
use pl8_base.Base.Text.{Text, text_eq}
use pl8_base.Errors.{internal, python_error, Exec, pure, raise, lift, ◌>>=◌, ◌>>◌}
use pl8_base.Dynamo.{Client}
use pl8_base.Types.{Gzip}
use pl8_base.Types.Serialize.{serialized_pk}
use pl8_base.Util.{Codec, str, validate_space_id}
use pl8_base.Manager.Parse.{
  BaseObject, space_info, issue_info, issue_comment, issue_attachment, issue_blocker,
}
use pl8_base.Manager.Paginate.{Progress, finished, stopped, unfinished, paginate}
use pl8_base.Issue.{delete_row, satisfy_issue_blocker, delete_blocker_for_sweep}
use pl8_base.Attachment.{delete_attachment_with_counters}
use pl8_base.Paged.{get_issue_blocking, get_issue_partition, get_issue_blockers}

-- The key that delete_row serializes.
abbrev pub object_key : BaseObject → pl8_base.Dynamo.Key
object_key (space_info x) = serialized_pk x.pk x.sk
object_key (issue_info x) = serialized_pk x.pk x.sk
object_key (issue_comment x) = serialized_pk x.pk x.sk
object_key (issue_attachment x) = serialized_pk x.pk x.sk
object_key (issue_blocker x) = serialized_pk x.pk x.sk

abbrev pub is_linked_to : Text → Option Text → Bool
is_linked_to comment_id none = false
is_linked_to comment_id (some id) = text_eq id comment_id

-- `pages` bounds the pages that each loop reads.
module _ (c : Client) (z : Gzip) (j : Codec) (pages : ℕ) where
  -- Only a blocker has is_blocking_issue_done.
  abbrev pub satisfy_item : Text → Text → BaseObject → Exec c.State Bool
  satisfy_item space_id issue_id (issue_blocker x) =
      if x.is_blocking_issue_done
      then pure true
      else (do satisfy_issue_blocker c z x space_id issue_id; pure true)
  satisfy_item space_id issue_id _ = raise python_error

  unfoldable pub handle_issue_done : Text → Text → Exec c.State Progress
  handle_issue_done space_id issue_id = do
    lift (validate_space_id (str space_id))
    paginate (satisfy_item space_id issue_id) (get_issue_blocking c z j space_id issue_id (some 50))
        pages none

  -- An info row ends the sweep; a row of another kind is refused.
  abbrev pub sweep_item : BaseObject → Exec c.State Bool
  sweep_item (issue_info _) = pure false
  sweep_item (issue_blocker x) = do delete_blocker_for_sweep c z x; pure true
  sweep_item (issue_attachment x) = do delete_attachment_with_counters c z x false true; pure true
  sweep_item (issue_comment x) = do delete_row c z (object_key (issue_comment x)); pure true
  sweep_item (space_info _) = raise internal

  abbrev pub sweep_blocker : BaseObject → Exec c.State Bool
  sweep_blocker x = do delete_row c z (object_key x); pure true

  -- A sweep that a `return` ended is at its end.
  abbrev pub sweep_blockers : Text → Text → Progress → Exec c.State Progress
  sweep_blockers space_id issue_id finished =
      paginate sweep_blocker (get_issue_blockers c z j space_id issue_id (some 50)) pages none
  sweep_blockers space_id issue_id stopped = pure finished
  sweep_blockers space_id issue_id unfinished = pure unfinished

  unfoldable pub handle_issue_deleted : Text → Text → Exec c.State Progress
  handle_issue_deleted space_id issue_id = do
    lift (validate_space_id (str space_id))
    progress ← paginate sweep_item (get_issue_partition c z j space_id issue_id none) pages none
    sweep_blockers space_id issue_id progress

  abbrev pub unlink_item : Text → BaseObject → Exec c.State Bool
  unlink_item comment_id (issue_attachment x) =
      if is_linked_to comment_id x.comment_id
      then (do delete_attachment_with_counters c z x true false; pure true)
      else pure true
  unlink_item comment_id _ = pure true

  unfoldable pub handle_issue_comment_deleted : Text → Text → Text → Exec c.State Progress
  handle_issue_comment_deleted space_id issue_id comment_id = do
    lift (validate_space_id (str space_id))
    paginate (unlink_item comment_id) (get_issue_partition c z j space_id issue_id none) pages none
