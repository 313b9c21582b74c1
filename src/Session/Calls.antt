-- ===== src/Session/Calls.antt =====
-- Calls of the operations that write, and sessions of them.
use pl8_base.Base.{ℕ, Bool, true, not, ◌&&◌, Option, List, [], ◌∷◌}
use pl8_base.Base.Int.{ℤ}
use pl8_base.Base.Text.{Text, contains}
use pl8_base.Errors.{Exec}
use pl8_base.Dynamo.{Client}
use pl8_base.Types.{Gzip, IssueBlocker}
use pl8_base.Space.{create_space, update_space, delete_space}
use pl8_base.Issue.{
  create_issue, update_issue, transition_issue, delete_issue, add_issue_blocker,
  delete_issue_blocker, handle_issue_num_active_blockers_zeroed, satisfy_issue_blocker,
  delete_blocker_for_sweep,
}
use pl8_base.Comment.{create_issue_comment, update_issue_comment, delete_issue_comment}
use pl8_base.Attachment.{
  initiate_issue_attachment_upload, confirm_issue_attachment_uploaded, delete_issue_attachment,
  handle_issue_attachment_deleted,
}
use pl8_base.Storage.{Storage}
use pl8_base.Util.{Codec}
use pl8_base.Handlers.{handle_issue_done, handle_issue_deleted, handle_issue_comment_deleted}
use pl8_base.Handlers.Stored.{is_stored_blocker}

pub data Call : Type 0 where
  call_create_space : Text → Text → Text → Text → Call
  call_update_space : Text → Option Text → Option Text → Option ℤ → Call
  call_delete_space : Text → Call
  call_create_issue : Text → Text → Text → Text → Text → Call
  call_update_issue : Text → Text → Option Text → Option Text → Option ℤ → Call
  call_transition_issue : Text → Text → Text → Option ℤ → Call
  call_delete_issue : Text → Text → Call
  call_add_issue_blocker : Text → Text → Text → Text → Call
  call_delete_issue_blocker : Text → Text → Text → Text → Call
  call_handle_zeroed : Text → Text → Call
  call_satisfy_issue_blocker : IssueBlocker → Text → Text → Call
  call_delete_blocker_for_sweep : IssueBlocker → Call
  call_create_issue_comment : Text → Text → Text → Text → Call
  call_update_issue_comment : Text → Text → Text → Text → Option ℤ → Call
  call_delete_issue_comment : Text → Text → Text → Call
  call_initiate_upload : Text → Text → Text → Text → ℤ → Text → Option Text → Call
  call_confirm_uploaded : Text → Text → Text → Call
  call_delete_issue_attachment : Text → Text → Text → Call
  call_handle_attachment_deleted : Text → Text → Text → Call
  call_handle_issue_done : Text → Text → Call
  call_handle_issue_deleted : Text → Text → Call
  call_handle_comment_deleted : Text → Text → Text → Call

-- What a call's blocker argument, which a query read, has to be.
abbrev pub is_fit : Call → Bool
is_fit (call_satisfy_issue_blocker x sp id) = is_stored_blocker x && not (contains b'#' sp)
is_fit (call_delete_blocker_for_sweep x) = is_stored_blocker x
is_fit _ = true

-- `pages` bounds the pages that a loop of a handler reads.
module _ (c : Client) (z : Gzip) (storage : Option (Storage c.State)) (j : Codec) (pages : ℕ) where
  -- The state after an action, whatever it returned or raised.
  abbrev after : {A : Type 0} → Exec c.State A → c.State → c.State
  after m s = (m s).1

  abbrev pub run_call : Call → c.State → c.State
  run_call (call_create_space a b e f) = after (create_space c z a b e f)
  run_call (call_update_space a b e f) = after (update_space c z a b e f)
  run_call (call_delete_space a) = after (delete_space c z a)
  run_call (call_create_issue a b e f g) = after (create_issue c z a b e f g)
  run_call (call_update_issue a b e f g) = after (update_issue c z a b e f g)
  run_call (call_transition_issue a b e f) = after (transition_issue c z a b e f)
  run_call (call_delete_issue a b) = after (delete_issue c z a b)
  run_call (call_add_issue_blocker a b e f) = after (add_issue_blocker c z a b e f)
  run_call (call_delete_issue_blocker a b e f) = after (delete_issue_blocker c z a b e f)
  run_call (call_handle_zeroed a b) = after (handle_issue_num_active_blockers_zeroed c z a b)
  run_call (call_satisfy_issue_blocker a b e) = after (satisfy_issue_blocker c z a b e)
  run_call (call_delete_blocker_for_sweep a) = after (delete_blocker_for_sweep c z a)
  run_call (call_create_issue_comment a b e f) = after (create_issue_comment c z a b e f)
  run_call (call_update_issue_comment a b e f g) = after (update_issue_comment c z a b e f g)
  run_call (call_delete_issue_comment a b e) = after (delete_issue_comment c z a b e)
  run_call (call_initiate_upload a b e f g h i) =
      after (initiate_issue_attachment_upload c z storage a b e f g h i)
  run_call (call_confirm_uploaded a b e) =
      after (confirm_issue_attachment_uploaded c z storage a b e)
  run_call (call_delete_issue_attachment a b e) = after (delete_issue_attachment c z a b e)
  run_call (call_handle_attachment_deleted a b e) =
      after (handle_issue_attachment_deleted c z storage a b e)
  run_call (call_handle_issue_done a b) = after (handle_issue_done c z j pages a b)
  run_call (call_handle_issue_deleted a b) = after (handle_issue_deleted c z j pages a b)
  run_call (call_handle_comment_deleted a b e) =
      after (handle_issue_comment_deleted c z j pages a b e)

  -- The calls one after another, each with what the ones before left.
  abbrev pub run_calls : List Call → c.State → c.State
  run_calls [] s = s
  run_calls (a ∷ calls) s = run_calls calls (run_call a s)
