-- ===== src/Session/Steps.antt =====
-- A call keeps what every list of writes that is sent keeps.
use pl8_base.Base.{ℕ, Bool, ◌≡◌, refl, true, Option, List, [], ◌∷◌, all, arith}
use pl8_base.Base.Text.{text_eq_iff}
use pl8_base.Dynamo.{Table, Client}
use pl8_base.Dynamo.Documented.{IsDynamo}
use pl8_base.Types.{IssueAttachment, Gzip, IssueBlocker, init_blocker, blocker_sk}
use pl8_base.Types.Serialize.{serialized_pk}
use pl8_base.Manager.Keeps.{WritesKeep}
use pl8_base.Issue.{new_blocker}
use pl8_base.Comment.Made.{new_comment-key}
use pl8_base.Space.Steps.{Keeps-create_space, Keeps-update_space, Keeps-delete_space}
use pl8_base.Issue.Steps.{
  Keeps-create_issue, Keeps-update_issue, Keeps-transition_issue, Keeps-delete_issue,
}
use pl8_base.Issue.BlockerSteps.{
  Keeps-add_issue_blocker, Keeps-delete_issue_blocker, Keeps-handle_zeroed,
  Keeps-satisfy_issue_blocker, Keeps-delete_blocker_for_sweep,
}
use pl8_base.Comment.Steps.{
  Keeps-create_issue_comment, Keeps-update_issue_comment, Keeps-delete_issue_comment,
}
use pl8_base.Attachment.{attachment_counter_updates, uncount_items, pending_attachment_delete}
use pl8_base.Attachment.Made.{new_attachment-key}
use pl8_base.Attachment.StorageSteps.{Quiet}
use pl8_base.Attachment.Steps.{
  Keeps-initiate_issue_attachment_upload, Keeps-confirm_issue_attachment_uploaded,
}
use pl8_base.Attachment.DeleteSteps.{
  Keeps-delete_issue_attachment, Keeps-handle_issue_attachment_deleted,
}
use pl8_base.Storage.{Storage}
use pl8_base.Util.{Codec}
use pl8_base.Base.Int.{negsuc}
use pl8_base.Handlers.Stored.{is_stored_blocker, ReadsStored}
use pl8_base.Handlers.Steps.{
  stored_blocker-part_key, Keeps-handle_issue_done, Keeps-handle_issue_deleted,
  Keeps-handle_issue_comment_deleted,
}
use pl8_base.Session.Requests.{
  NoHash, Sent, writes, space_created, space_updated, space_deleted, issue_created, issue_updated,
  issue_moved, issue_deleted, blocker_added, active_deleted, satisfied_deleted, blocker_satisfied,
  issue_unblocked, row_swept, attachment_created, attachment_confirmed, attachment_uncounted,
  attachment_dropped, comment_created, comment_updated, comment_deleted,
}
use pl8_base.Session.Calls.{
  Call, is_fit, call_initiate_upload, call_confirm_uploaded, call_delete_issue_attachment,
  call_handle_attachment_deleted, call_handle_issue_done, call_handle_issue_deleted,
  call_handle_comment_deleted, run_call, run_calls, call_create_space, call_update_space,
  call_delete_space, call_create_issue, call_update_issue, call_transition_issue, call_delete_issue,
  call_add_issue_blocker, call_delete_issue_blocker, call_handle_zeroed, call_satisfy_issue_blocker,
  call_delete_blocker_for_sweep, call_create_issue_comment, call_update_issue_comment,
  call_delete_issue_comment,
}

module _ (c : Client) (z : Gzip) (storage : Option (Storage c.State)) (j : Codec) (pages : ℕ)
    (d : IsDynamo c) (quiet : Quiet c storage) (reads : ReadsStored c z j) {P : Table → Type 0}
    (sent : (q : Sent) → WritesKeep P (writes c z q)) where
  module _ (x : IssueBlocker) (stored : is_stored_blocker x ≡ true) where
    stored_key :
        (serialized_pk x.pk x.sk).sk ≡ blocker_sk x.blocked_issue_space_id x.blocked_issue_id
    stored_key =
        (text_eq_iff (serialized_pk x.pk x.sk).sk
            (blocker_sk x.blocked_issue_space_id x.blocked_issue_id)).0
          (ground arith)

    stored-NoHash : NoHash x.blocked_issue_space_id
    stored-NoHash = ground arith

  uncount :
      (x : IssueAttachment) (wi wc : Bool)
      → WritesKeep P (uncount_items x (attachment_counter_updates x (negsuc 0) wi wc))
  uncount x wi wc = sent (attachment_uncounted x wi wc)

  drop : (x : IssueAttachment) → WritesKeep P (pending_attachment_delete x ∷ [])
  drop x = sent (attachment_dropped x)

  run_call-keeps :
      (a : Call) (s : c.State)
      → is_fit a ≡ true
      → P (c.table s)
      → P (c.table (run_call c z storage j pages a s))
  unfolding new_blocker init_blocker
  run_call-keeps (call_create_space sp name description creator) s h p =
      (Keeps-create_space c z d sp name description creator
          (λ now n. sent (space_created now sp name description creator n))).at
        s p
  run_call-keeps (call_update_space sp name description version) s h p =
      (Keeps-update_space c z d sp name description version
          (λ now n. sent (space_updated now sp name description version n))).at
        s p
  run_call-keeps (call_delete_space sp) s h p =
      (Keeps-delete_space c z d sp (λ n. sent (space_deleted sp n))).at s p
  run_call-keeps (call_create_issue sp title description status creator) s h p =
      (Keeps-create_issue c z d sp title description creator status
          (λ now id st n. sent (issue_created now id st sp title description creator n))).at
        s p
  run_call-keeps (call_update_issue sp id title description version) s h p =
      (Keeps-update_issue c z d sp id title description version
          (λ now n. sent (issue_updated now sp id title description version n))).at
        s p
  run_call-keeps (call_transition_issue sp id status version) s h p =
      (Keeps-transition_issue c z d sp id status version
          (λ read_at now st n. sent (issue_moved read_at now st sp id version n))).at
        s p
  run_call-keeps (call_delete_issue sp id) s h p =
      (Keeps-delete_issue c z d sp id (λ n. sent (issue_deleted sp id n))).at s p
  run_call-keeps (call_add_issue_blocker sp1 id1 sp2 id2) s h p =
      (Keeps-add_issue_blocker c z d sp1 id1 sp2 id2 (λ created now1 now2 n1 n2 other.
          sent (blocker_added created now1 now2 sp1 id1 sp2 id2 n1 n2 other))).at
        s p
  run_call-keeps (call_delete_issue_blocker sp1 id1 sp2 id2) s h p =
      (Keeps-delete_issue_blocker c z d sp1 id1 sp2 id2
          (λ created now n. sent (active_deleted now _ sp2 id2 n refl))
          (λ created n. sent (satisfied_deleted _ sp2 id2 n refl))).at
        s p
  run_call-keeps (call_handle_zeroed sp id) s h p =
      (Keeps-handle_zeroed c z d sp id
          (λ read_at now n. sent (issue_unblocked read_at now sp id n))).at
        s p
  run_call-keeps (call_satisfy_issue_blocker x sp id) s h p =
      let stored : is_stored_blocker x ≡ true = ground arith in
      (Keeps-satisfy_issue_blocker c z d x sp id (λ now1 now2. sent (
          blocker_satisfied now1 now2 (serialized_pk x.pk x.sk) sp id x.blocked_issue_space_id
            x.blocked_issue_id (ground arith) (stored-NoHash x stored) (stored_key x stored)))).at
        s p
  run_call-keeps (call_delete_blocker_for_sweep x) s h p =
      (Keeps-delete_blocker_for_sweep c z d x
          (λ now. sent (active_deleted now _ _ _ (stored-NoHash x h) (stored_key x h)))
          (sent (row_swept _ (stored_blocker-part_key x h)))).at
        s p
  run_call-keeps (call_create_issue_comment sp id body creator) s h p =
      (Keeps-create_issue_comment c z d sp id body creator (λ new_id x n made. sent (
          comment_created sp id new_id x n
            (new_comment-key _ new_id sp id body creator x made)))).at
        s p
  run_call-keeps (call_update_issue_comment sp id comment_id body version) s h p =
      (Keeps-update_issue_comment c z d sp id comment_id body version
          (λ now n. sent (comment_updated now sp id comment_id body version n))).at
        s p
  run_call-keeps (call_delete_issue_comment sp id comment_id) s h p =
      (Keeps-delete_issue_comment c z d sp id comment_id
          (λ n. sent (comment_deleted sp id comment_id n))).at
        s p
  run_call-keeps (call_initiate_upload sp id name content_type size creator link) s h p =
      (Keeps-initiate_issue_attachment_upload c z d storage quiet sp id name content_type size
          creator link
          (λ uuid seconds x n made. sent (
            attachment_created sp id uuid link x n (
              new_attachment-key _ uuid seconds sp id name content_type size creator link x
                made)))).at
        s p
  run_call-keeps (call_confirm_uploaded sp id aid) s h p =
      (Keeps-confirm_issue_attachment_uploaded c z d storage quiet sp id aid
          (λ updated_at now link size content_type n.
            sent (attachment_confirmed updated_at now sp id aid link size content_type n))).at
        s p
  run_call-keeps (call_delete_issue_attachment sp id aid) s h p =
      (Keeps-delete_issue_attachment c z d uncount drop sp id aid).at s p
  run_call-keeps (call_handle_attachment_deleted sp id aid) s h p =
      (Keeps-handle_issue_attachment_deleted c z d {P = P} storage quiet sp id aid).at s p
  run_call-keeps (call_handle_issue_done sp id) s h p =
      (Keeps-handle_issue_done c z j pages d reads sp id λ x now1 now2 n stored. sent (
          blocker_satisfied now1 now2 (serialized_pk x.pk x.sk) sp id x.blocked_issue_space_id
            x.blocked_issue_id n (stored-NoHash x stored) (stored_key x stored))).at
        s p
  run_call-keeps (call_handle_issue_deleted sp id) s h p =
      (Keeps-handle_issue_deleted c z j pages d reads uncount drop
          (λ x now stored.
            sent (active_deleted now _ _ _ (stored-NoHash x stored) (stored_key x stored)))
          (λ key part. sent (row_swept key part)) sp id).at
        s p
  run_call-keeps (call_handle_comment_deleted sp id comment_id) s h p =
      (Keeps-handle_issue_comment_deleted c z j pages d reads uncount drop sp id comment_id).at s p

  pub run_calls-keeps :
      (calls : List Call) (s : c.State)
      → all is_fit calls ≡ true
      → P (c.table s)
      → P (c.table (run_calls c z storage j pages calls s))
  run_calls-keeps [] s h p = p
  run_calls-keeps (a ∷ calls) s h p =
      run_calls-keeps calls (run_call c z storage j pages a s) (ground arith)
        (run_call-keeps a s (ground arith) p)
