-- ===== src/Counts/Attachments.antt =====
-- The requests of the attachment operations move no Space's issue_count.
use pl8_base.Base.{◌≡◌, refl, Bool, true, false, Option, none, some, [], ◌∷◌, ◌++◌, all, arith}
use pl8_base.Base.Int.{ℤ, negsuc}
use pl8_base.Base.Text.{Text}
use pl8_base.Types.{IssueAttachment, attachment_key}
use pl8_base.Types.Serialize.{serialized_pk}
use pl8_base.Manager.Update.{update_request}
use pl8_base.Issue.{issue_num_attachments_update}
use pl8_base.Attachment.{
  comment_num_attachments_update, check_exists, put_attachment, upload_items, confirm_args,
  confirm_items, attachment_counter_updates, uploaded_attachment_delete, pending_attachment_delete,
  uncount_items, entries, issue_counters, comment_counters,
}
use pl8_base.Counts.Elsewhere.{is_elsewhere}

module _ (sp id : Text) where
  pub upload_elsewhere :
      (attachment_id : Text) (link : Option Text) (x : IssueAttachment)
      → serialized_pk x.pk x.sk ≡ attachment_key sp id attachment_id
      → all is_elsewhere (upload_items sp id link x) ≡ true
  unfolding is_elsewhere check_exists put_attachment
  upload_elsewhere attachment_id none x made = ground arith
  upload_elsewhere attachment_id (some comment_id) x made = ground arith

  pub confirm_elsewhere :
      (updated_at now attachment_id : Text) (link : Option Text) (size : ℤ) (content_type : Text)
      → all is_elsewhere (
          confirm_items sp id link
            (update_request now (confirm_args updated_at sp id attachment_id size content_type)))
        ≡ true
  unfolding is_elsewhere update_request confirm_args issue_num_attachments_update
      comment_num_attachments_update
  confirm_elsewhere updated_at now attachment_id none size content_type = refl
  confirm_elsewhere updated_at now attachment_id (some comment_id) size content_type = refl

counters_elsewhere :
    (sp id : Text) (link : Option Text) (wi wc : Bool)
    → all is_elsewhere
        (entries (issue_counters wi sp id (negsuc 0) ++ comment_counters wc sp id link (negsuc 0)))
      ≡ true
unfolding is_elsewhere issue_num_attachments_update comment_num_attachments_update
counters_elsewhere sp id link false false = refl
counters_elsewhere sp id link true false = refl
counters_elsewhere sp id none false true = refl
counters_elsewhere sp id none true true = refl
counters_elsewhere sp id (some comment_id) false true = refl
counters_elsewhere sp id (some comment_id) true true = refl

pub uncount_elsewhere :
    (x : IssueAttachment) (wi wc : Bool)
    → all is_elsewhere (uncount_items x (attachment_counter_updates x (negsuc 0) wi wc)) ≡ true
unfolding is_elsewhere uploaded_attachment_delete attachment_counter_updates
uncount_elsewhere x wi wc = counters_elsewhere x.space_id x.issue_id x.comment_id wi wc

pub drop_elsewhere :
    (x : IssueAttachment) → all is_elsewhere (pending_attachment_delete x ∷ []) ≡ true
unfolding is_elsewhere pending_attachment_delete
drop_elsewhere x = refl
