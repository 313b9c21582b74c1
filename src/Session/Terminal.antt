-- ===== src/Session/Terminal.antt =====
-- DONE is terminal: no request reopens an Issue.
use pl8_base.Base.{
  ◌≡◌, refl, ap, ◌∙◌, Bool, true, false, Option, none, some, [], ◌∷◌, all, arith, ◌++◌,
}
use pl8_base.Base.Int.{ℤ, pos, negsuc}
use pl8_base.Base.Text.{Text}
use pl8_base.Dynamo.{
  Attr, Val, text, Client, Table, IsUnique, Key, lookup, is_accepted, attr_is, apply_writes,
}
use pl8_base.Dynamo.Transaction.{is_distinct, lookup-apply_writes}
use pl8_base.Types.{
  Gzip, IssueStatus, todo, blocked, in_progress, done, issue_info_key, space_info_key,
}
use pl8_base.Manager.Update.{plain_update, update_request, update_clauses}
use pl8_base.Counts.Neutral.{touches}
use pl8_base.Space.{put_space, space_issue_count_update, delete_empty_space, space_attrs}
use pl8_base.Issue.{
  status_val, transition_args, unblock_args, block_args, release_args, satisfied_args, put_issue,
  put_blocker, delete_issue_info, check_not_done, check_done, active_blocker_delete,
  satisfied_blocker_delete, row_delete, issue_attrs, issue_num_comments_update,
}
use pl8_base.Comment.{put_comment, delete_comment}
use pl8_base.Attachment.{
  attachment_status_val, confirm_args, check_exists, put_attachment, comment_num_attachments_update,
  issue_counters, comment_counters, entries, attachment_counter_updates, uploaded_attachment_delete,
  pending_attachment_delete,
}
use pl8_base.Issue.{issue_num_attachments_update}
use pl8_base.Types.{pending}
use pl8_base.Session.KeepsDone.{
  is_done_row, is_done_or_gone, KeepsDone, AllKeepDone, still_done, put_refused, row_after-done,
  untouched_update,
}
use pl8_base.Session.Requests.{
  Sent, writes, space_created, space_updated, space_deleted, issue_created, issue_updated,
  issue_moved, issue_deleted, blocker_added, active_deleted, satisfied_deleted, blocker_satisfied,
  issue_unblocked, row_swept, attachment_created, attachment_confirmed, attachment_uncounted,
  attachment_dropped, comment_created, comment_updated, comment_deleted,
}

moved :
    (read_at now sp id : Text) (st : IssueStatus) (version : Option ℤ)
    → KeepsDone (update_request now (transition_args read_at sp id st version))
unfolding update_request transition_args
moved read_at now sp id todo version o met was = ground arith
moved read_at now sp id blocked version o met was = ground arith
moved read_at now sp id in_progress version o met was = ground arith
moved read_at now sp id done version o met was = ground arith

blocked-not_done :
    (v : Option Val) → attr_is v (status_val blocked) ≡ true → attr_is v (status_val done) ≡ false
blocked-not_done none h = refl
blocked-not_done (some (text [])) h = ground arith
blocked-not_done (some (text (c ∷ s))) h = ground arith
blocked-not_done (some _) h = refl

unblocking :
    (read_at now sp id : Text) → KeepsDone (update_request now (unblock_args read_at sp id))
unfolding update_request unblock_args
unblocking read_at now sp id none met was = ground arith
unblocking read_at now sp id (some item) met was =
    ground (arith, blocked-not_done (item Attr.status))

blocking : (read_at now sp id : Text) → KeepsDone (update_request now (block_args read_at sp id))
unfolding update_request block_args
blocking read_at now sp id o met was = ground arith

pending-not_done :
    (v : Option Val)
    → attr_is v (attachment_status_val pending) ≡ true
    → attr_is v (status_val done) ≡ false
pending-not_done none h = refl
pending-not_done (some (text [])) h = ground arith
pending-not_done (some (text (c ∷ s))) h = ground arith
pending-not_done (some _) h = refl

-- The update of confirm asks for a PENDING row.
confirmed_row :
    (updated_at now sp id attachment_id : Text) (size : ℤ) (content_type : Text)
    → KeepsDone (update_request now (confirm_args updated_at sp id attachment_id size content_type))
unfolding update_request confirm_args
confirmed_row updated_at now sp id attachment_id size content_type none met was = ground arith
confirmed_row updated_at now sp id attachment_id size content_type (some item) met was =
    ground (arith, pending-not_done (item Attr.status))

issue_attachments :
    (sp id : Text) (delta : ℤ) → KeepsDone (issue_num_attachments_update sp id delta)
unfolding issue_num_attachments_update
issue_attachments sp id delta none met was = ground arith
issue_attachments sp id delta (some item) met was = was

comment_attachments :
    (sp id comment_id : Text) (delta : ℤ)
    → KeepsDone (comment_num_attachments_update sp id comment_id delta)
unfolding comment_num_attachments_update
comment_attachments sp id comment_id delta none met was = ground arith
comment_attachments sp id comment_id delta (some item) met was = was

counters-AllKeepDone :
    (sp id : Text) (link : Option Text) (wi wc : Bool)
    → AllKeepDone
        (entries (issue_counters wi sp id (negsuc 0) ++ comment_counters wc sp id link (negsuc 0)))
counters-AllKeepDone sp id link false false = tt
counters-AllKeepDone sp id link true false = (issue_attachments sp id (negsuc 0), tt)
counters-AllKeepDone sp id none false true = tt
counters-AllKeepDone sp id none true true = (issue_attachments sp id (negsuc 0), tt)
counters-AllKeepDone sp id (some k) false true = (comment_attachments sp id k (negsuc 0), tt)
counters-AllKeepDone sp id (some k) true true =
    (issue_attachments sp id (negsuc 0), (comment_attachments sp id k (negsuc 0), tt))

module _ (c : Client) (z : Gzip) where
  space_untouched :
      (now sp : Text) (name description : Option Text) (version : Option ℤ)
      → touches Attr.status (
          update_clauses now (record (plain_update (space_info_key sp)) {
            version = version;
            attrs = space_attrs c z name description;
          }))
        ≡ false
  space_untouched now sp none none version = refl
  space_untouched now sp none (some _) version = refl
  space_untouched now sp (some _) none version = refl
  space_untouched now sp (some _) (some _) version = refl

  issue_untouched :
      (now sp id : Text) (title description : Option Text) (version : Option ℤ)
      → touches Attr.status (
          update_clauses now (record (plain_update (issue_info_key sp id)) {
            version = version;
            attrs = issue_attrs c z title description;
          }))
        ≡ false
  issue_untouched now sp id none none version = refl
  issue_untouched now sp id none (some _) version = refl
  issue_untouched now sp id (some _) none version = refl
  issue_untouched now sp id (some _) (some _) version = refl

  space_counter : (sp : Text) (delta : ℤ) → KeepsDone (space_issue_count_update sp delta)
  unfolding space_issue_count_update
  space_counter sp delta none met was = ground arith
  space_counter sp delta (some item) met was = was

  comment_counter : (sp id : Text) (delta : ℤ) → KeepsDone (issue_num_comments_update sp id delta)
  unfolding issue_num_comments_update
  comment_counter sp id delta none met was = ground arith
  comment_counter sp id delta (some item) met was = was

  released : (now sp id : Text) → KeepsDone (update_request now (release_args sp id))
  unfolding release_args
  released now sp id = untouched_update now (release_args sp id) refl

  marked : (now : Text) (key : Key) → KeepsDone (update_request now (satisfied_args key))
  unfolding satisfied_args
  marked now key = untouched_update now (satisfied_args key) refl

  sent-AllKeepDone : (q : Sent) → AllKeepDone (writes c z q)
  unfolding put_space delete_empty_space put_issue delete_issue_info check_not_done put_blocker
      active_blocker_delete satisfied_blocker_delete row_delete check_done put_comment
      delete_comment check_exists put_attachment uploaded_attachment_delete
      pending_attachment_delete attachment_counter_updates
  sent-AllKeepDone (space_created now sp name description creator h) = (put_refused, tt)
  sent-AllKeepDone (space_updated now sp name description version h) =
      (untouched_update now _ (space_untouched now sp name description version), tt)
  sent-AllKeepDone (space_deleted sp h) = ((λ o met was. refl), tt)
  sent-AllKeepDone (issue_created now id st sp title description creator h) =
      (space_counter sp (pos 1), (put_refused, tt))
  sent-AllKeepDone (issue_updated now sp id title description version h) =
      (untouched_update now _ (issue_untouched now sp id title description version), tt)
  sent-AllKeepDone (issue_moved read_at now st sp id version h) =
      (moved read_at now sp id st version, tt)
  sent-AllKeepDone (issue_deleted sp id h) =
      ((λ o met was. refl), (space_counter sp (negsuc 0), tt))
  sent-AllKeepDone (blocker_added created now1 now2 sp1 id1 sp2 id2 h1 h2 other) =
      ((λ o met was. still_done o was), (blocking now2 now1 sp2 id2, (put_refused, tt)))
  sent-AllKeepDone (active_deleted now key sp id h e) =
      ((λ o met was. refl), (released now sp id, tt))
  sent-AllKeepDone (satisfied_deleted key sp id h e) = ((λ o met was. refl), tt)
  sent-AllKeepDone (blocker_satisfied now1 now2 key sp1 id1 sp2 id2 h1 h2 e) =
      ((λ o met was. still_done o was), (marked now1 key, (released now2 sp2 id2, tt)))
  sent-AllKeepDone (issue_unblocked read_at now sp id h) = (unblocking read_at now sp id, tt)
  sent-AllKeepDone (row_swept key part) = ((λ o met was. refl), tt)
  sent-AllKeepDone (comment_created sp id comment_id x h made) =
      (comment_counter sp id (pos 1), (put_refused, tt))
  sent-AllKeepDone (comment_updated now sp id comment_id body version h) =
      (untouched_update now _ refl, tt)
  sent-AllKeepDone (comment_deleted sp id comment_id h) =
      ((λ o met was. refl), (comment_counter sp id (negsuc 0), tt))
  sent-AllKeepDone (attachment_created sp id attachment_id none x h made) =
      ((λ o met was. still_done o was), (put_refused, tt))
  sent-AllKeepDone (attachment_created sp id attachment_id (some comment_id) x h made) =
      ((λ o met was. still_done o was), ((λ o met was. still_done o was), (put_refused, tt)))
  sent-AllKeepDone
        (attachment_confirmed updated_at now sp id attachment_id none size content_type h) =
      (
        confirmed_row updated_at now sp id attachment_id size content_type,
        (issue_attachments sp id (pos 1), tt),
      )
  sent-AllKeepDone
        (attachment_confirmed updated_at now sp id attachment_id
          (some comment_id)
          size
          content_type
          h) =
      (
        confirmed_row updated_at now sp id attachment_id size content_type,
        (issue_attachments sp id (pos 1), (comment_attachments sp id comment_id (pos 1), tt)),
      )
  sent-AllKeepDone (attachment_uncounted x wi wc) =
      ((λ o met was. refl), counters-AllKeepDone x.space_id x.issue_id x.comment_id wi wc)
  sent-AllKeepDone (attachment_dropped x) = ((λ o met was. refl), tt)

-- DONE is terminal: after any writes that the modelled operations send, where they name no row twice
-- and are accepted, the row of an Issue with status DONE has status DONE still, or is gone.
pub sent-done_or_gone :
    (c : Client) (z : Gzip) (q : Sent) (t : Table) (sp id : Text)
    → IsUnique t
    → is_distinct (writes c z q) ≡ true
    → all (is_accepted t) (writes c z q) ≡ true
    → is_done_row (lookup (issue_info_key sp id) t) ≡ true
    → is_done_or_gone (lookup (issue_info_key sp id) (apply_writes (writes c z q) t)) ≡ true
sent-done_or_gone c z q t sp id u apart ok was =
    ap is_done_or_gone (lookup-apply_writes (writes c z q) t (issue_info_key sp id) u apart)
    ∙ row_after-done (writes c z q) t (issue_info_key sp id) (sent-AllKeepDone c z q) ok was
