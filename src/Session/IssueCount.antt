-- ===== src/Session/IssueCount.antt =====
-- SpaceInfo.issue_count through any session.
use pl8_base.Base.{ℕ, ◌≡◌, refl, true, Option, none, some, List, [], ◌∷◌, all, arith}
use mathlib.Core.Path.{subst, sym}
use pl8_base.Base.Int.{ℤ, pos, negsuc}
use pl8_base.Base.Text.{Text}
use pl8_base.Dynamo.{Client, Key, Write}
use pl8_base.Dynamo.Documented.{IsDynamo}
use pl8_base.Types.{
  Gzip, IssueStatus, IssueComment, blocker_sk, comment_key, issue_info_key, space_info_key,
}
use pl8_base.Types.Serialize.{serialized_pk}
use pl8_base.Manager.Keeps.{WritesKeep}
use pl8_base.Manager.Update.{plain_update, update_request}
use pl8_base.Space.{space_attrs}
use pl8_base.Issue.{
  new_blocker, put_blocker, check_not_done, check_done, block_args, release_args, satisfied_args,
  unblock_args, transition_args, active_blocker_delete, satisfied_blocker_delete, row_delete,
  issue_num_comments_update, satisfy_items, active_delete_items, add_blocker_items,
}
use pl8_base.Types.{init_issue}
use pl8_base.Comment.{put_comment, delete_comment, create_comment_items}
use pl8_base.Counts.Schemes.{issue_count_scheme, IssuesCounted}
use pl8_base.Counts.Neutral.{IsNeutral, neutral-Counted}
use pl8_base.Counts.Issues.{
  create_space-IssuesCounted, delete_space-IssuesCounted, create_issue-IssuesCounted,
  delete_issue-IssuesCounted,
}
use pl8_base.Counts.Elsewhere.{is_elsewhere, elsewhere-IssuesCounted}
use pl8_base.Counts.Attachments.{
  upload_elsewhere, confirm_elsewhere, uncount_elsewhere, drop_elsewhere,
}
use pl8_base.Attachment.{
  upload_items, confirm_items, confirm_args, uncount_items, attachment_counter_updates,
  pending_attachment_delete,
}
use pl8_base.Attachment.StorageSteps.{Quiet}
use pl8_base.Handlers.Stored.{is_part_key, ReadsStored}
use pl8_base.Storage.{Storage}
use pl8_base.Util.{Codec}
use pl8_base.Session.Requests.{
  Sent, writes, space_created, space_updated, space_deleted, issue_created, issue_updated,
  issue_moved, issue_deleted, blocker_added, active_deleted, satisfied_deleted, blocker_satisfied,
  issue_unblocked, row_swept, attachment_created, attachment_confirmed, attachment_uncounted,
  attachment_dropped, comment_created, comment_updated, comment_deleted,
}
use pl8_base.Session.Calls.{Call, is_fit, run_calls}
use pl8_base.Session.Steps.{run_calls-keeps}

module _ (c : Client) (z : Gzip) where
  space_update-IssuesCounted :
      (now sp : Text) (name description : Option Text) (version : Option ℤ)
      → IsNeutral issue_count_scheme now (record (plain_update (space_info_key sp)) {
        version = version;
        attrs = space_attrs c z name description;
      })
  space_update-IssuesCounted now sp none none version = record {
    untouched = refl;
    same_count = λ i item. refl;
    same_matter = λ a b. refl;
  }
  space_update-IssuesCounted now sp none (some _) version = record {
    untouched = refl;
    same_count = λ i item. refl;
    same_matter = λ a b. refl;
  }
  space_update-IssuesCounted now sp (some _) none version = record {
    untouched = refl;
    same_count = λ i item. refl;
    same_matter = λ a b. refl;
  }
  space_update-IssuesCounted now sp (some _) (some _) version = record {
    untouched = refl;
    same_count = λ i item. refl;
    same_matter = λ a b. refl;
  }

  swept_elsewhere :
      (key : Key) → is_part_key key ≡ true → all is_elsewhere (row_delete key ∷ []) ≡ true
  unfolding is_elsewhere row_delete
  swept_elsewhere key part = ground arith

  -- Requests that stand at rows of an IssueBlocker.
  module _ (key : Key) (sp2 id2 : Text) (stored_key : key.sk ≡ blocker_sk sp2 id2) where
    elsewhere_satisfied_delete : all is_elsewhere (satisfied_blocker_delete key ∷ []) ≡ true
    unfolding is_elsewhere satisfied_blocker_delete
    elsewhere_satisfied_delete = ground arith

    active_elsewhere :
        (now : Text)
        → all is_elsewhere (active_delete_items key (update_request now (release_args sp2 id2)))
          ≡ true
    unfolding is_elsewhere active_blocker_delete update_request release_args
    active_elsewhere now = ground arith

    module _ (now1 now2 sp1 id1 : Text) where
      abbrev satisfying : List Write
      satisfying =
          satisfy_items sp1 id1 (update_request now1 (satisfied_args key))
            (update_request now2 (release_args sp2 id2))

      satisfy_elsewhere : all is_elsewhere satisfying ≡ true
      unfolding is_elsewhere check_done update_request satisfied_args release_args
      satisfy_elsewhere = ground arith

  module _ (created now1 now2 sp1 id1 sp2 id2 : Text) where
    abbrev adding : List Write
    adding =
        add_blocker_items sp1 id1 (update_request now1 (block_args now2 sp2 id2))
          (new_blocker created sp1 id1 sp2 id2)

    add_elsewhere : all is_elsewhere adding ≡ true
    unfolding is_elsewhere check_not_done update_request block_args put_blocker new_blocker
        pl8_base.Types.init_blocker
    add_elsewhere = ground arith

  module _ (sp id comment_id : Text) (x : IssueComment)
      (made : serialized_pk x.pk x.sk ≡ comment_key sp id comment_id) where
    comment_elsewhere : all is_elsewhere (create_comment_items z sp id x) ≡ true
    unfolding is_elsewhere issue_num_comments_update put_comment
    comment_elsewhere =
        subst
          (λ k.
            all is_elsewhere
              (issue_num_comments_update sp id (pos 1) ∷ record (put_comment z x) { key = k } ∷ [])
            ≡ true)
          (sym made) refl

  sent-IssuesCounted : (q : Sent) → WritesKeep IssuesCounted (writes c z q)
  unfolding update_request is_elsewhere transition_args unblock_args delete_comment
      issue_num_comments_update
  sent-IssuesCounted (space_created now sp name description creator h) =
      create_space-IssuesCounted z now sp name description creator
  sent-IssuesCounted (space_updated now sp name description version h) =
      neutral-Counted issue_count_scheme now _
        (space_update-IssuesCounted now sp name description version)
  sent-IssuesCounted (space_deleted sp h) = delete_space-IssuesCounted sp
  sent-IssuesCounted (issue_created now id st sp title description creator h) =
      create_issue-IssuesCounted z now sp id title description creator st h
  sent-IssuesCounted (issue_updated now sp id title description version h) =
      elsewhere-IssuesCounted (writes c z (issue_updated now sp id title description version h))
        refl
  sent-IssuesCounted (issue_moved read_at now st sp id version h) =
      elsewhere-IssuesCounted (writes c z (issue_moved read_at now st sp id version h)) refl
  sent-IssuesCounted (issue_deleted sp id h) = delete_issue-IssuesCounted sp id h
  sent-IssuesCounted (blocker_added created now1 now2 sp1 id1 sp2 id2 h1 h2 other) =
      elsewhere-IssuesCounted
        (writes c z (blocker_added created now1 now2 sp1 id1 sp2 id2 h1 h2 other))
        (add_elsewhere created now1 now2 sp1 id1 sp2 id2)
  sent-IssuesCounted (active_deleted now key sp id h e) =
      elsewhere-IssuesCounted (writes c z (active_deleted now key sp id h e))
        (active_elsewhere key sp id e now)
  sent-IssuesCounted (satisfied_deleted key sp id h e) =
      elsewhere-IssuesCounted (writes c z (satisfied_deleted key sp id h e))
        (elsewhere_satisfied_delete key sp id e)
  sent-IssuesCounted (blocker_satisfied now1 now2 key sp1 id1 sp2 id2 h1 h2 e) =
      elsewhere-IssuesCounted (writes c z (blocker_satisfied now1 now2 key sp1 id1 sp2 id2 h1 h2 e))
        (satisfy_elsewhere key sp2 id2 e now1 now2 sp1 id1)
  sent-IssuesCounted (issue_unblocked read_at now sp id h) =
      elsewhere-IssuesCounted (writes c z (issue_unblocked read_at now sp id h)) refl
  sent-IssuesCounted (row_swept key part) =
      elsewhere-IssuesCounted (writes c z (row_swept key part)) (swept_elsewhere key part)
  sent-IssuesCounted (comment_created sp id comment_id x h made) =
      elsewhere-IssuesCounted (writes c z (comment_created sp id comment_id x h made))
        (comment_elsewhere sp id comment_id x made)
  sent-IssuesCounted (comment_updated now sp id comment_id body version h) =
      elsewhere-IssuesCounted (writes c z (comment_updated now sp id comment_id body version h))
        refl
  sent-IssuesCounted (comment_deleted sp id comment_id h) =
      elsewhere-IssuesCounted (writes c z (comment_deleted sp id comment_id h)) refl
  sent-IssuesCounted (attachment_created sp id attachment_id link x h made) =
      elsewhere-IssuesCounted (upload_items sp id link x)
        (upload_elsewhere sp id attachment_id link x made)
  sent-IssuesCounted
        (attachment_confirmed updated_at now sp id attachment_id link size content_type h) =
      elsewhere-IssuesCounted
        (confirm_items sp id link
          (update_request now (confirm_args updated_at sp id attachment_id size content_type)))
        (confirm_elsewhere sp id updated_at now attachment_id link size content_type)
  sent-IssuesCounted (attachment_uncounted x wi wc) =
      elsewhere-IssuesCounted (uncount_items x (attachment_counter_updates x (negsuc 0) wi wc))
        (uncount_elsewhere x wi wc)
  sent-IssuesCounted (attachment_dropped x) =
      elsewhere-IssuesCounted (pending_attachment_delete x ∷ []) (drop_elsewhere x)

-- If every Space's issue_count is right at the start, then it is right after any sequence of calls
-- of the operations that write and of the event handlers, whatever each of them returned or raised:
-- it is the number of info rows of Issues in the Space, and 0 where there is no Space. The storage
-- writes nothing to the table, the queries return rows as they are stored, and so are the blockers
-- that single sweep steps are handed.
pub run_calls-IssuesCounted :
    (c : Client) (z : Gzip) (storage : Option (Storage c.State)) (j : Codec) (pages : ℕ)
    (calls : List Call) (s : c.State)
    → IsDynamo c
    → Quiet c storage
    → ReadsStored c z j
    → all is_fit calls ≡ true
    → IssuesCounted (c.table s)
    → IssuesCounted (c.table (run_calls c z storage j pages calls s))
run_calls-IssuesCounted c z storage j pages calls s d quiet reads fit =
    run_calls-keeps c z storage j pages d quiet reads (sent-IssuesCounted c z) calls s fit
