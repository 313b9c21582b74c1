-- ===== src/Lifecycle/Sent.antt =====
-- Every list of writes that is sent, and what it makes of the row of an Issue.
use pl8_base.Base.{
  ◌≡◌, refl, sym, Bool, true, false, Option, none, some, List, [], ◌∷◌, ◌++◌, arith,
}
use mathlib.Core.Path.{subst}
use pl8_base.Base.Int.{ℤ, pos, negsuc}
use pl8_base.Base.Text.{Text}
use pl8_base.Dynamo.{Attr, attr_eq, Client, Key, key_eq}
use pl8_base.Types.{
  Gzip, IssueStatus, IssueComment, IssueAttachment, todo, blocked, in_progress, done,
  issue_info_key, space_info_key, comment_key, attachment_key, blocker_sk, init_issue, init_blocker,
  init_space,
}
use pl8_base.Types.Serialize.{serialize_issue, serialized_pk}
use pl8_base.Manager.Update.{plain_update, update_request}
use pl8_base.Space.{put_space, new_space, space_issue_count_update, delete_empty_space, space_attrs}
use pl8_base.Issue.{
  counter_update, put_issue, new_issue, put_blocker, new_blocker, delete_issue_info, check_not_done,
  check_done, active_blocker_delete, satisfied_blocker_delete, satisfied_args, row_delete,
  issue_attrs, issue_num_comments_update, issue_num_attachments_update,
}
use pl8_base.Comment.{put_comment, delete_comment}
use pl8_base.Attachment.{
  confirm_args, check_exists, put_attachment, comment_num_attachments_update, issue_counters,
  comment_counters, entries, attachment_counter_updates, uploaded_attachment_delete,
  pending_attachment_delete,
}
use pl8_base.Session.{
  Sent, writes, space_created, space_updated, space_deleted, issue_created, issue_updated,
  issue_moved, issue_deleted, blocker_added, active_deleted, satisfied_deleted, blocker_satisfied,
  issue_unblocked, row_swept, attachment_created, attachment_confirmed, attachment_uncounted,
  attachment_dropped, comment_created, comment_updated, comment_deleted,
}
use pl8_base.Lifecycle.Diagram.{
  Act, stays, creates, moves, blocks, releases, unblocks, drops, stay, create, drop,
}
use pl8_base.Lifecycle.Requests.{
  Follows, AllFollow, other_update, other_row, moved, blocking, unblocking, releasing,
}

-- What each write of a request does to the Issue that it names: to no Issue, where the list has
-- ended. The row that an attachment's delete names is the one that its key fields say.
abbrev pub acts : Sent → List Act
acts (issue_created now id st sp title description creator _) = stays ∷ creates st ∷ []
acts (issue_moved read_at now st sp id version _) = moves st ∷ []
acts (issue_deleted sp id _) = drops ∷ []
acts (blocker_added at now1 now2 sp1 id1 sp2 id2 _ _ _) = stays ∷ blocks ∷ []
acts (active_deleted now key sp id _ _) = stays ∷ releases ∷ []
acts (blocker_satisfied now1 now2 key sp1 id1 sp2 id2 _ _ _) = stays ∷ stays ∷ releases ∷ []
acts (issue_unblocked read_at now sp id _) = unblocks ∷ []
acts (attachment_uncounted x with_issue with_comment) = drops ∷ []
acts (attachment_dropped x) = drops ∷ []
acts _ = []

-- The row of the Issue that the steps are about.
module _ (space issue : Text) where
  abbrev row : Key
  row = issue_info_key space issue

  blocker_row : (key : Key) (sp id : Text) → key.sk ≡ blocker_sk sp id → key_eq key row ≡ false
  blocker_row key sp id e = ground (arith, e)

  counting :
      (key : Key) (attr : Attr) (d : ℤ)
      → attr_eq attr Attr.status ≡ false
      → attr_eq attr Attr.num_active_blockers ≡ false
      → Follows row stays (counter_update key attr d)
  counting key attr d h1 h2 none at met = ground arith
  counting key attr d h1 h2 (some item) at met = rw (h1, h2) stay

  created :
      (z : Gzip) (now id sp title description creator : Text) (st : IssueStatus)
      → Follows row (creates st) (put_issue z (new_issue now sp id title description st creator))
  unfolding put_issue new_issue init_issue serialize_issue
  created z now id sp title description creator todo none at met = create
  created z now id sp title description creator blocked none at met = create
  created z now id sp title description creator in_progress none at met = create
  created z now id sp title description creator done none at met = create
  created z now id sp title description creator st (some item) at met = ground arith

  commented :
      (z : Gzip) (sp id comment_id : Text) (x : IssueComment)
      → serialized_pk x.pk x.sk ≡ comment_key sp id comment_id
      → Follows row stays (put_comment z x)
  unfolding put_comment
  commented z sp id comment_id x made =
      other_row (put_comment z x) row (subst (λ k. key_eq k row ≡ false) (sym made) ground arith)

  attached :
      (sp id attachment_id : Text) (x : IssueAttachment)
      → serialized_pk x.pk x.sk ≡ attachment_key sp id attachment_id
      → Follows row stays (put_attachment x)
  unfolding put_attachment
  attached sp id attachment_id x made =
      other_row (put_attachment x) row (subst (λ k. key_eq k row ≡ false) (sym made) ground arith)

  issue_attachments :
      (sp id : Text) (d : ℤ) → Follows row stays (issue_num_attachments_update sp id d)
  unfolding issue_num_attachments_update
  issue_attachments sp id d = counting (issue_info_key sp id) Attr.num_attachments d refl refl

  comment_attachments :
      (sp id k : Text) (d : ℤ) → Follows row stays (comment_num_attachments_update sp id k d)
  unfolding comment_num_attachments_update
  comment_attachments sp id k d = counting (comment_key sp id k) Attr.num_attachments d refl refl

  comments : (sp id : Text) (d : ℤ) → Follows row stays (issue_num_comments_update sp id d)
  unfolding issue_num_comments_update
  comments sp id d = counting (issue_info_key sp id) Attr.num_comments d refl refl

  issues : (sp : Text) (d : ℤ) → Follows row stays (space_issue_count_update sp d)
  unfolding space_issue_count_update
  issues sp d none at met = ground arith
  issues sp d (some item) at met = stay

  counters-AllFollow :
      (sp id : Text) (link : Option Text) (wi wc : Bool)
      → AllFollow row [] (
          entries (issue_counters wi sp id (negsuc 0) ++ comment_counters wc sp id link (negsuc 0)))
  counters-AllFollow sp id link false false = tt
  counters-AllFollow sp id link true false = (issue_attachments sp id (negsuc 0), tt)
  counters-AllFollow sp id none false true = tt
  counters-AllFollow sp id none true true = (issue_attachments sp id (negsuc 0), tt)
  counters-AllFollow sp id (some k) false true = (comment_attachments sp id k (negsuc 0), tt)
  counters-AllFollow sp id (some k) true true =
      (issue_attachments sp id (negsuc 0), (comment_attachments sp id k (negsuc 0), tt))

  module _ (now : Text) where
    marked : (key : Key) → Follows row stays (update_request now (satisfied_args key))
    unfolding satisfied_args
    marked key = other_update now (satisfied_args key) row refl refl

    confirmed_upload :
        (updated_at sp id attachment_id : Text) (size : ℤ) (content_type : Text)
        → Follows row stays
            (update_request now (confirm_args updated_at sp id attachment_id size content_type))
    unfolding update_request confirm_args
    confirmed_upload updated_at sp id attachment_id size content_type o at met = ground arith

    new_blocker_put :
        (sp1 id1 sp2 id2 : Text) → Follows row stays (put_blocker (new_blocker now sp1 id1 sp2 id2))
    unfolding put_blocker new_blocker init_blocker
    new_blocker_put sp1 id1 sp2 id2 o at met = ground arith

  module _ (c : Client) (z : Gzip) (now : Text) where
    space_edited :
        (sp : Text) (name description : Option Text) (version : Option ℤ)
        → Follows row stays (
            update_request now (record (plain_update (space_info_key sp)) {
              version = version;
              attrs = space_attrs c z name description;
            }))
    unfolding update_request
    space_edited sp name description version o at met = ground arith

    issue_edited :
        (sp id : Text) (title description : Option Text) (version : Option ℤ)
        → Follows row stays (
            update_request now (record (plain_update (issue_info_key sp id)) {
              version = version;
              attrs = issue_attrs c z title description;
            }))
    issue_edited sp id none none version = other_update now _ row refl refl
    issue_edited sp id none (some _) version = other_update now _ row refl refl
    issue_edited sp id (some _) none version = other_update now _ row refl refl
    issue_edited sp id (some _) (some _) version = other_update now _ row refl refl

    new_space_put :
        (sp name description creator : Text)
        → Follows row stays (put_space z (new_space now sp name description creator))
    unfolding put_space new_space init_space
    new_space_put sp name description creator o at met = ground arith

  module _ (c : Client) (z : Gzip) where
    pub sent-AllFollow : (q : Sent) → AllFollow row (acts q) (writes c z q)
    unfolding delete_empty_space delete_issue_info check_not_done active_blocker_delete
        satisfied_blocker_delete row_delete check_done delete_comment check_exists
        uploaded_attachment_delete pending_attachment_delete attachment_counter_updates
    sent-AllFollow (space_created now sp name description creator h) =
        (new_space_put c z now sp name description creator, tt)
    sent-AllFollow (space_updated now sp name description version h) =
        (space_edited c z now sp name description version, tt)
    sent-AllFollow (space_deleted sp h) = (other_row (delete_empty_space sp) row (ground arith), tt)
    sent-AllFollow (issue_created now id st sp title description creator h) =
        (issues sp (pos 1), (created z now id sp title description creator st, tt))
    sent-AllFollow (issue_updated now sp id title description version h) =
        (issue_edited c z now sp id title description version, tt)
    sent-AllFollow (issue_moved read_at now st sp id version h) =
        (moved now sp id row read_at st version, tt)
    sent-AllFollow (issue_deleted sp id h) = ((λ o at met. drop), (issues sp (negsuc 0), tt))
    sent-AllFollow (blocker_added at now1 now2 sp1 id1 sp2 id2 h1 h2 other) = (
      (λ o here met. stay),
      (blocking now1 sp2 id2 row now2, (new_blocker_put at sp1 id1 sp2 id2, tt)),
    )
    sent-AllFollow (active_deleted now key sp id h e) = (
      other_row (active_blocker_delete key) row (blocker_row key sp id e),
      (releasing now sp id row, tt),
    )
    sent-AllFollow (satisfied_deleted key sp id h e) =
        (other_row (satisfied_blocker_delete key) row (blocker_row key sp id e), tt)
    sent-AllFollow (blocker_satisfied now1 now2 key sp1 id1 sp2 id2 h1 h2 e) =
        ((λ o at met. stay), (marked now1 key, (releasing now2 sp2 id2 row, tt)))
    sent-AllFollow (issue_unblocked read_at now sp id h) = (unblocking now sp id row read_at, tt)
    sent-AllFollow (row_swept key part) = (other_row (row_delete key) row (ground arith), tt)
    sent-AllFollow (comment_created sp id comment_id x h made) =
        (comments sp id (pos 1), (commented z sp id comment_id x made, tt))
    sent-AllFollow (comment_updated now sp id comment_id body version h) =
        (other_update now _ row refl refl, tt)
    sent-AllFollow (comment_deleted sp id comment_id h) = (
      other_row (delete_comment sp id comment_id) row (ground arith),
      (comments sp id (negsuc 0), tt),
    )
    sent-AllFollow (attachment_created sp id attachment_id none x h made) =
        ((λ o at met. stay), (attached sp id attachment_id x made, tt))
    sent-AllFollow (attachment_created sp id attachment_id (some comment_id) x h made) =
        ((λ o at met. stay), ((λ o at met. stay), (attached sp id attachment_id x made, tt)))
    sent-AllFollow (attachment_confirmed updated_at now sp id aid none size content_type h) = (
      confirmed_upload now updated_at sp id aid size content_type,
      (issue_attachments sp id (pos 1), tt),
    )
    sent-AllFollow (attachment_confirmed updated_at now sp id aid (some k) size content_type h) = (
      confirmed_upload now updated_at sp id aid size content_type,
      (issue_attachments sp id (pos 1), (comment_attachments sp id k (pos 1), tt)),
    )
    sent-AllFollow (attachment_uncounted x wi wc) =
        ((λ o at met. drop), counters-AllFollow x.space_id x.issue_id x.comment_id wi wc)
    sent-AllFollow (attachment_dropped x) = ((λ o at met. drop), tt)
