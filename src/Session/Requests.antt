-- ===== src/Session/Requests.antt =====
-- Every list of writes that the operations and the handlers send to the table, with what
-- the arguments satisfy by then.
use pl8_base.Base.{◌≡◌, Bool, true, false, ◌&&◌, Option, List, [], ◌∷◌}
use pl8_base.Base.Int.{ℤ, negsuc}
use pl8_base.Base.Text.{Text, text_eq, contains}
use pl8_base.Dynamo.{Attr, bytes, Key, Write, Client}
use pl8_base.Types.{
  Gzip, IssueComment, IssueAttachment, attachment_key, IssueStatus, space_info_key, issue_info_key,
  comment_key, blocker_sk,
}
use pl8_base.Types.Serialize.{serialized_pk}
use pl8_base.Manager.Update.{plain_update, update_request}
use pl8_base.Space.{put_space, new_space, delete_empty_space, space_attrs}
use pl8_base.Issue.{
  new_issue, create_issue_items, issue_attrs, transition_args, delete_issue_items, new_blocker,
  block_args, release_args, satisfied_args, unblock_args, add_blocker_items, active_delete_items,
  satisfied_blocker_delete, satisfy_items, row_delete,
}
use pl8_base.Comment.{create_comment_items, delete_comment_items}
use pl8_base.Attachment.{
  upload_items, confirm_args, confirm_items, attachment_counter_updates, uncount_items,
  pending_attachment_delete,
}
use pl8_base.Handlers.Stored.{is_part_key}

-- A space id that has no "#".
abbrev pub NoHash : Text → Type 0
NoHash t = contains b'#' t ≡ false

abbrev pub same_issue : Text → Text → Text → Text → Bool
same_issue sp1 id1 sp2 id2 = text_eq sp1 sp2 && text_eq id1 id2

pub data Sent : Type 0 where
  space_created : Text → (sp : Text) → Text → Text → Text → NoHash sp → Sent
  space_updated : Text → (sp : Text) → Option Text → Option Text → Option ℤ → NoHash sp → Sent
  space_deleted : (sp : Text) → NoHash sp → Sent
  issue_created : Text → Text → IssueStatus → (sp : Text) → Text → Text → Text → NoHash sp → Sent
  issue_updated :
      Text → (sp : Text) → Text → Option Text → Option Text → Option ℤ → NoHash sp → Sent
  issue_moved : Text → Text → IssueStatus → (sp : Text) → Text → Option ℤ → NoHash sp → Sent
  issue_deleted : (sp : Text) → Text → NoHash sp → Sent
  blocker_added :
      Text
      → Text
      → Text
      → (sp1 id1 sp2 id2 : Text) → NoHash sp1
      → NoHash sp2
      → same_issue sp1 id1 sp2 id2 ≡ false
      → Sent
  active_deleted : Text → (key : Key) (sp id : Text) → NoHash sp → key.sk ≡ blocker_sk sp id → Sent
  satisfied_deleted : (key : Key) (sp id : Text) → NoHash sp → key.sk ≡ blocker_sk sp id → Sent
  blocker_satisfied :
      Text
      → Text
      → (key : Key) (sp1 id1 sp2 id2 : Text) → NoHash sp1
      → NoHash sp2
      → key.sk ≡ blocker_sk sp2 id2
      → Sent
  issue_unblocked : Text → Text → (sp : Text) → Text → NoHash sp → Sent
  row_swept : (key : Key) → is_part_key key ≡ true → Sent
  comment_created :
      (sp id comment_id : Text) (x : IssueComment)
      → NoHash sp
      → serialized_pk x.pk x.sk ≡ comment_key sp id comment_id
      → Sent
  comment_updated : Text → (sp : Text) → Text → Text → Text → Option ℤ → NoHash sp → Sent
  comment_deleted : (sp : Text) → Text → Text → NoHash sp → Sent
  attachment_created :
      (sp id attachment_id : Text) (link : Option Text) (x : IssueAttachment)
      → NoHash sp
      → serialized_pk x.pk x.sk ≡ attachment_key sp id attachment_id
      → Sent
  attachment_confirmed :
      Text → Text → (sp : Text) → Text → Text → Option Text → ℤ → Text → NoHash sp → Sent
  -- The ladder's delete of an UPLOADED row with the counters that it asks for.
  attachment_uncounted : IssueAttachment → Bool → Bool → Sent
  attachment_dropped : IssueAttachment → Sent

module _ (c : Client) (z : Gzip) where
  abbrev pub writes : Sent → List Write
  writes (space_created now sp name description creator _) =
      put_space z (new_space now sp name description creator) ∷ []
  writes (space_updated now sp name description version _) =
      update_request now (record (plain_update (space_info_key sp)) {
        version = version;
        attrs = space_attrs c z name description;
      })
      ∷ []
  writes (space_deleted sp _) = delete_empty_space sp ∷ []
  writes (issue_created now id st sp title description creator _) =
      create_issue_items z sp (new_issue now sp id title description st creator)
  writes (issue_updated now sp id title description version _) =
      update_request now (record (plain_update (issue_info_key sp id)) {
        version = version;
        attrs = issue_attrs c z title description;
      })
      ∷ []
  writes (issue_moved read_at now st sp id version _) =
      update_request now (transition_args read_at sp id st version) ∷ []
  writes (issue_deleted sp id _) = delete_issue_items sp id
  writes (blocker_added created now1 now2 sp1 id1 sp2 id2 _ _ _) =
      add_blocker_items sp1 id1 (update_request now1 (block_args now2 sp2 id2))
        (new_blocker created sp1 id1 sp2 id2)
  writes (active_deleted now key sp id _ _) =
      active_delete_items key (update_request now (release_args sp id))
  writes (satisfied_deleted key _ _ _ _) = satisfied_blocker_delete key ∷ []
  writes (blocker_satisfied now1 now2 key sp1 id1 sp2 id2 _ _ _) =
      satisfy_items sp1 id1 (update_request now1 (satisfied_args key))
        (update_request now2 (release_args sp2 id2))
  writes (issue_unblocked read_at now sp id _) =
      update_request now (unblock_args read_at sp id) ∷ []
  writes (row_swept key _) = row_delete key ∷ []
  writes (comment_created sp id _ x _ _) = create_comment_items z sp id x
  writes (comment_updated now sp id comment_id body version _) =
      update_request now (record (plain_update (comment_key sp id comment_id)) {
        version = version;
        attrs = (Attr.body, bytes (z.compress body)) ∷ [];
      })
      ∷ []
  writes (comment_deleted sp id comment_id _) = delete_comment_items sp id comment_id
  writes (attachment_created sp id _ link x _ _) = upload_items sp id link x
  writes (attachment_confirmed updated_at now sp id attachment_id link size content_type _) =
      confirm_items sp id link
        (update_request now (confirm_args updated_at sp id attachment_id size content_type))
  writes (attachment_uncounted x with_issue with_comment) =
      uncount_items x (attachment_counter_updates x (negsuc 0) with_issue with_comment)
  writes (attachment_dropped x) = pending_attachment_delete x ∷ []
