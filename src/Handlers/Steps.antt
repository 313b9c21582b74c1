-- ===== src/Handlers/Steps.antt =====
-- What the sweeping handlers keep of the table, from what their requests keep.
use pl8_base.Base.{ℕ, ◌≡◌, refl, Bool, true, false, Option, none, [], ◌∷◌, arith}
use pl8_base.Base.Int.{negsuc}
use pl8_base.Base.Text.{Text, contains, text_eq_iff}
use pl8_base.Errors.{ok, internal, python_error, lift, Exec, ◌>>◌}
use pl8_base.Errors.Bind.{bind-ok}
use pl8_base.Dynamo.{Table, Client, Key}
use pl8_base.Dynamo.Documented.{IsDynamo}
use pl8_base.Types.{Gzip, IssueBlocker, IssueAttachment, blocker_sk}
use pl8_base.Types.Serialize.{serialized_pk}
use pl8_base.Util.{Codec, str, validate_space_id}
use pl8_base.Manager.Parse.{
  BaseObject, space_info, issue_info, issue_comment, issue_attachment, issue_blocker,
}
use pl8_base.Manager.Update.{update_request}
use pl8_base.Manager.Query.{QueryParams}
use pl8_base.Manager.Paginate.{Progress, finished, stopped, unfinished}
use pl8_base.Manager.Keeps.{Keeps, WritesKeep, Keeps-bind, Keeps-if, Keeps-pure, Keeps-raise}
use pl8_base.Manager.Validated.{Keeps-validated}
use pl8_base.Manager.QuerySteps.{Keeps-run_query, Keeps-paginate}
use pl8_base.Issue.{satisfy_items, satisfied_args, release_args, active_delete_items, row_delete}
use pl8_base.Issue.BlockerSteps.{
  Keeps-satisfy_issue_blocker, Keeps-delete_blocker_for_sweep, Keeps-delete_row,
}
use pl8_base.Attachment.{attachment_counter_updates, uncount_items, pending_attachment_delete}
use pl8_base.Attachment.DeleteSteps.{Keeps-delete_attachment_with_counters}
use pl8_base.Paged.{
  blocking_query, partition_query, blockers_query, get_issue_blocking, get_issue_partition,
  get_issue_blockers,
}
use pl8_base.Handlers.{
  is_linked_to, satisfy_item, handle_issue_done, sweep_item, sweep_blocker, sweep_blockers,
  handle_issue_deleted, unlink_item, handle_issue_comment_deleted,
}
use pl8_base.Handlers.Stored.{
  is_stored_blocker, is_part_key, is_stored_row, is_blocker_query, ReadsStored,
}

-- The key of a stored blocker is not that of an info row.
pub stored_blocker-part_key :
    (x : IssueBlocker) → is_stored_blocker x ≡ true → is_part_key (serialized_pk x.pk x.sk) ≡ true
stored_blocker-part_key x h = ground (
  arith,
  text_eq_iff (serialized_pk x.pk x.sk).sk (blocker_sk x.blocked_issue_space_id x.blocked_issue_id),
)

-- A validated query returns what the query returns.
validated-ok :
    {State A : Type 0} (sp : Text) (m : Exec State A) (s : State) (a : A)
    → ((lift (validate_space_id (str sp)) >> m) s).0 ≡ ok a
    → (m s).0 ≡ ok a
unfolding lift
validated-ok sp m s a h = (bind-ok (lift (validate_space_id (str sp))) (λ _. m) s a h).1.1

module _ (c : Client) (z : Gzip) (j : Codec) (pages : ℕ) (d : IsDynamo c)
    (reads : ReadsStored c z j) {P : Table → Type 0} where
  module _ (sp id : Text) (limit : Option ℕ) (cursor : Option Text) where
    Keeps-get_issue_blocking : Keeps c P (get_issue_blocking c z j sp id limit cursor)
    unfolding get_issue_blocking
    Keeps-get_issue_blocking = Keeps-validated c sp _ λ h. Keeps-run_query c z j d _ cursor limit

    Keeps-get_issue_partition : Keeps c P (get_issue_partition c z j sp id limit cursor)
    unfolding get_issue_partition
    Keeps-get_issue_partition = Keeps-validated c sp _ λ h. Keeps-run_query c z j d _ cursor limit

    Keeps-get_issue_blockers : Keeps c P (get_issue_blockers c z j sp id limit cursor)
    unfolding get_issue_blockers
    Keeps-get_issue_blockers = Keeps-validated c sp _ λ h. Keeps-run_query c z j d _ cursor limit

  -- handle_issue_done
  module _ (sp id : Text)
      (satisfy : (x : IssueBlocker) (now1 now2 : Text)
        → contains b'#' sp ≡ false
        → is_stored_blocker x ≡ true
        → WritesKeep P (
            satisfy_items sp id (update_request now1 (satisfied_args (serialized_pk x.pk x.sk))) (
              update_request now2
                (release_args x.blocked_issue_space_id x.blocked_issue_id)))) where
    Keeps-satisfy_item :
        (q : QueryParams) (x : BaseObject)
        → contains b'#' sp ≡ false
        → is_stored_row q x ≡ true
        → Keeps c P (satisfy_item c z j pages sp id x)
    Keeps-satisfy_item q (issue_blocker x) h good =
        Keeps-if c x.is_blocking_issue_done _ _ (Keeps-pure c true) (
          Keeps-bind c _ _
            (Keeps-satisfy_issue_blocker c z d x sp id λ now1 now2. satisfy x now1 now2 h good)
            λ _. Keeps-pure c true)
    Keeps-satisfy_item q (space_info x) h good = Keeps-raise c python_error
    Keeps-satisfy_item q (issue_info x) h good = Keeps-raise c python_error
    Keeps-satisfy_item q (issue_comment x) h good = Keeps-raise c python_error
    Keeps-satisfy_item q (issue_attachment x) h good = Keeps-raise c python_error

    pub Keeps-handle_issue_done : Keeps c P (handle_issue_done c z j pages sp id)
    unfolding handle_issue_done get_issue_blocking
    Keeps-handle_issue_done = Keeps-validated c sp _ λ h.
        Keeps-paginate c _ (is_stored_row (blocking_query sp id))
          (λ x good. Keeps-satisfy_item (blocking_query sp id) x h good) _
          (λ cursor s rows e.
            reads.stored (blocking_query sp id) cursor _ s rows (validated-ok sp _ s rows e))
          (Keeps-get_issue_blocking sp id _) pages none

  module _
      (uncount : (x : IssueAttachment) (wi wc : Bool)
        → WritesKeep P (uncount_items x (attachment_counter_updates x (negsuc 0) wi wc)))
      (drop : (x : IssueAttachment) → WritesKeep P (pending_attachment_delete x ∷ [])) where
    -- handle_issue_comment_deleted
    Keeps-unlink_item :
        (comment_id : Text) (x : BaseObject) → Keeps c P (unlink_item c z j pages comment_id x)
    Keeps-unlink_item comment_id (issue_attachment x) =
        Keeps-if c (is_linked_to comment_id x.comment_id) _ _
          (Keeps-bind c _ _ (Keeps-delete_attachment_with_counters c z d uncount drop x true false)
            λ _. Keeps-pure c true)
          (Keeps-pure c true)
    Keeps-unlink_item comment_id (space_info x) = Keeps-pure c true
    Keeps-unlink_item comment_id (issue_info x) = Keeps-pure c true
    Keeps-unlink_item comment_id (issue_comment x) = Keeps-pure c true
    Keeps-unlink_item comment_id (issue_blocker x) = Keeps-pure c true

    pub Keeps-handle_issue_comment_deleted :
        (sp id comment_id : Text)
        → Keeps c P (handle_issue_comment_deleted c z j pages sp id comment_id)
    unfolding handle_issue_comment_deleted get_issue_partition
    Keeps-handle_issue_comment_deleted sp id comment_id = Keeps-validated c sp _ λ h.
        Keeps-paginate c _ (is_stored_row (partition_query sp id))
          (λ x good. Keeps-unlink_item comment_id x) _
          (λ cursor s rows e.
            reads.stored (partition_query sp id) cursor _ s rows (validated-ok sp _ s rows e))
          (Keeps-get_issue_partition sp id _) pages none

    -- handle_issue_deleted
    module _
        (active : (x : IssueBlocker) (now : Text)
          → is_stored_blocker x ≡ true
          → WritesKeep P (
              active_delete_items
                (serialized_pk x.pk x.sk)
                (update_request now (release_args x.blocked_issue_space_id x.blocked_issue_id))))
        (bare : (key : Key) → is_part_key key ≡ true → WritesKeep P (row_delete key ∷ [])) where
      Keeps-sweep_item :
          (q : QueryParams) (x : BaseObject)
          → is_stored_row q x ≡ true
          → Keeps c P (sweep_item c z j pages x)
      Keeps-sweep_item q (issue_info x) good = Keeps-pure c false
      Keeps-sweep_item q (issue_blocker x) good =
          Keeps-bind c _ _
            (Keeps-delete_blocker_for_sweep c z d x (λ now. active x now good)
              (bare _ (stored_blocker-part_key x good)))
            λ _. Keeps-pure c true
      Keeps-sweep_item q (issue_attachment x) good =
          Keeps-bind c _ _ (Keeps-delete_attachment_with_counters c z d uncount drop x false true)
            λ _. Keeps-pure c true
      Keeps-sweep_item q (issue_comment x) good =
          Keeps-bind c _ _ (Keeps-delete_row c z d _ (bare _ good)) λ _. Keeps-pure c true
      Keeps-sweep_item q (space_info x) good = Keeps-raise c internal

      Keeps-sweep_blocker :
          (q : QueryParams) (x : BaseObject)
          → is_blocker_query q ≡ true
          → is_stored_row q x ≡ true
          → Keeps c P (sweep_blocker c z j pages x)
      Keeps-sweep_blocker q (issue_info x) b good = ground arith
      Keeps-sweep_blocker q (space_info x) b good = ground arith
      Keeps-sweep_blocker q (issue_blocker x) b good =
          Keeps-bind c _ _ (Keeps-delete_row c z d _ (bare _ (stored_blocker-part_key x good)))
            λ _. Keeps-pure c true
      Keeps-sweep_blocker q (issue_attachment x) b good =
          Keeps-bind c _ _ (Keeps-delete_row c z d _ (bare _ good)) λ _. Keeps-pure c true
      Keeps-sweep_blocker q (issue_comment x) b good =
          Keeps-bind c _ _ (Keeps-delete_row c z d _ (bare _ good)) λ _. Keeps-pure c true

      Keeps-sweep_blockers :
          (sp id : Text) (progress : Progress)
          → Keeps c P (sweep_blockers c z j pages sp id progress)
      unfolding get_issue_blockers
      Keeps-sweep_blockers sp id finished =
          Keeps-paginate c _ (is_stored_row (blockers_query sp id))
            (λ x good. Keeps-sweep_blocker (blockers_query sp id) x refl good) _
            (λ cursor s rows e.
              reads.stored (blockers_query sp id) cursor _ s rows (validated-ok sp _ s rows e))
            (Keeps-get_issue_blockers sp id _) pages none
      Keeps-sweep_blockers sp id stopped = Keeps-pure c finished
      Keeps-sweep_blockers sp id unfinished = Keeps-pure c unfinished

      pub Keeps-handle_issue_deleted :
          (sp id : Text) → Keeps c P (handle_issue_deleted c z j pages sp id)
      unfolding handle_issue_deleted get_issue_partition
      Keeps-handle_issue_deleted sp id = Keeps-validated c sp _ λ h.
          Keeps-bind c _ _
            (Keeps-paginate c _ (is_stored_row (partition_query sp id))
              (λ x good. Keeps-sweep_item (partition_query sp id) x good) _
              (λ cursor s rows e.
                reads.stored (partition_query sp id) cursor _ s rows (validated-ok sp _ s rows e))
              (Keeps-get_issue_partition sp id _) pages none)
            (Keeps-sweep_blockers sp id)
