-- ===== src/Issue/BlockerSteps.antt =====
-- What the operations on IssueBlockers keep of the table, from what their requests keep.
use pl8_base.Base.{
  ◌≡◌, ℕ, zero, suc, ◌+◌, ◌&&◌, length, false, Bool-cases, inl, inr, Option, List, [], ◌∷◌,
}
use pl8_base.Base.Text.{Text, text_eq, contains}
use pl8_base.Errors.{internal, bad_args}
use pl8_base.Dynamo.{
  Item, Key, Table, Write, Client, ClientError, Reply, replied, client_error, botocore_error,
}
use pl8_base.Dynamo.Documented.{IsDynamo}
use pl8_base.Types.{Gzip, IssueBlocker}
use pl8_base.Types.Serialize.{serialized_pk}
use pl8_base.Manager.Update.{update_request}
use pl8_base.Manager.Keeps.{
  Keeps, WritesKeep, Keeps-transact, Keeps-write_item, Keeps-retried, Keeps-bind, Keeps-pure,
  Keeps-raise, Keeps-if, Keeps-isotime, keeps_rules,
}
use pl8_base.Manager.Reads.{Keeps-raise_for_transaction_conflict, Keeps-failed_reason_item}
use pl8_base.Manager.Validated.{Keeps-validated, Keeps-bind-build_update}
use pl8_base.Issue.Writes.{
  new_blocker, block_args, release_args, satisfied_args, unblock_args, add_blocker_items,
  active_delete_items, satisfy_items, satisfied_blocker_delete, row_delete,
}
use pl8_base.Issue.Blockers.{
  on_add_blocker, add_issue_blocker, on_satisfied_delete, delete_satisfied, on_active_delete,
  remove_blocker, delete_issue_blocker, on_unblock, handle_issue_num_active_blockers_zeroed,
}
use pl8_base.Issue.Sweep.{
  first_failed, on_idempotent, apply_idempotent_transaction, on_delete_row, delete_row,
  satisfy_issue_blocker, delete_blocker_for_sweep,
}

module _ (c : Client) (z : Gzip) (d : IsDynamo c) {P : Table → Type 0} where
  pub Keeps-on_add_blocker :
      (x : IssueBlocker) (r : Reply (Unit {0})) → Keeps c P (on_add_blocker c z x r)
  Keeps-on_add_blocker x (replied _) = search keeps_rules
  Keeps-on_add_blocker x (client_error exc) =
      search
        (keeps_rules, Keeps-raise_for_transaction_conflict c z d, Keeps-failed_reason_item c z d)
        depth 20
  Keeps-on_add_blocker x botocore_error = search keeps_rules

  pub Keeps-add_issue_blocker :
      (sp1 id1 sp2 id2 : Text)
      → ((created now1 now2 : Text)
          → contains b'#' sp1 ≡ false
          → contains b'#' sp2 ≡ false
          → (text_eq sp1 sp2 && text_eq id1 id2) ≡ false
          → WritesKeep P (
              add_blocker_items sp1 id1
                (update_request now1 (block_args now2 sp2 id2))
                (new_blocker created sp1 id1 sp2 id2)))
      → Keeps c P (add_issue_blocker c z sp1 id1 sp2 id2)
  unfolding add_issue_blocker
  Keeps-add_issue_blocker sp1 id1 sp2 id2 step = Keeps-retried c d _ (
      Keeps-validated c sp1 _ λ h1. Keeps-validated c sp2 _ λ h2.
        elim (Bool-cases (text_eq sp1 sp2 && text_eq id1 id2)) [
          | inl e ↦ rw e (Keeps-raise c bad_args)
          | inr e ↦ rw e (
              Keeps-bind c _ _ (Keeps-isotime c d) λ created.
                Keeps-bind c _ _ (Keeps-isotime c d) λ now2.
                  Keeps-bind-build_update c z d _ _ λ now1.
                    Keeps-bind c _ _ (Keeps-transact c d _ (step created now1 now2 h1 h2 e))
                      (Keeps-on_add_blocker _))
        ])

  Keeps-on_satisfied_delete : (r : Reply (Option Item)) → Keeps c P (on_satisfied_delete c z r)
  Keeps-on_satisfied_delete (replied _) = search keeps_rules
  Keeps-on_satisfied_delete (client_error exc) =
      search (keeps_rules, Keeps-raise_for_transaction_conflict c z d) depth 12
  Keeps-on_satisfied_delete botocore_error = search keeps_rules

  module _ (key : Key) (bare : WritesKeep P (satisfied_blocker_delete key ∷ [])) where
    Keeps-delete_satisfied : Keeps c P (delete_satisfied c z key)
    Keeps-delete_satisfied =
        Keeps-bind c _ _ (Keeps-write_item c d _ bare) Keeps-on_satisfied_delete

    Keeps-on_active_delete : (r : Reply (Unit {0})) → Keeps c P (on_active_delete c z key r)
    Keeps-on_active_delete (replied _) = search keeps_rules
    Keeps-on_active_delete (client_error exc) =
        search
          (
            keeps_rules,
            Keeps-raise_for_transaction_conflict c z d,
            Keeps-failed_reason_item c z d,
            Keeps-delete_satisfied,
          )
          depth 20
    Keeps-on_active_delete botocore_error = search keeps_rules

    Keeps-remove_blocker :
        (sp id : Text)
        → ((now : Text)
            → WritesKeep P (active_delete_items key (update_request now (release_args sp id))))
        → Keeps c P (remove_blocker c z key sp id)
    Keeps-remove_blocker sp id step =
        Keeps-bind-build_update c z d _ _
          λ now. Keeps-bind c _ _ (Keeps-transact c d _ (step now)) Keeps-on_active_delete

  pub Keeps-delete_issue_blocker :
      (sp1 id1 sp2 id2 : Text)
      → ((created now : Text)
          → contains b'#' sp2 ≡ false
          → (let x = new_blocker created sp1 id1 sp2 id2 in
              WritesKeep P (
                active_delete_items
                  (serialized_pk x.pk x.sk)
                  (update_request now (release_args sp2 id2)))))
      → ((created : Text)
          → contains b'#' sp2 ≡ false
          → (let x = new_blocker created sp1 id1 sp2 id2 in
              WritesKeep P (satisfied_blocker_delete (serialized_pk x.pk x.sk) ∷ [])))
      → Keeps c P (delete_issue_blocker c z sp1 id1 sp2 id2)
  unfolding delete_issue_blocker
  Keeps-delete_issue_blocker sp1 id1 sp2 id2 active bare = Keeps-retried c d _ (
      Keeps-validated c sp1 _ λ h1. Keeps-validated c sp2 _ λ h2.
        Keeps-bind c _ _ (Keeps-isotime c d) λ created.
          Keeps-remove_blocker _ (bare created h2) sp2 id2 (λ now. active created now h2))

  Keeps-on_unblock : (r : Reply (Option Item)) → Keeps c P (on_unblock c z r)
  Keeps-on_unblock (replied _) = search keeps_rules
  Keeps-on_unblock (client_error exc) =
      search (keeps_rules, Keeps-raise_for_transaction_conflict c z d) depth 12
  Keeps-on_unblock botocore_error = search keeps_rules

  pub Keeps-handle_zeroed :
      (sp id : Text)
      → ((now2 now1 : Text)
          → contains b'#' sp ≡ false
          → WritesKeep P (update_request now1 (unblock_args now2 sp id) ∷ []))
      → Keeps c P (handle_issue_num_active_blockers_zeroed c z sp id)
  unfolding handle_issue_num_active_blockers_zeroed
  Keeps-handle_zeroed sp id step = Keeps-retried c d _ (
      Keeps-validated c sp _ λ h. Keeps-bind c _ _ (Keeps-isotime c d) λ now2.
        Keeps-bind-build_update c z d _ _
          λ now1. Keeps-bind c _ _ (Keeps-write_item c d _ (step now2 now1 h)) Keeps-on_unblock)

  Keeps-first_failed :
      (exc : ClientError) (index left : ℕ) → Keeps c P (first_failed c z exc index left)
  unfolding first_failed
  Keeps-first_failed exc index zero = Keeps-raise c internal
  Keeps-first_failed exc index (suc left) =
      Keeps-bind c _ _ (Keeps-failed_reason_item c z d exc index)
        λ entry. Keeps-if c entry.0 _ _ (Keeps-pure c _) (Keeps-first_failed exc (index + 1) left)

  pub Keeps-on_idempotent :
      (items : List Write) (r : Reply (Unit {0})) → Keeps c P (on_idempotent c z items r)
  Keeps-on_idempotent items (replied _) = Keeps-pure c _
  Keeps-on_idempotent items (client_error exc) =
      Keeps-bind c _ _ (Keeps-raise_for_transaction_conflict c z d exc)
        λ _. Keeps-first_failed exc 0 (length items)
  Keeps-on_idempotent items botocore_error = Keeps-raise c internal

  pub Keeps-apply_idempotent_transaction :
      (items : List Write) → WritesKeep P items → Keeps c P (apply_idempotent_transaction c z items)
  unfolding apply_idempotent_transaction
  Keeps-apply_idempotent_transaction items step =
      Keeps-retried c d _
        (Keeps-bind c _ _ (Keeps-transact c d items step) (Keeps-on_idempotent items))

  Keeps-on_delete_row : (r : Reply (Option Item)) → Keeps c P (on_delete_row c z r)
  Keeps-on_delete_row (replied _) = search keeps_rules
  Keeps-on_delete_row (client_error exc) =
      search (keeps_rules, Keeps-raise_for_transaction_conflict c z d) depth 12
  Keeps-on_delete_row botocore_error = search keeps_rules

  pub Keeps-delete_row :
      (key : Key) → WritesKeep P (row_delete key ∷ []) → Keeps c P (delete_row c z key)
  unfolding delete_row
  Keeps-delete_row key step =
      Keeps-retried c d _ (Keeps-bind c _ _ (Keeps-write_item c d _ step) Keeps-on_delete_row)

  pub Keeps-satisfy_issue_blocker :
      (x : IssueBlocker) (sp id : Text)
      → ((now1 now2 : Text)
          → WritesKeep P (
              satisfy_items sp id
                (update_request now1 (satisfied_args (serialized_pk x.pk x.sk)))
                (update_request now2 (release_args x.blocked_issue_space_id x.blocked_issue_id))))
      → Keeps c P (satisfy_issue_blocker c z x sp id)
  unfolding satisfy_issue_blocker
  Keeps-satisfy_issue_blocker x sp id step = Keeps-bind-build_update c z d _ _ λ now1.
      Keeps-bind-build_update c z d _ _ λ now2.
        Keeps-bind c _ _ (Keeps-apply_idempotent_transaction _ (step now1 now2)) λ _. Keeps-pure c _

  pub Keeps-delete_blocker_for_sweep :
      (x : IssueBlocker)
      → ((now : Text)
          → WritesKeep P (
              active_delete_items
                (serialized_pk x.pk x.sk)
                (update_request now (release_args x.blocked_issue_space_id x.blocked_issue_id))))
      → WritesKeep P (row_delete (serialized_pk x.pk x.sk) ∷ [])
      → Keeps c P (delete_blocker_for_sweep c z x)
  unfolding delete_blocker_for_sweep
  Keeps-delete_blocker_for_sweep x active bare =
      Keeps-bind c _ _
        (Keeps-if c x.is_blocking_issue_done _ _ (Keeps-pure c _) (
          Keeps-bind-build_update c z d _ _ λ now.
            Keeps-bind c _ _ (Keeps-apply_idempotent_transaction _ (active now))
              λ _. Keeps-pure c _))
        λ applied. Keeps-if c applied _ _ (Keeps-pure c _) (Keeps-delete_row _ bare)
