-- ===== src/Attachment/DeleteSteps.antt =====
-- What the deletes of attachments keep of the table, from what their requests keep.
use pl8_base.Base.{ℕ, zero, suc, sym, Bool, true, false, Option, none, some, [], ◌∷◌}
use mathlib.Core.Path.{subst}
use pl8_base.Base.Int.{negsuc}
use pl8_base.Base.Text.{Text}
use pl8_base.Errors.{Exec, internal, python_error, storage_internal, catch_missing}
use pl8_base.Errors.Bind.{missing_to_none-state}
use pl8_base.Dynamo.{Table, Client, Reply, replied, client_error, botocore_error}
use pl8_base.Dynamo.Documented.{IsDynamo}
use pl8_base.Types.{Gzip, IssueAttachment, is_uploaded}
use pl8_base.Storage.{Storage}
use pl8_base.Manager.Parse.{
  BaseObject, space_info, issue_info, issue_comment, issue_attachment, issue_blocker,
}
use pl8_base.Manager.Keeps.{
  Keeps, WritesKeep, Keeps-bind, Keeps-if, Keeps-pure, Keeps-raise, Keeps-lift,
}
use pl8_base.Manager.Reads.{Keeps-get_primary_item}
use pl8_base.Manager.Validated.{Keeps-validated}
use pl8_base.Issue.BlockerSteps.{Keeps-apply_idempotent_transaction}
use pl8_base.Attachment.{
  issue_counter, comment_counter, attachment_counter_updates, uncount_items,
  pending_attachment_delete, own_key, Uncounted, row_gone, counter_gone, no_such_entry,
  drop_counter, go_round, delete_ladder, delete_attachment_with_counters, delete_item_with_counters,
  delete_issue_attachment, on_delete_object, handle_issue_attachment_deleted,
}
use pl8_base.Attachment.StorageSteps.{Quiet, Keeps-with_storage, Keeps-delete_object}

pub Keeps-catch_missing :
    (c : Client) {P : Table → Type 0} {A : Type 0} (m : Exec c.State A)
    → Keeps c P m
    → Keeps c P (catch_missing m)
unfolding catch_missing
Keeps-catch_missing c {P} m k = record {
  at = λ s h. subst (λ s'. P (c.table s')) (sym (missing_to_none-state (m s))) (k.at s h);
}

module _ (c : Client) (z : Gzip) (d : IsDynamo c) {P : Table → Type 0} where
  pub Keeps-drop_counter :
      (again : Bool → Bool → Exec c.State (Unit {0})) (wi wc : Bool) (u : Uncounted)
      → ((wi wc : Bool) → Keeps c P (again wi wc))
      → Keeps c P (drop_counter c z again wi wc u)
  Keeps-drop_counter again wi wc row_gone k = Keeps-pure c tt
  Keeps-drop_counter again wi wc (counter_gone issue_counter) k = k false wc
  Keeps-drop_counter again wi wc (counter_gone comment_counter) k = k wi false
  Keeps-drop_counter again wi wc no_such_entry k = Keeps-raise c python_error

  pub Keeps-go_round :
      (again : IssueAttachment → Exec c.State (Unit {0})) (o : Option (Option BaseObject))
      → ((y : IssueAttachment) → Keeps c P (again y))
      → Keeps c P (go_round c z again o)
  Keeps-go_round again none k = Keeps-pure c tt
  Keeps-go_round again (some (some (issue_attachment y))) k = k y
  Keeps-go_round again (some (some (issue_info y))) k = Keeps-raise c python_error
  Keeps-go_round again (some (some (space_info y))) k = Keeps-raise c python_error
  Keeps-go_round again (some (some (issue_comment y))) k = Keeps-raise c python_error
  Keeps-go_round again (some (some (issue_blocker y))) k = Keeps-raise c python_error
  Keeps-go_round again (some none) k = Keeps-raise c python_error

  -- The two requests of the ladder, for every row that it may come to.
  module _
      (uncount : (x : IssueAttachment) (wi wc : Bool)
        → WritesKeep P (uncount_items x (attachment_counter_updates x (negsuc 0) wi wc)))
      (drop : (x : IssueAttachment) → WritesKeep P (pending_attachment_delete x ∷ [])) where
    Keeps-delete_ladder :
        (n : ℕ) (x : IssueAttachment) (wi wc : Bool) → Keeps c P (delete_ladder c z n x wi wc)
    unfolding delete_ladder
    Keeps-delete_ladder zero x wi wc = Keeps-raise c internal
    Keeps-delete_ladder (suc n) x wi wc =
        Keeps-if c (is_uploaded x.status) _ _
          (Keeps-bind c _ _ (Keeps-apply_idempotent_transaction c z d _ (uncount x wi wc))
            λ applied. Keeps-drop_counter _ wi wc _ (Keeps-delete_ladder n x))
          (Keeps-bind c _ _ (Keeps-apply_idempotent_transaction c z d _ (drop x)) λ applied.
            Keeps-if c applied.0 _ _ (Keeps-pure c tt) (
              Keeps-bind c _ _ (Keeps-catch_missing c _ (Keeps-get_primary_item c z d (own_key x)))
                λ again. Keeps-go_round _ again λ y. Keeps-delete_ladder n y wi wc))

    pub Keeps-delete_attachment_with_counters :
        (x : IssueAttachment) (wi wc : Bool)
        → Keeps c P (delete_attachment_with_counters c z x wi wc)
    unfolding delete_attachment_with_counters
    Keeps-delete_attachment_with_counters = Keeps-delete_ladder 4

    Keeps-delete_item : (o : Option BaseObject) → Keeps c P (delete_item_with_counters c z o)
    Keeps-delete_item (some (issue_attachment x)) =
        Keeps-delete_attachment_with_counters x true true
    Keeps-delete_item (some (issue_info x)) = Keeps-raise c python_error
    Keeps-delete_item (some (space_info x)) = Keeps-raise c python_error
    Keeps-delete_item (some (issue_comment x)) = Keeps-raise c python_error
    Keeps-delete_item (some (issue_blocker x)) = Keeps-raise c python_error
    Keeps-delete_item none = Keeps-raise c python_error

    pub Keeps-delete_issue_attachment :
        (sp id aid : Text) → Keeps c P (delete_issue_attachment c z sp id aid)
    unfolding delete_issue_attachment
    Keeps-delete_issue_attachment sp id aid =
        Keeps-validated c sp _
          λ h. Keeps-bind c _ _ (Keeps-get_primary_item c z d _) Keeps-delete_item

  module _ (storage : Option (Storage c.State)) (quiet : Quiet c storage) where
    Keeps-on_delete_object : (r : Reply (Unit {0})) → Keeps c P (on_delete_object c z storage r)
    Keeps-on_delete_object (replied _) = Keeps-pure c tt
    Keeps-on_delete_object (client_error _) = Keeps-raise c storage_internal
    Keeps-on_delete_object botocore_error = Keeps-raise c storage_internal

    pub Keeps-handle_issue_attachment_deleted :
        (sp id aid : Text) → Keeps c P (handle_issue_attachment_deleted c z storage sp id aid)
    unfolding handle_issue_attachment_deleted
    Keeps-handle_issue_attachment_deleted sp id aid = Keeps-validated c sp _ λ h.
        Keeps-bind c _ _ (Keeps-lift c _) λ _.
          Keeps-with_storage c storage quiet _
            λ st q. Keeps-bind c _ _ (Keeps-delete_object c st q _) Keeps-on_delete_object
