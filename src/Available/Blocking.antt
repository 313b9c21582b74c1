-- ===== src/Available/Blocking.antt =====
-- How a blocked Issue comes back to TODO.
use pl8_base.Base.{◌≡◌, refl, ap, ◌∙◌, sym, true, some, [], ◌∷◌}
use mathlib.Core.Path.{subst}
use pl8_base.Base.Int.{ℤ, pos}
use pl8_base.Base.Text.{Text}
use pl8_base.Errors.{ok}
use pl8_base.Dynamo.{
  Attr, num, Item, Table, IsUnique, Client, Key, Write, is_accepted, is_number, lookup, apply_write,
  new_row, run_clauses, lookup-write_row, update, key_eq, key_eq_iff,
}
use pl8_base.Dynamo.Documented.{IsDynamo}
use pl8_base.Dynamo.Available.{IsAvailable}
use pl8_base.Dynamo.Transaction.{apply_writes-IsUnique}
use pl8_base.Types.{Gzip, IssueStatus, todo, blocked, issue_info_key}
use pl8_base.Util.{validate_space_id, str}
use pl8_base.Manager.Update.{update_request, update_clauses}
use pl8_base.Issue.{status_val, unblock_args, handle_issue_num_active_blockers_zeroed}
use pl8_base.Available.Rules.{
  Gives, Gives-pure, Gives-lift, Gives-retried, Gives-bind, Gives-isotime, Gives-bind-build_update,
  Gives-bind-write_item,
}

-- A row of an Issue with a status and a number of active blockers.
pub record HasIssue (key : Key) (st : IssueStatus) (n : ℤ) (t : Table) : Type 0 where
  pub unique : IsUnique t
  pub row : Item
  pub at_key : lookup key t ≡ some row
  pub has_status : row Attr.status ≡ some (status_val st)
  pub has_count : row Attr.num_active_blockers ≡ some (num n)
  pub has_version : is_number (row Attr.version) ≡ true

-- The row that a write leaves at its key.
lookup-apply_write :
    (w : Write) (t : Table)
    → IsUnique t
    → lookup w.key (apply_write w t) ≡ new_row w.action (lookup w.key t)
lookup-apply_write w t u =
    let same : key_eq w.key w.key ≡ true = (key_eq_iff w.key w.key).1 refl in
    rw same at (lookup-write_row w.key w.key (new_row w.action (lookup w.key t)) t u)

module _ (sp id : Text) where
  unblock_accepted :
      (now now1 : Text) (t : Table)
      → HasIssue (issue_info_key sp id) blocked (pos 0) t
      → is_accepted t (update_request now1 (unblock_args now sp id)) ≡ true
  unfolding update_request unblock_args
  unblock_accepted now now1 t h = rw (h.at_key, h.has_status, h.has_count, h.has_version) refl

  unblocked :
      (now now1 : Text) (t : Table)
      → HasIssue (issue_info_key sp id) blocked (pos 0) t
      → HasIssue
          (issue_info_key sp id)
          todo
          (pos 0)
          (apply_write (update_request now1 (unblock_args now sp id)) t)
  unfolding update_request unblock_args
  unblocked now now1 t h = record {
    unique = apply_writes-IsUnique (update_request now1 (unblock_args now sp id) ∷ []) t h.unique;
    row = run_clauses (update_clauses now1 (unblock_args now sp id)) h.row;
    at_key =
        lookup-apply_write (update_request now1 (unblock_args now sp id)) t h.unique
        ∙ ap (new_row (update (update_clauses now1 (unblock_args now sp id)))) h.at_key;
    has_status = refl;
    has_count = h.has_count;
    has_version = refl;
  }

module _ (c : Client) (z : Gzip) (d : IsDynamo c) (a : IsAvailable c) (sp id : Text)
    (valid : validate_space_id (str sp) ≡ ok tt) where
  pub Gives-handle_zeroed :
      Gives c
        (HasIssue (issue_info_key sp id) blocked (pos 0))
        (handle_issue_num_active_blockers_zeroed c z sp id)
        (λ r t. HasIssue (issue_info_key sp id) todo (pos 0) t)
  unfolding handle_issue_num_active_blockers_zeroed
  Gives-handle_zeroed = Gives-retried c _ (
      Gives-bind c _ _ (Gives-lift c _ tt valid) λ _. Gives-bind c _ _ (Gives-isotime c z d) λ now.
        Gives-bind-build_update c z d (unblock_args now sp id) _ λ now1.
          Gives-bind-write_item c a _ _ (unblock_accepted sp id now now1) λ t h.
            Gives-pure c tt (λ u e.
              subst (HasIssue (issue_info_key sp id) todo (pos 0)) (sym e)
                (unblocked sp id now now1 t h)))

  -- Where the client refuses nothing that it may apply, and the space id is accepted: when an Issue is
  -- BLOCKED and its last active blocker is gone, handle_issue_num_active_blockers_zeroed returns,
  -- and the Issue is TODO.
  pub handle_zeroed-todo :
      (s : c.State)
      → HasIssue (issue_info_key sp id) blocked (pos 0) (c.table s)
      → ((handle_issue_num_active_blockers_zeroed c z sp id s).0 ≡ ok tt)
        × HasIssue
            (issue_info_key sp id)
            todo
            (pos 0)
            (c.table (handle_issue_num_active_blockers_zeroed c z sp id s).1)
  handle_zeroed-todo s h = let (r, (got, q)) = Gives-handle_zeroed.gives s h in (got, q)
