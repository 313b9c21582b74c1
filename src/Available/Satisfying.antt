-- ===== src/Available/Satisfying.antt =====
-- How a blocker is satisfied, and its Issue comes back to TODO.
use pl8_base.Base.{◌≡◌, refl, ap, ◌∙◌, sym, true, false, ◌&&◌, none, some, List, all, arith}
use mathlib.Core.Path.{subst}
use pl8_base.Base.Int.{ℤ, pos, negsuc, ◌+ℤ◌, pos-decr}
use pl8_base.Base.Text.{Text, text_eq, contains}
use pl8_base.Errors.{ok, Exec, ◌>>◌}
use pl8_base.Dynamo.{
  Attr, num, flag, Item, Table, Client, Key, key_eq, Write, is_accepted, is_number, number_or_zero,
  key_eq_iff, lookup, apply_writes, run_clauses,
}
use pl8_base.Dynamo.Documented.{IsDynamo}
use pl8_base.Dynamo.Available.{IsAvailable}
use pl8_base.Dynamo.Transaction.{is_distinct, apply_writes-IsUnique, lookup-apply_writes}
use pl8_base.Types.{Gzip, IssueBlocker, todo, blocked, done, issue_info_key, blocker_sk}
use pl8_base.Types.Serialize.{serialized_pk}
use pl8_base.Util.{validate_space_id, str}
use pl8_base.Manager.Update.{update_request, update_clauses}
use pl8_base.Issue.{
  status_val, check_done, satisfied_args, release_args, satisfy_items, apply_idempotent_transaction,
  satisfy_issue_blocker, handle_issue_num_active_blockers_zeroed,
}
use pl8_base.Counts.Keys.{key_eq-issue_info_key}
use pl8_base.Available.Rules.{
  Gives, Gives-pure, Gives-from, Gives-retried, Gives-bind, Gives-bind-build_update,
  Gives-bind-transact,
}
use pl8_base.Available.Blocking.{HasIssue, Gives-handle_zeroed}

-- An active blocker of a BLOCKED Issue, whose blocking Issue is DONE.
pub record IsSatisfiable (sp1 id1 : Text) (key : Key) (sp2 id2 : Text) (n : ℤ) (t : Table)
    : Type 0 where
  pub issue : HasIssue (issue_info_key sp2 id2) blocked n t
  pub blocking : Item
  pub at_blocking : lookup (issue_info_key sp1 id1) t ≡ some blocking
  pub is_done : blocking Attr.status ≡ some (status_val done)
  pub blocker : Item
  pub at_blocker : lookup key t ≡ some blocker
  pub is_active : blocker Attr.is_blocking_issue_done ≡ some (flag false)
  pub has_version : is_number (blocker Attr.version) ≡ true

-- What is left: one active blocker fewer, and the blocker satisfied.
pub record IsSatisfied (key : Key) (sp2 id2 : Text) (n : ℤ) (t : Table) : Type 0 where
  pub issue : HasIssue (issue_info_key sp2 id2) blocked (n +ℤ negsuc 0) t
  pub blocker : Item
  pub at_blocker : lookup key t ≡ some blocker
  pub is_satisfied : blocker Attr.is_blocking_issue_done ≡ some (flag true)

module _ (sp1 id1 sp2 id2 : Text) (key : Key) (stored : key.sk ≡ blocker_sk sp2 id2)
    (h1 : contains b'#' sp1 ≡ false) (h2 : contains b'#' sp2 ≡ false)
    (other : (text_eq sp1 sp2 && text_eq id1 id2) ≡ false) where
  same_key : (k : Key) → key_eq k k ≡ true
  same_key k = (key_eq_iff k k).1 refl

  issues_apart : key_eq (issue_info_key sp1 id1) (issue_info_key sp2 id2) ≡ false
  issues_apart = key_eq-issue_info_key sp1 id1 sp2 id2 h1 h2 ∙ other

  info_apart : (sp id : Text) → key_eq (issue_info_key sp id) key ≡ false
  info_apart sp id = ground arith

  blocker_apart : (sp id : Text) → key_eq key (issue_info_key sp id) ≡ false
  blocker_apart sp id = ground arith

  module _ (now1 now2 : Text) where
    abbrev satisfying : List Write
    satisfying =
        satisfy_items sp1 id1 (update_request now1 (satisfied_args key))
          (update_request now2 (release_args sp2 id2))

    satisfying_distinct : is_distinct satisfying ≡ true
    unfolding check_done update_request satisfied_args release_args
    satisfying_distinct = rw (info_apart sp1 id1, issues_apart, blocker_apart sp2 id2) refl

    satisfying_accepted :
        (n : ℤ) (t : Table)
        → IsSatisfiable sp1 id1 key sp2 id2 n t
        → all (is_accepted t) satisfying ≡ true
    unfolding check_done update_request satisfied_args release_args
    satisfying_accepted n t h =
        rw
          (
            h.at_blocking, h.is_done, h.at_blocker, h.is_active, h.has_version, h.issue.at_key,
            h.issue.has_count, h.issue.has_version,
          )
          refl

    satisfying-IsSatisfied :
        (n : ℤ) (t : Table)
        → IsSatisfiable sp1 id1 key sp2 id2 n t
        → IsSatisfied key sp2 id2 n (apply_writes satisfying t)
    unfolding check_done update_request satisfied_args release_args
    satisfying-IsSatisfied n t h = record {
      issue = record {
        unique = apply_writes-IsUnique satisfying t h.issue.unique;
        row = run_clauses (update_clauses now2 (release_args sp2 id2)) h.issue.row;
        at_key =
            lookup-apply_writes satisfying t (issue_info_key sp2 id2) h.issue.unique
              satisfying_distinct
            ∙ rw
                (
                  issues_apart,
                  blocker_apart sp2 id2,
                  same_key (issue_info_key sp2 id2),
                  h.issue.at_key,
                )
                refl;
        has_status = h.issue.has_status;
        has_count = ap (λ v. some (num (number_or_zero v +ℤ negsuc 0))) h.issue.has_count;
        has_version = refl;
      };
      blocker = run_clauses (update_clauses now1 (satisfied_args key)) h.blocker;
      at_blocker =
          lookup-apply_writes satisfying t key h.issue.unique satisfying_distinct
          ∙ rw (info_apart sp1 id1, same_key key, h.at_blocker) refl;
      is_satisfied = refl;
    }

-- The two steps that the events of a finished Issue lead to.
abbrev pub satisfy_and_unblock :
    (c : Client) → Gzip → IssueBlocker → Text → Text → Exec c.State (Unit {0})
satisfy_and_unblock c z x space_id issue_id = do
  satisfy_issue_blocker c z x space_id issue_id
  handle_issue_num_active_blockers_zeroed c z x.blocked_issue_space_id x.blocked_issue_id

module _ (c : Client) (z : Gzip) (d : IsDynamo c) (a : IsAvailable c) (x : IssueBlocker)
    (sp1 id1 : Text)
    (stored : (serialized_pk x.pk x.sk).sk ≡ blocker_sk x.blocked_issue_space_id x.blocked_issue_id)
    (h1 : contains b'#' sp1 ≡ false) (h2 : contains b'#' x.blocked_issue_space_id ≡ false)
    (other : (text_eq sp1 x.blocked_issue_space_id && text_eq id1 x.blocked_issue_id) ≡ false) where
  abbrev x_key : Key
  x_key = serialized_pk x.pk x.sk

  abbrev blocked_key : Key
  blocked_key = issue_info_key x.blocked_issue_space_id x.blocked_issue_id

  module _ (n : ℤ) where
    abbrev Before : Table → Type 0
    Before = IsSatisfiable sp1 id1 x_key x.blocked_issue_space_id x.blocked_issue_id n

    abbrev After : Table → Type 0
    After = IsSatisfied x_key x.blocked_issue_space_id x.blocked_issue_id n

    Gives-satisfying :
        (now1 now2 : Text)
        → Gives c Before
            (apply_idempotent_transaction c z (
              satisfy_items sp1 id1
                (update_request now1 (satisfied_args x_key))
                (update_request now2 (release_args x.blocked_issue_space_id x.blocked_issue_id))))
            (λ r t. After t)
    unfolding apply_idempotent_transaction
    Gives-satisfying now1 now2 = Gives-retried c _ (
        Gives-bind-transact c a _ _
          (satisfying_distinct sp1 id1 _ _ x_key stored h1 h2 other now1 now2)
          (satisfying_accepted sp1 id1 _ _ x_key stored h1 h2 other now1 now2 n)
          λ t h.
            Gives-pure c (true, none)
              λ u e.
                subst After (sym e)
                  (satisfying-IsSatisfied sp1 id1 _ _ x_key stored h1 h2 other now1 now2 n t h))

    Gives-satisfy_issue_blocker :
        Gives c Before (satisfy_issue_blocker c z x sp1 id1) (λ r t. After t)
    unfolding satisfy_issue_blocker
    Gives-satisfy_issue_blocker = Gives-bind-build_update c z d (satisfied_args x_key) _ λ now1.
        Gives-bind-build_update c z d (release_args x.blocked_issue_space_id x.blocked_issue_id) _
          λ now2. Gives-bind c _ _ (Gives-satisfying now1 now2) λ r. Gives-pure c tt λ t h. h

  -- Where the client refuses nothing that it may apply: from a table on which an Issue is BLOCKED by
  -- one active blocker, whose own Issue is DONE, satisfy_issue_blocker and then
  -- handle_issue_num_active_blockers_zeroed return, and the blocked Issue is TODO, with no active
  -- blocker. The blocker is stored under its key, the space ids are accepted and the two Issues are
  -- different.
  pub satisfy-zeroed-todo :
      (s : c.State)
      → validate_space_id (str x.blocked_issue_space_id) ≡ ok tt
      → IsSatisfiable sp1 id1
          (serialized_pk x.pk x.sk)
          x.blocked_issue_space_id
          x.blocked_issue_id
          (pos 1)
          (c.table s)
      → ((satisfy_and_unblock c z x sp1 id1 s).0 ≡ ok tt)
        × HasIssue
            (issue_info_key x.blocked_issue_space_id x.blocked_issue_id)
            todo
            (pos 0)
            (c.table (satisfy_and_unblock c z x sp1 id1 s).1)
  satisfy-zeroed-todo s valid h =
      let (r, (got, q)) =
        (Gives-bind c {M = λ r t. After (pos 1) t} _ _ (Gives-satisfy_issue_blocker (pos 1)) λ r.
            Gives-from c {P' = After (pos 1)} _
              (λ t left. subst (λ n. HasIssue blocked_key blocked n t) (pos-decr 0) left.issue)
              (Gives-handle_zeroed c z d a x.blocked_issue_space_id x.blocked_issue_id valid)).gives
          s h in
      (got, q)
