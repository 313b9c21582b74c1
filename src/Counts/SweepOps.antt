-- ===== src/Counts/SweepOps.antt =====
-- num_active_blockers through delete_blocker_for_sweep.
use pl8_base.Base.{
  ℕ, zero, suc, ◌≡◌, refl, ◌∙◌, ap, sym, Bool, true, false, Bool-cases, inl, inr, Option, none,
  List, arith, if◌then◌else◌,
}
use mathlib.Core.Path.{subst}
use pl8_base.Base.Text.{Text, contains}
use pl8_base.Errors.{Result, ok, err, pure, resume, ◌>>=◌}
use pl8_base.Dynamo.{Client, Table, Write, Key, conditions_hold, isotime}
use pl8_base.Dynamo.Documented.{IsDynamo}
use pl8_base.Types.{Gzip, IssueBlocker, blocker_sk}
use pl8_base.Types.Serialize.{serialized_pk}
use pl8_base.Manager.Keeps.{Keeps, WritesKeep, Keeps-bind, Keeps-pure}
use pl8_base.Manager.Validated.{Keeps-bind-build_update}
use pl8_base.Manager.Update.{update_request, build_update}
use pl8_base.Issue.{
  active_blocker_delete, release_args, active_delete_items, apply_idempotent_transaction,
  delete_row, delete_blocker_for_sweep, sweep_active,
}
use pl8_base.Issue.BlockerSteps.{Keeps-apply_idempotent_transaction, Keeps-delete_row}
use pl8_base.Issue.Blame.{apply_idempotent_transaction-failed}
use pl8_base.Issue.FailedIndex.{IsIndexed, apply_idempotent_transaction-IsIndexed}
use pl8_base.Counts.Blockers.{active_delete-BlockersCounted}
use pl8_base.Counts.Ladder.{Keeps-bind-after}
use pl8_base.Counts.Schemes.{BlockersCounted}
use pl8_base.Counts.Sweep.{Spent, CountedAndSpent, bare-CountedAndSpent}

module _ (c : Client) (z : Gzip) (d : IsDynamo c) (key : Key) (sp id : Text)
    (stored : key.sk ≡ blocker_sk sp id) (h : contains b'#' sp ≡ false) where
  abbrev items : Text → List Write
  items now = active_delete_items key (update_request now (release_args sp id))

  -- The decrementing form is refused only where no counter counts the row.
  refused-Spent :
      (now : Text) (a : Bool × Option ℕ) (s : c.State)
      → (apply_idempotent_transaction c z (items now) s).0 ≡ ok a
      → a.0 ≡ false
      → Spent key sp id stored h (c.table (apply_idempotent_transaction c z (items now) s).1)
  unfolding update_request release_args active_blocker_delete
  refused-Spent now a s got bad =
      of_index (apply_idempotent_transaction-IsIndexed c z (items now) s a got)
    where
      no_flag : {A : Type 0} → a ≡ (true, none) → A
      no_flag e = ground arith

      row_spent :
          (t : Table)
          → conditions_hold t (active_blocker_delete key) ≡ false
          → Spent key sp id stored h t
      row_spent t e = inl (ground arith)

      issue_spent :
          (t : Table)
          → conditions_hold t (update_request now (release_args sp id)) ≡ false
          → Spent key sp id stored h t
      issue_spent t e = inr (ground arith)

      of_index :
          IsIndexed 2 a
          → Spent key sp id stored h (c.table (apply_idempotent_transaction c z (items now) s).1)
      of_index (inl e) = no_flag e
      of_index (inr (zero, (e, few))) = row_spent _ (
          apply_idempotent_transaction-failed c z d (items now) 0 (active_blocker_delete key) s refl
            (got ∙ ap ok e))
      of_index (inr (suc zero, (e, few))) = issue_spent _ (
          apply_idempotent_transaction-failed c z d (items now) 1
            (update_request now (release_args sp id)) s refl (got ∙ ap ok e))
      of_index (inr (suc (suc k), (e, few))) = ground arith

module _ (c : Client) (z : Gzip) (d : IsDynamo c) (x : IssueBlocker)
    (stored : (serialized_pk x.pk x.sk).sk ≡ blocker_sk x.blocked_issue_space_id x.blocked_issue_id)
    (h : contains b'#' x.blocked_issue_space_id ≡ false) where
  abbrev x_key : Key
  x_key = serialized_pk x.pk x.sk

  abbrev ItsSpent : Table → Type 0
  ItsSpent = Spent x_key x.blocked_issue_space_id x.blocked_issue_id stored h

  sweep_active-Spent :
      (a : Bool) (s : c.State)
      → (sweep_active c z x s).0 ≡ ok a
      → a ≡ false
      → ItsSpent (c.table (sweep_active c z x s).1)
  unfolding ◌>>=◌ build_update isotime pure
  sweep_active-Spent a s got bad =
      let (now, s') = c.isotime s in
      let m =
        apply_idempotent_transaction c z
          (items c z d x_key x.blocked_issue_space_id x.blocked_issue_id stored h now) in
      of_apply (m s').0 (m s').1
        (λ b e f.
          refused-Spent c z d x_key x.blocked_issue_space_id x.blocked_issue_id stored h now b s' e
            f)
        got
    where
      of_apply :
          (r : Result (Bool × Option ℕ)) (t : c.State)
          → ((b : Bool × Option ℕ) → r ≡ ok b → b.0 ≡ false → ItsSpent (c.table t))
          → (resume r (λ applied. pure applied.0) t).0 ≡ ok a
          → ItsSpent (c.table (resume r (λ applied. pure applied.0) t).1)
      of_apply (ok b) t k e = k b refl (same e ∙ bad)
        where
          same : {p q : Bool} → Path (Result Bool) (ok p) (ok q) → p ≡ q
          same e = ground arith
      of_apply (err b) t k e = ground arith

  bare_delete :
      (s : c.State)
      → CountedAndSpent x_key x.blocked_issue_space_id x.blocked_issue_id stored h (c.table s)
      → BlockersCounted (c.table (delete_row c z x_key s).1)
  bare_delete s p =
      ((Keeps-delete_row c z d x_key
          (bare-CountedAndSpent x_key x.blocked_issue_space_id x.blocked_issue_id stored h)).at
        s p).0

  active_keeps :
      (now : Text)
      → WritesKeep BlockersCounted (
          active_delete_items x_key
            (update_request now (release_args x.blocked_issue_space_id x.blocked_issue_id)))
  active_keeps now =
      let same : record {
        pk = x_key.pk;
        sk = blocker_sk x.blocked_issue_space_id x.blocked_issue_id;
      }
          ≡ x_key =
        ap (λ t. record { pk = x_key.pk; sk = t }) (sym stored) in
      subst
        (λ (k : Key). WritesKeep BlockersCounted (
          active_delete_items k
            (update_request now (release_args x.blocked_issue_space_id x.blocked_issue_id))))
        same
        (active_delete-BlockersCounted now x_key.pk x.blocked_issue_space_id x.blocked_issue_id h)

  Keeps-sweep_active : Keeps c BlockersCounted (sweep_active c z x)
  Keeps-sweep_active = Keeps-bind-build_update c z d _ _ λ now.
      Keeps-bind c _ _ (Keeps-apply_idempotent_transaction c z d _ (active_keeps now))
        λ applied. Keeps-pure c _

  -- What is left to do after the decrementing form.
  after_active :
      (applied : Bool) (s : c.State)
      → BlockersCounted (c.table s) × (applied ≡ false → ItsSpent (c.table s))
      → BlockersCounted (c.table ((if applied then pure tt else delete_row c z x_key) s).1)
  unfolding pure
  after_active true s p = p.0
  after_active false s p = bare_delete s (p.0, p.1 refl)

  -- If every Issue that is there has in num_active_blockers the number of the unsatisfied
  -- IssueBlockers that name it as blocked, then that is so after delete_blocker_for_sweep, whatever it
  -- returns or raises, for a blocker with the sort key that its fields make, in a Space whose id has no
  -- "#". Where the blocker was read as satisfied, its row may not be active, unless the blocked Issue
  -- is gone.
  pub delete_blocker_for_sweep-keeps_BlockersCounted :
      (s : c.State)
      → (x.is_blocking_issue_done ≡ true
          → Spent x_key x.blocked_issue_space_id x.blocked_issue_id stored h (c.table s))
      → BlockersCounted (c.table s)
      → BlockersCounted (c.table (delete_blocker_for_sweep c z x s).1)
  unfolding delete_blocker_for_sweep ◌>>=◌ pure
  delete_blocker_for_sweep-keeps_BlockersCounted s spent counted =
      elim (Bool-cases x.is_blocking_issue_done) [
        | inl e ↦ rw e (bare_delete s (counted, spent e))
        | inr e ↦ rw e (
            (Keeps-bind-after c (λ b t. BlockersCounted t × (b ≡ false → ItsSpent t))
                (sweep_active c z x) _ Keeps-sweep_active
                (λ b t got p. (p, sweep_active-Spent b t got)) after_active).at
              s counted)
      ]
