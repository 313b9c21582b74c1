-- ===== src/Counts/Ladder.antt =====
-- num_attachments through the operations on attachments, the ladder of deletes included.
use pl8_base.Base.{
  ℕ, zero, suc, ◌≡◌, refl, Bool, true, false, Bool-cases, inl, inr, Option, none, some, ◌++◌, arith,
  ◌∙◌, ◌&&◌,
}
use pl8_base.Base.Int.{negsuc}
use pl8_base.Base.Text.{Text}
use pl8_base.Errors.{Result, ok, err, internal, python_error, Exec, pure, raise, resume, ◌>>=◌}
use pl8_base.Dynamo.{Client, Table}
use pl8_base.Dynamo.Documented.{IsDynamo}
use pl8_base.Types.{Gzip, IssueAttachment, is_uploaded}
use pl8_base.Manager.Keeps.{Keeps, WritesKeep, Keeps-bind, Keeps-if, Keeps-pure, Keeps-raise}
use pl8_base.Manager.Reads.{Keeps-get_primary_item}
use pl8_base.Issue.{apply_idempotent_transaction, issue_num_attachments_update}
use pl8_base.Issue.BlockerSteps.{Keeps-apply_idempotent_transaction}
use pl8_base.Issue.Blame.{apply_idempotent_transaction-failed}
use pl8_base.Attachment.{
  issue_counter, comment_counter, issue_counters, comment_counters, attachment_counter_updates,
  uncount_items, own_key, Uncounted, row_gone, counter_gone, no_such_entry, uncounted, drop_counter,
  delete_ladder,
}
use pl8_base.Attachment.DeleteSteps.{Keeps-catch_missing, Keeps-go_round}
use pl8_base.Counts.Schemes.{AttachmentsCounted}
use pl8_base.Counts.AttachmentCount.{uncounting-AttachmentsCounted, drop-AttachmentsCounted}
use pl8_base.Counts.Gone.{Gone, CountedAndGone, uncount-CountedAndGone}

-- What follows may use what holds of a returned value and of the state that comes with it.
pub Keeps-bind-after :
    (c : Client) {P : Table → Type 0} {A B : Type 0} (R : A → Table → Type 0) (m : Exec c.State A)
    (f : A → Exec c.State B)
    → Keeps c P m
    → ((a : A) (s : c.State) → (m s).0 ≡ ok a → P (c.table (m s).1) → R a (c.table (m s).1))
    → ((a : A) (s : c.State) → R a (c.table s) → P (c.table (f a s).1))
    → Keeps c P (m >>= f)
unfolding ◌>>=◌
Keeps-bind-after c {P} R m f km known kf = record {
  at = λ s h. of_result (m s).0 (m s).1 (km.at s h) (λ a e. known a s e (km.at s h));
}
  where
    of_result :
        (r : Result _) (s : c.State)
        → P (c.table s)
        → ((a : _) → r ≡ ok a → R a (c.table s))
        → P (c.table (resume r f s).1)
    of_result (ok a) s h k = kf a s (k a refl)
    of_result (err e) s h k = h

-- The Issue's counter is the first entry behind the row.
first_counter :
    (sp id : Text) (link : Option Text) (wc applied : Bool) (failed : Option ℕ)
    → uncounted
        (issue_counters true sp id (negsuc 0) ++ comment_counters wc sp id link (negsuc 0))
        applied
        failed
      ≡ counter_gone issue_counter
    → (applied ≡ false) × (failed ≡ some 1)
first_counter sp id link wc true failed h = ground arith
first_counter sp id link wc false none h = ground arith
first_counter sp id link wc false (some zero) h = ground arith
first_counter sp id link wc false (some (suc zero)) h = (refl, refl)
first_counter sp id link false false (some (suc (suc i))) h = ground arith
first_counter sp id none true false (some (suc (suc i))) h = ground arith
first_counter sp id (some k) true false (some (suc (suc zero))) h = ground arith
first_counter sp id (some k) true false (some (suc (suc (suc i)))) h = ground arith

module _ (c : Client) (z : Gzip) (d : IsDynamo c) where
  bare_attempt :
      (x : IssueAttachment) (n : ℕ) (wc : Bool) (u : Uncounted)
      → ((wc : Bool) → Keeps c (CountedAndGone x) (delete_ladder c z n x false wc))
      → Keeps c (CountedAndGone x) (drop_counter c z (delete_ladder c z n x) false wc u)
  bare_attempt x n wc row_gone k = Keeps-pure c tt
  bare_attempt x n wc (counter_gone issue_counter) k = k wc
  bare_attempt x n wc (counter_gone comment_counter) k = k false
  bare_attempt x n wc no_such_entry k = Keeps-raise c python_error

  -- Without the Issue's counter, where the Issue is gone.
  Keeps-bare_ladder :
      (x : IssueAttachment) (n : ℕ) (wc : Bool)
      → is_uploaded x.status ≡ true
      → Keeps c (CountedAndGone x) (delete_ladder c z n x false wc)
  unfolding delete_ladder
  Keeps-bare_ladder x zero wc up = Keeps-raise c internal
  Keeps-bare_ladder x (suc n) wc up = rw up (
      Keeps-bind c _ _ (Keeps-apply_idempotent_transaction c z d _ (uncount-CountedAndGone x wc))
        λ applied. bare_attempt x n wc _ λ wc. Keeps-bare_ladder x n wc up)

  -- The Issue's counter is refused only where the Issue is gone.
  counter_gone-Gone :
      (x : IssueAttachment) (wc : Bool) (a : Bool × Option ℕ) (s : c.State)
      → (let counters = attachment_counter_updates x (negsuc 0) true wc in
          (apply_idempotent_transaction c z (uncount_items x counters) s).0 ≡ ok a
          → uncounted counters a.0 a.1 ≡ counter_gone issue_counter
          → Gone x (c.table (apply_idempotent_transaction c z (uncount_items x counters) s).1))
  unfolding attachment_counter_updates issue_num_attachments_update
  counter_gone-Gone x wc a s got h =
      let (refused, first) = first_counter x.space_id x.issue_id x.comment_id wc a.0 a.1 h in
      no_row (
        apply_idempotent_transaction-failed c z d _ 1
          (issue_num_attachments_update x.space_id x.issue_id (negsuc 0)) s refl
          (got ∙ as_index a refused first))
    where
      as_index :
          (a : Bool × Option ℕ)
          → a.0 ≡ false
          → a.1 ≡ some 1
          → Path (Result (Bool × Option ℕ)) (ok a) (ok (false, some 1))
      as_index a refused first = ground arith

      no_row : {b : Bool} → (b && true) ≡ false → b ≡ false
      no_row h = ground arith

  uncount-AttachmentsCounted :
      (x : IssueAttachment) (wc : Bool)
      → WritesKeep AttachmentsCounted
          (uncount_items x (attachment_counter_updates x (negsuc 0) true wc))
  unfolding attachment_counter_updates
  uncount-AttachmentsCounted x wc = uncounting-AttachmentsCounted x x.comment_id wc

  full_attempt :
      (x : IssueAttachment) (n : ℕ) (wc : Bool) (u : Uncounted) (s : c.State)
      → is_uploaded x.status ≡ true
      → ((wc : Bool) → Keeps c AttachmentsCounted (delete_ladder c z n x true wc))
      → AttachmentsCounted (c.table s) × (u ≡ counter_gone issue_counter → Gone x (c.table s))
      → AttachmentsCounted (c.table (drop_counter c z (delete_ladder c z n x) true wc u s).1)
  unfolding pure raise
  full_attempt x n wc row_gone s up k h = h.0
  full_attempt x n wc (counter_gone issue_counter) s up k h =
      ((Keeps-bare_ladder x n wc up).at s (h.0, h.1 refl)).0
  full_attempt x n wc (counter_gone comment_counter) s up k h = (k false).at s h.0
  full_attempt x n wc no_such_entry s up k h = h.0

  -- With it.
  pub Keeps-full_ladder :
      (n : ℕ) (x : IssueAttachment) (wc : Bool)
      → Keeps c AttachmentsCounted (delete_ladder c z n x true wc)
  unfolding delete_ladder
  Keeps-full_ladder zero x wc = Keeps-raise c internal
  Keeps-full_ladder (suc n) x wc = elim (Bool-cases (is_uploaded x.status)) [
    | inl up ↦ rw up (
        Keeps-bind-after c
          (λ a t.
            AttachmentsCounted t
            × (uncounted (attachment_counter_updates x (negsuc 0) true wc) a.0 a.1
                  ≡ counter_gone issue_counter
                → Gone x t))
          _ _ (Keeps-apply_idempotent_transaction c z d _ (uncount-AttachmentsCounted x wc))
          (λ a s got h. (h, counter_gone-Gone x wc a s got))
          (λ a s h. full_attempt x n wc _ s up (λ wc. Keeps-full_ladder n x wc) h))
    | inr down ↦ rw down (
        Keeps-bind c _ _ (Keeps-apply_idempotent_transaction c z d _ (drop-AttachmentsCounted x))
          λ applied. Keeps-if c applied.0 _ _ (Keeps-pure c tt) (
            Keeps-bind c _ _ (Keeps-catch_missing c _ (Keeps-get_primary_item c z d (own_key x)))
              λ again. Keeps-go_round c z d _ again λ y. Keeps-full_ladder n y wc))
  ]
