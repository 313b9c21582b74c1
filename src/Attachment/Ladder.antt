-- ===== src/Attachment/Ladder.antt =====
-- How many attempts delete_attachment_with_counters needs.
use pl8_base.Base.{
  ℕ, zero, suc, ◌+◌, ◌≡◌, refl, ap, ◌∙◌, Bool, true, false, Option, none, some, [], ◌∷◌, Bool-cases,
  inl, inr, if◌then◌else◌, get_elem?, ◌++◌, arith,
}
use mathlib.Core.Path.{subst}
use pl8_base.Base.Text.{Text}
use pl8_base.Base.Int.{negsuc}
use pl8_base.Errors.{ok, Exec}
use pl8_base.Errors.Bind.{bind-agree}
use pl8_base.Dynamo.{Client}
use pl8_base.Types.{Gzip, IssueAttachment, is_uploaded}
use pl8_base.Manager.Parse.{
  BaseObject, space_info, issue_info, issue_comment, issue_attachment, issue_blocker,
}
use pl8_base.Issue.{apply_idempotent_transaction}
use pl8_base.Attachment.Requests.{
  CounterName, issue_counter, comment_counter, issue_counters, comment_counters,
  attachment_counter_updates, pending_attachment_delete,
}
use pl8_base.Attachment.Delete.{
  Uncounted, gone_entry, drop_counter, go_round, row_gone, counter_gone, no_such_entry, uncounted,
  reread, delete_ladder, delete_attachment_with_counters, attachment_delete_attempts,
}

-- Whether a counter is asked for.
abbrev wanted : CounterName → Bool → Bool → Bool
wanted issue_counter with_issue with_comment = with_issue
wanted comment_counter with_issue with_comment = with_comment

-- Only a counter that was asked for is found gone.
entry-wanted :
    (sp id : Text) (o : Option Text) (wi wc : Bool) (i : ℕ) (name : CounterName)
    → gone_entry
        (get_elem? (issue_counters wi sp id (negsuc 0) ++ comment_counters wc sp id o (negsuc 0)) i)
      ≡ counter_gone name
    → wanted name wi wc ≡ true
entry-wanted sp id o false false i name h = ground arith
entry-wanted sp id none false true i name h = ground arith
entry-wanted sp id (some k) false true zero name h = ground arith
entry-wanted sp id (some k) false true (suc i) name h = ground arith
entry-wanted sp id o true false zero name h = ground arith
entry-wanted sp id o true false (suc i) name h = ground arith
entry-wanted sp id o true true zero name h = ground arith
entry-wanted sp id none true true (suc i) name h = ground arith
entry-wanted sp id (some k) true true (suc zero) name h = ground arith
entry-wanted sp id (some k) true true (suc (suc i)) name h = ground arith

counter_gone-wanted :
    (x : IssueAttachment) (wi wc applied : Bool) (failed : Option ℕ) (name : CounterName)
    → uncounted (attachment_counter_updates x (negsuc 0) wi wc) applied failed ≡ counter_gone name
    → wanted name wi wc ≡ true
unfolding attachment_counter_updates
counter_gone-wanted x wi wc true failed name h = ground arith
counter_gone-wanted x wi wc false none name h = ground arith
counter_gone-wanted x wi wc false (some zero) name h = ground arith
counter_gone-wanted x wi wc false (some (suc i)) name h =
    entry-wanted x.space_id x.issue_id x.comment_id wi wc i name h

module _ (c : Client) (z : Gzip) where
  drop-agree :
      (f g : Bool → Bool → Exec c.State (Unit {0})) (wi wc : Bool) (u : Uncounted) (s : c.State)
      → ((name : CounterName) → u ≡ counter_gone name → wanted name wi wc ≡ true)
      → (wi ≡ true → f false wc s ≡ g false wc s)
      → (wc ≡ true → f wi false s ≡ g wi false s)
      → drop_counter c z f wi wc u s ≡ drop_counter c z g wi wc u s
  drop-agree f g wi wc row_gone s w i k = refl
  drop-agree f g wi wc (counter_gone issue_counter) s w i k = i (w issue_counter refl)
  drop-agree f g wi wc (counter_gone comment_counter) s w i k = k (w comment_counter refl)
  drop-agree f g wi wc no_such_entry s w i k = refl

  module _ (x : IssueAttachment) (up : is_uploaded x.status ≡ true) where
    -- Two numbers of attempts that do the same once a counter is dropped.
    uploaded_step :
        (m n : ℕ) (wi wc : Bool) (s : c.State)
        → (wi ≡ true
            → (s' : c.State)
            → delete_ladder c z m x false wc s' ≡ delete_ladder c z n x false wc s')
        → (wc ≡ true
            → (s' : c.State)
            → delete_ladder c z m x wi false s' ≡ delete_ladder c z n x wi false s')
        → delete_ladder c z (suc m) x wi wc s ≡ delete_ladder c z (suc n) x wi wc s
    unfolding delete_ladder
    uploaded_step m n wi wc s same_i same_c = rw up (
        bind-agree _ _ _ s λ a got.
          drop-agree (delete_ladder c z m x) (delete_ladder c z n x) wi wc _ _
            (counter_gone-wanted x wi wc a.0 a.1) (λ e. same_i e _) (λ e. same_c e _))

    none_wanted :
        (m n : ℕ) (s : c.State)
        → delete_ladder c z (suc m) x false false s ≡ delete_ladder c z (suc n) x false false s
    none_wanted m n s = uploaded_step m n false false s (λ e. ground arith) (λ e. ground arith)

    one_wanted :
        (m n : ℕ) (s : c.State)
        → (delete_ladder c z (suc (suc m)) x true false s
            ≡ delete_ladder c z (suc (suc n)) x true false s)
          × (delete_ladder c z (suc (suc m)) x false true s
              ≡ delete_ladder c z (suc (suc n)) x false true s)
    one_wanted m n s = (
      uploaded_step (suc m) (suc n) true false s (λ _. none_wanted m n) (λ e. ground arith),
      uploaded_step (suc m) (suc n) false true s (λ e. ground arith) (λ _. none_wanted m n),
    )

    -- An UPLOADED row needs three attempts.
    three_attempts :
        (m n : ℕ) (wi wc : Bool) (s : c.State)
        → delete_ladder c z (suc (suc (suc m))) x wi wc s
          ≡ delete_ladder c z (suc (suc (suc n))) x wi wc s
    three_attempts m n false false s = none_wanted (suc (suc m)) (suc (suc n)) s
    three_attempts m n true false s = (one_wanted (suc m) (suc n) s).0
    three_attempts m n false true s = (one_wanted (suc m) (suc n) s).1
    three_attempts m n true true s =
        uploaded_step (suc (suc m)) (suc (suc n)) true true s (λ _ s'. (one_wanted m n s').1)
          (λ _ s'. (one_wanted m n s').0)

  -- No attachment that the re-read gives, after the delete of the PENDING row has returned, is
  -- PENDING.
  pub record RereadSettled (x : IssueAttachment) (s : c.State) : Type 0 where
    pub settled :
        (a : Bool × Option ℕ) (y : IssueAttachment)
        → (let (r, s') = apply_idempotent_transaction c z (pending_attachment_delete x ∷ []) s in
            r ≡ ok a
            → (reread c z x s').0 ≡ ok (some (some (issue_attachment y)))
            → is_uploaded y.status ≡ true)

  round-agree :
      (m n : ℕ) (wi wc : Bool) (o : Option (Option BaseObject)) (s : c.State)
      → ((y : IssueAttachment) → o ≡ some (some (issue_attachment y)) → is_uploaded y.status ≡ true)
      → go_round c z (λ y. delete_ladder c z (suc (suc (suc m))) y wi wc) o s
        ≡ go_round c z (λ y. delete_ladder c z (suc (suc (suc n))) y wi wc) o s
  round-agree m n wi wc none s up = refl
  round-agree m n wi wc (some (some (issue_attachment y))) s up =
      three_attempts y (up y refl) m n wi wc s
  round-agree m n wi wc (some (some (space_info y))) s up = refl
  round-agree m n wi wc (some (some (issue_info y))) s up = refl
  round-agree m n wi wc (some (some (issue_comment y))) s up = refl
  round-agree m n wi wc (some (some (issue_blocker y))) s up = refl
  round-agree m n wi wc (some none) s up = refl

  pending_step :
      (m n : ℕ) (x : IssueAttachment) (wi wc : Bool) (s : c.State)
      → is_uploaded x.status ≡ false
      → ((a : Bool × Option ℕ) (o : Option (Option BaseObject)) (s' : c.State)
          → (let (r, at_reread) =
                apply_idempotent_transaction c z (pending_attachment_delete x ∷ []) s in
              r ≡ ok a
              → (reread c z x at_reread).0 ≡ ok o
              → go_round c z (λ y. delete_ladder c z m y wi wc) o s'
                ≡ go_round c z (λ y. delete_ladder c z n y wi wc) o s'))
      → delete_ladder c z (suc m) x wi wc s ≡ delete_ladder c z (suc n) x wi wc s
  unfolding delete_ladder
  pending_step m n x wi wc s down same = rw down (
      bind-agree _ _ _ s
        λ a got. unless a.0 _ _ _ _ (bind-agree _ _ _ _ λ o read. same a o _ got read))
    where
      unless :
          (b : Bool) (k f g : Exec c.State (Unit {0})) (s' : c.State)
          → f s' ≡ g s'
          → (if b then k else f) s' ≡ (if b then k else g) s'
      unless true k f g s' h = refl
      unless false k f g s' h = h

  four_attempts :
      (m n : ℕ) (x : IssueAttachment) (wi wc : Bool) (s : c.State)
      → RereadSettled x s
      → delete_ladder c z (suc (suc (suc (suc m)))) x wi wc s
        ≡ delete_ladder c z (suc (suc (suc (suc n)))) x wi wc s
  four_attempts m n x wi wc s h = elim (Bool-cases (is_uploaded x.status)) [
    | inl up ↦ three_attempts x up (suc m) (suc n) wi wc s
    | inr down ↦
        pending_step (suc (suc (suc m))) (suc (suc (suc n))) x wi wc s down
          λ a o s' got read. round-agree m n wi wc o s' λ y e. h.settled a y got (read ∙ ap ok e)
  ]

  -- Giving delete_attachment_with_counters more than its four attempts changes nothing, if no
  -- attachment that the re-read gives, after the delete of the PENDING row has returned, is PENDING.
  pub delete_attachment_with_counters-attempts :
      (n : ℕ) (x : IssueAttachment) (wi wc : Bool) (s : c.State)
      → RereadSettled x s
      → delete_ladder c z (attachment_delete_attempts + n) x wi wc s
        ≡ delete_attachment_with_counters c z x wi wc s
  unfolding delete_attachment_with_counters
  delete_attachment_with_counters-attempts n x wi wc s settled =
      subst (λ (k : ℕ). delete_ladder c z k x wi wc s ≡ delete_ladder c z 4 x wi wc s) counted
        (four_attempts n 0 x wi wc s settled)
    where
      counted : suc (suc (suc (suc n))) ≡ attachment_delete_attempts + n
      counted = ground arith
