-- ===== src/Manager/RetryLaws.antt =====
-- What the retry decorator returns, and how often it runs the function.
use pl8_base.Base.{
  ℕ, zero, suc, ◌+◌, ◌≡◌, refl, ◌≤◌, Bool, true, false, ◌&&◌, ap, ◌⊎◌, Bool-cases, inl, inr, arith,
}
use pl8_base.Errors.{Exec}
use pl8_base.Dynamo.{Client}
use pl8_base.Manager.Retry.{
  retry_loop, retry_on_transaction_conflict, retried, is_conflict, retry_interval,
}

module _ (c : Client) {A : Type 0} (base_delay max_delay : ℕ) (func : Exec c.State A) where
  -- The state at an attempt, when every attempt before it met a conflict.
  abbrev pub state_at : ℕ → ℕ → c.State → c.State
  state_at attempt zero s = s
  state_at attempt (suc n) s =
      state_at (attempt + 1) n (c.sleep (retry_interval base_delay max_delay attempt) (func s).1)

  -- Whether the first n attempts all met a conflict.
  abbrev pub all_conflicts : ℕ → ℕ → c.State → Bool
  all_conflicts attempt zero s = true
  all_conflicts attempt (suc n) s =
      is_conflict (func s).0
      && all_conflicts (attempt + 1) n
          (c.sleep (retry_interval base_delay max_delay attempt) (func s).1)

  -- The loop ends at the n-th attempt: all before it met a conflict, and it is the last one that is
  -- allowed, or met none.
  abbrev EndsAt : ℕ → ℕ → c.State → ℕ → Type 0
  EndsAt left attempt s n =
      (n ≤ left)
      × (all_conflicts attempt n s ≡ true)
      × (retry_loop c base_delay max_delay func left attempt s ≡ func (state_at attempt n s))
      × ((n ≡ left)
          ⊎ (is_conflict (retry_loop c base_delay max_delay func left attempt s).0 ≡ false))

  pub retry_loop-ends : (left attempt : ℕ) (s : c.State) → (n : ℕ) × EndsAt left attempt s n
  unfolding retry_loop
  retry_loop-ends zero attempt s = (0, (ground arith, refl, refl, inl refl))
  retry_loop-ends (suc left) attempt s = elim (Bool-cases (is_conflict (func s).0)) [
    | inl e ↦
        let slept = c.sleep (retry_interval base_delay max_delay attempt) (func s).1 in
        let (n, (in_time, before, result, final)) = retry_loop-ends left (attempt + 1) slept in
        (
          suc n,
          (
            ground arith,
            rw e before,
            rw e result,
            rw e (elim final [ inl l ↦ inl (ap suc l) | inr f ↦ inr f ]),
          ),
        )
    | inr e ↦ (0, (ground arith, refl, rw e refl, inr (rw e e)))
  ]

-- A decorated operation runs its function once and then again after each conflict, five times at
-- most, and gives back what the last run returned or raised: the run that is the fifth, or met no
-- conflict.
pub retried-ends :
    (c : Client) {A : Type 0} (func : Exec c.State A) (s : c.State)
    → (n : ℕ) × ((n ≤ 4)
        × (all_conflicts c 5 100 func 0 n s ≡ true)
        × (retried c func s ≡ func (state_at c 5 100 func 0 n s))
        × ((n ≡ 4) ⊎ (is_conflict (retried c func s).0 ≡ false)))
unfolding retried retry_on_transaction_conflict
retried-ends c func s = retry_loop-ends c 5 100 func 4 0 s
