-- ===== src/Manager/Retry.antt =====
-- retry_on_transaction_conflict (util.py). Delays are in hundredths of a second.
use Prim.Native.Nat.{min}
use pl8_base.Base.{ℕ, zero, suc, ◌+◌, ◌*◌, ◌^◌, Bool, true, false, if◌then◌else◌}
use pl8_base.Errors.{transaction_conflict, bad_args, Result, err, Exec, raise}
use pl8_base.Const.{transact_retry_attempts, transact_retry_base_delay, transact_retry_max_delay}
use pl8_base.Dynamo.{Client}

abbrev pub is_conflict {ℓ} : {A : Type ℓ} → Result A → Bool
is_conflict (err transaction_conflict) = true
is_conflict _ = false

-- min(max_delay, base_delay * (2 ** attempt))
abbrev pub retry_interval : ℕ → ℕ → ℕ → ℕ
retry_interval base_delay max_delay attempt = min max_delay (base_delay * 2 ^ attempt)

module _ (c : Client) {A : Type 0} where
  -- The loop of `wrapper` from `attempt` on, with `left` attempts behind this one.
  unfoldable pub retry_loop : ℕ → ℕ → Exec c.State A → ℕ → ℕ → Exec c.State A
  retry_loop base_delay max_delay func zero attempt s = func s
  retry_loop base_delay max_delay func (suc left) attempt s =
      let (r, s') = func s in
      let slept = c.sleep (retry_interval base_delay max_delay attempt) s' in
      let again = retry_loop base_delay max_delay func left (attempt + 1) slept in
      if is_conflict r then again else (r, s')

  -- The decorator with its arguments; without an attempt it is refused.
  unfoldable pub retry_on_transaction_conflict : ℕ → ℕ → ℕ → Exec c.State A → Exec c.State A
  unfolding retry_loop
  retry_on_transaction_conflict zero base_delay max_delay func = raise bad_args
  retry_on_transaction_conflict (suc left) base_delay max_delay func =
      retry_loop base_delay max_delay func left 0

  -- The decorator as every operation has it.
  unfoldable pub retried : Exec c.State A → Exec c.State A
  unfolding retry_on_transaction_conflict
  retried =
      retry_on_transaction_conflict transact_retry_attempts transact_retry_base_delay
        transact_retry_max_delay
