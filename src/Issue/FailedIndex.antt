-- ===== src/Issue/FailedIndex.antt =====
-- What apply_idempotent_transaction returns: success, or the index of an entry.
use pl8_base.Base.{
  ℕ, zero, suc, ◌+◌, ◌<◌, ◌≡◌, ◌∙◌, sym, ap, ◌⊎◌, inl, inr, Bool, true, false, Option, none, some,
  List, length, arith, if◌then◌else◌,
}
use mathlib.Core.Path.{subst}
use pl8_base.Errors.{Result, ok, pure, raise, ◌>>=◌}
use pl8_base.Errors.Bind.{bind-ok}
use pl8_base.Dynamo.{
  Write, Client, ClientError, Reply, replied, client_error, botocore_error, transact_write_items,
}
use pl8_base.Types.{Gzip}
use pl8_base.Manager.Failure.{raise_for_transaction_conflict, failed_reason_item}
use pl8_base.Manager.RetryLaws.{state_at, retried-ends}
use pl8_base.Issue.Sweep.{first_failed, on_idempotent, apply_idempotent_transaction}

-- `(True, None)`, or `(False, index)` with an index below a bound.
abbrev pub IsIndexed : ℕ → Bool × Option ℕ → Type 0
IsIndexed n a = (a ≡ (true, none)) ⊎ ((k : ℕ) × ((a ≡ (false, some k)) × (k < n)))

pair_injective : {a b : Bool × Option ℕ} → Path (Result (Bool × Option ℕ)) (ok a) (ok b) → a ≡ b
pair_injective h = ground arith

module _ (c : Client) (z : Gzip) where
  first_failed-IsIndexed :
      (exc : ClientError) (index left : ℕ) (s : c.State) (a : Bool × Option ℕ)
      → (first_failed c z exc index left s).0 ≡ ok a
      → IsIndexed (index + left) a
  unfolding first_failed raise pure
  first_failed-IsIndexed exc index zero s a h = ground arith
  first_failed-IsIndexed exc index (suc left) s a h =
      let (entry, (got, rest)) = bind-ok (failed_reason_item c z exc index) _ s a h in
      of_entry entry.0 _ rest λ s' again.
        subst (λ (n : ℕ). IsIndexed n a) (ground arith)
          (first_failed-IsIndexed exc (index + 1) left s' a again)
    where
      of_entry :
          (b : Bool) (s' : c.State)
          → ((if b then pure (false, some index) else first_failed c z exc (index + 1) left) s').0
            ≡ ok a
          → ((s' : c.State)
              → (first_failed c z exc (index + 1) left s').0 ≡ ok a
              → IsIndexed (index + suc left) a)
          → IsIndexed (index + suc left) a
      of_entry true s' rest later = inr (index, (sym (pair_injective rest), ground arith))
      of_entry false s' rest later = later s' rest

  on_idempotent-IsIndexed :
      (ws : List Write) (r : Reply (Unit {0})) (s : c.State) (a : Bool × Option ℕ)
      → (on_idempotent c z ws r s).0 ≡ ok a
      → IsIndexed (length ws) a
  unfolding pure raise
  on_idempotent-IsIndexed ws (replied x) s a h = inl (sym (pair_injective h))
  on_idempotent-IsIndexed ws botocore_error s a h = ground arith
  on_idempotent-IsIndexed ws (client_error exc) s a h =
      let (u, (got, rest)) = bind-ok (raise_for_transaction_conflict c z exc) _ s a h in
      subst (λ (n : ℕ). IsIndexed n a) (ground arith)
        (first_failed-IsIndexed exc 0 (length ws) _ a rest)

  pub apply_idempotent_transaction-IsIndexed :
      (ws : List Write) (s : c.State) (a : Bool × Option ℕ)
      → (apply_idempotent_transaction c z ws s).0 ≡ ok a
      → IsIndexed (length ws) a
  unfolding apply_idempotent_transaction
  apply_idempotent_transaction-IsIndexed ws s a h =
      let attempt = transact_write_items c ws >>= on_idempotent c z ws in
      let (n, (few, before, same, last)) = retried-ends c attempt s in
      let (r, (got, rest)) =
        bind-ok (transact_write_items c ws) (on_idempotent c z ws) (state_at c 5 100 attempt 0 n s)
          a (ap (λ p. p.0) (sym same) ∙ h) in
      on_idempotent-IsIndexed ws r _ a rest
