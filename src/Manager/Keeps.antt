-- ===== src/Manager/Keeps.antt =====
-- What an action does to the table, whatever it returns or raises: one rule for each way to build
-- an action.
use pl8_base.Base.{
  ◌≡◌, sym, Bool, true, false, List, [], ◌∷◌, zero, suc, ◌+◌, ℕ, all, if◌then◌else◌, Bool-cases,
  inl, inr,
}
use pl8_base.Base.Text.{Text}
use mathlib.Core.Path.{subst}
use pl8_base.Errors.{Error, Result, ok, err, Exec, pure, raise, lift, resume, ◌>>=◌}
use pl8_base.Dynamo.{
  time, query, Query, Table, Key, Write, is_accepted, apply_writes, Client, Reply, write_item,
  transact_write_items, get_item, isotime, uuid7, choice,
}
use pl8_base.Dynamo.Transaction.{is_distinct}
use pl8_base.Dynamo.Documented.{
  IsDynamo, Outcome, applied, refused, applied_unknown, lost, applied_lost,
}
use pl8_base.Manager.Retry.{retry_loop, retried, is_conflict}

module _ (c : Client) where
  -- `m` keeps `P` of the table, whether it returns or raises.
  pub record Keeps {A : Type 0} (P : Table → Type 0) (m : Exec c.State A) : Type 0 where
    pub at : (s : c.State) → P (c.table s) → P (c.table (m s).1)

-- Some writes, if they name no row twice and are accepted, keep `P` of the table.
abbrev pub WritesKeep : (Table → Type 0) → List Write → Type 0
WritesKeep P ws =
    (t : Table)
    → is_distinct ws ≡ true
    → all (is_accepted t) ws ≡ true
    → P t
    → P (apply_writes ws t)

pub Outcome-keeps :
    {A : Type 0} (P : Table → Type 0) (ws : List Write) (t : Table) (r : Reply A) (t' : Table)
    → Outcome ws t r t'
    → WritesKeep P ws
    → P t
    → P t'
Outcome-keeps P ws t r t' (applied a e ap ac q) w p = subst P (sym q) (w t ap ac p)
Outcome-keeps P ws t r t' (refused x e q f) w p = subst P (sym q) p
Outcome-keeps P ws t r t' (applied_unknown x e d ap ac q f) w p = subst P (sym q) (w t ap ac p)
Outcome-keeps P ws t r t' (lost e q) w p = subst P (sym q) p
Outcome-keeps P ws t r t' (applied_lost e ap ac q) w p = subst P (sym q) (w t ap ac p)

module _ (c : Client) {P : Table → Type 0} {A : Type 0} where
  pub Keeps-pure : (a : A) → Keeps c P (pure a)
  unfolding pure
  Keeps-pure a = record { at = λ s h. h }

  pub Keeps-raise : (e : Error) → Keeps c {A = A} P (raise e)
  unfolding raise
  Keeps-raise e = record { at = λ s h. h }

  pub Keeps-lift : (r : Result A) → Keeps c P (lift r)
  unfolding lift
  Keeps-lift r = record { at = λ s h. h }

  pub Keeps-if :
      (b : Bool) (m n : Exec c.State A) → Keeps c P m → Keeps c P n → Keeps c P (if b then m else n)
  Keeps-if true m n km kn = km
  Keeps-if false m n km kn = kn

module _ (c : Client) {P : Table → Type 0} {A B : Type 0} where
  Keeps-resume :
      (r : Result A) (f : A → Exec c.State B) → ((a : A) → Keeps c P (f a)) → Keeps c P (resume r f)
  Keeps-resume (ok a) f kf = kf a
  Keeps-resume (err e) f kf = record { at = λ s h. h }

  pub Keeps-bind :
      (m : Exec c.State A) (f : A → Exec c.State B)
      → Keeps c P m
      → ((a : A) → Keeps c P (f a))
      → Keeps c P (m >>= f)
  unfolding ◌>>=◌
  Keeps-bind m f km kf = record {
    at = λ s h. let (r, s') = m s in (Keeps-resume r f kf).at s' (km.at s h);
  }

-- The calls of the client.
module _ (c : Client) (d : IsDynamo c) {P : Table → Type 0} where
  pub Keeps-write_item : (w : Write) → WritesKeep P (w ∷ []) → Keeps c P (write_item c w)
  unfolding write_item
  Keeps-write_item w step = record {
    at = λ s h. Outcome-keeps P _ _ _ _ (d.write_outcome w s) step h;
  }

  pub Keeps-transact : (ws : List Write) → WritesKeep P ws → Keeps c P (transact_write_items c ws)
  unfolding transact_write_items
  Keeps-transact ws step = record {
    at = λ s h. Outcome-keeps P _ _ _ _ (d.transact_outcome ws s) step h;
  }

  pub Keeps-get_item : (key : Key) → Keeps c P (get_item c key)
  unfolding get_item
  Keeps-get_item key = record { at = λ s h. subst P (sym (d.get_item_quiet key s)) h }

  pub Keeps-isotime : Keeps c P (isotime c)
  unfolding isotime
  Keeps-isotime = record { at = λ s h. subst P (sym (d.isotime_quiet s)) h }

  pub Keeps-uuid7 : Keeps c P (uuid7 c)
  unfolding uuid7
  Keeps-uuid7 = record { at = λ s h. subst P (sym (d.uuid7_quiet s)) h }

  pub Keeps-time : Keeps c P (time c)
  unfolding time
  Keeps-time = record { at = λ s h. subst P (sym (d.time_quiet s)) h }

  pub Keeps-query : (q : Query) → Keeps c P (query c q)
  unfolding query
  Keeps-query q = record { at = λ s h. subst P (sym (d.query_quiet q s)) h }

  pub Keeps-choice : (alphabet : Text) → Keeps c P (choice c alphabet)
  unfolding choice
  Keeps-choice alphabet = record { at = λ s h. subst P (sym (d.choice_quiet alphabet s)) h }

module _ (c : Client) (d : IsDynamo c) {P : Table → Type 0} {A : Type 0} where
  -- Retrying keeps what each attempt keeps.
  pub Keeps-retry_loop :
      (base_delay max_delay : ℕ) (func : Exec c.State A) (left attempt : ℕ)
      → Keeps c P func
      → Keeps c P (retry_loop c base_delay max_delay func left attempt)
  unfolding retry_loop
  Keeps-retry_loop base_delay max_delay func zero attempt k = record { at = λ s h. k.at s h }
  Keeps-retry_loop base_delay max_delay func (suc left) attempt k = record {
    at = λ s h.
        let (r, s') = func s in
        elim (Bool-cases (is_conflict r)) [
          | inl e ↦ rw e (
              (Keeps-retry_loop base_delay max_delay func left (attempt + 1) k).at _
                (subst P (sym (d.sleep_quiet _ s')) (k.at s h)))
          | inr e ↦ rw e (k.at s h)
        ];
  }

  pub Keeps-retried : (func : Exec c.State A) → Keeps c P func → Keeps c P (retried c func)
  unfolding retried
  Keeps-retried func k = Keeps-retry_loop 5 100 func 4 0 k

pub ruleset keeps_rules = (
  Keeps-pure, Keeps-raise, Keeps-lift, Keeps-if, Keeps-bind, Keeps-get_item, Keeps-isotime,
  Keeps-uuid7, Keeps-choice, Keeps-time, Keeps-query, Keeps-retried,
)
