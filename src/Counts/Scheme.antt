-- ===== src/Counts/Scheme.antt =====
-- A counter that one row keeps over other rows, in general.
use pl8_base.Base.{ℕ, ◌+◌, ◌≡◌, ◌∙◌, ap, Bool, true, Option, List, all}
use pl8_base.Base.Int.{pos}
use pl8_base.Dynamo.{
  Attr, Item, stored, Key, Table, IsUnique, lookup, count, Write, is_accepted, apply_writes,
}
use pl8_base.Dynamo.Transaction.{
  is_distinct, row_after, weight_before, weight_after, apply_writes-IsUnique, lookup-apply_writes,
  count-apply_writes,
}
use mathlib.Core.Path.{subst}
use pl8_base.Manager.Keeps.{WritesKeep}

pub record Scheme : Type 1 where
  -- Who keeps the count: a Space, an Issue.
  pub Owner : Type 0
  pub IsOwner : Owner → Type 0
  pub key : Owner → Key
  -- The attribute that holds it.
  pub attr : Attr
  -- What it counts.
  pub counts : Owner → Key → Item → Bool
  -- Whether an owner's row, there or not, has to be right.
  pub matters : Option Item → Bool

module _ (S : Scheme) where
  pub record Counted (t : Table) : Type 0 where
    pub unique : IsUnique t
    pub counted :
        (i : S.Owner)
        → S.IsOwner i
        → S.matters (lookup (S.key i) t) ≡ true
        → stored S.attr (lookup (S.key i) t) ≡ pos (count (S.counts i) t)

  -- What accepted writes have to do at a table: from a count of `n` and the right number of it, the
  -- right number of the count `m` that they leave.
  abbrev pub BalancedAt : List Write → Table → Type 0
  BalancedAt ws t =
      (i : S.Owner) (n m : ℕ)
      → S.IsOwner i
      → all (is_accepted t) ws ≡ true
      → m + weight_before (S.counts i) ws t ≡ n + weight_after (S.counts i) ws t
      → (S.matters (lookup (S.key i) t) ≡ true → stored S.attr (lookup (S.key i) t) ≡ pos n)
      → S.matters (row_after ws t (S.key i)) ≡ true
      → stored S.attr (row_after ws t (S.key i)) ≡ pos m

  abbrev pub Balanced : List Write → Type 0
  Balanced ws = (t : Table) → BalancedAt ws t

  pub Counted-at :
      (ws : List Write) (t : Table)
      → BalancedAt ws t
      → is_distinct ws ≡ true
      → all (is_accepted t) ws ≡ true
      → Counted t
      → Counted (apply_writes ws t)
  Counted-at ws t step apart accepted h = record {
    unique = apply_writes-IsUnique ws t h.unique;
    counted = λ i own matter.
        let same = lookup-apply_writes ws t (S.key i) h.unique apart in
        ap (stored S.attr) same
        ∙ step i (count (S.counts i) t) _ own accepted
            (count-apply_writes (S.counts i) ws t h.unique apart) (h.counted i own)
            (subst (λ o. S.matters o ≡ true) same matter);
  }

  -- The step may use what follows from that the writes name no row twice.
  pub Counted-distinct_writes :
      {Q : Type 0} (ws : List Write)
      → (is_distinct ws ≡ true → Q)
      → (Q → Balanced ws)
      → WritesKeep Counted ws
  Counted-distinct_writes ws fact step t apart accepted h =
      Counted-at ws t (step (fact apart) t) apart accepted h

  pub Counted-writes : (ws : List Write) → Balanced ws → WritesKeep Counted ws
  Counted-writes ws step = Counted-distinct_writes ws (λ apart. apart) (λ _. step)
