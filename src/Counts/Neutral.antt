-- ===== src/Counts/Neutral.antt =====
-- An update that sets no counter, and writes to rows that a counter does not count.
use pl8_base.Base.{
  ◌≡◌, refl, ap, ◌∙◌, Bool, true, false, Option, none, some, List, [], ◌∷◌, arith, any, is_some, ℕ,
  ◌+◌, sym, if◌then◌else◌, Bool-cases, inl, inr,
}
use pl8_base.Base.Int.{pos}
use pl8_base.Base.Text.{Text}
use pl8_base.Dynamo.{
  Attr, attr_eq, Item, stored, number_or_zero, Clause, set, increment, add, remove, run_clause,
  run_clauses, key_eq, key_eq_iff, lookup, weight, row_or_empty,
}
use pl8_base.Manager.Keeps.{WritesKeep}
use pl8_base.Manager.Update.{UpdateArgs, update_request, update_clauses}
use pl8_base.Counts.Scheme.{Scheme, Counted, Counted-writes}

abbrev pub clause_attr : Clause → Attr
clause_attr (set a _) = a
clause_attr (increment a _) = a
clause_attr (add a _) = a
clause_attr (remove a) = a

abbrev pub touches : Attr → List Clause → Bool
touches a cs = any (λ c. attr_eq (clause_attr c) a) cs

-- An attribute that no clause names keeps its value.
pub run_clauses-untouched :
    (a : Attr) (cs : List Clause) (item : Item)
    → touches a cs ≡ false
    → run_clauses cs item a ≡ item a
run_clauses-untouched a [] item h = refl
run_clauses-untouched a (set b v ∷ cs) item h =
    ground (arith, run_clauses-untouched a cs (run_clause (set b v) item))
run_clauses-untouched a (increment b v ∷ cs) item h =
    ground (arith, run_clauses-untouched a cs (run_clause (increment b v) item))
run_clauses-untouched a (add b v ∷ cs) item h =
    ground (arith, run_clauses-untouched a cs (run_clause (add b v) item))
run_clauses-untouched a (remove b ∷ cs) item h =
    ground (arith, run_clauses-untouched a cs (run_clause (remove b) item))

module _ (S : Scheme) (now : Text) (args : UpdateArgs) where
  -- The update leaves the counter, what it counts, and whether it matters.
  pub record IsNeutral : Type 0 where
    pub untouched : touches S.attr (update_clauses now args) ≡ false
    pub same_count :
        (i : S.Owner) (item : Item)
        → S.counts i args.key (run_clauses (update_clauses now args) item)
          ≡ S.counts i args.key item
    pub same_matter : (a b : Item) → S.matters (some a) ≡ S.matters (some b)

  neutral_at :
      (i : S.Owner) (n m : ℕ) (old at_owner : Option Item) (f : Item → Item)
      → is_some old ≡ true
      → (args.key ≡ S.key i → at_owner ≡ old)
      → ((item : Item) → f item S.attr ≡ item S.attr)
      → ((item : Item) → S.counts i args.key (f item) ≡ S.counts i args.key item)
      → ((a b : Item) → S.matters (some a) ≡ S.matters (some b))
      → m + (weight (S.counts i) args.key old + 0)
        ≡ n + (weight (S.counts i) args.key (some (f (row_or_empty old))) + 0)
      → (S.matters at_owner ≡ true → stored S.attr at_owner ≡ pos n)
      → S.matters (if key_eq args.key (S.key i) then some (f (row_or_empty old)) else at_owner)
        ≡ true
      → stored S.attr (if key_eq args.key (S.key i) then some (f (row_or_empty old)) else at_owner)
        ≡ pos m
  neutral_at i n m none at_owner f present same fa fc fm moved right there = cc
  neutral_at i n m (some item) at_owner f present same fa fc fm moved right there =
      elim (Bool-cases (key_eq args.key (S.key i))) [
        | inl k ↦
            let e : at_owner ≡ some item = same ((key_eq_iff args.key (S.key i)).0 k) in
            let eq : n ≡ m = ground (arith, fc item) in
            let t1 : S.matters at_owner ≡ true =
              ap S.matters e ∙ (fm item (f item) ∙ (rw k at there)) in
            rw k
              (ap number_or_zero (fa item) ∙ (ap (stored S.attr) (sym e) ∙ (right t1 ∙ ap pos eq)))
        | inr k ↦
            let eq : n ≡ m = ground (arith, fc item) in rw k (right (rw k at there) ∙ ap pos eq)
      ]

  -- A neutral update keeps the counter right.
  pub neutral-Counted : IsNeutral → WritesKeep (Counted S) (update_request now args ∷ [])
  unfolding update_request
  neutral-Counted q =
      Counted-writes S (update_request now args ∷ []) λ t i n m own accepted moved right there.
        neutral_at i n m (lookup args.key t) (lookup (S.key i) t)
          (run_clauses (update_clauses now args)) (ground arith) (λ e. ap (λ k. lookup k t) (sym e))
          (λ item. run_clauses-untouched S.attr (update_clauses now args) item q.untouched)
          (q.same_count i) q.same_matter moved right there
