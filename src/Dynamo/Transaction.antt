-- ===== src/Dynamo/Transaction.antt =====
-- What an applied transaction over distinct rows has done, in terms of the table before it.
use pl8_base.Base.{
  ℕ, ◌+◌, ◌≡◌, refl, Bool, true, not, ◌&&◌, Option, List, [], ◌∷◌, arith, all, ap, is_some,
  if◌then◌else◌,
}
use pl8_base.Dynamo.Rows.{Attr, Item, stored}
use pl8_base.Dynamo.PrimaryKey.{Key, key_eq, key_eq_iff}
use pl8_base.Dynamo.Tables.{
  Table, IsUnique, lookup, count, weight, lookup-write_row, write_row-IsUnique, count-write_row,
}
use pl8_base.Dynamo.Request.{Write, new_row, apply_write, apply_writes}

-- No entry writes the row at the key.
abbrev pub is_apart : Key → List Write → Bool
is_apart k ws = all (λ w. not (key_eq k w.key)) ws

abbrev pub is_distinct : List Write → Bool
is_distinct [] = true
is_distinct (w ∷ ws) = is_apart w.key ws && is_distinct ws

-- The row that the writes leave at a key.
abbrev pub row_after : List Write → Table → Key → Option Item
row_after [] t j = lookup j t
row_after (w ∷ ws) t j =
    if key_eq w.key j then new_row w.action (lookup w.key t) else row_after ws t j

-- What the written rows add to a count before the writes, and after them.
abbrev pub weight_before : (Key → Item → Bool) → List Write → Table → ℕ
weight_before p [] t = 0
weight_before p (w ∷ ws) t = weight p w.key (lookup w.key t) + weight_before p ws t

abbrev pub weight_after : (Key → Item → Bool) → List Write → Table → ℕ
weight_after p [] t = 0
weight_after p (w ∷ ws) t = weight p w.key (new_row w.action (lookup w.key t)) + weight_after p ws t

pub apply_writes-IsUnique :
    (ws : List Write) (t : Table) → IsUnique t → IsUnique (apply_writes ws t)
apply_writes-IsUnique [] t u = u
apply_writes-IsUnique (w ∷ ws) t u =
    apply_writes-IsUnique ws (apply_write w t)
      (write_row-IsUnique w.key (new_row w.action (lookup w.key t)) t u)

module _ (w : Write) (t : Table) (u : IsUnique t) where
  row_after-apply_write :
      (ws : List Write) (j : Key)
      → is_apart w.key ws ≡ true
      → row_after ws (apply_write w t) j
        ≡ (if key_eq w.key j then new_row w.action (lookup w.key t) else row_after ws t j)
  row_after-apply_write [] j a = lookup-write_row w.key j (new_row w.action (lookup w.key t)) t u
  row_after-apply_write (v ∷ ws) j a = ground (
    arith,
    row_after-apply_write ws j,
    lookup-write_row w.key v.key (new_row w.action (lookup w.key t)) t u,
    key_eq_iff w.key v.key,
    key_eq_iff w.key j,
    key_eq_iff v.key j,
  )

  weights-apply_write :
      (p : Key → Item → Bool) (ws : List Write)
      → is_apart w.key ws ≡ true
      → (weight_before p ws (apply_write w t) ≡ weight_before p ws t)
        × (weight_after p ws (apply_write w t) ≡ weight_after p ws t)
  weights-apply_write p [] a = (refl, refl)
  weights-apply_write p (v ∷ ws) a = ground (
    arith,
    weights-apply_write p ws,
    lookup-write_row w.key v.key (new_row w.action (lookup w.key t)) t u,
  )

-- Every row after a transaction over distinct rows is the one that its entry made of the old one.
pub lookup-apply_writes :
    (ws : List Write) (t : Table) (j : Key)
    → IsUnique t
    → is_distinct ws ≡ true
    → lookup j (apply_writes ws t) ≡ row_after ws t j
lookup-apply_writes [] t j u a = refl
lookup-apply_writes (w ∷ ws) t j u a = ground (
  arith,
  lookup-apply_writes ws (apply_write w t) j
      (write_row-IsUnique w.key (new_row w.action (lookup w.key t)) t u),
  row_after-apply_write w t u ws j,
)

-- A count moves by what the written rows add before and after.
pub count-apply_writes :
    (p : Key → Item → Bool) (ws : List Write) (t : Table)
    → IsUnique t
    → is_distinct ws ≡ true
    → count p (apply_writes ws t) + weight_before p ws t ≡ count p t + weight_after p ws t
count-apply_writes p [] t u a = refl
count-apply_writes p (w ∷ ws) t u a = ground (
  arith,
  count-apply_writes p ws (apply_write w t)
      (write_row-IsUnique w.key (new_row w.action (lookup w.key t)) t u),
  weights-apply_write w t u p ws,
  count-write_row p w.key (new_row w.action (lookup w.key t)) t,
)

-- The same for the number at an attribute, and for whether the row is there.
module _ (ws : List Write) (t : Table) (j : Key) (u : IsUnique t) (a : is_distinct ws ≡ true) where
  pub stored-apply_writes :
      (attr : Attr) → stored attr (lookup j (apply_writes ws t)) ≡ stored attr (row_after ws t j)
  stored-apply_writes attr = ap (stored attr) (lookup-apply_writes ws t j u a)

  pub is_some-apply_writes : is_some (lookup j (apply_writes ws t)) ≡ is_some (row_after ws t j)
  is_some-apply_writes = ap is_some (lookup-apply_writes ws t j u a)
