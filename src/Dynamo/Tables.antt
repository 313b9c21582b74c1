-- ===== src/Dynamo/Tables.antt =====
-- The table: rows under their primary keys, in no order that the manager relies on.
use pl8_base.Base.{
  ℕ, ◌+◌, ◌≡◌, refl, Bool, Option, none, some, List, [], ◌∷◌, arith, bit, if◌then◌else◌,
}
use pl8_base.Dynamo.Rows.{Item}
use pl8_base.Dynamo.PrimaryKey.{Key, key_eq, key_eq_iff}

abbrev pub Table : Type 0
Table = List (Key × Item)

unfoldable pub lookup : Key → Table → Option Item
lookup k [] = none
lookup k ((j, v) ∷ t) = if key_eq j k then some v else lookup k t

erase : Key → Table → Table
erase k [] = []
erase k ((j, v) ∷ t) = if key_eq j k then t else (j, v) ∷ erase k t

insert : Key → Item → Table → Table
insert k v [] = (k, v) ∷ []
insert k v ((j, w) ∷ t) = if key_eq j k then (k, v) ∷ t else (j, w) ∷ insert k v t

-- The row at `k` becomes `o`: written, or gone.
unfoldable pub write_row : Key → Option Item → Table → Table
unfolding erase insert
write_row k none t = erase k t
write_row k (some v) t = insert k v t

-- A primary key is unique.
abbrev pub IsUnique : Table → Type 0
IsUnique [] = Unit
IsUnique ((k, _) ∷ t) = (lookup k t ≡ none) × IsUnique t

-- How many rows meet a test.
unfoldable pub count : (Key → Item → Bool) → Table → ℕ
count p [] = 0
count p ((k, v) ∷ t) = bit (p k v) + count p t

-- What one row adds to a count.
abbrev pub weight : (Key → Item → Bool) → Key → Option Item → ℕ
weight p k none = 0
weight p k (some v) = bit (p k v)

lookup-insert :
    (k j : Key) (v : Item) (t : Table)
    → lookup j (insert k v t) ≡ (if key_eq k j then some v else lookup j t)
unfolding lookup insert
lookup-insert k j v [] = refl
lookup-insert k j v ((i, w) ∷ t) =
    ground (arith, key_eq_iff i k, key_eq_iff i j, key_eq_iff k j, lookup-insert k j v t)

lookup-erase :
    (k j : Key) (t : Table)
    → IsUnique t
    → lookup j (erase k t) ≡ (if key_eq k j then none else lookup j t)
unfolding lookup erase
lookup-erase k j [] u = ground arith
lookup-erase k j ((i, w) ∷ t) u =
    ground (arith, key_eq_iff i k, key_eq_iff i j, key_eq_iff k j, lookup-erase k j t u.1)

-- After a write a key finds what was written, and every other key what it found before.
pub lookup-write_row :
    (k j : Key) (o : Option Item) (t : Table)
    → IsUnique t
    → lookup j (write_row k o t) ≡ (if key_eq k j then o else lookup j t)
unfolding write_row
lookup-write_row k j none t u = lookup-erase k j t u
lookup-write_row k j (some v) t u = lookup-insert k j v t

insert-IsUnique : (k : Key) (v : Item) (t : Table) → IsUnique t → IsUnique (insert k v t)
unfolding lookup insert
insert-IsUnique k v [] u = (refl, tt)
insert-IsUnique k v ((i, w) ∷ t) u =
    ground (arith, key_eq_iff i k, key_eq_iff k i, lookup-insert k i v t, insert-IsUnique k v t u.1)

erase-IsUnique : (k : Key) (t : Table) → IsUnique t → IsUnique (erase k t)
unfolding lookup erase
erase-IsUnique k [] u = tt
erase-IsUnique k ((i, w) ∷ t) u =
    ground (arith, key_eq_iff i k, key_eq_iff k i, lookup-erase k i t u.1, erase-IsUnique k t u.1)

pub write_row-IsUnique :
    (k : Key) (o : Option Item) (t : Table) → IsUnique t → IsUnique (write_row k o t)
unfolding write_row
write_row-IsUnique k none t u = erase-IsUnique k t u
write_row-IsUnique k (some v) t u = insert-IsUnique k v t u

-- A write moves a count by what the row added before and adds now.
pub count-write_row :
    (p : Key → Item → Bool) (k : Key) (o : Option Item) (t : Table)
    → count p (write_row k o t) + weight p k (lookup k t) ≡ count p t + weight p k o
unfolding count write_row lookup
count-write_row p k none [] = refl
count-write_row p k (some v) [] = ground arith
count-write_row p k none ((i, w) ∷ t) = ground (arith, key_eq_iff i k, count-write_row p k none t)
count-write_row p k (some v) ((i, w) ∷ t) =
    ground (arith, key_eq_iff i k, count-write_row p k (some v) t)
