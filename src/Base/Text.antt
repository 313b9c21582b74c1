-- ===== src/Base/Text.antt =====
-- A Python `str` as the list of its code points, which `len` counts and the key formats join.
use Prim.Native.Nat.{compare, Ordering, ℕ}
use Prim.Native.Char.{code}
use Prim.Native.String.{String}
use mathlib.Core.Path.{◌≡◌, refl}
use mathlib.Core.Logic.{◌↔◌}
use mathlib.Core.Bool.{Bool, true, false, ◌&&◌}
use mathlib.Core.List.{List, [], ◌∷◌, ◌++◌}
use native.Mathlib.Omega.{arith}
use pl8_base.Base.Tests.{◌==◌}

abbrev pub Text : Type 0
Text = List ℕ

abbrev pub codes : String → Text
codes String.[] = []
codes (String.◌∷◌ c s) = code c ∷ codes s

abbrev pub text_eq : Text → Text → Bool
text_eq [] [] = true
text_eq [] (_ ∷ _) = false
text_eq (_ ∷ _) [] = false
text_eq (a ∷ s) (b ∷ t) = (a == b) && text_eq s t

-- `t.startswith(s)`, as DynamoDB's `begins_with(t, s)`.
abbrev pub starts_with : Text → Text → Bool
starts_with t [] = true
starts_with [] (_ ∷ _) = false
starts_with (b ∷ t) (a ∷ s) = (a == b) && starts_with t s

-- `c in t`
abbrev pub contains : ℕ → Text → Bool
contains c [] = false
contains c (a ∷ t) = elim (c == a) [ true ↦ true | false ↦ contains c t ]

pub text_eq_iff : (s t : Text) → (text_eq s t ≡ true) ↔ (s ≡ t)
text_eq_iff [] [] = ground arith
text_eq_iff [] (b ∷ t) = ground arith
text_eq_iff (a ∷ s) [] = ground arith
text_eq_iff (a ∷ s) (b ∷ t) = ground (arith, text_eq_iff s t)

pub text_eq_refl : (s : Text) → text_eq s s ≡ true
text_eq_refl s = (text_eq_iff s s).1 refl

pub text_eq-append_left : (p s t : Text) → text_eq (p ++ s) (p ++ t) ≡ text_eq s t
text_eq-append_left [] s t = refl
text_eq-append_left (a ∷ p) s t = ground (arith, text_eq-append_left p s t)

-- Texts in the order of their code points.
abbrev pub text_leb : Text → Text → Bool
text_leb [] t = true
text_leb (_ ∷ _) [] = false
text_leb (a ∷ s) (b ∷ t) = elim (compare a b) [
  | Ordering.lt ↦ true
  | Ordering.eq ↦ text_leb s t
  | Ordering.gt ↦ false
]
