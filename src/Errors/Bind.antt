-- ===== src/Errors/Bind.antt =====
-- What a sequence of two actions returns, in terms of the two.
use pl8_base.Base.{◌≡◌, refl, arith}
use pl8_base.Errors.{missing, missing_to_none, Result, ok, err, Exec, resume, ◌>>=◌}

-- Two continuations that agree on what an action returns make the same of it.
pub bind-agree :
    {S A B : Type 0} (m : Exec S A) (f g : A → Exec S B) (s : S)
    → ((a : A) → (m s).0 ≡ ok a → f a (m s).1 ≡ g a (m s).1)
    → (m >>= f) s ≡ (m >>= g) s
unfolding ◌>>=◌
bind-agree m f g s same = agree (m s).0 same
  where
    agree :
        (r : Result _)
        → ((a : _) → r ≡ ok a → f a (m s).1 ≡ g a (m s).1)
        → resume r f (m s).1 ≡ resume r g (m s).1
    agree (ok a) h = h a refl
    agree (err e) h = refl

-- A sequence that returned has a first part that returned.
pub bind-ok :
    {S A B : Type 0} (m : Exec S A) (f : A → Exec S B) (s : S) (b : B)
    → ((m >>= f) s).0 ≡ ok b
    → (a : A) × (((m s).0 ≡ ok a) × ((f a (m s).1).0 ≡ ok b))
unfolding ◌>>=◌
bind-ok m f s b h = of_result (m s).0 h
  where
    of_result :
        (r : Result _)
        → (resume r f (m s).1).0 ≡ ok b
        → (a : _) × ((r ≡ ok a) × ((f a (m s).1).0 ≡ ok b))
    of_result (ok a) h = (a, (refl, h))
    of_result (err e) h = ground arith

-- Catching DDBMissingError leaves the state as it was at the raise.
pub missing_to_none-state : {S A : Type 0} (r : Result A × S) → (missing_to_none r).1 ≡ r.1
missing_to_none-state (ok a, s) = refl
missing_to_none-state (err missing, s) = refl
missing_to_none-state (err _, s) = refl
