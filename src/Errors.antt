-- ===== src/Errors.antt =====
-- errors.py: the exceptions that an operation of the manager may raise, one constructor per class
-- that the sources raise, and the actions that may raise them. What was written before a raise
-- stays written, so the state comes back beside the error too.
pub mod Bind
use pl8_base.Base.{Option, none, some}

pub data Error : Type 0 where
  internal corrupted missing already_exists bad_args id_collision : Error
  transaction_conflict version_conflict : Error
  terminal_status still_blocked blocking_issue_done space_not_empty attachment_status : Error
  storage_internal storage_object_missing : Error
  event_send event_corrupted : Error
  -- An exception of Python itself, such as an AttributeError, which nothing catches.
  python_error : Error

pub data Result {ℓ} (A : Type ℓ) : Type ℓ where
  ok : A → Result A
  err : Error → Result A

abbrev pub Exec {ℓ κ} : Type ℓ → Type κ → Type (ℓ ⊔ κ)
Exec S A = S → Result A × S

module _ {ℓ κ} {S : Type ℓ} {A : Type κ} where
  unfoldable pub pure : A → Exec S A
  pure a s = (ok a, s)

  unfoldable pub raise : Error → Exec S A
  raise e s = (err e, s)

  -- A function that may raise and touches no state.
  unfoldable pub lift : Result A → Exec S A
  lift r s = (r, s)

-- After a first part: its value goes on, its exception goes up.
abbrev pub resume {ℓ κ μ} :
    {S : Type ℓ} {A : Type κ} {B : Type μ} → Result A → (A → Exec S B) → Exec S B
resume (ok a) f s = f a s
resume (err e) f s = (err e, s)

infixl 5 ◌>>=◌ ◌>>◌
-- Opening this opens `pure`, `raise` and `lift` too.
unfoldable pub ◌>>=◌ {ℓ κ μ} :
    {S : Type ℓ} {A : Type κ} {B : Type μ} → Exec S A → (A → Exec S B) → Exec S B
unfolding pure raise lift
◌>>=◌ m f s = let (r, s') = m s in resume r f s'

abbrev pub ◌>>◌ {ℓ κ μ} : {S : Type ℓ} {A : Type κ} {B : Type μ} → Exec S A → Exec S B → Exec S B
m >> k = m >>= λ _. k

abbrev pub missing_to_none {ℓ κ} : {S : Type ℓ} {A : Type κ} → Result A × S → Result (Option A) × S
missing_to_none (ok a, s) = (ok (some a), s)
missing_to_none (err missing, s) = (ok none, s)
missing_to_none (err e, s) = (err e, s)

-- `try: … except DDBMissingError`, which is `none`.
unfoldable pub catch_missing {ℓ κ} : {S : Type ℓ} {A : Type κ} → Exec S A → Exec S (Option A)
catch_missing m s = missing_to_none (m s)
