-- ===== src/Causes/Rules.antt =====
-- The table behind an exception: one rule for each way to build an action.
use pl8_base.Base.{
  ◌≡◌, refl, ap, ◌∙◌, sym, ℕ, Bool, true, false, Option, none, some, arith, if◌then◌else◌,
}
use pl8_base.Base.Text.{Text}
use mathlib.Core.Path.{subst}
use pl8_base.Errors.{
  Error, bad_args, internal, corrupted, python_error, transaction_conflict, Result, ok, err, Exec,
  pure, raise, lift, resume, ◌>>=◌,
}
use pl8_base.Dynamo.{Val, text, Item, Table, Client, ClientError, Write, isotime, uuid7}
use pl8_base.Types.{Gzip}
use pl8_base.Util.{str, validate_space_id, validate_creator, validate_issue_status}
use pl8_base.Manager.Parse.{parse_item, parse_kind, isotime_if, uuid7_if, built}
use pl8_base.Manager.Failure.{raise_for_transaction_conflict, failed_reason_item}
use pl8_base.Manager.Update.{UpdateArgs, update_request, build_update}
use pl8_base.Manager.Retry.{retried}
use pl8_base.Manager.RetryLaws.{retried-ends, state_at}

module _ (c : Client) where
  -- Where `m` raises an exception, the table that it leaves is as `R` says of the exception.
  pub record Raises {A : Type 0} (R : Error → Table → Type 0) (m : Exec c.State A) : Type 0 where
    pub because : (s : c.State) (e : Error) → (m s).0 ≡ err e → R e (c.table (m s).1)

-- `R` asks nothing of the exceptions that any operation may raise.
pub record IsLenient (R : Error → Table → Type 0) : Type 0 where
  pub at_bad_args : (t : Table) → R bad_args t
  pub at_internal : (t : Table) → R internal t
  pub at_corrupted : (t : Table) → R corrupted t
  pub at_python_error : (t : Table) → R python_error t
  pub at_conflict : (t : Table) → R transaction_conflict t

-- The same of one table.
pub fixed-IsLenient :
    {R : Error → Table → Type 0} (t : Table) → IsLenient R → IsLenient (λ e u. R e t)
fixed-IsLenient t l = record {
  at_bad_args = λ u. l.at_bad_args t;
  at_internal = λ u. l.at_internal t;
  at_corrupted = λ u. l.at_corrupted t;
  at_python_error = λ u. l.at_python_error t;
  at_conflict = λ u. l.at_conflict t;
}

module _ (c : Client) {R : Error → Table → Type 0} {A : Type 0} where
  pub Raises-pure : (a : A) → Raises c R (pure a)
  unfolding pure
  Raises-pure a = record { because = λ s e h. ground arith }

  pub Raises-raise : (e : Error) → ((t : Table) → R e t) → Raises c {A = A} R (raise e)
  unfolding raise
  Raises-raise e r = record {
    because = λ s e' h. subst (λ (x : Error). R x (c.table s)) (same h) (r (c.table s));
  }
    where
      same : {a b : Error} → Path (Result A) (err a) (err b) → a ≡ b
      same h = ground arith

  pub Raises-if :
      (b : Bool) (m n : Exec c.State A)
      → Raises c R m
      → Raises c R n
      → Raises c R (if b then m else n)
  Raises-if true m n km kn = km
  Raises-if false m n km kn = kn

  -- An operation runs until an attempt meets no conflict.
  pub Raises-retried : (func : Exec c.State A) → Raises c R func → Raises c R (retried c func)
  Raises-retried func k = record {
    because = λ s e h.
        let (n, (few, before, same, last)) = retried-ends c func s in
        subst (λ (p : Result A × c.State). R e (c.table p.1)) (sym same)
          (k.because (state_at c 5 100 func 0 n s) e (ap (λ p. p.0) (sym same) ∙ h));
  }

module _ (c : Client) {R : Error → Table → Type 0} {A B : Type 0} where
  -- What follows may use that the first part returned.
  pub Raises-bind-known :
      (m : Exec c.State A) (f : A → Exec c.State B)
      → Raises c R m
      → ((a : A) (s : c.State) → (m s).0 ≡ ok a → Raises c R (f a))
      → Raises c R (m >>= f)
  unfolding ◌>>=◌
  Raises-bind-known m f km kf = record {
    because = λ s e h. of_result (m s).0 (m s).1 (km.because s) (λ a got. kf a s got) e h;
  }
    where
      of_result :
          (r : Result A) (s' : c.State)
          → ((e : Error) → r ≡ err e → R e (c.table s'))
          → ((a : A) → r ≡ ok a → Raises c R (f a))
          → (e : Error) → (resume r f s').0 ≡ err e
          → R e (c.table (resume r f s').1)
      of_result (ok a) s' k kf e h = (kf a refl).because s' e h
      of_result (err x) s' k kf e h =
          subst (λ (y : Error). R y (c.table s')) (same_error h) (k x refl)
        where
          same_error : {a b : Error} → Path (Result B) (err a) (err b) → a ≡ b
          same_error h = ground arith

  pub Raises-bind :
      (m : Exec c.State A) (f : A → Exec c.State B)
      → Raises c R m
      → ((a : A) → Raises c R (f a))
      → Raises c R (m >>= f)
  Raises-bind m f km kf = Raises-bind-known m f km (λ a s h. kf a)

module _ (c : Client) (z : Gzip) {R : Error → Table → Type 0} where
  pub Raises-isotime : Raises c R (isotime c)
  unfolding isotime
  Raises-isotime = record { because = λ s e h. ground arith }

  pub Raises-uuid7 : Raises c R (uuid7 c)
  unfolding uuid7
  Raises-uuid7 = record { because = λ s e h. ground arith }

  pub Raises-lift :
      {A : Type 0} (r : Result A)
      → ((e : Error) → r ≡ err e → (t : Table) → R e t)
      → Raises c R (lift r)
  unfolding lift
  Raises-lift r k = record { because = λ s e h. k e h (c.table s) }

  pub Raises-bind-build_update :
      {B : Type 0} (args : UpdateArgs) (f : Write → Exec c.State B)
      → ((now : Text) → Raises c R (f (update_request now args)))
      → Raises c R (build_update c z args >>= f)
  unfolding build_update isotime ◌>>=◌ pure
  Raises-bind-build_update args f k = record {
    because = λ s e h. let (now, s') = c.isotime s in (k now).because s' e h;
  }

module _ (c : Client) (z : Gzip) {R : Error → Table → Type 0} (lenient : IsLenient R) where
  pub Raises-validate_space_id : (sp : Text) → Raises c R (lift (validate_space_id (str sp)))
  unfolding validate_space_id
  Raises-validate_space_id sp =
      Raises-lift c z _ λ e h t. subst (λ (x : Error). R x t) (ground arith) (lenient.at_bad_args t)

  pub Raises-validate_creator :
      (creator : Text) → Raises c R (lift (validate_creator (str creator)))
  unfolding validate_creator
  Raises-validate_creator creator =
      Raises-lift c z _ λ e h t. subst (λ (x : Error). R x t) (ground arith) (lenient.at_bad_args t)

  pub Raises-validate_issue_status :
      (status : Text) → Raises c R (lift (validate_issue_status (str status)))
  unfolding validate_issue_status
  Raises-validate_issue_status status =
      Raises-lift c z _ λ e h t. subst (λ (x : Error). R x t) (ground arith) (lenient.at_bad_args t)

  Raises-isotime_if : (b : Bool) → Raises c R (isotime_if c z b)
  Raises-isotime_if true = Raises-isotime c z
  Raises-isotime_if false = Raises-pure c _

  Raises-uuid7_if : (b : Bool) → Raises c R (uuid7_if c z b)
  Raises-uuid7_if true = Raises-uuid7 c z
  Raises-uuid7_if false = Raises-pure c _

  Raises-built : {A : Type 0} (o : Option A) → Raises c R (built o)
  Raises-built none = Raises-raise c corrupted lenient.at_corrupted
  Raises-built (some x) = Raises-pure c x

  ruleset parse_rules = (
    Raises-bind, Raises-if, Raises-pure, Raises-isotime_if, Raises-uuid7_if, Raises-built,
    Raises-raise,
  )

  Raises-parse_kind : (v : Option Val) (item : Item) → Raises c R (parse_kind c z v item)
  Raises-parse_kind none item = Raises-raise c corrupted lenient.at_corrupted
  Raises-parse_kind (some (text kind)) item = search (parse_rules, lenient.at_corrupted) depth 16
  Raises-parse_kind (some _) item = Raises-raise c corrupted lenient.at_corrupted

  pub Raises-parse_item : (o : Option Item) → Raises c R (parse_item c z o)
  unfolding parse_item
  Raises-parse_item none = Raises-pure c none
  Raises-parse_item (some item) = search (Raises-parse_kind, Raises-bind, Raises-pure)

  pub Raises-raise_for_transaction_conflict :
      (exc : ClientError) → Raises c R (raise_for_transaction_conflict c z exc)
  unfolding raise_for_transaction_conflict
  Raises-raise_for_transaction_conflict exc =
      Raises-if c _ _ _ (Raises-raise c transaction_conflict lenient.at_conflict) (Raises-pure c tt)

  pub Raises-failed_reason_item :
      (exc : ClientError) (index : ℕ) → Raises c R (failed_reason_item c z exc index)
  unfolding failed_reason_item
  Raises-failed_reason_item exc index =
      search (Raises-if, Raises-bind, Raises-pure, Raises-parse_item)
