-- ===== src/Manager/Validated.antt =====
-- The parts of an operation that hand a fact on to what follows: an accepted space id, and a
-- request as _build_update makes it.
use pl8_base.Base.{◌≡◌, refl, false}
use pl8_base.Base.Text.{Text, contains}
use pl8_base.Errors.{Result, ok, err, Exec, lift, ◌>>=◌, ◌>>◌}
use pl8_base.Dynamo.{Table, Write, Client, isotime}
use pl8_base.Dynamo.Documented.{IsDynamo}
use pl8_base.Types.{Gzip}
use pl8_base.Util.{str, validate_space_id}
use pl8_base.Util.Charset.{validate_space_id-no_hash}
use pl8_base.Manager.Keeps.{Keeps}
use pl8_base.Manager.Update.{UpdateArgs, update_request, build_update}

module _ (c : Client) {P : Table → Type 0} where
  -- What follows may use that the first part did not raise.
  pub Keeps-bind-lift :
      {A B : Type 0} (r : Result A) (f : A → Exec c.State B)
      → ((a : A) → r ≡ ok a → Keeps c P (f a))
      → Keeps c P (lift r >>= f)
  unfolding ◌>>=◌
  Keeps-bind-lift (ok a) f k = record { at = (k a refl).at }
  Keeps-bind-lift (err e) f k = record { at = λ s h. h }

  pub Keeps-validated :
      {B : Type 0} (space_id : Text) (m : Exec c.State B)
      → (contains b'#' space_id ≡ false → Keeps c P m)
      → Keeps c P (lift (validate_space_id (str space_id)) >> m)
  Keeps-validated space_id m k =
      Keeps-bind-lift (validate_space_id (str space_id)) (λ _. m)
        λ a valid. k (validate_space_id-no_hash space_id (rw valid)).0

module _ (c : Client) (z : Gzip) (d : IsDynamo c) {P : Table → Type 0} where
  pub Keeps-bind-build_update :
      {B : Type 0} (args : UpdateArgs) (f : Write → Exec c.State B)
      → ((now : Text) → Keeps c P (f (update_request now args)))
      → Keeps c P (build_update c z args >>= f)
  unfolding build_update isotime ◌>>=◌
  Keeps-bind-build_update args f k = record {
    at = λ s h. let (now, s') = c.isotime s in (k now).at s' (rw d.isotime_quiet h);
  }
