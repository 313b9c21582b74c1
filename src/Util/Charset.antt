-- ===== src/Util/Charset.antt =====
-- What the validators keep out of the values that they accept.
use pl8_base.Base.{◌≡◌, refl, true, false, ◌≤◌, [], ◌∷◌, arith, all, length}
use pl8_base.Base.Text.{Text, contains}
use pl8_base.Errors.{ok}
use pl8_base.Util.Validators.{str, is_space_id_char, validate_space_id}
use pl8_base.Const.{max_space_id_len}

-- No "#" stands among the characters of a space id.
pub all-no_hash : (t : Text) → all is_space_id_char t ≡ true → contains b'#' t ≡ false
all-no_hash [] h = refl
all-no_hash (c ∷ t) h = ground (arith, all-no_hash t)

-- A space id that is accepted has no "#", is not empty and is at most 64 code points long.
pub validate_space_id-no_hash :
    (t : Text)
    → validate_space_id (str t) ≡ ok tt
    → (contains b'#' t ≡ false) × (1 ≤ length t) × (length t ≤ max_space_id_len)
unfolding validate_space_id
validate_space_id-no_hash [] h = ground arith
validate_space_id-no_hash (c ∷ t) h = ground (arith, all-no_hash (c ∷ t))
