-- ===== src/Util/Cursor.antt =====
-- encode_pagination_cursor and decode_pagination_cursor (util.py). The json and base64 packages and
-- the UTF-8 codec are a parameter.
use Prim.Native.Nat.{◌%◌}
use pl8_base.Base.{
  ℕ, zero, suc, ◌+◌, ◌-◌, ◌≤◌, ◌≡◌, Bool, true, false, ◌&&◌, Option, none, some, [], ◌∷◌, ◌++◌,
  length, ◌==◌, if◌then◌else◌,
}
use pl8_base.Base.Text.{Text, contains}
use pl8_base.Base.Json.{Json, json_object, Fields, no_fields, field}
use pl8_base.Errors.{bad_args, Result, ok, err}
use pl8_base.Util.Validators.{Value, str}

-- `none` is a TypeError or a ValueError. Bytes are lists of numbers, as texts are.
pub record Codec : Type 0 where
  pub dumps : Json → Option Text
  pub loads : Text → Option Json
  pub encode_utf8 : Text → Text
  pub decode_utf8 : Text → Option Text
  pub urlsafe_b64encode : Text → Text
  pub urlsafe_b64decode : Text → Option Text

abbrev pub equals_signs : ℕ → Text
equals_signs zero = []
equals_signs (suc n) = b'=' ∷ equals_signs n

-- What the packages document: they read back what they wrote, and base64 comes in groups of four
-- characters, of which at most the last two are padding.
pub record IsCodec (j : Codec) : Type 0 where
  pub loads_dumps : (v : Json) (t : Text) → j.dumps v ≡ some t → j.loads t ≡ some v
  pub decode_encode : (t : Text) → j.decode_utf8 (j.encode_utf8 t) ≡ some t
  pub b64decode_b64encode : (t : Text) → j.urlsafe_b64decode (j.urlsafe_b64encode t) ≡ some t
  pub b64_shape :
      (t : Text)
      → (body : Text) × (n : ℕ) × (j.urlsafe_b64encode t ≡ body ++ equals_signs n)
        × (contains b'=' body ≡ false)
        × (n ≤ 2)
        × ((length body + n) % 4 ≡ 0)

abbrev kept : ℕ → Text → Text
kept c [] = if c == b'=' then [] else c ∷ []
kept c (d ∷ t) = c ∷ d ∷ t

-- `t.rstrip("=")`
abbrev pub rstrip_equals : Text → Text
rstrip_equals [] = []
rstrip_equals (c ∷ t) = kept c (rstrip_equals t)

-- `-n % 4`
abbrev pub missing_padding : ℕ → ℕ
missing_padding n = (4 - n % 4) % 4

-- A map whose values are maps.
abbrev is_object : Json → Bool
is_object (json_object _) = true
is_object _ = false

abbrev pub is_start_key : Fields → Bool
is_start_key no_fields = true
is_start_key (field k v rest) = is_object v && is_start_key rest

abbrev start_key : Option Json → Result Fields
start_key (some (json_object fields)) = if is_start_key fields then ok fields else err bad_args
start_key _ = err bad_args

module _ (j : Codec) where
  unfoldable pub encode_pagination_cursor : Fields → Result Text
  encode_pagination_cursor fields = elim (j.dumps (json_object fields)) [
    | none ↦ err bad_args
    | some t ↦ ok (rstrip_equals (j.urlsafe_b64encode (j.encode_utf8 t)))
  ]

  abbrev decoded : Text → Option Json
  decoded padded = elim (j.urlsafe_b64decode padded) [
    | none ↦ none
    | some bytes ↦ elim (j.decode_utf8 bytes) [ none ↦ none | some t ↦ j.loads t ]
  ]

  unfoldable pub decode_pagination_cursor : Value → Result Fields
  decode_pagination_cursor (str cursor) =
      start_key (decoded (cursor ++ equals_signs (missing_padding (length cursor))))
  decode_pagination_cursor _ = err bad_args
