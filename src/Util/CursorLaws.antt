-- ===== src/Util/CursorLaws.antt =====
-- The round trip of the pagination cursors (util.py).
use Prim.Native.Nat.{◌%◌}
use pl8_base.Base.{
  ℕ, zero, suc, ◌+◌, ◌≤◌, ◌≡◌, refl, true, false, Option, none, some, [], ◌∷◌, ◌++◌, length, arith,
}
use pl8_base.Base.Text.{Text, contains}
use pl8_base.Base.Json.{json_object, Fields}
use pl8_base.Errors.{bad_args, Result, ok, err}
use mathlib.Core.Path.{subst}
use pl8_base.Util.Validators.{str}
use pl8_base.Util.Cursor.{
  Codec, IsCodec, equals_signs, rstrip_equals, missing_padding, is_start_key,
  encode_pagination_cursor, decode_pagination_cursor,
}

rstrip_equals-equals_signs : (n : ℕ) → rstrip_equals (equals_signs n) ≡ []
rstrip_equals-equals_signs zero = refl
rstrip_equals-equals_signs (suc n) = rw (rstrip_equals-equals_signs n) refl

-- Stripping takes the padding off, and no more.
rstrip_equals-append :
    (body : Text) (n : ℕ)
    → contains b'=' body ≡ false
    → rstrip_equals (body ++ equals_signs n) ≡ body
rstrip_equals-append [] n h = rstrip_equals-equals_signs n
rstrip_equals-append (c ∷ []) n h = rw (rstrip_equals-equals_signs n) (ground arith)
rstrip_equals-append (c ∷ d ∷ body) n h = rw (rstrip_equals-append (d ∷ body) n (ground arith)) refl

-- The length of a body tells how much padding it had.
missing_padding-length : (m n : ℕ) → n ≤ 2 → (m + n) % 4 ≡ 0 → missing_padding m ≡ n
missing_padding-length m n small groups = omega arith

module _ (j : Codec) (law : IsCodec j) where
  repadded :
      (bytes : Text)
      → (let cursor = rstrip_equals (j.urlsafe_b64encode bytes) in
          cursor ++ equals_signs (missing_padding (length cursor)) ≡ j.urlsafe_b64encode bytes)
  repadded bytes =
      let (body, n, shape, clean, small, groups) = law.b64_shape bytes in
      rw
        (
          shape,
          rstrip_equals-append body n clean,
          missing_padding-length (length body) n small groups,
        )
        refl

  read_back :
      (k : Fields) (t : Text)
      → is_start_key k ≡ true
      → j.loads t ≡ some (json_object k)
      → decode_pagination_cursor j (str (rstrip_equals (j.urlsafe_b64encode (j.encode_utf8 t))))
        ≡ ok k
  unfolding decode_pagination_cursor
  read_back k t flat loaded = ground (
    arith,
    repadded (j.encode_utf8 t),
    law.b64decode_b64encode (j.encode_utf8 t),
    law.decode_encode t,
  )

  of_dumped :
      (k : Fields) (o : Option Text) (cursor : Text)
      → j.dumps (json_object k) ≡ o
      → is_start_key k ≡ true
      → encode_pagination_cursor j k ≡ ok cursor
      → decode_pagination_cursor j (str cursor) ≡ ok k
  unfolding encode_pagination_cursor
  of_dumped k none cursor dumped flat made =
      absurd_made (rw (encode_pagination_cursor, dumped) at made)
    where
      absurd_made : {A : Type 0} → Path (Result Text) (err bad_args) (ok cursor) → A
      absurd_made h = ground arith
  of_dumped k (some t) cursor dumped flat made =
      subst (λ (cur : Text). decode_pagination_cursor j (str cur) ≡ ok k)
        (ok_injective (rw (encode_pagination_cursor, dumped) at made))
        (read_back k t flat (law.loads_dumps (json_object k) t dumped))
    where
      ok_injective : {a b : Text} → Path (Result Text) (ok a) (ok b) → a ≡ b
      ok_injective h = ground arith

  -- A cursor that encode_pagination_cursor makes of an ExclusiveStartKey, a map whose values are
  -- maps, is decoded to that key, where json, base64 and UTF-8 read back what they wrote.
  pub decode_pagination_cursor-encode :
      (k : Fields) (cursor : Text)
      → is_start_key k ≡ true
      → encode_pagination_cursor j k ≡ ok cursor
      → decode_pagination_cursor j (str cursor) ≡ ok k
  decode_pagination_cursor-encode k cursor flat made =
      of_dumped k (j.dumps (json_object k)) cursor refl flat made
