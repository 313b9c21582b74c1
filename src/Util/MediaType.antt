-- ===== src/Util/MediaType.antt =====
-- validate_content_type accepts the texts of CONTENT_TYPE_PATTERN.
use pl8_base.Base.{
  ℕ, ◌≡◌, refl, ap, ◌≤◌, ◌↔◌, Bool, true, false, Bool-cases, ◌&&◌, sym, ◌∙◌, inl, inr, [], ◌∷◌,
  ◌++◌, all, length, arith, ◌==◌,
}
use pl8_base.Base.Text.{Text}
use pl8_base.Errors.{Result, ok, err, bad_args}
use pl8_base.Const.{max_content_type_len}
use pl8_base.Util.Validators.{
  str, bounded_text, is_token_char, is_subtype, is_media_type_tail, is_media_type,
  validate_content_type,
}

-- [A-Za-z0-9!#$%&'*+.^_`|~-]+/[A-Za-z0-9!#$%&'*+.^_`|~-]+
pub record IsMediaType (t : Text) : Type 0 where
  pub kind : Text
  pub subtype : Text
  pub split : t ≡ kind ++ b'/' ∷ subtype
  pub kind_chars : all is_token_char kind ≡ true
  pub subtype_chars : all is_token_char subtype ≡ true
  pub has_kind : 1 ≤ length kind
  pub has_subtype : 1 ≤ length subtype

-- A slash is no token character.
token-no_slash : (c : ℕ) → is_token_char c ≡ true → (c == b'/') ≡ false
token-no_slash c h = ground arith

both : (a b : Bool) → (a && b) ≡ true → (a ≡ true) × (b ≡ true)
both true b h = (refl, h)
both false b h = ground arith

both_true : (a b : Bool) → a ≡ true → b ≡ true → (a && b) ≡ true
both_true true b ha hb = hb
both_true false b ha hb = ground arith

tail-slash : (c : ℕ) (t : Text) → (c == b'/') ≡ true → is_media_type_tail (c ∷ t) ≡ is_subtype t
tail-slash c t e = rw (is_media_type_tail, e) refl

tail-other :
    (c : ℕ) (t : Text)
    → (c == b'/') ≡ false
    → is_media_type_tail (c ∷ t) ≡ (is_token_char c && is_media_type_tail t)
tail-other c t e = rw (is_media_type_tail, e) refl

is_slash : (c : ℕ) → (c == b'/') ≡ true → c ≡ b'/'
is_slash c h = ground arith

-- The text behind the first character is token characters, a slash and a subtype.
abbrev Split : Text → Type 0
Split t =
    (a : Text) × ((b : Text) × ((t ≡ a ++ b'/' ∷ b)
        × ((all is_token_char a ≡ true) × (is_subtype b ≡ true))))

tail-Split : (t : Text) → is_media_type_tail t ≡ true → Split t
tail-Split [] h = ground arith
tail-Split (c ∷ t) h = elim (Bool-cases (c == b'/')) [
  | inl e ↦ ([], (t, (ap (λ x. x ∷ t) (is_slash c e), (refl, sym (tail-slash c t e) ∙ h))))
  | inr e ↦
      let (first, rest) =
        both (is_token_char c) (is_media_type_tail t) (sym (tail-other c t e) ∙ h) in
      let (a, (b, (split, (left, right)))) = tail-Split t rest in
      (c ∷ a, (b, (ap (λ u. c ∷ u) split, (both_true _ _ first left, right))))
]

Split-tail :
    (a b : Text)
    → all is_token_char a ≡ true
    → is_subtype b ≡ true
    → is_media_type_tail (a ++ b'/' ∷ b) ≡ true
Split-tail [] b left right = right
Split-tail (c ∷ a) b left right =
    let (first, rest) = both (is_token_char c) (all is_token_char a) left in
    tail-other c (a ++ b'/' ∷ b) (token-no_slash c first)
    ∙ both_true _ _ first (Split-tail a b rest right)

subtype_chars : (b : Text) → is_subtype b ≡ true → (all is_token_char b ≡ true) × (1 ≤ length b)
subtype_chars [] h = ground arith
subtype_chars (c ∷ b) h = (h, ground arith)

chars_subtype : (b : Text) → all is_token_char b ≡ true → 1 ≤ length b → is_subtype b ≡ true
chars_subtype [] h n = ground arith
chars_subtype (c ∷ b) h n = h

is_media_type-IsMediaType : (t : Text) → is_media_type t ≡ true → IsMediaType t
is_media_type-IsMediaType [] h = ground arith
is_media_type-IsMediaType (c ∷ t) h =
    let (first, rest) = both (is_token_char c) (is_media_type_tail t) h in
    let (a, (b, (split, (left, right)))) = tail-Split t rest in
    let (chars, some_char) = subtype_chars b right in
    record {
      kind = c ∷ a;
      subtype = b;
      split = ap (λ u. c ∷ u) split;
      kind_chars = both_true _ _ first left;
      subtype_chars = chars;
      has_kind = ground arith;
      has_subtype = some_char;
    }

joined :
    (a b : Text)
    → all is_token_char a ≡ true
    → 1 ≤ length a
    → is_subtype b ≡ true
    → is_media_type (a ++ b'/' ∷ b) ≡ true
joined [] b left n right = ground arith
joined (c ∷ a) b left n right =
    let (first, rest) = both (is_token_char c) (all is_token_char a) left in
    both_true _ _ first (Split-tail a b rest right)

IsMediaType-is_media_type : (t : Text) → IsMediaType t → is_media_type t ≡ true
IsMediaType-is_media_type t m =
    ap is_media_type m.split
    ∙ joined m.kind m.subtype m.kind_chars m.has_kind
        (chars_subtype m.subtype m.subtype_chars m.has_subtype)

-- A bound and a pattern on a text, whatever the pattern is.
abbrev checked : (Text → Bool) → Text → Result (Unit {0})
checked matches t = elim (bounded_text max_content_type_len (str t)) [
  | err e ↦ err e
  | ok u ↦ elim (matches u) [ true ↦ ok tt | false ↦ err bad_args ]
]

bounded_iff :
    (matches : Text → Bool) (c : ℕ) (t : Text)
    → (checked matches (c ∷ t) ≡ ok tt)
      ↔ ((matches (c ∷ t) ≡ true) × (length (c ∷ t) ≤ max_content_type_len))
bounded_iff matches c t = ground arith

no_media : {A : Type 0} → IsMediaType [] → A
no_media m = absurd_flags (IsMediaType-is_media_type [] m)
  where
    absurd_flags : {A : Type 0} → false ≡ true → A
    absurd_flags h = ground arith

-- validate_content_type accepts a text where it is one or more token characters, a slash and one or
-- more token characters, of at most MAX_CONTENT_TYPE_LEN code points in all, and no other.
pub validate_content_type_iff :
    (t : Text)
    → (validate_content_type (str t) ≡ ok tt) ↔ (IsMediaType t × (length t ≤ max_content_type_len))
unfolding validate_content_type
validate_content_type_iff [] = (λ h. ground arith, λ m. no_media m.0)
validate_content_type_iff (c ∷ t) =
    let (to, from) = bounded_iff is_media_type c t in
    (
      λ h. (is_media_type-IsMediaType (c ∷ t) (to h).0, (to h).1),
      λ m. from (IsMediaType-is_media_type (c ∷ t) m.0, m.1),
    )
