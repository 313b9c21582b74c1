-- ===== src/Util/Validators.antt =====
-- The validate_* functions of util.py, on the values that Python may be handed.
use pl8_base.Base.{
  ℕ, Bool, true, false, ◌&&◌, ◌||◌, none, some, [], ◌∷◌, length, all, any, ltb, leb, ◌==◌,
  if◌then◌else◌,
}
use pl8_base.Base.Int.{ℤ, pos, ltb_ℤ}
use pl8_base.Base.Text.{Text, codes, contains}
use pl8_base.Errors.{bad_args, Result, ok, err}
use pl8_base.Const.{
  max_space_id_len, max_creator_len, max_attachment_name_len, max_content_type_len,
  max_attachment_size_bytes,
}
use pl8_base.Types.{IssueStatus, parse_issue_status}

-- An argument as a caller may pass it; `other` is any value of another type.
pub data Value : Type 0 where
  str : Text → Value
  int : ℤ → Value
  boolean : Bool → Value
  other : Value

abbrev between : ℕ → ℕ → ℕ → Bool
between lo hi c = leb lo c && leb c hi

-- [A-Za-z0-9]
abbrev pub is_alphanumeric : ℕ → Bool
is_alphanumeric c = between b'A' b'Z' c || (between b'a' b'z' c || between b'0' b'9' c)

-- [A-Za-z0-9_-]
abbrev pub is_space_id_char : ℕ → Bool
is_space_id_char c = is_alphanumeric c || (c == b'_' || c == b'-')

-- `isinstance(value, str)`, not empty, and at most `limit` code points.
abbrev pub bounded_text : ℕ → Value → Result Text
bounded_text limit (str []) = err bad_args
bounded_text limit (str (c ∷ t)) = if ltb limit (length (c ∷ t)) then err bad_args else ok (c ∷ t)
bounded_text limit _ = err bad_args

abbrev when_matched : Bool → Result (Unit {0})
when_matched true = ok tt
when_matched false = err bad_args

-- SPACE_ID_PATTERN.fullmatch: one or more of the characters.
unfoldable pub validate_space_id : Value → Result (Unit {0})
validate_space_id v = elim (bounded_text max_space_id_len v) [
  | err e ↦ err e
  | ok t ↦ when_matched (all is_space_id_char t)
]

unfoldable pub validate_creator : Value → Result (Unit {0})
validate_creator v = elim (bounded_text max_creator_len v) [ err e ↦ err e | ok t ↦ ok tt ]

-- [\x00-\x1f\x7f"\\]
abbrev pub is_forbidden_in_name : ℕ → Bool
is_forbidden_in_name c = leb c 31 || (c == 127 || (c == b'"' || c == 92))

-- ATTACHMENT_NAME_FORBIDDEN.search
unfoldable pub validate_attachment_name : Value → Result (Unit {0})
validate_attachment_name v = elim (bounded_text max_attachment_name_len v) [
  | err e ↦ err e
  | ok t ↦ elim (any is_forbidden_in_name t) [ true ↦ err bad_args | false ↦ ok tt ]
]

-- [A-Za-z0-9!#$%&'*+.^_`|~-]
abbrev pub is_token_char : ℕ → Bool
is_token_char c = is_alphanumeric c || contains c (codes "!#$%&'*+.^_`|~-")

-- The rest of "type/subtype" behind the slash: one or more token characters.
abbrev pub is_subtype : Text → Bool
is_subtype [] = false
is_subtype (c ∷ t) = all is_token_char (c ∷ t)

-- Token characters up to a slash; a slash is no token character.
abbrev pub is_media_type_tail : Text → Bool
is_media_type_tail [] = false
is_media_type_tail (c ∷ t) = elim (c == b'/') [
  | true ↦ is_subtype t
  | false ↦ is_token_char c && is_media_type_tail t
]

-- CONTENT_TYPE_PATTERN.fullmatch
abbrev pub is_media_type : Text → Bool
is_media_type [] = false
is_media_type (c ∷ t) = is_token_char c && is_media_type_tail t

unfoldable pub validate_content_type : Value → Result (Unit {0})
validate_content_type v = elim (bounded_text max_content_type_len v) [
  | err e ↦ err e
  | ok t ↦ when_matched (is_media_type t)
]

-- A bool is an int to Python, and is refused before the range is looked at.
unfoldable pub validate_attachment_size : Value → Result (Unit {0})
validate_attachment_size (int n) =
    if ltb_ℤ n (pos 1)
    then err bad_args
    else if ltb_ℤ (pos max_attachment_size_bytes) n
    then err bad_args
    else ok tt
validate_attachment_size _ = err bad_args

-- `IssueStatus(status)` takes a member too, which is the text of its value.
unfoldable pub validate_issue_status : Value → Result IssueStatus
validate_issue_status (str t) = elim (parse_issue_status t) [ none ↦ err bad_args | some s ↦ ok s ]
validate_issue_status _ = err bad_args
