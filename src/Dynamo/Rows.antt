-- ===== src/Dynamo/Rows.antt =====
-- Attribute names, AttributeValues and rows. A row maps the attributes of types/issue.py,
-- types/space.py and types/base.py to values, as DynamoDB hands items over.
use pl8_base.Base.{
  ℕ, ◌≡◌, ◌↔◌, Bool, true, false, Option, none, some, List, arith, ◌==◌, if◌then◌else◌,
}
use pl8_base.Base.Int.{ℤ, pos, eqb_ℤ, eqb_ℤ_iff}
use pl8_base.Base.Text.{Text, text_eq, text_eq_iff}

-- The struct fields that are stored; `kind` is the tag field "type".
pub data Attr : Type 0 where
  pk sk gsi1pk gsi1sk kind type_version created_at updated_at version : Attr
  space_id issue_id title description status creator status_updated_at : Attr
  num_active_blockers num_comments num_attachments : Attr
  comment_id body attachment_id name content_type size expires_at : Attr
  blocking_issue_space_id blocking_issue_id : Attr
  blocked_issue_space_id blocked_issue_id is_blocking_issue_done : Attr
  issue_count : Attr

-- What TypeSerializer makes of a `str`, `int`, `bool`, `bytes` and `None`.
pub data Val : Type 0 where
  text : Text → Val
  num : ℤ → Val
  flag : Bool → Val
  bytes : List ℕ → Val
  null : Val

abbrev pub flag_eq : Bool → Bool → Bool
flag_eq true b = b
flag_eq false true = false
flag_eq false false = true

abbrev pub val_eq : Val → Val → Bool
val_eq (text s) (text t) = text_eq s t
val_eq (num a) (num b) = eqb_ℤ a b
val_eq (flag a) (flag b) = flag_eq a b
val_eq (bytes s) (bytes t) = text_eq s t
val_eq null null = true
val_eq _ _ = false

pub val_eq_iff : (v w : Val) → (val_eq v w ≡ true) ↔ (v ≡ w)
val_eq_iff (text s) (text t) = ground (arith, text_eq_iff s t)
val_eq_iff (num a) (num b) = ground (arith, eqb_ℤ_iff a b)
val_eq_iff (bytes s) (bytes t) = ground (arith, text_eq_iff s t)
val_eq_iff _ _ = ground arith

abbrev pub ordinal : Attr → ℕ
ordinal pk = 0
ordinal sk = 1
ordinal gsi1pk = 2
ordinal gsi1sk = 3
ordinal kind = 4
ordinal type_version = 5
ordinal created_at = 6
ordinal updated_at = 7
ordinal version = 8
ordinal space_id = 9
ordinal issue_id = 10
ordinal title = 11
ordinal description = 12
ordinal status = 13
ordinal creator = 14
ordinal status_updated_at = 15
ordinal num_active_blockers = 16
ordinal num_comments = 17
ordinal num_attachments = 18
ordinal comment_id = 19
ordinal body = 20
ordinal attachment_id = 21
ordinal name = 22
ordinal content_type = 23
ordinal size = 24
ordinal expires_at = 25
ordinal blocking_issue_space_id = 26
ordinal blocking_issue_id = 27
ordinal blocked_issue_space_id = 28
ordinal blocked_issue_id = 29
ordinal is_blocking_issue_done = 30
ordinal issue_count = 31

abbrev pub attr_eq : Attr → Attr → Bool
attr_eq a b = ordinal a == ordinal b

abbrev pub Item : Type 0
Item = Attr → Option Val

abbrev pub set_attr : Attr → Option Val → Item → Item
set_attr a v item b = if attr_eq a b then v else item b

-- The number at an attribute; 0 where there is none, as `ADD` takes it.
abbrev pub number_or_zero : Option Val → ℤ
number_or_zero (some (num n)) = n
number_or_zero _ = pos 0

abbrev pub is_number : Option Val → Bool
is_number (some (num _)) = true
is_number _ = false

-- The number that a row stores at an attribute; 0 where there is no row.
abbrev pub stored : Attr → Option Item → ℤ
stored a none = pos 0
stored a (some item) = number_or_zero (item a)
