-- ===== src/Manager/Parse.antt =====
-- parse_item: a raw row as one of the entities of CLASS_MAP. (Logging is left out.)
use pl8_base.Base.{Bool, true, false, Option, none, some, [], ◌∷◌, ◌==◌, if◌then◌else◌}
use pl8_base.Base.Int.{ℤ}
use pl8_base.Base.Text.{Text, codes, text_eq}
use pl8_base.Errors.{bad_args, corrupted, Result, ok, err, Exec, pure, raise, ◌>>=◌}
use pl8_base.Dynamo.{Attr, Val, text, Item, Client, isotime, uuid7}
use pl8_base.Types.{Gzip, SpaceInfo, IssueInfo, IssueComment, IssueAttachment, IssueBlocker}
use pl8_base.Types.FromItem.{
  space_from_item, issue_from_item, comment_from_item, attachment_from_item, blocker_from_item,
}

-- The struct classes of CLASS_MAP, as one type of parsed rows.
pub data BaseObject : Type 0 where
  space_info : SpaceInfo → BaseObject
  issue_info : IssueInfo → BaseObject
  issue_comment : IssueComment → BaseObject
  issue_attachment : IssueAttachment → BaseObject
  issue_blocker : IssueBlocker → BaseObject

abbrev pub object_version : BaseObject → ℤ
object_version (space_info x) = x.version
object_version (issue_info x) = x.version
object_version (issue_comment x) = x.version
object_version (issue_attachment x) = x.version
object_version (issue_blocker x) = x.version

-- Whether a struct asks the clock or uuid7 for a field that the row lacks.
abbrev pub is_given : Option Val → Bool
is_given (some (text (c ∷ t))) = true
is_given _ = false

abbrev pub built {ℓ} : {S A : Type ℓ} → Option A → Exec S A
built none = raise corrupted
built (some x) = pure x

module _ (c : Client) (z : Gzip) where
  -- isotime_from_uuid7 (util.py): the timestamp of a UUIDv7, rendered.
  unfoldable pub isotime_from_uuid7 : Text → Result Text
  isotime_from_uuid7 value = elim (c.parse_uuid value) [
    | none ↦ err bad_args
    | some u ↦ if u.version == 7 then ok (c.render_time u.time) else err bad_args
  ]

  -- The same with the error forgotten, as `except Exception` in parse_item does.
  abbrev pub time_of : Text → Option Text
  time_of value = elim (isotime_from_uuid7 value) [ ok t ↦ some t | err _ ↦ none ]

  abbrev pub isotime_if : Bool → Exec c.State Text
  isotime_if true = isotime c
  isotime_if false = pure []

  abbrev pub uuid7_if : Bool → Exec c.State Text
  uuid7_if true = uuid7 c
  uuid7_if false = pure []

  abbrev pub not_given : Option Val → Bool
  not_given v = if is_given v then false else true

  abbrev pub parse_class : Text → Item → Exec c.State BaseObject
  parse_class kind item =
      if text_eq kind (codes "IssueInfo")
      then (do
        now ← isotime_if (not_given (item Attr.created_at))
        x ← built (issue_from_item z now item)
        pure (issue_info x))
      else if text_eq kind (codes "IssueAttachment")
      then (do
        id ← uuid7_if (not_given (item Attr.attachment_id))
        x ← built (attachment_from_item time_of id item)
        pure (issue_attachment x))
      else if text_eq kind (codes "IssueBlocker")
      then (do
        now ← isotime_if (not_given (item Attr.created_at))
        x ← built (blocker_from_item now item)
        pure (issue_blocker x))
      else if text_eq kind (codes "IssueComment")
      then (do
        id ← uuid7_if (not_given (item Attr.comment_id))
        x ← built (comment_from_item z time_of id item)
        pure (issue_comment x))
      else if text_eq kind (codes "SpaceInfo")
      then (do
        now ← isotime_if (not_given (item Attr.created_at))
        x ← built (space_from_item z now item)
        pure (space_info x))
      else raise corrupted

  -- A row without a type, or of a type that CLASS_MAP lacks, is corrupted.
  abbrev pub parse_kind : Option Val → Item → Exec c.State BaseObject
  parse_kind (some (text kind)) item = parse_class kind item
  parse_kind _ item = raise corrupted

  unfoldable pub parse_item : Option Item → Exec c.State (Option BaseObject)
  unfolding isotime_from_uuid7
  parse_item none = pure none
  parse_item (some item) = do x ← parse_kind (item Attr.kind) item; pure (some x)
