-- ===== src/Manager/ParseLaws.antt =====
-- What parse_item makes of the rows that serialize wrote.
use pl8_base.Base.{◌≡◌, refl, ◌∙◌, sym, ap, Bool, true, false, Option, some, []}
use mathlib.Core.Path.{subst}
use pl8_base.Base.Text.{Text}
use pl8_base.Errors.{Result, ok, Exec, pure, resume, ◌>>=◌}
use pl8_base.Dynamo.{Attr, Val, Item, Client, isotime, uuid7}
use pl8_base.Types.{Gzip, init_space, init_issue, init_comment, init_attachment, init_blocker}
use pl8_base.Types.Serialize.{
  serialize_space, serialize_issue, serialize_comment, serialize_attachment, serialize_blocker,
}
use pl8_base.Types.Dict.{
  serialize_attr, is_key_attr, is_comment_key_attr, is_description, is_body, is_none, dict_space,
  dict_issue, dict_comment, dict_attachment, dict_blocker,
}
use pl8_base.Types.DictLaws.{space_attr, issue_attr, comment_attr, attachment_attr, blocker_attr}
use pl8_base.Types.RoundTrip.{
  space_from_item-serialize, issue_from_item-serialize, comment_from_item-serialize,
  attachment_from_item-serialize, blocker_from_item-serialize,
}
use pl8_base.Manager.Parse.{
  BaseObject, space_info, issue_info, issue_comment, issue_attachment, issue_blocker, built,
  isotime_if, uuid7_if, time_of, parse_kind, parse_item,
}

-- serialize of an entity's class, at one attribute, and its row.
abbrev pub serialized_attr : Gzip → BaseObject → Attr → Result (Option Val)
serialized_attr z (space_info x) = serialize_attr z is_description is_key_attr (dict_space x)
serialized_attr z (issue_info x) = serialize_attr z is_description is_key_attr (dict_issue x)
serialized_attr z (issue_comment x) = serialize_attr z is_body is_comment_key_attr (dict_comment x)
serialized_attr z (issue_attachment x) = serialize_attr z is_none is_key_attr (dict_attachment x)
serialized_attr z (issue_blocker x) = serialize_attr z is_none is_key_attr (dict_blocker x)

abbrev pub serialized : Gzip → BaseObject → Item
serialized z (space_info x) = serialize_space z x
serialized z (issue_info x) = serialize_issue z x
serialized z (issue_comment x) = serialize_comment z x
serialized z (issue_attachment x) = serialize_attachment x
serialized z (issue_blocker x) = serialize_blocker x

serialized_attr-serialized :
    (z : Gzip) (x : BaseObject) (a : Attr) → serialized_attr z x a ≡ ok (serialized z x a)
serialized_attr-serialized z (space_info x) a = space_attr z a x
serialized_attr-serialized z (issue_info x) a = issue_attr z a x
serialized_attr-serialized z (issue_comment x) a = comment_attr z a x
serialized_attr-serialized z (issue_attachment x) a = attachment_attr z a x
serialized_attr-serialized z (issue_blocker x) a = blocker_attr z a x

module _ {S A : Type 0} where
  -- `m` returns `a` from every state.
  abbrev Gives : Exec S A → A → Type 0
  Gives m a = (s : S) → (m s).0 ≡ ok a

Gives-pure : {S A : Type 0} (a : A) → Gives {S = S} (pure a) a
unfolding pure
Gives-pure a s = refl

Gives-bind :
    {S A B : Type 0} (m : Exec S A) (f : A → Exec S B) (a : A) (b : B)
    → Gives m a
    → Gives (f a) b
    → Gives (m >>= f) b
unfolding ◌>>=◌
Gives-bind m f a b k l s = ap (λ r. (resume r f (m s).1).0) (k s) ∙ l (m s).1

Gives-built : {S A : Type 0} (o : Option A) (a : A) → o ≡ some a → Gives {S = S} (built o) a
Gives-built {S} o a e = subst (λ p. Gives {S = S} (built p) a) (sym e) (Gives-pure a)

module _ (c : Client) where
  -- What follows a read of the clock, or of a new id, and does not depend on it.
  Gives-isotime_if :
      (z : Gzip) {A : Type 0} (b : Bool) (f : Text → Exec c.State A) (a : A)
      → ((now : Text) → Gives (f now) a)
      → Gives (isotime_if c z b >>= f) a
  unfolding ◌>>=◌ pure isotime
  Gives-isotime_if z true f a k s = k (c.isotime s).0 (c.isotime s).1
  Gives-isotime_if z false f a k s = k [] s

  Gives-uuid7_if :
      (z : Gzip) {A : Type 0} (b : Bool) (f : Text → Exec c.State A) (a : A)
      → ((id : Text) → Gives (f id) a)
      → Gives (uuid7_if c z b >>= f) a
  unfolding ◌>>=◌ pure uuid7
  Gives-uuid7_if z true f a k s = k (c.uuid7 s).0 (c.uuid7 s).1
  Gives-uuid7_if z false f a k s = k [] s

  module _ (z : Gzip) where
    -- __post_init__ leaves the entity as it is, whatever the clock and the ids say.
    abbrev pub IsBuilt : BaseObject → Type 0
    IsBuilt (space_info x) = (now : Text) → init_space now x ≡ x
    IsBuilt (issue_info x) = (now : Text) → init_issue now x ≡ x
    IsBuilt (issue_comment x) = (new_id : Text) → init_comment (time_of c z) new_id x ≡ some x
    IsBuilt (issue_attachment x) = (new_id : Text) → init_attachment (time_of c z) new_id x ≡ some x
    IsBuilt (issue_blocker x) = (now : Text) → init_blocker now x ≡ x

    parse_class-serialized :
        (x : BaseObject)
        → IsBuilt x
        → Gives (parse_kind c z (serialized z x Attr.kind) (serialized z x)) x
    unfolding serialize_space serialize_issue serialize_comment serialize_attachment
        serialize_blocker
    parse_class-serialized (space_info x) h = Gives-isotime_if z _ _ _ λ now.
        Gives-bind _ _ x _ (Gives-built _ x (space_from_item-serialize z now x (h now)))
          (Gives-pure _)
    parse_class-serialized (issue_info x) h = Gives-isotime_if z _ _ _ λ now.
        Gives-bind _ _ x _ (Gives-built _ x (issue_from_item-serialize z now x (h now)))
          (Gives-pure _)
    parse_class-serialized (issue_comment x) h = Gives-uuid7_if z _ _ _ λ id.
        Gives-bind _ _ x _
          (Gives-built _ x (comment_from_item-serialize z (time_of c z) id x (h id))) (Gives-pure _)
    parse_class-serialized (issue_attachment x) h = Gives-uuid7_if z _ _ _ λ id.
        Gives-bind _ _ x _
          (Gives-built _ x (attachment_from_item-serialize (time_of c z) id x (h id)))
          (Gives-pure _)
    parse_class-serialized (issue_blocker x) h = Gives-isotime_if z _ _ _ λ now.
        Gives-bind _ _ x _ (Gives-built _ x (blocker_from_item-serialize now x (h now)))
          (Gives-pure _)

    -- An entity that __post_init__ leaves as it is, of any of the five classes, is stored and read
    -- back: serialize raises on none of its attributes, and parse_item finds the class of the row that
    -- serialize makes of them, and returns the entity as it was.
    pub parse_item-serialized :
        (x : BaseObject) (s : c.State)
        → IsBuilt x
        → ((a : Attr) → serialized_attr z x a ≡ ok (serialized z x a))
          × ((parse_item c z (some (serialized z x)) s).0 ≡ ok (some x))
    unfolding parse_item
    parse_item-serialized x s h = (
      serialized_attr-serialized z x,
      Gives-bind (parse_kind c z (serialized z x Attr.kind) (serialized z x)) _ x _
          (parse_class-serialized x h) (Gives-pure _) s,
    )
