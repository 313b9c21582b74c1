-- ===== src/Dynamo/PrimaryKey.antt =====
-- A primary key, PK and SK.
use pl8_base.Base.{◌≡◌, refl, ◌↔◌, Bool, true, ◌&&◌, arith}
use pl8_base.Base.Text.{Text, text_eq, text_eq_iff}

pub record Key : Type 0 where
  pub pk : Text
  pub sk : Text

abbrev pub key_eq : Key → Key → Bool
key_eq j k = text_eq j.pk k.pk && text_eq j.sk k.sk

pub key_eq_iff : (j k : Key) → (key_eq j k ≡ true) ↔ (j ≡ k)
key_eq_iff j k = ground (arith, text_eq_iff j.pk k.pk, text_eq_iff j.sk k.sk)

pub key_eq_refl : (k : Key) → key_eq k k ≡ true
key_eq_refl k = (key_eq_iff k k).1 refl
