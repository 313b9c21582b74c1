-- ===== src/Counts/Keys.antt =====
-- Which keys are distinct, and to which Space or Issue a key belongs.
use pl8_base.Base.{◌≡◌, refl, Bool, false, ◌&&◌, [], ◌∷◌, ◌++◌, arith}
use pl8_base.Base.Text.{Text, codes, text_eq, starts_with, contains}
use pl8_base.Dynamo.{Key, key_eq}
use pl8_base.Types.{info_sk, space_info_key, issue_info_key}

-- Of texts with no "#", a "#" behind shows where they end.
pub starts_with-append_hash :
    (s t u : Text)
    → contains b'#' s ≡ false
    → contains b'#' t ≡ false
    → starts_with (t ++ b'#' ∷ u) (s ++ b'#' ∷ []) ≡ text_eq s t
starts_with-append_hash [] [] u hs ht = ground arith
starts_with-append_hash [] (b ∷ t) u hs ht = ground arith
starts_with-append_hash (a ∷ s) [] u hs ht = ground arith
starts_with-append_hash (a ∷ s) (b ∷ t) u hs ht = ground (arith, starts_with-append_hash s t u)

pub text_eq-append_hash :
    (s t u v : Text)
    → contains b'#' s ≡ false
    → contains b'#' t ≡ false
    → text_eq (s ++ b'#' ∷ u) (t ++ b'#' ∷ v) ≡ (text_eq s t && text_eq u v)
text_eq-append_hash [] [] u v hs ht = ground arith
text_eq-append_hash [] (b ∷ t) u v hs ht = ground arith
text_eq-append_hash (a ∷ s) [] u v hs ht = ground arith
text_eq-append_hash (a ∷ s) (b ∷ t) u v hs ht = ground (arith, text_eq-append_hash s t u v)

-- Whether a key is that of the info row of an Issue in a Space.
abbrev pub is_issue_of : Text → Key → Bool
is_issue_of space_id key =
    starts_with key.pk (codes "ISSUE#" ++ (space_id ++ codes "#")) && text_eq key.sk info_sk

pub is_issue_of-issue_info_key :
    (s t id : Text)
    → contains b'#' s ≡ false
    → contains b'#' t ≡ false
    → is_issue_of s (issue_info_key t id) ≡ text_eq s t
is_issue_of-issue_info_key s t id hs ht = ground (arith, starts_with-append_hash s t id hs ht)

pub is_issue_of-space_info_key : (s t : Text) → is_issue_of s (space_info_key t) ≡ false
is_issue_of-space_info_key s t = refl

pub space_key-ne-issue_key :
    (s t id : Text) → key_eq (space_info_key s) (issue_info_key t id) ≡ false
space_key-ne-issue_key s t id = refl

pub key_eq-space_info_key :
    (s t : Text) → key_eq (space_info_key s) (space_info_key t) ≡ text_eq s t
key_eq-space_info_key s t = ground arith

pub key_eq-issue_info_key :
    (s id t jd : Text)
    → contains b'#' s ≡ false
    → contains b'#' t ≡ false
    → key_eq (issue_info_key s id) (issue_info_key t jd) ≡ (text_eq s t && text_eq id jd)
key_eq-issue_info_key s id t jd hs ht = ground (arith, text_eq-append_hash s t id jd hs ht)
