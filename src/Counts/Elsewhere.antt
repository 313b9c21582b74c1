-- ===== src/Counts/Elsewhere.antt =====
-- Writes that move no Space's issue_count: those to rows that are neither the info row of a Space
-- nor of an Issue, and those that leave the info row of an Issue where it is.
use pl8_base.Base.{
  ◌≡◌, refl, ◌∙◌, ap, Bool, true, false, not, ◌&&◌, ◌||◌, List, [], ◌∷◌, arith, all,
}
use pl8_base.Base.Int.{pos}
use pl8_base.Base.Text.{Text, codes, text_eq, starts_with}
use pl8_base.Dynamo.{
  Attr, stored, key_eq, row_exists, condition_check, update, Write, Table, lookup, weight, new_row,
  is_accepted,
}
use pl8_base.Dynamo.Transaction.{row_after, weight_before, weight_after}
use pl8_base.Types.{info_sk, space_info_key}
use pl8_base.Manager.Keeps.{WritesKeep}
use pl8_base.Counts.Keys.{is_issue_of}
use pl8_base.Counts.Scheme.{Counted-writes}
use pl8_base.Counts.Schemes.{issue_count_scheme, IssuesCounted}

-- A row that is there before the write, and after it.
abbrev pub keeps_row : Write → Bool
keeps_row w = elim w.action [
  | condition_check ↦ true
  | update cs ↦ elim w.conditions [ row_exists ∷ _ ↦ true | _ ↦ false ]
  | _ ↦ false
]

unfoldable pub is_elsewhere : Write → Bool
is_elsewhere w =
    not (text_eq w.key.sk info_sk) || (starts_with w.key.pk (codes "ISSUE#") && keeps_row w)

both : (a b : Bool) → (a && b) ≡ true → (a ≡ true) × (b ≡ true)
both true b h = (refl, h)
both false b h = ground arith

module _ (s : Text) (t : Table) where
  same_weight :
      (w : Write)
      → is_elsewhere w ≡ true
      → is_accepted t w ≡ true
      → weight (λ key item. is_issue_of s key) w.key (new_row w.action (lookup w.key t))
        ≡ weight (λ key item. is_issue_of s key) w.key (lookup w.key t)
  unfolding is_elsewhere
  same_weight w e ok = ground arith

  no_space_row : (w : Write) → is_elsewhere w ≡ true → key_eq w.key (space_info_key s) ≡ false
  unfolding is_elsewhere
  no_space_row w e = ground arith

  same_weights :
      (ws : List Write)
      → all is_elsewhere ws ≡ true
      → all (is_accepted t) ws ≡ true
      → weight_after (λ key item. is_issue_of s key) ws t
        ≡ weight_before (λ key item. is_issue_of s key) ws t
  same_weights [] e ok = refl
  same_weights (w ∷ ws) e ok = rw (
    same_weight w (both (is_elsewhere w) (all is_elsewhere ws) e).0
        (both (is_accepted t w) (all (is_accepted t) ws) ok).0,
    same_weights ws (both (is_elsewhere w) (all is_elsewhere ws) e).1
        (both (is_accepted t w) (all (is_accepted t) ws) ok).1,
  )

  same_space_row :
      (ws : List Write)
      → all is_elsewhere ws ≡ true
      → row_after ws t (space_info_key s) ≡ lookup (space_info_key s) t
  same_space_row [] e = refl
  same_space_row (w ∷ ws) e = rw (
    no_space_row w (both (is_elsewhere w) (all is_elsewhere ws) e).0,
    same_space_row ws (both (is_elsewhere w) (all is_elsewhere ws) e).1,
  )

pub elsewhere-IssuesCounted :
    (ws : List Write) → all is_elsewhere ws ≡ true → WritesKeep IssuesCounted ws
elsewhere-IssuesCounted ws e =
    Counted-writes issue_count_scheme ws λ t s n m hs ok moved right there.
      ap (stored Attr.issue_count) (same_space_row s t ws e)
      ∙ (right refl ∙ ap pos (grind (arith, same_weights s t ws e ok)))
