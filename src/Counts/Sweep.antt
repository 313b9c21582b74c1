-- ===== src/Counts/Sweep.antt =====
-- num_active_blockers under the bare delete of a sweep, which leaves the counter out.
use pl8_base.Base.{
  ◌≡◌, refl, ◌⊎◌, ◌∙◌, ap, Bool, false, inl, inr, Option, none, some, [], ◌∷◌, is_some, arith,
}
use pl8_base.Base.Text.{Text, text_eq_iff, contains}
use pl8_base.Dynamo.{Attr, flag, Item, Key, key_eq_iff, Table, attr_is, lookup}
use pl8_base.Dynamo.Transaction.{lookup-apply_writes}
use pl8_base.Types.{blocker_sk, issue_info_key}
use pl8_base.Manager.Keeps.{WritesKeep}
use pl8_base.Issue.{row_delete}
use pl8_base.Counts.Keys.{text_eq-append_hash}
use pl8_base.Counts.Scheme.{Counted-at, BalancedAt}
use pl8_base.Counts.Schemes.{active_blockers_scheme, BlockersCounted}

-- The row of a blocker that is active.
abbrev pub is_active_row : Option Item → Bool
is_active_row none = false
is_active_row (some item) = attr_is (item Attr.is_blocking_issue_done) (flag false)

module _ (key : Key) (sp id : Text) (stored : key.sk ≡ blocker_sk sp id)
    (h : contains b'#' sp ≡ false) where
  -- No counter counts the row at the key: it is not active, or its blocked Issue is gone.
  abbrev pub Spent : Table → Type 0
  Spent t =
      (is_active_row (lookup key t) ≡ false) ⊎ (is_some (lookup (issue_info_key sp id) t) ≡ false)

  bare_balanced : (t : Table) → Spent t → BalancedAt active_blockers_scheme (row_delete key ∷ []) t
  unfolding row_delete
  bare_balanced t (inl inactive) i n m hs accepted moved right there = ground arith
  bare_balanced t (inr gone) i n m hs accepted moved right there =
      ground (arith, text_eq-append_hash sp i.0 id i.1 h hs, text_eq_iff sp i.0, text_eq_iff id i.1)

  abbrev pub CountedAndSpent : Table → Type 0
  CountedAndSpent t = BlockersCounted t × Spent t

  pub bare-CountedAndSpent : WritesKeep CountedAndSpent (row_delete key ∷ [])
  unfolding row_delete
  bare-CountedAndSpent t apart accepted c = (
    Counted-at active_blockers_scheme (row_delete key ∷ []) t (bare_balanced t c.1) apart accepted
        c.0,
    inl (
        ap is_active_row (lookup-apply_writes (row_delete key ∷ []) t key c.0.unique apart)
        ∙ rw ((key_eq_iff key key).1 refl) refl),
  )
