-- ===== src/Counts/Issues.antt =====
-- A Space's issue_count under every request that the Space and Issue operations send.
use pl8_base.Base.{◌≡◌, false, Option, List, [], ◌∷◌, arith}
use pl8_base.Base.Int.{ℤ, pos-incr, pos-decr}
use pl8_base.Base.Text.{Text, text_eq_iff, contains}
use pl8_base.Dynamo.{Attr, Val, Write}
use pl8_base.Types.{Gzip, IssueStatus, space_info_key, init_space, init_issue}
use pl8_base.Types.Serialize.{serialize_space, serialize_issue}
use pl8_base.Manager.Keeps.{WritesKeep}
use pl8_base.Manager.Update.{plain_update, update_request}
use pl8_base.Space.{space_issue_count_update, put_space, new_space, delete_empty_space}
use pl8_base.Issue.{create_issue_items, delete_issue_items, put_issue, new_issue, delete_issue_info}
use pl8_base.Counts.Keys.{is_issue_of-issue_info_key}
use pl8_base.Counts.Scheme.{Counted-writes}
use pl8_base.Counts.Schemes.{issue_count_scheme, IssuesCounted}

module _ (z : Gzip) (now sp name description creator : Text) where
  pub create_space-IssuesCounted :
      WritesKeep IssuesCounted (put_space z (new_space now sp name description creator) ∷ [])
  unfolding put_space new_space init_space serialize_space
  create_space-IssuesCounted =
      Counted-writes issue_count_scheme
        (put_space z (new_space now sp name description creator) ∷ [])
        λ t s n m hs accepted moved right there. ground (arith, text_eq_iff sp s)

module _ (now sp : Text) (version : Option ℤ) where
  abbrev space_update : List (Attr × Val) → Write
  space_update attrs =
      update_request now
        (record (plain_update (space_info_key sp)) { version = version; attrs = attrs })

  abbrev space_updates : List (Attr × Val) → List Write
  space_updates attrs = space_update attrs ∷ []

  pub rename_space-IssuesCounted :
      (v : Val) → WritesKeep IssuesCounted (space_updates ((Attr.name, v) ∷ []))
  unfolding update_request
  rename_space-IssuesCounted v =
      Counted-writes issue_count_scheme (space_updates ((Attr.name, v) ∷ []))
        λ t s n m hs accepted moved right there. ground (arith, text_eq_iff sp s)

module _ (sp : Text) where
  pub delete_space-IssuesCounted : WritesKeep IssuesCounted (delete_empty_space sp ∷ [])
  unfolding delete_empty_space
  delete_space-IssuesCounted =
      Counted-writes issue_count_scheme (delete_empty_space sp ∷ [])
        λ t s n m hs accepted moved right there. ground (arith, text_eq_iff sp s)

module _ (z : Gzip) (now sp id title description creator : Text) (st : IssueStatus)
    (h : contains b'#' sp ≡ false) where
  abbrev creating : List Write
  creating = create_issue_items z sp (new_issue now sp id title description st creator)

  pub create_issue-IssuesCounted : WritesKeep IssuesCounted creating
  unfolding space_issue_count_update put_issue new_issue init_issue serialize_issue
  create_issue-IssuesCounted =
      Counted-writes issue_count_scheme creating λ t s n m hs accepted moved right there. ground (
        arith,
        is_issue_of-issue_info_key s sp id hs h,
        text_eq_iff sp s,
        text_eq_iff s sp,
        pos-incr n,
      )

module _ (sp id : Text) (h : contains b'#' sp ≡ false) where
  pub delete_issue-IssuesCounted : WritesKeep IssuesCounted (delete_issue_items sp id)
  unfolding space_issue_count_update delete_issue_info
  delete_issue-IssuesCounted =
      Counted-writes issue_count_scheme (delete_issue_items sp id)
        λ t s n m hs accepted moved right there. ground (
          arith,
          is_issue_of-issue_info_key s sp id hs h,
          text_eq_iff sp s,
          text_eq_iff s sp,
          pos-decr m,
        )
