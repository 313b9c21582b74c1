-- ===== src/Counts/Blockers.antt =====
-- num_active_blockers under the transactions that move it.
use pl8_base.Base.{◌≡◌, true, false, ◌&&◌, List, [], ◌∷◌, arith}
use pl8_base.Base.Int.{pos-incr, pos-decr}
use pl8_base.Base.Text.{Text, text_eq, text_eq_iff, contains}
use pl8_base.Dynamo.{Key, Write}
use pl8_base.Dynamo.Transaction.{is_distinct}
use pl8_base.Types.{blocker_sk, init_blocker}
use pl8_base.Types.Serialize.{serialize_blocker}
use pl8_base.Manager.Keeps.{WritesKeep}
use pl8_base.Manager.Update.{update_request}
use pl8_base.Issue.{
  add_blocker_items, active_delete_items, satisfy_items, check_not_done, check_done, block_args,
  release_args, satisfied_args, put_blocker, new_blocker, active_blocker_delete,
  satisfied_blocker_delete,
}
use pl8_base.Counts.Keys.{key_eq-issue_info_key, text_eq-append_hash}
use pl8_base.Counts.Scheme.{Counted-writes, Counted-distinct_writes}
use pl8_base.Counts.Schemes.{active_blockers_scheme, BlockersCounted}

module _ (created now1 now2 sp1 id1 sp2 id2 : Text) (h1 : contains b'#' sp1 ≡ false)
    (h2 : contains b'#' sp2 ≡ false)
    (other_issue : (text_eq sp1 sp2 && text_eq id1 id2) ≡ false) where
  abbrev adding : List Write
  adding =
      add_blocker_items sp1 id1 (update_request now1 (block_args now2 sp2 id2))
        (new_blocker created sp1 id1 sp2 id2)

  pub add_issue_blocker-BlockersCounted : WritesKeep BlockersCounted adding
  unfolding check_not_done update_request block_args put_blocker new_blocker init_blocker
      serialize_blocker
  add_issue_blocker-BlockersCounted =
      Counted-writes active_blockers_scheme adding λ t i n m hs accepted moved right there. ground (
        arith,
        key_eq-issue_info_key sp1 id1 i.0 i.1 h1 hs,
        key_eq-issue_info_key sp2 id2 i.0 i.1 h2 hs,
        text_eq-append_hash sp2 i.0 id2 i.1 h2 hs,
        text_eq_iff sp1 i.0,
        text_eq_iff id1 i.1,
        text_eq_iff sp2 i.0,
        text_eq_iff id2 i.1,
        pos-incr n,
      )

-- The key of an IssueBlocker that names the Issue as blocked.
module _ (now pk sp id : Text) (h : contains b'#' sp ≡ false) where
  abbrev blocker_key : Key
  blocker_key = record { pk = pk; sk = blocker_sk sp id }

  pub active_delete-BlockersCounted :
      WritesKeep BlockersCounted
        (active_delete_items blocker_key (update_request now (release_args sp id)))
  unfolding update_request release_args active_blocker_delete
  active_delete-BlockersCounted =
      Counted-writes active_blockers_scheme
        (active_delete_items blocker_key (update_request now (release_args sp id)))
        λ t i n m hs accepted moved right there. ground (
          arith,
          key_eq-issue_info_key sp id i.0 i.1 h hs,
          text_eq-append_hash sp i.0 id i.1 h hs,
          text_eq_iff sp i.0,
          text_eq_iff id i.1,
          pos-decr m,
        )

  pub satisfied_delete-BlockersCounted :
      WritesKeep BlockersCounted (satisfied_blocker_delete blocker_key ∷ [])
  unfolding satisfied_blocker_delete
  satisfied_delete-BlockersCounted =
      Counted-writes active_blockers_scheme (satisfied_blocker_delete blocker_key ∷ [])
        λ t i n m hs accepted moved right there. ground arith

  module _ (now2 sp1 id1 : Text) (h1 : contains b'#' sp1 ≡ false) where
    abbrev satisfying : List Write
    satisfying =
        satisfy_items sp1 id1 (update_request now (satisfied_args blocker_key))
          (update_request now2 (release_args sp id))

    -- A transaction that names no row twice is not over the blocked Issue alone.
    other_issue : is_distinct satisfying ≡ true → (text_eq sp1 sp && text_eq id1 id) ≡ false
    unfolding check_done update_request satisfied_args release_args
    other_issue apart = ground (arith, key_eq-issue_info_key sp1 id1 sp id h1 h)

    pub satisfy-BlockersCounted : WritesKeep BlockersCounted satisfying
    unfolding check_done update_request satisfied_args release_args
    satisfy-BlockersCounted =
        Counted-distinct_writes active_blockers_scheme satisfying other_issue
          λ other t i n m hs accepted moved right there. ground (
            arith,
            key_eq-issue_info_key sp1 id1 i.0 i.1 h1 hs,
            text_eq_iff sp1 i.0,
            text_eq_iff id1 i.1,
            key_eq-issue_info_key sp id i.0 i.1 h hs,
            text_eq-append_hash sp i.0 id i.1 h hs,
            text_eq_iff sp i.0,
            text_eq_iff id i.1,
            pos-decr m,
          )
