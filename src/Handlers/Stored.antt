-- ===== src/Handlers/Stored.antt =====
-- Rows as the manager stores them, which the handlers rely on in what their queries return.
use pl8_base.Base.{ℕ, ◌≡◌, Bool, true, not, ◌&&◌, Option, all}
use pl8_base.Base.Text.{Text, codes, text_eq, starts_with, contains}
use pl8_base.Errors.{ok}
use pl8_base.Dynamo.{Client, Key}
use pl8_base.Types.{Gzip, IssueBlocker, blocker_sk, info_sk}
use pl8_base.Types.Serialize.{serialized_pk}
use pl8_base.Util.{Codec}
use pl8_base.Manager.Parse.{
  BaseObject, space_info, issue_info, issue_comment, issue_attachment, issue_blocker,
}
use pl8_base.Manager.Query.{QueryParams, Rows, run_query}

-- A blocker as it is stored: its key is the one that its fields make, over a valid space id.
abbrev pub is_stored_blocker : IssueBlocker → Bool
is_stored_blocker x =
    text_eq (serialized_pk x.pk x.sk).sk (blocker_sk x.blocked_issue_space_id x.blocked_issue_id)
    && not (contains b'#' x.blocked_issue_space_id)

-- Not the key of an info row.
abbrev pub is_part_key : Key → Bool
is_part_key key = not (text_eq key.sk info_sk)

-- A query for the blockers of an Issue.
abbrev pub is_blocker_query : QueryParams → Bool
is_blocker_query q = q.on_index && starts_with q.partition (codes "BLOCKEDISSUE#")

-- Blockers, comments and attachments have their own keys, and info rows are not in the index of
-- blockers.
abbrev pub is_stored_row : QueryParams → BaseObject → Bool
is_stored_row q (space_info x) = not (is_blocker_query q)
is_stored_row q (issue_info x) = not (is_blocker_query q)
is_stored_row q (issue_comment x) = is_part_key (serialized_pk x.pk x.sk)
is_stored_row q (issue_attachment x) = is_part_key (serialized_pk x.pk x.sk)
is_stored_row q (issue_blocker x) = is_stored_blocker x

pub record ReadsStored (c : Client) (z : Gzip) (j : Codec) : Type 0 where
  pub stored :
      (q : QueryParams) (cursor : Option Text) (limit : Option ℕ) (s : c.State) (rows : Rows)
      → (run_query c z j q cursor limit s).0 ≡ ok rows
      → all (is_stored_row q) rows.0 ≡ true
