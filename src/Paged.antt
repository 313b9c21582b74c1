-- ===== src/Paged.antt =====
-- The paged reads of the mixins: get_spaces, get_issues_by_status, get_issue_blockers,
-- get_issue_blocking, get_issue_partition, get_issue_comments, get_issue_comments_after,
-- get_issue_attachments and get_issue_comment_attachments.
use pl8_base.Base.{ℕ, Bool, true, false, Option, none, some, [], ◌∷◌, ◌++◌}
use pl8_base.Base.Text.{Text, codes}
use pl8_base.Errors.{Exec, lift, ◌>>=◌, ◌>>◌}
use pl8_base.Dynamo.{Client, SortCondition, any_sort_key, begins_with, between}
use pl8_base.Types.{
  Gzip, issue_status_text, issue_pk, issue_gsi1pk, blocker_gsi1pk, attachment_gsi1pk,
  comment_sk_prefix, attachment_sk_prefix, blocker_sk_prefix,
}
use pl8_base.Util.{Codec, str, validate_space_id, validate_issue_status}
use pl8_base.Manager.Query.{QueryParams, Rows, run_query}
use pl8_base.Attachment.{validate_link}

-- A query on GSI1, in its order.
abbrev index_query : Text → QueryParams
index_query partition = record {
  on_index = true;
  partition = partition;
  sort = any_sort_key;
  forward = true;
  consistent = false;
}

-- A query on a partition of the table.
abbrev table_query : Text → SortCondition → Bool → Bool → QueryParams
table_query partition sort forward consistent = record {
  on_index = false;
  partition = partition;
  sort = sort;
  forward = forward;
  consistent = consistent;
}

-- The queries that the sweeps page through.
abbrev pub blockers_query : Text → Text → QueryParams
blockers_query space_id blocked_issue_id = index_query (blocker_gsi1pk space_id blocked_issue_id)

abbrev pub blocking_query : Text → Text → QueryParams
blocking_query space_id blocking_issue_id =
    table_query (issue_pk space_id blocking_issue_id) (begins_with blocker_sk_prefix) true false

abbrev pub partition_query : Text → Text → QueryParams
partition_query space_id issue_id = table_query (issue_pk space_id issue_id) any_sort_key true true

-- COMMENT_SK_GROUP_END: the prefix with "$" for its last "#".
abbrev pub comment_sk_group_end : Text
comment_sk_group_end = codes "500#COMMENT$"

-- Where get_issue_comments_after starts: behind a comment, by SK_EXCLUSIVE_SUFFIX.
abbrev pub comments_start : Option Text → Text
comments_start none = comment_sk_prefix
comments_start (some last) = comment_sk_prefix ++ (last ++ 0 ∷ [])

module _ (c : Client) (z : Gzip) (j : Codec) where
  unfoldable pub get_spaces : ℕ → Option Text → Exec c.State Rows
  get_spaces limit cursor = run_query c z j (index_query (codes "SPACES")) cursor (some limit)

  unfoldable pub get_issues_by_status : Text → Text → ℕ → Option Text → Exec c.State Rows
  get_issues_by_status space_id status limit cursor = do
    lift (validate_space_id (str space_id))
    s ← lift (validate_issue_status (str status))
    run_query c z j (index_query (issue_gsi1pk space_id (issue_status_text s))) cursor (some limit)

  -- The limit of the three reads that the sweeps page through may be None.
  unfoldable pub get_issue_blockers : Text → Text → Option ℕ → Option Text → Exec c.State Rows
  get_issue_blockers space_id blocked_issue_id limit cursor = do
    lift (validate_space_id (str space_id))
    run_query c z j (blockers_query space_id blocked_issue_id) cursor limit

  unfoldable pub get_issue_blocking : Text → Text → Option ℕ → Option Text → Exec c.State Rows
  get_issue_blocking space_id blocking_issue_id limit cursor = do
    lift (validate_space_id (str space_id))
    run_query c z j (blocking_query space_id blocking_issue_id) cursor limit

  unfoldable pub get_issue_partition : Text → Text → Option ℕ → Option Text → Exec c.State Rows
  get_issue_partition space_id issue_id limit cursor = do
    lift (validate_space_id (str space_id))
    run_query c z j (partition_query space_id issue_id) cursor limit

  unfoldable pub get_issue_comments : Text → Text → ℕ → Option Text → Bool → Exec c.State Rows
  get_issue_comments space_id issue_id limit cursor ascending = do
    lift (validate_space_id (str space_id))
    run_query c z j
        (table_query (issue_pk space_id issue_id) (begins_with comment_sk_prefix) ascending false)
        cursor (some limit)

  unfoldable pub get_issue_comments_after :
      Text → Text → Option Text → ℕ → Option Text → Exec c.State Rows
  get_issue_comments_after space_id issue_id last_comment_id limit cursor = do
    lift (validate_space_id (str space_id))
    lift (validate_link c z last_comment_id)
    run_query c z j
        (table_query (issue_pk space_id issue_id)
          (between (comments_start last_comment_id) comment_sk_group_end) true false)
        cursor (some limit)

  unfoldable pub get_issue_attachments : Text → Text → ℕ → Option Text → Bool → Exec c.State Rows
  get_issue_attachments space_id issue_id limit cursor ascending = do
    lift (validate_space_id (str space_id))
    run_query c z j
        (table_query (issue_pk space_id issue_id) (begins_with attachment_sk_prefix) ascending
          false)
        cursor (some limit)

  unfoldable pub get_issue_comment_attachments :
      Text → Text → Text → ℕ → Option Text → Bool → Exec c.State Rows
  get_issue_comment_attachments space_id issue_id comment_id limit cursor ascending = do
    lift (validate_space_id (str space_id))
    run_query c z j
        (record (index_query (attachment_gsi1pk space_id issue_id comment_id)) {
          forward = ascending;
        })
        cursor (some limit)
