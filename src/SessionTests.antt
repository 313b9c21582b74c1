-- ===== src/SessionTests.antt =====
-- A session of calls, with the handlers, over a table in memory whose queries return a stored blocker.
use pl8_base.Base.{
  ℕ, ◌≡◌, refl, ◌∙◌, sym, true, false, Option, none, some, List, [], ◌∷◌, all, arith,
}
use mathlib.Core.Path.{subst}
use pl8_base.Base.Text.{Text, codes}
use pl8_base.Base.Int.{pos}
use pl8_base.Errors.{ok, Result, pure, lift, ◌>>=◌}
use pl8_base.Errors.Bind.{bind-ok}
use pl8_base.Dynamo.{Table, Client, replied, lookup, count, query}
use pl8_base.Dynamo.Documented.{IsDynamo}
use pl8_base.Dynamo.Memory.{memory, memory-IsDynamo}
use pl8_base.Types.{IssueBlocker, default_type_version, first_version, issue_pk, blocker_sk}
use pl8_base.Types.Serialize.{serialize_blocker}
use pl8_base.Util.{Codec}
use pl8_base.Manager.Parse.{issue_blocker, parse_item}
use pl8_base.Manager.Query.{QueryParams, Rows, run_query, start_of, paged, on_query, parse_items}
use pl8_base.Base.Json.{Fields}
use pl8_base.Types.{init_blocker}
use pl8_base.Types.FromItem.{blocker_from_item}
use pl8_base.Attachment.StorageSteps.{Quiet}
use pl8_base.Handlers.Stored.{ReadsStored, is_stored_row}
use pl8_base.Counts.Schemes.{IssuesCounted, BlockersCounted}
use pl8_base.Counts.DoneHandler.{handle_issue_done-keeps_BlockersCounted}
use pl8_base.Issue.{delete_blocker_for_sweep}
use pl8_base.Counts.SweepOps.{delete_blocker_for_sweep-keeps_BlockersCounted}
use pl8_base.Handlers.{handle_issue_done}
use pl8_base.Dynamo.{Attr, Item, num, text}
use pl8_base.Types.{issue_info_key}
use pl8_base.Types.Serialize.{serialized_pk}
use pl8_base.Session.{
  Call, call_create_space, call_create_issue, call_handle_issue_done, call_handle_issue_deleted,
  call_initiate_upload, call_delete_issue, call_delete_space, run_calls,
}
use pl8_base.Samples.{plain, a_space, now, a_storage}
use pl8_base.Session.IssueCount.{run_calls-IssuesCounted}

abbrev pub a_blocker : IssueBlocker
a_blocker = record {
  pk = some (issue_pk a_space (codes "aaaaaa"));
  sk = some (blocker_sk a_space (codes "bbbbbb"));
  gsi1pk = some (codes "BLOCKEDISSUE#team-1#bbbbbb");
  gsi1sk = some (codes "500#BLOCKINGISSUE#team-1#aaaaaa");
  type_version = default_type_version;
  created_at = some now;
  updated_at = some now;
  version = first_version;
  blocking_issue_space_id = a_space;
  blocking_issue_id = codes "aaaaaa";
  blocked_issue_space_id = a_space;
  blocked_issue_id = codes "bbbbbb";
  is_blocking_issue_done = false;
}

-- The table in memory, with one answer to every query.
abbrev pub one_blocker : Client
one_blocker = record memory {
  query =
      λ q t. (replied (record { items = serialize_blocker a_blocker ∷ []; last_key = none }), t);
}

pub one_blocker-IsDynamo : IsDynamo one_blocker
one_blocker-IsDynamo = record {
  isotime_quiet = λ s. refl;
  choice_quiet = λ alphabet s. refl;
  uuid7_quiet = λ s. refl;
  sleep_quiet = λ n s. refl;
  time_quiet = λ s. refl;
  query_quiet = λ q s. refl;
  get_item_quiet = λ key s. refl;
  transact_outcome = memory-IsDynamo.transact_outcome;
  write_outcome = memory-IsDynamo.write_outcome;
  write_reason = memory-IsDynamo.write_reason;
  write_returns = memory-IsDynamo.write_returns;
}

-- A codec that no call here needs.
abbrev pub no_codec : Codec
no_codec = record {
  dumps = λ v. none;
  loads = λ t. none;
  encode_utf8 = λ t. t;
  decode_utf8 = λ t. none;
  urlsafe_b64encode = λ t. t;
  urlsafe_b64decode = λ t. none;
}

pub a_storage-Quiet : Quiet one_blocker (some a_storage)
a_storage-Quiet = record {
  post_quiet = λ key content_type size expires s. refl;
  url_quiet = λ key disposition expires s. refl;
  head_quiet = λ key s. refl;
  delete_quiet = λ key s. refl;
}

abbrev one_page : Rows
one_page = (issue_blocker a_blocker ∷ [], none)

page_of :
    (q : QueryParams) (limit : Option ℕ) (start : Option Fields) (s : Table)
    → ((query one_blocker (paged q limit start) >>= on_query one_blocker plain no_codec) s).0
      ≡ ok one_page
unfolding query ◌>>=◌ pure lift parse_items parse_item serialize_blocker blocker_from_item
    init_blocker
page_of q limit start s = refl

rows_of :
    (q : QueryParams) (cursor : Option Text) (limit : Option ℕ) (s : Table) (rows : Rows)
    → (run_query one_blocker plain no_codec q cursor limit s).0 ≡ ok rows
    → one_page ≡ rows
unfolding run_query lift
rows_of q cursor limit s rows h =
    let (start, rest) = bind-ok (lift (start_of one_blocker plain no_codec cursor)) _ s rows h in
    ok_injective (sym (page_of q limit start s) ∙ rest.1)
  where
    ok_injective : {a b : Rows} → Path (Result Rows) (ok a) (ok b) → a ≡ b
    ok_injective h = ground arith

pub one_blocker-ReadsStored : ReadsStored one_blocker plain no_codec
one_blocker-ReadsStored = record {
  stored = λ q cursor limit s rows h.
      subst (λ (r : Rows). all (is_stored_row q) r.0 ≡ true) (rows_of q cursor limit s rows h) refl;
}

abbrev empty : Table
empty = []

abbrev some_calls : List Call
some_calls =
    call_create_space a_space (codes "Team") (codes "") (codes "ann")
    ∷ call_create_issue a_space (codes "Bug") (codes "text") (codes "TODO") (codes "ann")
    ∷ call_initiate_upload a_space (codes "aaaaaa") (codes "log.txt") (codes "text/plain") (pos 5)
        (codes "ann") none
    ∷ call_handle_issue_done a_space (codes "aaaaaa")
    ∷ call_delete_space a_space
    ∷ call_delete_issue a_space (codes "aaaaaa")
    ∷ call_handle_issue_deleted a_space (codes "aaaaaa")
    ∷ []

empty-IssuesCounted : IssuesCounted empty
unfolding lookup count
empty-IssuesCounted = record { unique = tt; counted = λ i own matter. refl }

run_calls-IssuesCounted_example :
    IssuesCounted (run_calls one_blocker plain (some a_storage) no_codec 3 some_calls empty)
run_calls-IssuesCounted_example =
    run_calls-IssuesCounted one_blocker plain (some a_storage) no_codec 3 some_calls empty
      one_blocker-IsDynamo a_storage-Quiet one_blocker-ReadsStored refl empty-IssuesCounted

abbrev pub open_issue : ℕ → Item
open_issue n a = elim a [
  | Attr.num_active_blockers ↦ some (num (pos n))
  | Attr.status ↦ some (text (codes "TODO"))
  | _ ↦ none
]

-- A DONE Issue and the one that it blocks.
abbrev pub one_blocked : Table
one_blocked =
    (issue_info_key a_space (codes "aaaaaa"), open_issue 0)
    ∷ (issue_info_key a_space (codes "bbbbbb"), open_issue 1)
    ∷ (serialized_pk a_blocker.pk a_blocker.sk, serialize_blocker a_blocker)
    ∷ []

one_blocked-BlockersCounted : BlockersCounted one_blocked
unfolding lookup count serialize_blocker
one_blocked-BlockersCounted = record {
  unique = (refl, (refl, (refl, tt)));
  counted = λ i own matter. ground arith;
}

handle_issue_done_example :
    BlockersCounted
      (handle_issue_done one_blocker plain no_codec 3 a_space (codes "aaaaaa") one_blocked).1
handle_issue_done_example =
    handle_issue_done-keeps_BlockersCounted one_blocker plain no_codec 3 a_space (codes "aaaaaa")
      one_blocked one_blocker-IsDynamo one_blocker-ReadsStored one_blocked-BlockersCounted

delete_blocker_for_sweep_example :
    BlockersCounted (delete_blocker_for_sweep one_blocker plain a_blocker one_blocked).1
delete_blocker_for_sweep_example =
    delete_blocker_for_sweep-keeps_BlockersCounted one_blocker plain one_blocker-IsDynamo a_blocker
      refl refl one_blocked (λ e. ground arith) one_blocked-BlockersCounted
