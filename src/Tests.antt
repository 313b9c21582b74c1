-- ===== src/Tests.antt =====
-- Runs of the operations on small inputs over a table in memory, and the theorems on them.
use pl8_base.Base.{
  ℕ, ◌≡◌, refl, ◌≤◌, true, false, ◌⊎◌, none, some, [], ◌∷◌, all, length, is_some, arith,
}
use pl8_base.Base.Int.{pos, ◌+ℤ◌}
use pl8_base.Base.Text.{Text, codes, contains}
use pl8_base.Errors.{ok, Exec}
use pl8_base.Const.{max_space_id_len}
use pl8_base.Dynamo.{Attr, num, text, Item, count, stored, Table, Key, lookup, new_row, update}
use pl8_base.Dynamo.Memory.{memory, memory-IsDynamo}
use pl8_base.Types.{
  Gzip, IssueBlocker, todo, space_info_key, issue_info_key, default_type_version, first_version,
}
use pl8_base.Util.{validate_space_id, gen_issue_id, default_id_alphabet}
use pl8_base.Util.Charset.{validate_space_id-no_hash}
use pl8_base.Util.Drawn.{gen_issue_id-length}
use pl8_base.Manager.Retry.{retried, is_conflict}
use pl8_base.Manager.RetryLaws.{state_at, all_conflicts, retried-ends}
use pl8_base.Manager.Update.{UpdateArgs, plain_update, update_clauses, update_request}
use pl8_base.Manager.UpdateLaws.{is_expected, update_request-version}
use pl8_base.Space.{delete_space}
use pl8_base.Issue.{add_issue_blocker, delete_issue_blocker, satisfy_issue_blocker}
use pl8_base.Counts.Schemes.{BlockersCounted}
use pl8_base.Counts.Operations.{
  add_issue_blocker-keeps_BlockersCounted, delete_issue_blocker-keeps_BlockersCounted,
  satisfy_issue_blocker-keeps_BlockersCounted,
}
use pl8_base.Session.{Sent, writes, issue_updated, issue_moved}
use pl8_base.Session.KeepsDone.{is_done_or_gone}
use pl8_base.Session.Terminal.{sent-done_or_gone}
use pl8_base.Issue.{transition_args}
use pl8_base.Dynamo.{apply_writes, is_accepted}

-- A gzip that stores a text as it is.
abbrev plain : Gzip
plain = record { compress = λ t. t; decompress = some; decompress-compress = λ t. refl }

abbrev a_space : Text
a_space = codes "team-1"

abbrev now : Text
now = codes "2025-01-01T00:00:00.000Z"

abbrev empty : Table
empty = []

abbrev open_issue : Item
open_issue a = elim a [
  | Attr.num_active_blockers ↦ some (num (pos 0))
  | Attr.version ↦ some (num (pos 1))
  | Attr.status ↦ some (text (codes "TODO"))
  | _ ↦ none
]

-- Two Issues that nothing blocks.
abbrev two_issues : Table
two_issues =
    (issue_info_key a_space (codes "aaaaaa"), open_issue)
    ∷ (issue_info_key a_space (codes "bbbbbb"), open_issue)
    ∷ []

two_issues-BlockersCounted : BlockersCounted two_issues
unfolding lookup count
two_issues-BlockersCounted = record {
  unique = (refl, (refl, tt));
  counted = λ i own matter. ground arith;
}

add_issue_blocker_example :
    BlockersCounted
      (add_issue_blocker memory plain a_space
        (codes "aaaaaa")
        a_space
        (codes "bbbbbb")
        two_issues).1
add_issue_blocker_example =
    add_issue_blocker-keeps_BlockersCounted memory plain a_space (codes "aaaaaa") a_space
      (codes "bbbbbb") two_issues memory-IsDynamo two_issues-BlockersCounted

delete_issue_blocker_example :
    BlockersCounted
      (delete_issue_blocker memory plain a_space
        (codes "aaaaaa")
        a_space
        (codes "bbbbbb")
        two_issues).1
delete_issue_blocker_example =
    delete_issue_blocker-keeps_BlockersCounted memory plain a_space (codes "aaaaaa") a_space
      (codes "bbbbbb") two_issues memory-IsDynamo two_issues-BlockersCounted

abbrev a_blocker : IssueBlocker
a_blocker = record {
  pk = none;
  sk = some (codes "800#BLOCKEDISSUE#team-1#bbbbbb");
  gsi1pk = none;
  gsi1sk = none;
  type_version = default_type_version;
  created_at = some now;
  updated_at = some now;
  version = first_version;
  blocking_issue_space_id = a_space;
  blocking_issue_id = codes "aaaaaa";
  blocked_issue_space_id = a_space;
  blocked_issue_id = codes "bbbbbb";
  is_blocking_issue_done = false;
}

satisfy_issue_blocker_example :
    BlockersCounted
      (satisfy_issue_blocker memory plain a_blocker a_space (codes "aaaaaa") two_issues).1
satisfy_issue_blocker_example =
    satisfy_issue_blocker-keeps_BlockersCounted memory plain a_blocker a_space (codes "aaaaaa")
      two_issues memory-IsDynamo refl refl refl two_issues-BlockersCounted

abbrev deleting : Exec Table (Unit {0})
deleting = delete_space memory plain a_space

retried-ends_example :
    (n : ℕ) × ((n ≤ 4)
      × (all_conflicts memory 5 100 deleting 0 n empty ≡ true)
      × (retried memory deleting empty ≡ deleting (state_at memory 5 100 deleting 0 n empty))
      × ((n ≡ 4) ⊎ (is_conflict (retried memory deleting empty).0 ≡ false)))
retried-ends_example = retried-ends memory deleting empty

abbrev a_key : Key
a_key = space_info_key a_space

-- A row at version 3.
abbrev at_three : Table
at_three = (a_key, λ a. elim a [ Attr.version ↦ some (num (pos 3)) | _ ↦ none ]) ∷ []

abbrev rename : UpdateArgs
rename = record (plain_update a_key) {
  version = some (pos 3);
  attrs = (Attr.name, text (codes "Crew")) ∷ [];
}

update_request-version_example :
    (is_some (lookup a_key at_three) ≡ true)
    × (is_expected (some (pos 3)) (stored Attr.version (lookup a_key at_three)) ≡ true)
    × (stored Attr.version (new_row (update (update_clauses now rename)) (lookup a_key at_three))
        ≡ stored Attr.version (lookup a_key at_three) +ℤ pos 1)
unfolding update_request lookup
update_request-version_example = update_request-version now rename at_three refl refl

validate_space_id-no_hash_example :
    (contains b'#' a_space ≡ false) × (1 ≤ length a_space) × (length a_space ≤ max_space_id_len)
unfolding validate_space_id
validate_space_id-no_hash_example = validate_space_id-no_hash a_space refl

gen_issue_id-length_example :
    (id : Text) × ((gen_issue_id memory 6 default_id_alphabet empty).0 ≡ ok id) × (length id ≡ 6)
gen_issue_id-length_example =
    gen_issue_id-length memory 6 default_id_alphabet empty (ground arith) (ground arith)

abbrev done_issue : Item
done_issue a = elim a [
  | Attr.num_active_blockers ↦ some (num (pos 0))
  | Attr.version ↦ some (num (pos 4))
  | Attr.status ↦ some (text (codes "DONE"))
  | _ ↦ none
]

abbrev one_done : Table
one_done = (issue_info_key a_space (codes "aaaaaa"), done_issue) ∷ []

-- A new title for it.
abbrev retitle : Sent
retitle = issue_updated now a_space (codes "aaaaaa") (some (codes "Bug, fixed")) none none refl

sent-done_or_gone_example :
    is_done_or_gone (
      lookup
        (issue_info_key a_space (codes "aaaaaa"))
        (apply_writes (writes memory plain retitle) one_done))
    ≡ true
unfolding update_request lookup
sent-done_or_gone_example =
    sent-done_or_gone memory plain retitle one_done a_space (codes "aaaaaa") (refl, tt) refl refl
      refl

-- The guard of transition_issue refuses it.
reopen_refused :
    all
      (is_accepted one_done)
      (writes memory plain (issue_moved now now todo a_space (codes "aaaaaa") none refl))
    ≡ false
unfolding update_request lookup transition_args
reopen_refused = refl
