-- ===== src/LifecycleTests.antt =====
-- The lifecycle of a blocked Issue through a session.
use pl8_base.Base.{refl, true, Option, none, some, List, [], ◌∷◌, map, ◌≡◌}
use pl8_base.Base.Text.{codes}
use pl8_base.Dynamo.{Item, Table, lookup, apply_writes}
use pl8_base.Types.{issue_info_key, todo, in_progress}
use pl8_base.Base.Int.{pos}
use pl8_base.Types.Serialize.{serialize_issue}
use pl8_base.CauseTests.{an_issue}
use pl8_base.Manager.Update.{update_request}
use pl8_base.Issue.{transition_args}
use pl8_base.Session.{
  Call, call_handle_issue_done, call_handle_zeroed, call_transition_issue, call_add_issue_blocker,
  call_delete_issue, run_calls, Sent, issue_moved, writes,
}
use pl8_base.Lifecycle.Diagram.{view, present, moves, Step, Steps, is_settled}
use pl8_base.Lifecycle.Sessions.{Executes, act_on, sent-Step, run_calls-Steps, run_calls-is_settled}
use pl8_base.Samples.{plain, a_space, a_storage}
use pl8_base.SessionTests.{
  one_blocker, one_blocker-IsDynamo, a_storage-Quiet, one_blocker-ReadsStored, no_codec,
  one_blocked, open_issue,
}

abbrev its_calls : List Call
its_calls =
    call_handle_issue_done a_space (codes "aaaaaa")
    ∷ call_handle_zeroed a_space (codes "bbbbbb")
    ∷ call_transition_issue a_space (codes "bbbbbb") (codes "IN_PROGRESS") none
    ∷ call_add_issue_blocker a_space (codes "aaaaaa") a_space (codes "bbbbbb")
    ∷ call_delete_issue a_space (codes "bbbbbb")
    ∷ []

-- The row of the blocked Issue.
abbrev its_row : Table → Option Item
its_row t = lookup (issue_info_key a_space (codes "bbbbbb")) t

run_calls-Steps_example :
    (qs : List Sent) × (Executes one_blocker plain one_blocked qs
        (run_calls one_blocker plain (some a_storage) no_codec 3 its_calls one_blocked)
      × Steps
          (view (its_row one_blocked))
          (map (act_on one_blocker plain a_space (codes "bbbbbb")) qs)
          (view (
            its_row
              (run_calls one_blocker plain (some a_storage) no_codec 3 its_calls one_blocked))))
unfolding lookup
run_calls-Steps_example =
    run_calls-Steps one_blocker plain (some a_storage) no_codec 3 its_calls one_blocked a_space
      (codes "bbbbbb") one_blocker-IsDynamo a_storage-Quiet one_blocker-ReadsStored refl
      (refl, (refl, (refl, tt)))

-- Before any blocker is added.
abbrev two_open : Table
two_open =
    (issue_info_key a_space (codes "aaaaaa"), open_issue 0)
    ∷ (issue_info_key a_space (codes "bbbbbb"), open_issue 0)
    ∷ []

run_calls-is_settled_example :
    is_settled
      (view (its_row (run_calls one_blocker plain (some a_storage) no_codec 3 its_calls two_open)))
    ≡ true
unfolding lookup
run_calls-is_settled_example =
    run_calls-is_settled one_blocker plain (some a_storage) no_codec 3 its_calls two_open a_space
      (codes "bbbbbb") one_blocker-IsDynamo a_storage-Quiet one_blocker-ReadsStored refl
      (refl, (refl, tt)) refl

-- An Issue without active blockers is moved on.
abbrev one_free : Table
one_free =
    ((
      issue_info_key a_space (codes "aaaaaa"),
      serialize_issue plain
          (record (an_issue (codes "aaaaaa") todo) { num_active_blockers = pos 0 }),
    )
      ∷ [])

abbrev its_move : Sent
its_move = issue_moved (codes "2025") (codes "2025") in_progress a_space (codes "aaaaaa") none refl

sent-Step_example : Step (moves in_progress) (present (some todo) (pos 0)) (
    view (
      lookup
        (issue_info_key a_space (codes "aaaaaa"))
        (apply_writes (writes one_blocker plain its_move) one_free)))
unfolding lookup update_request transition_args serialize_issue
sent-Step_example =
    sent-Step one_blocker plain its_move one_free a_space (codes "aaaaaa") (refl, tt) refl refl
