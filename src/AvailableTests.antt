-- ===== src/AvailableTests.antt =====
-- A blocked Issue that comes back to TODO over a table in memory.
use pl8_base.Base.{◌≡◌, refl, none, some, [], ◌∷◌, false}
use pl8_base.Base.Int.{pos}
use pl8_base.Base.Text.{codes}
use pl8_base.Errors.{ok}
use pl8_base.Dynamo.{Attr, Item, num, text, flag, Table, lookup}
use pl8_base.Dynamo.Memory.{memory, memory-IsDynamo, memory-IsAvailable}
use pl8_base.Types.{todo, issue_info_key}
use pl8_base.Types.Serialize.{serialized_pk}
use pl8_base.Available.Blocking.{HasIssue}
use pl8_base.Available.Satisfying.{IsSatisfiable, satisfy_and_unblock, satisfy-zeroed-todo}
use pl8_base.Util.{validate_space_id}
use pl8_base.Samples.{plain, a_space}
use pl8_base.SessionTests.{a_blocker}

abbrev finished : Item
finished a = elim a [ Attr.status ↦ some (text (codes "DONE")) | _ ↦ none ]

abbrev waiting : Item
waiting a = elim a [
  | Attr.num_active_blockers ↦ some (num (pos 1))
  | Attr.version ↦ some (num (pos 2))
  | Attr.status ↦ some (text (codes "BLOCKED"))
  | _ ↦ none
]

abbrev between : Item
between a = elim a [
  | Attr.is_blocking_issue_done ↦ some (flag false)
  | Attr.version ↦ some (num (pos 1))
  | _ ↦ none
]

abbrev one_waiting : Table
one_waiting =
    (issue_info_key a_space (codes "aaaaaa"), finished)
    ∷ (issue_info_key a_space (codes "bbbbbb"), waiting)
    ∷ (serialized_pk a_blocker.pk a_blocker.sk, between)
    ∷ []

one_waiting-IsSatisfiable :
    IsSatisfiable a_space
      (codes "aaaaaa")
      (serialized_pk a_blocker.pk a_blocker.sk)
      a_space
      (codes "bbbbbb")
      (pos 1)
      one_waiting
unfolding lookup
one_waiting-IsSatisfiable = record {
  issue = record {
    unique = (refl, (refl, (refl, tt)));
    row = waiting;
    at_key = refl;
    has_status = refl;
    has_count = refl;
    has_version = refl;
  };
  blocking = finished;
  at_blocking = refl;
  is_done = refl;
  blocker = between;
  at_blocker = refl;
  is_active = refl;
  has_version = refl;
}

satisfy-zeroed-todo_example :
    ((satisfy_and_unblock memory plain a_blocker a_space (codes "aaaaaa") one_waiting).0 ≡ ok tt)
    × HasIssue
        (issue_info_key a_space (codes "bbbbbb"))
        todo
        (pos 0)
        (satisfy_and_unblock memory plain a_blocker a_space (codes "aaaaaa") one_waiting).1
unfolding validate_space_id
satisfy-zeroed-todo_example =
    satisfy-zeroed-todo memory plain memory-IsDynamo memory-IsAvailable a_blocker a_space
      (codes "aaaaaa") refl refl refl refl one_waiting refl one_waiting-IsSatisfiable
