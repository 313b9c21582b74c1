-- ===== src/Issue/Writes.antt =====
-- The requests that the Issue operations send, and the attributes that a status change sets.
use pl8_base.Base.{true, false, Option, none, List, [], ◌∷◌}
use pl8_base.Base.Int.{ℤ, pos, negsuc}
use pl8_base.Base.Text.{Text}
use pl8_base.Dynamo.{
  Attr, Val, text, num, flag, Key, row_exists, row_not_exists, equals, differs, add, Write,
  condition_check, put, update, delete,
}
use pl8_base.Types.{
  Gzip, IssueInfo, IssueBlocker, IssueStatus, todo, blocked, done, issue_status_text, init_issue,
  init_blocker, first_version, default_type_version, issue_info_key, issue_gsi1pk, issue_gsi1sk,
}
use pl8_base.Types.Serialize.{serialize_issue, serialize_blocker, serialized_pk}
use pl8_base.Manager.Update.{UpdateArgs, plain_update}
use pl8_base.Space.{space_issue_count_update}

abbrev pub status_val : IssueStatus → Val
status_val s = text (issue_status_text s)

-- A counter update: ADD, with no version bump.
abbrev pub counter_update : Key → Attr → ℤ → Write
counter_update key attr delta = record {
  key = key;
  action = update (add attr delta ∷ []);
  conditions = row_exists ∷ [];
  returns_old = true;
}

unfoldable pub issue_num_comments_update : Text → Text → ℤ → Write
issue_num_comments_update space_id issue_id delta =
    counter_update (issue_info_key space_id issue_id) Attr.num_comments delta

unfoldable pub issue_num_attachments_update : Text → Text → ℤ → Write
issue_num_attachments_update space_id issue_id delta =
    counter_update (issue_info_key space_id issue_id) Attr.num_attachments delta

-- status_attrs, at what isotime() read.
abbrev pub status_attrs : Text → Text → Text → IssueStatus → List (Attr × Val)
status_attrs status_updated_at space_id issue_id status =
    (Attr.status, status_val status)
    ∷ (Attr.status_updated_at, text status_updated_at)
    ∷ (Attr.gsi1pk, text (issue_gsi1pk space_id (issue_status_text status)))
    ∷ (Attr.gsi1sk, text (issue_gsi1sk status_updated_at issue_id))
    ∷ []

-- The IssueInfo of create_issue at a reading of the clock.
unfoldable pub new_issue : Text → Text → Text → Text → Text → IssueStatus → Text → IssueInfo
new_issue now space_id issue_id title description status creator = init_issue now (record {
  pk = none;
  sk = none;
  gsi1pk = none;
  gsi1sk = none;
  type_version = default_type_version;
  created_at = none;
  updated_at = none;
  version = first_version;
  issue_id = issue_id;
  space_id = space_id;
  title = title;
  description = description;
  status = status;
  creator = creator;
  status_updated_at = none;
  num_active_blockers = pos 0;
  num_comments = pos 0;
  num_attachments = pos 0;
})

unfoldable pub put_issue : Gzip → IssueInfo → Write
put_issue z x = record {
  key = serialized_pk x.pk x.sk;
  action = put (serialize_issue z x);
  conditions = row_not_exists ∷ [];
  returns_old = false;
}

unfoldable pub delete_issue_info : Text → Text → Write
delete_issue_info space_id issue_id = record {
  key = issue_info_key space_id issue_id;
  action = delete;
  conditions = row_exists ∷ [];
  returns_old = false;
}

-- The arguments of _build_update in transition_issue: DONE may not be left, and only BLOCKED may be
-- entered while blockers remain.
unfoldable pub transition_args : Text → Text → Text → IssueStatus → Option ℤ → UpdateArgs
transition_args now space_id issue_id status version =
    record (plain_update (issue_info_key space_id issue_id)) {
      version = version;
      expected_vals = elim status [
        | blocked ↦ []
        | _ ↦ (Attr.num_active_blockers, num (pos 0)) ∷ []
      ];
      excluded_vals = elim status [ done ↦ [] | _ ↦ (Attr.status, status_val done) ∷ [] ];
      attrs = status_attrs now space_id issue_id status;
    }

-- The same in handle_issue_num_active_blockers_zeroed.
unfoldable pub unblock_args : Text → Text → Text → UpdateArgs
unblock_args now space_id issue_id = record (plain_update (issue_info_key space_id issue_id)) {
  expected_vals = (Attr.num_active_blockers, num (pos 0)) ∷ (Attr.status, status_val blocked) ∷ [];
  attrs = status_attrs now space_id issue_id todo;
}

-- The IssueBlocker of add_issue_blocker and delete_issue_blocker.
unfoldable pub new_blocker : Text → Text → Text → Text → Text → IssueBlocker
new_blocker now blocking_space_id blocking_id blocked_space_id blocked_id =
    init_blocker now (record {
      pk = none;
      sk = none;
      gsi1pk = none;
      gsi1sk = none;
      type_version = default_type_version;
      created_at = none;
      updated_at = none;
      version = first_version;
      blocking_issue_space_id = blocking_space_id;
      blocking_issue_id = blocking_id;
      blocked_issue_space_id = blocked_space_id;
      blocked_issue_id = blocked_id;
      is_blocking_issue_done = false;
    })

-- The ConditionCheck of add_issue_blocker: the blocking Issue is there, and not DONE.
unfoldable pub check_not_done : Text → Text → Write
check_not_done space_id issue_id = record {
  key = issue_info_key space_id issue_id;
  action = condition_check;
  conditions = row_exists ∷ differs Attr.status (status_val done) ∷ [];
  returns_old = true;
}

-- The ConditionCheck of satisfy_issue_blocker.
unfoldable pub check_done : Text → Text → Write
check_done space_id issue_id = record {
  key = issue_info_key space_id issue_id;
  action = condition_check;
  conditions = row_exists ∷ equals Attr.status (status_val done) ∷ [];
  returns_old = false;
}

-- The blocked Issue's update in add_issue_blocker.
unfoldable pub block_args : Text → Text → Text → UpdateArgs
block_args now space_id issue_id = record (plain_update (issue_info_key space_id issue_id)) {
  excluded_vals = (Attr.status, status_val done) ∷ [];
  increments = (Attr.num_active_blockers, pos 1) ∷ [];
  attrs = status_attrs now space_id issue_id blocked;
}

-- One active blocker fewer.
unfoldable pub release_args : Text → Text → UpdateArgs
release_args space_id issue_id = record (plain_update (issue_info_key space_id issue_id)) {
  increments = (Attr.num_active_blockers, negsuc 0) ∷ [];
}

-- The blocker's own update in satisfy_issue_blocker.
unfoldable pub satisfied_args : Key → UpdateArgs
satisfied_args key = record (plain_update key) {
  expected_vals = (Attr.is_blocking_issue_done, flag false) ∷ [];
  attrs = (Attr.is_blocking_issue_done, flag true) ∷ [];
}

unfoldable pub put_blocker : IssueBlocker → Write
put_blocker x = record {
  key = serialized_pk x.pk x.sk;
  action = put (serialize_blocker x);
  conditions = row_not_exists ∷ [];
  returns_old = false;
}

-- active_blocker_delete
unfoldable pub active_blocker_delete : Key → Write
active_blocker_delete key = record {
  key = key;
  action = delete;
  conditions = row_exists ∷ equals Attr.is_blocking_issue_done (flag false) ∷ [];
  returns_old = true;
}

-- The fall-back of delete_issue_blocker.
unfoldable pub satisfied_blocker_delete : Key → Write
satisfied_blocker_delete key = record {
  key = key;
  action = delete;
  conditions = row_exists ∷ equals Attr.is_blocking_issue_done (flag true) ∷ [];
  returns_old = false;
}

-- The delete_item of delete_row (manager.py).
unfoldable pub row_delete : Key → Write
row_delete key = record {
  key = key;
  action = delete;
  conditions = row_exists ∷ [];
  returns_old = false;
}

-- The TransactItems of each operation, in the order that CancellationReasons come back in.
abbrev pub create_issue_items : Gzip → Text → IssueInfo → List Write
create_issue_items z space_id x = space_issue_count_update space_id (pos 1) ∷ put_issue z x ∷ []

abbrev pub delete_issue_items : Text → Text → List Write
delete_issue_items space_id issue_id =
    delete_issue_info space_id issue_id ∷ space_issue_count_update space_id (negsuc 0) ∷ []

-- `block` is the blocked Issue's update.
abbrev pub add_blocker_items : Text → Text → Write → IssueBlocker → List Write
add_blocker_items blocking_space blocking block x =
    check_not_done blocking_space blocking ∷ block ∷ put_blocker x ∷ []

-- `release` is the blocked Issue's update.
abbrev pub active_delete_items : Key → Write → List Write
active_delete_items key release = active_blocker_delete key ∷ release ∷ []

-- `mark` is the blocker's update.
abbrev pub satisfy_items : Text → Text → Write → Write → List Write
satisfy_items space_id issue_id mark release = check_done space_id issue_id ∷ mark ∷ release ∷ []
