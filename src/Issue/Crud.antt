-- ===== src/Issue/Crud.antt =====
-- create_issue, get_issue, update_issue, transition_issue and delete_issue.
use pl8_base.Base.{ℕ, zero, suc, not, ◌&&◌, Option, none, some, List, [], ◌∷◌, ◌++◌, if◌then◌else◌}
use pl8_base.Base.Int.{ℤ, pos, eqb_ℤ}
use pl8_base.Base.Text.{Text}
use pl8_base.Errors.{
  bad_args, missing, internal, id_collision, terminal_status, still_blocked, python_error, Exec,
  pure, raise, lift, ◌>>=◌, ◌>>◌,
}
use pl8_base.Const.{retry_issue_id_collisions}
use pl8_base.Dynamo.{
  Attr, Val, text, bytes, Client, Reply, replied, client_error, botocore_error, isotime,
  transact_write_items,
}
use pl8_base.Types.{Gzip, IssueInfo, IssueStatus, done, blocked, status_eq, issue_info_key}
use pl8_base.Util.{
  str, validate_space_id, validate_creator, validate_issue_status, gen_issue_id,
  default_id_alphabet,
}
use pl8_base.Manager.Parse.{BaseObject, issue_info}
use pl8_base.Manager.Failure.{raise_for_transaction_conflict, failed_reason_item, get_primary_item}
use pl8_base.Manager.Retry.{retried}
use pl8_base.Manager.Update.{plain_update, build_update, apply_update}
use pl8_base.Issue.Writes.{new_issue, transition_args, create_issue_items, delete_issue_items}

module _ (c : Client) (z : Gzip) where
  -- `again` is the rest of the loop, for an id that is taken.
  abbrev pub on_create_issue :
      IssueInfo → Exec c.State IssueInfo → Reply (Unit {0}) → Exec c.State IssueInfo
  on_create_issue x again (replied _) = pure x
  on_create_issue x again (client_error exc) = do
    raise_for_transaction_conflict c z exc
    space ← failed_reason_item c z exc 0
    if space.0
        then raise missing
        else (do issue ← failed_reason_item c z exc 1; if issue.0 then again else raise internal)
  on_create_issue x again botocore_error = raise internal

  -- The loop over RETRY_ISSUE_ID_COLLISIONS, with the rounds that are left.
  unfoldable pub create_issue_loop :
      Text → Text → Text → IssueStatus → Text → ℕ → Exec c.State IssueInfo
  create_issue_loop space_id title description status creator zero = raise id_collision
  create_issue_loop space_id title description status creator (suc n) = do
    issue_id ← gen_issue_id c 6 default_id_alphabet
    now ← isotime c
    reply ← transact_write_items c (
        create_issue_items z space_id
          (new_issue now space_id issue_id title description status creator))
    on_create_issue (new_issue now space_id issue_id title description status creator)
        (create_issue_loop space_id title description status creator n) reply

  unfoldable pub create_issue : Text → Text → Text → Text → Text → Exec c.State IssueInfo
  create_issue space_id title description status creator = retried c do
    lift (validate_space_id (str space_id))
    lift (validate_creator (str creator))
    s ← lift (validate_issue_status (str status))
    create_issue_loop space_id title description s creator retry_issue_id_collisions

  unfoldable pub get_issue : Text → Text → Exec c.State (Option BaseObject)
  get_issue space_id issue_id = do
    lift (validate_space_id (str space_id))
    get_primary_item c z (issue_info_key space_id issue_id)

  -- The attrs that update_issue sets.
  abbrev pub issue_attrs : Option Text → Option Text → List (Attr × Val)
  issue_attrs title description =
      elim title [ none ↦ [] | some t ↦ (Attr.title, text t) ∷ [] ]
      ++ elim description [ none ↦ [] | some t ↦ (Attr.description, bytes (z.compress t)) ∷ [] ]

  abbrev pub update_issue_attrs :
      Text → Text → Option ℤ → List (Attr × Val) → Exec c.State BaseObject
  update_issue_attrs space_id issue_id version [] = raise bad_args
  update_issue_attrs space_id issue_id version (a ∷ attrs) = do
    request ← build_update c z (record (plain_update (issue_info_key space_id issue_id)) {
      version = version;
      attrs = a ∷ attrs;
    })
    apply_update c z request version (λ _. pure tt)

  unfoldable pub update_issue :
      Text → Text → Option Text → Option Text → Option ℤ → Exec c.State BaseObject
  update_issue space_id issue_id title description version = retried c do
    lift (validate_space_id (str space_id))
    update_issue_attrs space_id issue_id version (issue_attrs title description)

  -- `classify` of transition_issue; only an Issue has the attributes that it looks at.
  abbrev pub classify_transition : IssueStatus → BaseObject → Exec c.State (Unit {0})
  classify_transition status (issue_info old) =
      if not (status_eq status done) && status_eq old.status done
      then raise terminal_status
      else if not (status_eq status blocked) && not (eqb_ℤ old.num_active_blockers (pos 0))
      then raise still_blocked
      else pure tt
  classify_transition status _ = raise python_error

  unfoldable pub transition_issue : Text → Text → Text → Option ℤ → Exec c.State BaseObject
  transition_issue space_id issue_id status version = retried c do
    lift (validate_space_id (str space_id))
    s ← lift (validate_issue_status (str status))
    now ← isotime c
    request ← build_update c z (transition_args now space_id issue_id s version)
    apply_update c z request version (classify_transition s)

  abbrev pub on_delete_issue : Reply (Unit {0}) → Exec c.State (Unit {0})
  on_delete_issue (replied _) = pure tt
  on_delete_issue (client_error exc) = do
    raise_for_transaction_conflict c z exc
    issue ← failed_reason_item c z exc 0
    if issue.0 then raise missing else (do
      space ← failed_reason_item c z exc 1
      if space.0 then raise missing else raise internal)
  on_delete_issue botocore_error = raise internal

  unfoldable pub delete_issue : Text → Text → Exec c.State (Unit {0})
  delete_issue space_id issue_id = retried c do
    lift (validate_space_id (str space_id))
    reply ← transact_write_items c (delete_issue_items space_id issue_id)
    on_delete_issue reply
