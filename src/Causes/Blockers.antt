-- ===== src/Causes/Blockers.antt =====
-- The exceptions of add_issue_blocker.
use pl8_base.Base.{◌≡◌, refl, ◌⊎◌, inl, inr, true, ◌&&◌, Option, none, some, is_some, arith}
use pl8_base.Base.Text.{Text, text_eq}
use pl8_base.Errors.{
  Error, missing, already_exists, blocking_issue_done, terminal_status, bad_args, internal, err,
}
use pl8_base.Dynamo.{Item, Table, Client, ClientError, Key, client_error, lookup}
use pl8_base.Dynamo.Documented.{IsDynamo}
use pl8_base.Types.{Gzip, IssueBlocker, issue_info_key, init_blocker, blocker_sk, issue_pk}
use pl8_base.Manager.Parse.{BaseObject}
use pl8_base.Manager.Update.{update_request}
use pl8_base.Manager.Failure.{is_failed_entry, reason_item}
use pl8_base.Issue.{
  check_not_done, block_args, put_blocker, new_blocker, add_blocker_items, by_presence,
  on_add_blocker, add_issue_blocker,
}
use pl8_base.Issue.BlockerSteps.{Keeps-on_add_blocker}
use pl8_base.Session.KeepsDone.{is_done_row}
use pl8_base.Causes.Rules.{
  Raises, IsLenient, Raises-pure, Raises-raise, Raises-bind, Raises-if, Raises-retried,
  Raises-isotime, fixed-IsLenient, Raises-bind-build_update, Raises-validate_space_id,
  Raises-raise_for_transaction_conflict,
}
use pl8_base.Causes.Entries.{Said, Raises-transact, Raises-entry}

module _ (sp1 id1 sp2 id2 : Text) where
  abbrev blocking_row : Table → Option Item
  blocking_row t = lookup (issue_info_key sp1 id1) t

  abbrev blocked_row : Table → Option Item
  blocked_row t = lookup (issue_info_key sp2 id2) t

  abbrev blocker_key : Key
  blocker_key = record { pk = issue_pk sp1 id1; sk = blocker_sk sp2 id2 }

  -- What each exception of add_issue_blocker says of the table; the others say nothing.
  abbrev pub AddCause : Error → Table → Type 0
  AddCause missing t = (blocking_row t ≡ none) ⊎ (blocked_row t ≡ none)
  AddCause blocking_issue_done t = is_done_row (blocking_row t) ≡ true
  AddCause terminal_status t = is_done_row (blocked_row t) ≡ true
  AddCause already_exists t = is_some (lookup blocker_key t) ≡ true
  AddCause _ t = Unit

  AddCause-IsLenient : IsLenient AddCause
  AddCause-IsLenient = record {
    at_bad_args = λ t. tt;
    at_internal = λ t. tt;
    at_corrupted = λ t. tt;
    at_python_error = λ t. tt;
    at_conflict = λ t. tt;
  }

  module _ (created now1 now2 : Text) (exc : ClientError) (t : Table)
      (said : Said exc
        (add_blocker_items sp1 id1
          (update_request now1 (block_args now2 sp2 id2))
          (new_blocker created sp1 id1 sp2 id2))
        t) where
    abbrev At : Error → Table → Type 0
    At e u = AddCause e t

    blocking_said :
        (old : Option BaseObject)
        → is_failed_entry exc 0 ≡ true
        → is_some old ≡ is_some (reason_item exc 0)
        → AddCause (by_presence old missing blocking_issue_done) t
    unfolding check_not_done
    blocking_said none failed same =
        inl (ground (arith, said 0 (check_not_done sp1 id1) refl failed))
    blocking_said (some x) failed same = ground (arith, said 0 (check_not_done sp1 id1) refl failed)

    blocked_said :
        (old : Option BaseObject)
        → is_failed_entry exc 1 ≡ true
        → is_some old ≡ is_some (reason_item exc 1)
        → AddCause (by_presence old missing terminal_status) t
    unfolding update_request block_args
    blocked_said none failed same =
        inr (ground (arith, said 1 (update_request now1 (block_args now2 sp2 id2)) refl failed))
    blocked_said (some x) failed same =
        ground (arith, said 1 (update_request now1 (block_args now2 sp2 id2)) refl failed)

    row_said : is_failed_entry exc 2 ≡ true → AddCause already_exists t
    unfolding put_blocker new_blocker init_blocker
    row_said failed =
        ground (arith, said 2 (put_blocker (new_blocker created sp1 id1 sp2 id2)) refl failed)

    Raises-on_add_blocker :
        (c : Client) (z : Gzip) (x : IssueBlocker)
        → Raises c At (on_add_blocker c z x (client_error exc))
    Raises-on_add_blocker c z x =
        let l = fixed-IsLenient t AddCause-IsLenient in
        Raises-bind c _ _ (Raises-raise_for_transaction_conflict c z l exc) λ _.
          Raises-entry c z l exc 0 (λ old. by_presence old missing blocking_issue_done) _
            (λ old failed same u. blocking_said old failed same)
            (Raises-entry c z l exc 1 (λ old. by_presence old missing terminal_status) _
              (λ old failed same u. blocked_said old failed same)
              (Raises-entry c z l exc 2 (λ old. already_exists) _
                (λ old failed same u. row_said failed) (Raises-raise c internal (λ u. tt))))

  -- Where add_issue_blocker raises, the table that it leaves shows why: DDBMissingError, that there is
  -- no row of the blocking Issue or none of the blocked one; BlockingIssueDoneError, that the blocking
  -- Issue is DONE; TerminalStatusError, that the blocked Issue is DONE; DDBExistsError, that
  -- the row of the blocker is there.
  pub add_issue_blocker-AddCause :
      (c : Client) (z : Gzip) (s : c.State) (e : Error)
      → IsDynamo c
      → (add_issue_blocker c z sp1 id1 sp2 id2 s).0 ≡ err e
      → AddCause e (c.table (add_issue_blocker c z sp1 id1 sp2 id2 s).1)
  unfolding add_issue_blocker
  add_issue_blocker-AddCause c z s e d =
      let l = AddCause-IsLenient in
      (Raises-retried c _ (
          Raises-bind c _ _ (Raises-validate_space_id c z l sp1) λ _.
            Raises-bind c _ _ (Raises-validate_space_id c z l sp2) λ _.
              Raises-if c (text_eq sp1 sp2 && text_eq id1 id2) _ _
                (Raises-raise c bad_args (λ t. tt))
                (Raises-bind c _ _ (Raises-isotime c z) λ created.
                  Raises-bind c _ _ (Raises-isotime c z) λ now.
                    Raises-bind-build_update c z _ _ λ now1.
                      Raises-transact c d _ _ (λ _. Raises-pure c _)
                        (Raises-raise c internal (λ t. tt))
                        (λ exc t said.
                          Raises-on_add_blocker created now1 now exc t said c z
                            (new_blocker created sp1 id1 sp2 id2))
                        (λ P r. Keeps-on_add_blocker c z d _ r)))).because
        s e
