-- ===== src/Causes/Transition.antt =====
-- The exceptions of transition_issue and update_issue.
use pl8_base.Base.{◌≡◌, true, false, ◌&&◌, not, Bool-cases, inl, inr, Option, none, arith}
use pl8_base.Base.Int.{ℤ, pos, eqb_ℤ}
use pl8_base.Base.Text.{Text}
use pl8_base.Errors.{
  Error, missing, version_conflict, terminal_status, still_blocked, python_error, err,
}
use pl8_base.Dynamo.{Table, Client, Key, lookup}
use pl8_base.Dynamo.Documented.{IsDynamo}
use pl8_base.Types.{Gzip, IssueInfo, IssueStatus, done, blocked, status_eq, issue_info_key}
use pl8_base.Manager.Parse.{
  BaseObject, space_info, issue_info, issue_comment, issue_attachment, issue_blocker,
}
use pl8_base.Manager.Update.{is_stale}
use pl8_base.Issue.{classify_transition, transition_args, transition_issue}
use pl8_base.Issue.Steps.{Keeps-classify}
use pl8_base.Causes.Rules.{
  Raises, IsLenient, Raises-pure, Raises-raise, Raises-bind, Raises-retried, Raises-isotime,
  Raises-bind-build_update, Raises-validate_space_id, Raises-validate_issue_status,
}
use pl8_base.Causes.Updates.{Reads, Explains, Raises-apply_update}

module _ (c : Client) (z : Gzip) (sp id : Text) (version : Option ℤ) where
  abbrev row : Key
  row = issue_info_key sp id

  -- What each exception of transition_issue says of the row of the Issue; the others say nothing.
  abbrev pub TransitionCause : Error → Table → Type 0
  TransitionCause missing t = lookup row t ≡ none
  TransitionCause version_conflict t =
      (old : BaseObject) × (Reads c z row old t × (is_stale c z version old ≡ true))
  TransitionCause terminal_status t =
      (old : IssueInfo) × (Reads c z row (issue_info old) t × (status_eq old.status done ≡ true))
  TransitionCause still_blocked t =
      (old : IssueInfo) × (Reads c z row (issue_info old) t
        × (eqb_ℤ old.num_active_blockers (pos 0) ≡ false))
  TransitionCause _ t = Unit

  TransitionCause-IsLenient : IsLenient TransitionCause
  TransitionCause-IsLenient = record {
    at_bad_args = λ t. tt;
    at_internal = λ t. tt;
    at_corrupted = λ t. tt;
    at_python_error = λ t. tt;
    at_conflict = λ t. tt;
  }

  module _ (status : IssueStatus) (t : Table) where
    Raises-classify :
        (old : BaseObject)
        → Reads c z row old t
        → Raises c (λ e u. TransitionCause e t) (classify_transition c z status old)
    Raises-classify (issue_info old) r =
        elim (Bool-cases (not (status_eq status done) && status_eq old.status done)) [
          | inl e ↦ rw e (
              Raises-raise c {R = λ e u. TransitionCause e t} terminal_status
                (λ u. (old, (r, ground arith))))
          | inr e ↦
              rw e
                (elim (Bool-cases
                  (not (status_eq status blocked) && not (eqb_ℤ old.num_active_blockers (pos 0)))) [
                    | inl b ↦ rw b (
                        Raises-raise c {R = λ e u. TransitionCause e t} still_blocked
                          (λ u. (old, (r, ground arith))))
                    | inr b ↦ rw b (Raises-pure c tt)
                  ])
        ]
    Raises-classify (space_info old) r = Raises-raise c python_error (λ u. tt)
    Raises-classify (issue_comment old) r = Raises-raise c python_error (λ u. tt)
    Raises-classify (issue_attachment old) r = Raises-raise c python_error (λ u. tt)
    Raises-classify (issue_blocker old) r = Raises-raise c python_error (λ u. tt)

  transition-Explains :
      (status : IssueStatus)
      → Explains c z TransitionCause row version (classify_transition c z status)
  transition-Explains status = record {
    lenient = TransitionCause-IsLenient;
    at_missing = λ t h. h;
    at_version = λ t old r stale. (old, (r, stale));
    at_classify = λ t old r. Raises-classify status t old r;
  }

  -- Where transition_issue raises, the table that it leaves shows why: DDBMissingError, that the
  -- Issue has no row; VersionConflictError, that its row reads as an entity of another version than
  -- the given one; TerminalStatusError, that it reads as an Issue that is DONE; StillBlockedError,
  -- that it reads as an Issue whose number of active blockers is not 0.
  pub transition_issue-TransitionCause :
      (status : Text) (s : c.State) (e : Error)
      → IsDynamo c
      → (transition_issue c z sp id status version s).0 ≡ err e
      → TransitionCause e (c.table (transition_issue c z sp id status version s).1)
  unfolding transition_issue transition_args
  transition_issue-TransitionCause status s e d =
      let l = TransitionCause-IsLenient in
      (Raises-retried c _ (
          Raises-bind c _ _ (Raises-validate_space_id c z l sp) λ _.
            Raises-bind c _ _ (Raises-validate_issue_status c z l status) λ st.
              Raises-bind c _ _ (Raises-isotime c z) λ now. Raises-bind-build_update c z _ _ λ now1.
                Raises-apply_update c z d (transition_args now sp id st version) now1 version
                  (transition-Explains st) (λ P old. Keeps-classify c z d st old))).because
        s e
