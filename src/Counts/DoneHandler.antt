-- ===== src/Counts/DoneHandler.antt =====
-- num_active_blockers through handle_issue_done.
use pl8_base.Base.{ℕ, ◌≡◌, true, false, arith}
use mathlib.Core.Path.{subst, sym}
use pl8_base.Base.Text.{Text, text_eq_iff, contains}
use pl8_base.Dynamo.{Client}
use pl8_base.Dynamo.Documented.{IsDynamo}
use pl8_base.Types.{Gzip, IssueBlocker, blocker_sk}
use pl8_base.Types.Serialize.{serialized_pk}
use pl8_base.Util.{Codec}
use pl8_base.Manager.Keeps.{WritesKeep}
use pl8_base.Manager.Update.{update_request}
use pl8_base.Issue.{satisfy_items, satisfied_args, release_args}
use pl8_base.Handlers.{handle_issue_done}
use pl8_base.Handlers.Stored.{is_stored_blocker, ReadsStored}
use pl8_base.Handlers.Steps.{Keeps-handle_issue_done}
use pl8_base.Counts.Schemes.{BlockersCounted}
use pl8_base.Counts.Blockers.{satisfy-BlockersCounted}

satisfy-stored :
    (sp id : Text) (x : IssueBlocker) (now1 now2 : Text)
    → contains b'#' sp ≡ false
    → is_stored_blocker x ≡ true
    → WritesKeep BlockersCounted (
        satisfy_items sp id
          (update_request now1 (satisfied_args (serialized_pk x.pk x.sk)))
          (update_request now2 (release_args x.blocked_issue_space_id x.blocked_issue_id)))
satisfy-stored sp id x now1 now2 h stored =
    subst
      (λ (k : Text). WritesKeep BlockersCounted (
        satisfy_items sp id
          (update_request now1
            (satisfied_args (record { pk = (serialized_pk x.pk x.sk).pk; sk = k })))
          (update_request now2 (release_args x.blocked_issue_space_id x.blocked_issue_id))))
      (sym stored_sk)
      (satisfy-BlockersCounted now1 _ x.blocked_issue_space_id x.blocked_issue_id (ground arith)
        now2 sp id h)
  where
    stored_sk :
        (serialized_pk x.pk x.sk).sk ≡ blocker_sk x.blocked_issue_space_id x.blocked_issue_id
    stored_sk =
        (text_eq_iff (serialized_pk x.pk x.sk).sk
            (blocker_sk x.blocked_issue_space_id x.blocked_issue_id)).0
          (ground arith)

-- If every Issue that is there has in num_active_blockers the number of the unsatisfied
-- IssueBlockers that name it as blocked, then that is so after handle_issue_done, however many pages
-- it reads and whatever it returns or raises, where queries return rows as they are stored.
pub handle_issue_done-keeps_BlockersCounted :
    (c : Client) (z : Gzip) (j : Codec) (pages : ℕ) (sp id : Text) (s : c.State)
    → IsDynamo c
    → ReadsStored c z j
    → BlockersCounted (c.table s)
    → BlockersCounted (c.table (handle_issue_done c z j pages sp id s).1)
handle_issue_done-keeps_BlockersCounted c z j pages sp id s d reads =
    (Keeps-handle_issue_done c z j pages d reads sp id (satisfy-stored sp id)).at s
