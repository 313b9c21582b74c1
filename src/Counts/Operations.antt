-- ===== src/Counts/Operations.antt =====
-- num_active_blockers through the operations that move it.
use pl8_base.Base.{◌≡◌, false, Option, some}
use mathlib.Core.Path.{subst, sym}
use pl8_base.Manager.Keeps.{WritesKeep}
use pl8_base.Manager.Update.{update_request}
use pl8_base.Base.Text.{Text, contains}
use pl8_base.Dynamo.{Client}
use pl8_base.Dynamo.Documented.{IsDynamo}
use pl8_base.Types.{Gzip, IssueBlocker, init_blocker, blocker_sk}
use pl8_base.Types.Serialize.{serialized_pk}
use pl8_base.Issue.{
  satisfy_items, satisfied_args, release_args, new_blocker, add_issue_blocker, delete_issue_blocker,
  satisfy_issue_blocker,
}
use pl8_base.Issue.BlockerSteps.{
  Keeps-add_issue_blocker, Keeps-delete_issue_blocker, Keeps-satisfy_issue_blocker,
}
use pl8_base.Counts.Schemes.{BlockersCounted}
use pl8_base.Counts.Blockers.{
  add_issue_blocker-BlockersCounted, active_delete-BlockersCounted,
  satisfied_delete-BlockersCounted, satisfy-BlockersCounted,
}

-- If every Issue that is there has in num_active_blockers the number of the unsatisfied
-- IssueBlockers that name it as blocked, then that is so after add_issue_blocker, whatever it
-- returns or raises.
pub add_issue_blocker-keeps_BlockersCounted :
    (c : Client) (z : Gzip) (sp1 id1 sp2 id2 : Text) (s : c.State)
    → IsDynamo c
    → BlockersCounted (c.table s)
    → BlockersCounted (c.table (add_issue_blocker c z sp1 id1 sp2 id2 s).1)
add_issue_blocker-keeps_BlockersCounted c z sp1 id1 sp2 id2 s d =
    (Keeps-add_issue_blocker c z d sp1 id1 sp2 id2 (λ created now1 now2 h1 h2 other.
        add_issue_blocker-BlockersCounted created now1 now2 sp1 id1 sp2 id2 h1 h2 other)).at
      s

-- If every Issue that is there has in num_active_blockers the number of the unsatisfied
-- IssueBlockers that name it as blocked, then that is so after delete_issue_blocker, whatever it
-- returns or raises.
pub delete_issue_blocker-keeps_BlockersCounted :
    (c : Client) (z : Gzip) (sp1 id1 sp2 id2 : Text) (s : c.State)
    → IsDynamo c
    → BlockersCounted (c.table s)
    → BlockersCounted (c.table (delete_issue_blocker c z sp1 id1 sp2 id2 s).1)
unfolding new_blocker init_blocker
delete_issue_blocker-keeps_BlockersCounted c z sp1 id1 sp2 id2 s d =
    (Keeps-delete_issue_blocker c z d sp1 id1 sp2 id2
        (λ created now h2. active_delete-BlockersCounted now _ sp2 id2 h2)
        (λ created h2. satisfied_delete-BlockersCounted created _ sp2 id2 h2)).at
      s

-- If every Issue that is there has in num_active_blockers the number of the unsatisfied
-- IssueBlockers that name it as blocked, then that is so after satisfy_issue_blocker, whatever it
-- returns or raises, for a blocker with the sort key that its fields make, in Spaces whose ids have
-- no "#".
pub satisfy_issue_blocker-keeps_BlockersCounted :
    (c : Client) (z : Gzip) (x : IssueBlocker) (sp id : Text) (s : c.State)
    → IsDynamo c
    → contains b'#' sp ≡ false
    → contains b'#' x.blocked_issue_space_id ≡ false
    → x.sk ≡ some (blocker_sk x.blocked_issue_space_id x.blocked_issue_id)
    → BlockersCounted (c.table s)
    → BlockersCounted (c.table (satisfy_issue_blocker c z x sp id s).1)
satisfy_issue_blocker-keeps_BlockersCounted c z x sp id s d h1 h2 key =
    (Keeps-satisfy_issue_blocker c z d x sp id λ now1 now2.
        subst
          (λ (o : Option Text). WritesKeep BlockersCounted (
            satisfy_items sp id (update_request now1 (satisfied_args (serialized_pk x.pk o)))
              (update_request now2 (release_args x.blocked_issue_space_id x.blocked_issue_id))))
          (sym key)
          (satisfy-BlockersCounted now1 _ x.blocked_issue_space_id x.blocked_issue_id h2 now2 sp id
            h1)).at
      s
