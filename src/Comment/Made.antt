-- ===== src/Comment/Made.antt =====
-- The comments that create_issue_comment makes.
use pl8_base.Base.{◌≡◌, Option, arith}
use pl8_base.Base.Text.{Text}
use pl8_base.Errors.{ok}
use pl8_base.Types.{IssueComment, init_comment, comment_key}
use pl8_base.Types.Serialize.{serialized_pk}
use pl8_base.Comment.{new_comment}

-- The key of the comment that create_issue_comment makes.
pub new_comment-key :
    (time : Text → Option Text) (id sp issue body creator : Text) (x : IssueComment)
    → new_comment time id sp issue body creator ≡ ok x
    → serialized_pk x.pk x.sk ≡ comment_key sp issue id
unfolding new_comment init_comment
new_comment-key time id sp issue body creator x made = ground arith
