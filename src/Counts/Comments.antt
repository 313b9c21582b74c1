-- ===== src/Counts/Comments.antt =====
-- num_comments under the requests of mixins/comment.py, and through its operations.
use pl8_base.Base.{◌≡◌, refl, arith, Option}
use pl8_base.Base.Int.{ℤ, pos-incr, pos-decr}
use pl8_base.Base.Text.{Text, text_eq_iff}
use pl8_base.Dynamo.{Client}
use pl8_base.Dynamo.Documented.{IsDynamo}
use pl8_base.Types.{Gzip, IssueComment, comment_key, issue_pk}
use pl8_base.Types.Serialize.{serialized_pk}
use pl8_base.Manager.Keeps.{WritesKeep}
use pl8_base.Issue.{issue_num_comments_update}
use pl8_base.Comment.{
  put_comment, delete_comment, create_comment_items, delete_comment_items, create_issue_comment,
  update_issue_comment, delete_issue_comment,
}
use pl8_base.Comment.Steps.{
  Keeps-create_issue_comment, Keeps-update_issue_comment, Keeps-delete_issue_comment,
}
use pl8_base.Comment.Made.{new_comment-key}
use pl8_base.Counts.Neutral.{neutral-Counted}
use pl8_base.Counts.Scheme.{Counted-writes}
use pl8_base.Counts.Schemes.{comments_scheme, CommentsCounted}

module _ (sp id comment_id : Text) where
  create-CommentsCounted :
      (z : Gzip) (x : IssueComment)
      → serialized_pk x.pk x.sk ≡ comment_key sp id comment_id
      → WritesKeep CommentsCounted (create_comment_items z sp id x)
  unfolding issue_num_comments_update put_comment
  create-CommentsCounted z x made =
      Counted-writes comments_scheme (create_comment_items z sp id x)
        λ t i n m hs accepted moved right there.
          ground (arith, text_eq_iff (issue_pk sp id) (issue_pk i.0 i.1), pos-incr n)

  delete-CommentsCounted : WritesKeep CommentsCounted (delete_comment_items sp id comment_id)
  unfolding issue_num_comments_update delete_comment
  delete-CommentsCounted =
      Counted-writes comments_scheme (delete_comment_items sp id comment_id)
        λ t i n m hs accepted moved right there.
          ground (arith, text_eq_iff (issue_pk sp id) (issue_pk i.0 i.1), pos-decr m)

module _ (c : Client) (z : Gzip) where
  -- If every Issue that is there has in num_comments the number of comment rows in its partition,
  -- then that is so after create_issue_comment, whatever it returns or raises.
  pub create_issue_comment-keeps_CommentsCounted :
      (sp id body creator : Text) (s : c.State)
      → IsDynamo c
      → CommentsCounted (c.table s)
      → CommentsCounted (c.table (create_issue_comment c z sp id body creator s).1)
  create_issue_comment-keeps_CommentsCounted sp id body creator s d =
      (Keeps-create_issue_comment c z d sp id body creator (λ new_id x n made.
          create-CommentsCounted sp id new_id z x
            (new_comment-key _ new_id sp id body creator x made))).at
        s

  -- The same after update_issue_comment.
  pub update_issue_comment-keeps_CommentsCounted :
      (sp id comment_id body : Text) (version : Option ℤ) (s : c.State)
      → IsDynamo c
      → CommentsCounted (c.table s)
      → CommentsCounted (c.table (update_issue_comment c z sp id comment_id body version s).1)
  update_issue_comment-keeps_CommentsCounted sp id comment_id body version s d =
      (Keeps-update_issue_comment c z d sp id comment_id body version (λ now n.
          neutral-Counted comments_scheme now _ (record {
            untouched = refl;
            same_count = λ i item. refl;
            same_matter = λ a b. refl;
          }))).at
        s

  -- If every Issue that is there has in num_comments the number of comment rows in its partition,
  -- then that is so after delete_issue_comment, whatever it returns or raises.
  pub delete_issue_comment-keeps_CommentsCounted :
      (sp id comment_id : Text) (s : c.State)
      → IsDynamo c
      → CommentsCounted (c.table s)
      → CommentsCounted (c.table (delete_issue_comment c z sp id comment_id s).1)
  delete_issue_comment-keeps_CommentsCounted sp id comment_id s d =
      (Keeps-delete_issue_comment c z d sp id comment_id
          (λ n. delete-CommentsCounted sp id comment_id)).at
        s
