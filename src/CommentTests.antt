-- ===== src/CommentTests.antt =====
-- The comment counter over a table in memory with a commented Issue.
use pl8_base.Base.{refl, none, some, [], ◌∷◌, arith}
use pl8_base.Base.Int.{pos}
use pl8_base.Base.Text.{codes}
use pl8_base.Dynamo.{Attr, Item, num, text, Table, lookup, count}
use pl8_base.Dynamo.Memory.{memory, memory-IsDynamo}
use pl8_base.Types.{issue_info_key, comment_key}
use pl8_base.Comment.{create_issue_comment, update_issue_comment, delete_issue_comment}
use pl8_base.Counts.Schemes.{CommentsCounted}
use pl8_base.Counts.Comments.{
  create_issue_comment-keeps_CommentsCounted, update_issue_comment-keeps_CommentsCounted,
  delete_issue_comment-keeps_CommentsCounted,
}
use pl8_base.Samples.{plain, a_space, an_id}

abbrev commented : Item
commented a = elim a [
  | Attr.num_comments ↦ some (num (pos 1))
  | Attr.status ↦ some (text (codes "TODO"))
  | _ ↦ none
]

abbrev one_comment : Table
one_comment =
    (issue_info_key a_space (codes "aaaaaa"), commented)
    ∷ (comment_key a_space (codes "aaaaaa") an_id, λ a. none)
    ∷ []

one_comment-CommentsCounted : CommentsCounted one_comment
unfolding lookup count
one_comment-CommentsCounted = record {
  unique = (refl, (refl, tt));
  counted = λ i own matter. ground arith;
}

create_issue_comment_example :
    CommentsCounted
      (create_issue_comment memory plain a_space
        (codes "aaaaaa")
        (codes "hello")
        (codes "ann")
        one_comment).1
create_issue_comment_example =
    create_issue_comment-keeps_CommentsCounted memory plain a_space (codes "aaaaaa") (codes "hello")
      (codes "ann") one_comment memory-IsDynamo one_comment-CommentsCounted

update_issue_comment_example :
    CommentsCounted
      (update_issue_comment memory plain a_space
        (codes "aaaaaa")
        an_id
        (codes "edited")
        none
        one_comment).1
update_issue_comment_example =
    update_issue_comment-keeps_CommentsCounted memory plain a_space (codes "aaaaaa") an_id
      (codes "edited") none one_comment memory-IsDynamo one_comment-CommentsCounted

delete_issue_comment_example :
    CommentsCounted (delete_issue_comment memory plain a_space (codes "aaaaaa") an_id one_comment).1
delete_issue_comment_example =
    delete_issue_comment-keeps_CommentsCounted memory plain a_space (codes "aaaaaa") an_id
      one_comment memory-IsDynamo one_comment-CommentsCounted
