-- ===== src/Causes/Counted.antt =====
-- The exceptions of the operations that move a counter beside a row: delete_issue,
-- create_issue_comment and delete_issue_comment.
use pl8_base.Base.{◌≡◌, refl, ◌⊎◌, inl, inr, true, none, is_some, arith}
use pl8_base.Base.Int.{pos, negsuc}
use pl8_base.Base.Text.{Text}
use pl8_base.Errors.{Error, missing, already_exists, internal, bad_args, err, lift}
use pl8_base.Dynamo.{Table, Client, ClientError, Key, lookup, client_error}
use pl8_base.Dynamo.Documented.{IsDynamo}
use pl8_base.Types.{Gzip, IssueComment, issue_info_key, space_info_key, comment_key}
use pl8_base.Types.Serialize.{serialized_pk}
use pl8_base.Space.{space_issue_count_update}
use pl8_base.Manager.Parse.{time_of}
use pl8_base.Issue.{
  delete_issue_items, delete_issue_info, on_delete_issue, delete_issue, issue_num_comments_update,
}
use pl8_base.Issue.Steps.{Keeps-on_delete_issue}
use pl8_base.Comment.{
  new_comment, put_comment, create_comment_items, delete_comment, delete_comment_items,
  on_create_comment, on_delete_comment, create_issue_comment, delete_issue_comment,
}
use pl8_base.Comment.Steps.{Keeps-on_create_comment, Keeps-on_delete_comment}
use pl8_base.Causes.Rules.{
  Raises, IsLenient, fixed-IsLenient, Raises-pure, Raises-bind-known, Raises-raise, Raises-bind,
  Raises-retried, Raises-validate_space_id, Raises-validate_creator, Raises-uuid7, Raises-lift,
  Raises-raise_for_transaction_conflict,
}
use pl8_base.Comment.Made.{new_comment-key}
use mathlib.Core.Path.{subst}
use pl8_base.Causes.Entries.{Said, Raises-transact, Raises-entry}

-- DDBMissingError says that one of two rows is not there; the other exceptions say nothing.
abbrev pub MissingCause : Key → Key → Error → Table → Type 0
MissingCause k1 k2 missing t = (lookup k1 t ≡ none) ⊎ (lookup k2 t ≡ none)
MissingCause k1 k2 _ t = Unit

MissingCause-IsLenient : (k1 k2 : Key) → IsLenient (MissingCause k1 k2)
MissingCause-IsLenient k1 k2 = record {
  at_bad_args = λ t. tt;
  at_internal = λ t. tt;
  at_corrupted = λ t. tt;
  at_python_error = λ t. tt;
  at_conflict = λ t. tt;
}

module _ (c : Client) (z : Gzip) (d : IsDynamo c) (sp id : Text) where
  Raises-on_delete_issue :
      (exc : ClientError) (t : Table)
      → Said exc (delete_issue_items sp id) t
      → Raises c
          (λ e u. MissingCause (issue_info_key sp id) (space_info_key sp) e t)
          (on_delete_issue c z (client_error exc))
  unfolding delete_issue_info space_issue_count_update
  Raises-on_delete_issue exc t said =
      let l =
        fixed-IsLenient t (MissingCause-IsLenient (issue_info_key sp id) (space_info_key sp)) in
      Raises-bind c _ _ (Raises-raise_for_transaction_conflict c z l exc) λ _.
        Raises-entry c z l exc 0 (λ old. missing) _
          (λ old failed same u. inl (ground (arith, said 0 (delete_issue_info sp id) refl failed)))
          (Raises-entry c z l exc 1 (λ old. missing) _
            (λ old failed same u.
              inr (ground (arith, said 1 (space_issue_count_update sp (negsuc 0)) refl failed)))
            (Raises-raise c internal (λ u. tt)))

  -- Where delete_issue raises DDBMissingError, the table that it leaves has no row of the Issue or
  -- none of the Space.
  pub delete_issue-MissingCause :
      (s : c.State) (e : Error)
      → (delete_issue c z sp id s).0 ≡ err e
      → MissingCause
          (issue_info_key sp id)
          (space_info_key sp)
          e
          (c.table (delete_issue c z sp id s).1)
  unfolding delete_issue
  delete_issue-MissingCause s e =
      let l = MissingCause-IsLenient (issue_info_key sp id) (space_info_key sp) in
      (Raises-retried c _ (
          Raises-bind c _ _ (Raises-validate_space_id c z l sp) λ _.
            Raises-transact c d _ _ (λ _. Raises-pure c _) (Raises-raise c internal (λ t. tt))
              Raises-on_delete_issue (λ P r. Keeps-on_delete_issue c z d r))).because
        s e

  module _ (comment_id : Text) where
    Raises-on_delete_comment :
        (exc : ClientError) (t : Table)
        → Said exc (delete_comment_items sp id comment_id) t
        → Raises c
            (λ e u. MissingCause (comment_key sp id comment_id) (issue_info_key sp id) e t)
            (on_delete_comment c z (client_error exc))
    unfolding delete_comment issue_num_comments_update
    Raises-on_delete_comment exc t said =
        let l =
          fixed-IsLenient t
            (MissingCause-IsLenient (comment_key sp id comment_id) (issue_info_key sp id)) in
        Raises-bind c _ _ (Raises-raise_for_transaction_conflict c z l exc) λ _.
          Raises-entry c z l exc 0 (λ old. missing) _
            (λ old failed same u.
              inl (ground (arith, said 0 (delete_comment sp id comment_id) refl failed)))
            (Raises-entry c z l exc 1 (λ old. missing) _
              (λ old failed same u.
                inr
                  (ground (arith, said 1 (issue_num_comments_update sp id (negsuc 0)) refl failed)))
              (Raises-raise c internal (λ u. tt)))

    -- Where delete_issue_comment raises DDBMissingError, the table that it leaves has no row of the
    -- comment or none of the Issue.
    pub delete_issue_comment-MissingCause :
        (s : c.State) (e : Error)
        → (delete_issue_comment c z sp id comment_id s).0 ≡ err e
        → MissingCause
            (comment_key sp id comment_id)
            (issue_info_key sp id)
            e
            (c.table (delete_issue_comment c z sp id comment_id s).1)
    unfolding delete_issue_comment
    delete_issue_comment-MissingCause s e =
        let l = MissingCause-IsLenient (comment_key sp id comment_id) (issue_info_key sp id) in
        (Raises-retried c _ (
            Raises-bind c _ _ (Raises-validate_space_id c z l sp) λ _.
              Raises-transact c d _ _ (λ _. Raises-pure c _) (Raises-raise c internal (λ t. tt))
                Raises-on_delete_comment (λ P r. Keeps-on_delete_comment c z d sp id r))).because
          s e

  -- What create_issue_comment says: that there is no row of the Issue, or that there is one of a
  -- comment already.
  abbrev pub CommentCause : Error → Table → Type 0
  CommentCause missing t = lookup (issue_info_key sp id) t ≡ none
  CommentCause already_exists t =
      (new_id : Text) × (is_some (lookup (comment_key sp id new_id) t) ≡ true)
  CommentCause _ t = Unit

  CommentCause-IsLenient : IsLenient CommentCause
  CommentCause-IsLenient = record {
    at_bad_args = λ t. tt;
    at_internal = λ t. tt;
    at_corrupted = λ t. tt;
    at_python_error = λ t. tt;
    at_conflict = λ t. tt;
  }

  Raises-on_create_comment :
      (new_id : Text) (x : IssueComment) (exc : ClientError) (t : Table)
      → serialized_pk x.pk x.sk ≡ comment_key sp id new_id
      → Said exc (create_comment_items z sp id x) t
      → Raises c (λ e u. CommentCause e t) (on_create_comment c z x (client_error exc))
  unfolding put_comment issue_num_comments_update
  Raises-on_create_comment new_id x exc t made said =
      let l = fixed-IsLenient t CommentCause-IsLenient in
      Raises-bind c _ _ (Raises-raise_for_transaction_conflict c z l exc) λ _.
        Raises-entry c z l exc 0 (λ old. missing) _
          (λ old failed same u.
            ground (arith, said 0 (issue_num_comments_update sp id (pos 1)) refl failed))
          (Raises-entry c z l exc 1 (λ old. already_exists) _
            (λ old failed same u. (
              new_id,
              subst (λ k. is_some (lookup k t) ≡ true) made
                  (ground (arith, said 1 (put_comment z x) refl failed)),
            ))
            (Raises-raise c internal (λ u. tt)))

  Raises-new_comment :
      (new_id body creator : Text)
      → Raises c CommentCause (lift (new_comment (time_of c z) new_id sp id body creator))
  unfolding new_comment
  Raises-new_comment new_id body creator = Raises-lift c z _ λ e h t.
      let same : bad_args ≡ e = ground arith in subst (λ (x : Error). CommentCause x t) same tt

  -- Where create_issue_comment raises DDBMissingError, the table that it leaves has no row of the
  -- Issue; where it raises DDBExistsError, it has the row of a comment of the Issue.
  pub create_issue_comment-CommentCause :
      (body creator : Text) (s : c.State) (e : Error)
      → (create_issue_comment c z sp id body creator s).0 ≡ err e
      → CommentCause e (c.table (create_issue_comment c z sp id body creator s).1)
  unfolding create_issue_comment new_comment lift
  create_issue_comment-CommentCause body creator s e =
      let l = CommentCause-IsLenient in
      (Raises-retried c _ (
          Raises-bind c _ _ (Raises-validate_space_id c z l sp) λ _.
            Raises-bind c _ _ (Raises-validate_creator c z l creator) λ _.
              Raises-bind c _ _ (Raises-uuid7 c z) λ new_id.
                Raises-bind-known c _ _ (Raises-new_comment new_id body creator) λ x s1 made.
                  Raises-transact c d _ _ (λ _. Raises-pure c _) (Raises-raise c internal (λ t. tt))
                    (λ exc t said.
                      Raises-on_create_comment new_id x exc t
                        (new_comment-key _ new_id sp id body creator x made) said)
                    (λ P r. Keeps-on_create_comment c z d x r))).because
        s e
