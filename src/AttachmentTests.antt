-- ===== src/AttachmentTests.antt =====
-- The attachment operations on a table in memory, and the theorems on them.
use pl8_base.Base.{◌≡◌, refl, false, none, some, [], ◌∷◌, arith}
use pl8_base.Base.Int.{pos}
use pl8_base.Base.Text.{codes}
use pl8_base.Errors.{ok, ◌>>=◌, pure}
use pl8_base.Dynamo.{Attr, num, text, Item, Table, lookup, count, conditions_hold}
use pl8_base.Dynamo.Memory.{memory, memory-IsDynamo}
use pl8_base.Types.{issue_info_key}
use pl8_base.Types.Serialize.{serialize_attachment}
use pl8_base.Issue.{apply_idempotent_transaction}
use pl8_base.Issue.Blame.{apply_idempotent_transaction-failed}
use pl8_base.Attachment.{
  own_key, pending_attachment_delete, initiate_issue_attachment_upload,
  confirm_issue_attachment_uploaded, delete_issue_attachment,
}
use pl8_base.Attachment.StorageSteps.{Quiet}
use pl8_base.Counts.Schemes.{AttachmentsCounted}
use pl8_base.Counts.AttachmentOps.{
  initiate-keeps_AttachmentsCounted, confirm-keeps_AttachmentsCounted,
  delete_issue_attachment-keeps_AttachmentsCounted,
}
use pl8_base.Samples.{plain, a_space, an_id, stale, current, a_storage}

abbrev issue_row : Item
issue_row a = elim a [
  | Attr.num_attachments ↦ some (num (pos 1))
  | Attr.version ↦ some (num (pos 1))
  | Attr.status ↦ some (text (codes "TODO"))
  | _ ↦ none
]

-- An Issue with an UPLOADED attachment.
abbrev one_uploaded : Table
one_uploaded =
    (issue_info_key a_space (codes "aaaaaa"), issue_row)
    ∷ (own_key current, serialize_attachment current)
    ∷ []

one_uploaded-AttachmentsCounted : AttachmentsCounted one_uploaded
unfolding lookup count serialize_attachment
one_uploaded-AttachmentsCounted = record {
  unique = (refl, (refl, tt));
  counted = λ i own matter. ground arith;
}

a_storage-Quiet : Quiet memory (some a_storage)
a_storage-Quiet = record {
  post_quiet = λ key content_type size expires s. refl;
  url_quiet = λ key disposition expires s. refl;
  head_quiet = λ key s. refl;
  delete_quiet = λ key s. refl;
}

initiate-keeps_AttachmentsCounted_example :
    AttachmentsCounted
      (initiate_issue_attachment_upload memory plain
        (some a_storage)
        a_space
        (codes "aaaaaa")
        (codes "log.txt")
        (codes "text/plain")
        (pos 5)
        (codes "ann")
        none
        one_uploaded).1
initiate-keeps_AttachmentsCounted_example =
    initiate-keeps_AttachmentsCounted memory plain (some a_storage) a_space (codes "aaaaaa")
      (codes "log.txt") (codes "text/plain") (pos 5) (codes "ann") none one_uploaded memory-IsDynamo
      a_storage-Quiet one_uploaded-AttachmentsCounted

confirm-keeps_AttachmentsCounted_example :
    AttachmentsCounted
      (confirm_issue_attachment_uploaded memory plain
        (some a_storage)
        a_space
        (codes "aaaaaa")
        an_id
        one_uploaded).1
confirm-keeps_AttachmentsCounted_example =
    confirm-keeps_AttachmentsCounted memory plain (some a_storage) a_space (codes "aaaaaa") an_id
      one_uploaded memory-IsDynamo a_storage-Quiet one_uploaded-AttachmentsCounted

delete_issue_attachment-keeps_AttachmentsCounted_example :
    AttachmentsCounted
      (delete_issue_attachment memory plain a_space (codes "aaaaaa") an_id one_uploaded).1
delete_issue_attachment-keeps_AttachmentsCounted_example =
    delete_issue_attachment-keeps_AttachmentsCounted memory plain a_space (codes "aaaaaa") an_id
      one_uploaded memory-IsDynamo one_uploaded-AttachmentsCounted

abbrev empty : Table
empty = []

apply_idempotent_transaction-failed_example :
    conditions_hold
      (memory.table
        (apply_idempotent_transaction memory plain (pending_attachment_delete stale ∷ []) empty).1)
      (pending_attachment_delete stale)
    ≡ false
unfolding ◌>>=◌ apply_idempotent_transaction pl8_base.Manager.Retry.retried
    pl8_base.Manager.Retry.retry_loop pl8_base.Manager.Retry.retry_on_transaction_conflict lookup
    pl8_base.Dynamo.transact_write_items pending_attachment_delete
    pl8_base.Manager.Failure.raise_for_transaction_conflict
    pl8_base.Manager.Failure.is_transaction_conflict pl8_base.Issue.first_failed
    pl8_base.Manager.Failure.failed_reason_item pl8_base.Manager.Failure.is_failed_entry
    pl8_base.Manager.Failure.cancellation_reasons pure pl8_base.Errors.raise
    pl8_base.Manager.Parse.parse_item
apply_idempotent_transaction-failed_example =
    apply_idempotent_transaction-failed memory plain memory-IsDynamo
      (pending_attachment_delete stale ∷ []) 0 (pending_attachment_delete stale) empty refl refl
