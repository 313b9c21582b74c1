-- ===== src/Counts/AttachmentOps.antt =====
-- num_attachments through initiate, confirm and delete.
use pl8_base.Base.{true, Option, none, some}
use pl8_base.Base.Int.{ℤ}
use pl8_base.Base.Text.{Text}
use pl8_base.Errors.{python_error}
use pl8_base.Dynamo.{Client}
use pl8_base.Dynamo.Documented.{IsDynamo}
use pl8_base.Types.{Gzip}
use pl8_base.Storage.{Storage}
use pl8_base.Manager.Parse.{
  BaseObject, space_info, issue_info, issue_comment, issue_attachment, issue_blocker,
}
use pl8_base.Manager.Keeps.{Keeps, Keeps-bind, Keeps-raise}
use pl8_base.Manager.Reads.{Keeps-get_primary_item}
use pl8_base.Manager.Validated.{Keeps-validated}
use pl8_base.Attachment.{
  initiate_issue_attachment_upload, confirm_issue_attachment_uploaded, delete_item_with_counters,
  delete_attachment_with_counters, delete_issue_attachment,
}
use pl8_base.Attachment.Made.{new_attachment-key, new_attachment-pending}
use pl8_base.Attachment.StorageSteps.{Quiet}
use pl8_base.Attachment.Steps.{
  Keeps-initiate_issue_attachment_upload, Keeps-confirm_issue_attachment_uploaded,
}
use pl8_base.Counts.Schemes.{AttachmentsCounted}
use pl8_base.Counts.AttachmentCount.{confirm-AttachmentsCounted, upload-AttachmentsCounted}
use pl8_base.Counts.Ladder.{Keeps-full_ladder}

module _ (c : Client) (z : Gzip) (storage : Option (Storage c.State)) where
  -- If every Issue that is there has in num_attachments the number of the UPLOADED attachment rows
  -- in its partition, then that is so after initiate_issue_attachment_upload, whatever it returns or
  -- raises, where the storage writes nothing to the table.
  pub initiate-keeps_AttachmentsCounted :
      (sp id name content_type : Text) (size : ℤ) (creator : Text) (link : Option Text)
      (s : c.State)
      → IsDynamo c
      → Quiet c storage
      → AttachmentsCounted (c.table s)
      → AttachmentsCounted (
          c.table
            (initiate_issue_attachment_upload c z storage sp id name content_type size creator link
              s).1)
  initiate-keeps_AttachmentsCounted sp id name content_type size creator link s d quiet =
      (Keeps-initiate_issue_attachment_upload c z d storage quiet sp id name content_type size
          creator link
          (λ uuid seconds x n made.
            upload-AttachmentsCounted sp id uuid x
              (new_attachment-key _ uuid seconds sp id name content_type size creator link x made)
              (new_attachment-pending _ uuid seconds sp id name content_type size creator link x
                made)
              link)).at
        s

  -- If every Issue that is there has in num_attachments the number of the UPLOADED attachment rows
  -- in its partition, then that is so after confirm_issue_attachment_uploaded, whatever it returns
  -- or raises, where the storage writes nothing to the table.
  pub confirm-keeps_AttachmentsCounted :
      (sp id aid : Text) (s : c.State)
      → IsDynamo c
      → Quiet c storage
      → AttachmentsCounted (c.table s)
      → AttachmentsCounted (c.table (confirm_issue_attachment_uploaded c z storage sp id aid s).1)
  confirm-keeps_AttachmentsCounted sp id aid s d quiet =
      (Keeps-confirm_issue_attachment_uploaded c z d storage quiet sp id aid
          (λ updated_at now link size content_type n.
            confirm-AttachmentsCounted updated_at now sp id aid size content_type link)).at
        s

module _ (c : Client) (z : Gzip) where
  Keeps-deleted_item :
      (o : Option BaseObject)
      → IsDynamo c
      → Keeps c AttachmentsCounted (delete_item_with_counters c z o)
  unfolding delete_attachment_with_counters
  Keeps-deleted_item (some (issue_attachment x)) d = Keeps-full_ladder c z d 4 x true
  Keeps-deleted_item (some (issue_info x)) d = Keeps-raise c python_error
  Keeps-deleted_item (some (space_info x)) d = Keeps-raise c python_error
  Keeps-deleted_item (some (issue_comment x)) d = Keeps-raise c python_error
  Keeps-deleted_item (some (issue_blocker x)) d = Keeps-raise c python_error
  Keeps-deleted_item none d = Keeps-raise c python_error

  -- If every Issue that is there has in num_attachments the number of the UPLOADED attachment rows
  -- in its partition, then that is so after delete_issue_attachment, whatever it returns or raises:
  -- also where its ladder leaves a counter out.
  pub delete_issue_attachment-keeps_AttachmentsCounted :
      (sp id aid : Text) (s : c.State)
      → IsDynamo c
      → AttachmentsCounted (c.table s)
      → AttachmentsCounted (c.table (delete_issue_attachment c z sp id aid s).1)
  unfolding delete_issue_attachment
  delete_issue_attachment-keeps_AttachmentsCounted sp id aid s d =
      (Keeps-validated c sp _
          λ h. Keeps-bind c _ _ (Keeps-get_primary_item c z d _) λ o. Keeps-deleted_item o d).at
        s
