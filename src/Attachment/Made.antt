-- ===== src/Attachment/Made.antt =====
-- What initiate_issue_attachment_upload makes: a PENDING attachment with the key of its ids.
use pl8_base.Base.{ℕ, ◌≡◌, Option, arith}
use pl8_base.Base.Int.{ℤ}
use pl8_base.Base.Text.{Text}
use pl8_base.Errors.{ok}
use pl8_base.Types.{IssueAttachment, pending, attachment_key, init_attachment}
use pl8_base.Types.Serialize.{serialized_pk}
use pl8_base.Attachment.{new_attachment}

-- The key of the attachment that initiate_issue_attachment_upload makes.
pub new_attachment-key :
    (time : Text → Option Text) (uuid : Text) (seconds : ℕ) (sp id name content_type : Text)
    (size : ℤ) (creator : Text) (link : Option Text) (x : IssueAttachment)
    → new_attachment time uuid seconds sp id name content_type size creator link ≡ ok x
    → serialized_pk x.pk x.sk ≡ attachment_key sp id uuid
unfolding new_attachment init_attachment
new_attachment-key time uuid seconds sp id name content_type size creator link x made = ground arith

pub new_attachment-pending :
    (time : Text → Option Text) (uuid : Text) (seconds : ℕ) (sp id name content_type : Text)
    (size : ℤ) (creator : Text) (link : Option Text) (x : IssueAttachment)
    → new_attachment time uuid seconds sp id name content_type size creator link ≡ ok x
    → x.status ≡ pending
unfolding new_attachment init_attachment
new_attachment-pending time uuid seconds sp id name content_type size creator link x made =
    ground arith
