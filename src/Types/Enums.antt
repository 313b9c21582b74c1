-- ===== src/Types/Enums.antt =====
-- types/enums.py: the two StrEnum classes and their values.
use pl8_base.Base.{Bool, true, false, Option, none, some, if◌then◌else◌}
use pl8_base.Base.Text.{Text, codes, text_eq}

pub data IssueStatus : Type 0 where
  todo blocked in_progress done : IssueStatus

pub data AttachmentStatus : Type 0 where
  pending uploaded : AttachmentStatus

-- The value of a member.
abbrev pub issue_status_text : IssueStatus → Text
issue_status_text todo = codes "TODO"
issue_status_text blocked = codes "BLOCKED"
issue_status_text in_progress = codes "IN_PROGRESS"
issue_status_text done = codes "DONE"

abbrev pub attachment_status_text : AttachmentStatus → Text
attachment_status_text pending = codes "PENDING"
attachment_status_text uploaded = codes "UPLOADED"

-- `IssueStatus(value)`; `none` is the ValueError.
abbrev pub parse_issue_status : Text → Option IssueStatus
parse_issue_status s =
    if text_eq s (codes "TODO")
    then some todo
    else if text_eq s (codes "BLOCKED")
    then some blocked
    else if text_eq s (codes "IN_PROGRESS")
    then some in_progress
    else if text_eq s (codes "DONE")
    then some done
    else none

abbrev pub parse_attachment_status : Text → Option AttachmentStatus
parse_attachment_status s =
    if text_eq s (codes "PENDING")
    then some pending
    else if text_eq s (codes "UPLOADED")
    then some uploaded
    else none

abbrev pub status_eq : IssueStatus → IssueStatus → Bool
status_eq todo todo = true
status_eq blocked blocked = true
status_eq in_progress in_progress = true
status_eq done done = true
status_eq _ _ = false

abbrev pub is_uploaded : AttachmentStatus → Bool
is_uploaded uploaded = true
is_uploaded pending = false
