-- ===== src/Counts/Schemes.antt =====
-- The counters of types/issue.py and types/space.py.
use pl8_base.Base.{◌≡◌, true, false, ◌&&◌, is_some}
use pl8_base.Base.Text.{Text, text_eq, starts_with, contains}
use pl8_base.Dynamo.{Attr, flag, Table, attr_is}
use pl8_base.Types.{
  space_info_key, issue_info_key, issue_pk, comment_sk_prefix, attachment_sk_prefix, blocker_sk,
  uploaded,
}
use pl8_base.Attachment.{attachment_status_val}
use pl8_base.Counts.Keys.{is_issue_of}
use pl8_base.Counts.Scheme.{Scheme, Counted}

-- SpaceInfo.issue_count: the info rows of Issues in the Space. A Space that is not there has none.
abbrev pub issue_count_scheme : Scheme
issue_count_scheme = record {
  Owner = Text;
  IsOwner = λ s. contains b'#' s ≡ false;
  key = space_info_key;
  attr = Attr.issue_count;
  counts = λ s key item. is_issue_of s key;
  matters = λ o. true;
}

-- A Space id without "#", and any issue id.
abbrev pub IssueRef : Type 0
IssueRef = Text × Text

-- IssueInfo.num_active_blockers: the IssueBlockers that name the Issue as blocked, with
-- is_blocking_issue_done=False.
abbrev pub active_blockers_scheme : Scheme
active_blockers_scheme = record {
  Owner = IssueRef;
  IsOwner = λ i. contains b'#' i.0 ≡ false;
  key = λ i. issue_info_key i.0 i.1;
  attr = Attr.num_active_blockers;
  counts = λ i key item.
      text_eq key.sk (blocker_sk i.0 i.1)
      && attr_is (item Attr.is_blocking_issue_done) (flag false);
  matters = is_some;
}

-- IssueInfo.num_comments: the comment rows in the Issue's partition.
abbrev pub comments_scheme : Scheme
comments_scheme = record {
  Owner = IssueRef;
  IsOwner = λ i. contains b'#' i.0 ≡ false;
  key = λ i. issue_info_key i.0 i.1;
  attr = Attr.num_comments;
  counts = λ i key item. text_eq key.pk (issue_pk i.0 i.1) && starts_with key.sk comment_sk_prefix;
  matters = is_some;
}

-- IssueInfo.num_attachments: the UPLOADED attachment rows in the Issue's partition.
abbrev pub attachments_scheme : Scheme
attachments_scheme = record {
  Owner = IssueRef;
  IsOwner = λ i. contains b'#' i.0 ≡ false;
  key = λ i. issue_info_key i.0 i.1;
  attr = Attr.num_attachments;
  counts = λ i key item.
      text_eq key.pk (issue_pk i.0 i.1)
      && (starts_with key.sk attachment_sk_prefix
          && attr_is (item Attr.status) (attachment_status_val uploaded));
  matters = is_some;
}

abbrev pub AttachmentsCounted : Table → Type 0
AttachmentsCounted = Counted attachments_scheme

abbrev pub IssuesCounted : Table → Type 0
IssuesCounted = Counted issue_count_scheme

abbrev pub BlockersCounted : Table → Type 0
BlockersCounted = Counted active_blockers_scheme

abbrev pub CommentsCounted : Table → Type 0
CommentsCounted = Counted comments_scheme
