-- ===== src/Counts/AttachmentCount.antt =====
-- num_attachments under the requests of the attachment operations.
use pl8_base.Base.{◌≡◌, refl, Bool, true, false, Option, none, some, List, [], ◌∷◌, ◌++◌, arith}
use pl8_base.Base.Int.{ℤ, negsuc, pos-incr, pos-decr}
use pl8_base.Base.Text.{Text, text_eq_iff}
use pl8_base.Dynamo.{Attr, Val, text, Item, attr_is, Key, Write, lookup, weight, holds, equals}
use pl8_base.Types.{IssueAttachment, pending, uploaded, attachment_key, issue_pk}
use pl8_base.Types.Serialize.{serialize_attachment, serialized_pk}
use pl8_base.Manager.Keeps.{WritesKeep}
use pl8_base.Manager.Update.{update_request}
use pl8_base.Issue.{issue_num_attachments_update}
use pl8_base.Attachment.{
  attachment_status_val, check_exists, put_attachment, upload_items, confirm_args, confirm_items,
  comment_num_attachments_update, own_key, entries, issue_counters, comment_counters,
  uploaded_attachment_delete, pending_attachment_delete,
}
use pl8_base.Counts.Scheme.{Counted-writes}
use pl8_base.Counts.Schemes.{IssueRef, attachments_scheme, AttachmentsCounted}

pending-not_uploaded :
    (v : Option Val)
    → attr_is v (attachment_status_val pending) ≡ true
    → attr_is v (attachment_status_val uploaded) ≡ false
pending-not_uploaded none h = refl
pending-not_uploaded (some (text [])) h = ground arith
pending-not_uploaded (some (text (c ∷ s))) h = ground arith
pending-not_uploaded (some _) h = refl

-- A PENDING row is not counted.
pending-weight :
    (i : IssueRef) (key : Key) (o : Option Item)
    → holds o (equals Attr.status (attachment_status_val pending)) ≡ true
    → weight (attachments_scheme.counts i) key o ≡ 0
pending-weight i key none h = refl
pending-weight i key (some item) h = ground (arith, pending-not_uploaded (item Attr.status))

-- Confirming a PENDING row counts it.
module _ (updated_at now sp id attachment_id : Text) (size : ℤ) (content_type : Text) where
  abbrev confirming : Option Text → List Write
  confirming link =
      confirm_items sp id link
        (update_request now (confirm_args updated_at sp id attachment_id size content_type))

  pub confirm-AttachmentsCounted :
      (link : Option Text) → WritesKeep AttachmentsCounted (confirming link)
  unfolding update_request confirm_args issue_num_attachments_update comment_num_attachments_update
  confirm-AttachmentsCounted none =
      Counted-writes attachments_scheme (confirming none) λ t i n m hs accepted moved right there.
        ground (
          arith,
          text_eq_iff (issue_pk sp id) (issue_pk i.0 i.1),
          pending-weight i (attachment_key sp id attachment_id)
              (lookup (attachment_key sp id attachment_id) t),
          pos-incr n,
        )
  confirm-AttachmentsCounted (some comment_id) =
      Counted-writes attachments_scheme (confirming (some comment_id))
        λ t i n m hs accepted moved right there. ground (
          arith,
          text_eq_iff (issue_pk sp id) (issue_pk i.0 i.1),
          pending-weight i (attachment_key sp id attachment_id)
              (lookup (attachment_key sp id attachment_id) t),
          pos-incr n,
        )

-- Putting a PENDING row counts nothing.
module _ (sp id attachment_id : Text) (x : IssueAttachment)
    (made : serialized_pk x.pk x.sk ≡ attachment_key sp id attachment_id)
    (still_pending : x.status ≡ pending) where
  put_weight :
      (i : IssueRef) (key : Key)
      → weight (attachments_scheme.counts i) key (some (serialize_attachment x)) ≡ 0
  unfolding serialize_attachment
  put_weight i key = ground arith

  pub upload-AttachmentsCounted :
      (link : Option Text) → WritesKeep AttachmentsCounted (upload_items sp id link x)
  unfolding check_exists put_attachment
  upload-AttachmentsCounted none =
      Counted-writes attachments_scheme (upload_items sp id none x)
        λ t i n m hs accepted moved right there. ground (
          arith,
          text_eq_iff (issue_pk sp id) (issue_pk i.0 i.1),
          put_weight i (serialized_pk x.pk x.sk),
        )
  upload-AttachmentsCounted (some comment_id) =
      Counted-writes attachments_scheme (upload_items sp id (some comment_id) x)
        λ t i n m hs accepted moved right there. ground (
          arith,
          text_eq_iff (issue_pk sp id) (issue_pk i.0 i.1),
          put_weight i (serialized_pk x.pk x.sk),
        )

-- Deleting an UPLOADED row with the Issue's counter, and a PENDING one without.
module _ (x : IssueAttachment) where
  pub drop-AttachmentsCounted : WritesKeep AttachmentsCounted (pending_attachment_delete x ∷ [])
  unfolding pending_attachment_delete
  drop-AttachmentsCounted =
      Counted-writes attachments_scheme (pending_attachment_delete x ∷ [])
        λ t i n m hs accepted moved right there.
          ground (arith, pending-weight i (own_key x) (lookup (own_key x) t))

  abbrev pub uncounting : Option Text → Bool → List Write
  uncounting link with_comment =
      uploaded_attachment_delete x
      ∷ entries (
          issue_counters true x.space_id x.issue_id (negsuc 0)
          ++ comment_counters with_comment x.space_id x.issue_id link (negsuc 0))

  pub uncounting-AttachmentsCounted :
      (link : Option Text) (with_comment : Bool)
      → WritesKeep AttachmentsCounted (uncounting link with_comment)
  unfolding uploaded_attachment_delete issue_num_attachments_update comment_num_attachments_update
  uncounting-AttachmentsCounted link false =
      Counted-writes attachments_scheme (uncounting link false)
        λ t i n m hs accepted moved right there.
          ground
            (arith, text_eq_iff (issue_pk x.space_id x.issue_id) (issue_pk i.0 i.1), pos-decr m)
  uncounting-AttachmentsCounted none true =
      Counted-writes attachments_scheme (uncounting none true)
        λ t i n m hs accepted moved right there.
          ground
            (arith, text_eq_iff (issue_pk x.space_id x.issue_id) (issue_pk i.0 i.1), pos-decr m)
  uncounting-AttachmentsCounted (some comment_id) true =
      Counted-writes attachments_scheme (uncounting (some comment_id) true)
        λ t i n m hs accepted moved right there.
          ground
            (arith, text_eq_iff (issue_pk x.space_id x.issue_id) (issue_pk i.0 i.1), pos-decr m)
