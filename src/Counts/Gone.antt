-- ===== src/Counts/Gone.antt =====
-- num_attachments once the Issue's row is found gone: the deletes that leave its counter out.
use pl8_base.Base.{
  ◌≡◌, ◌∙◌, Bool, true, false, Bool-cases, inl, inr, Option, none, some, List, ◌∷◌, ◌++◌, is_some,
  arith,
}
use pl8_base.Base.Int.{negsuc}
use pl8_base.Base.Text.{Text, text_eq, text_eq_iff, contains}
use pl8_base.Dynamo.{Key, Write, Table, lookup}
use pl8_base.Dynamo.Transaction.{row_after, is_some-apply_writes}
use pl8_base.Types.{IssueAttachment, issue_pk, issue_info_key}
use pl8_base.Manager.Keeps.{WritesKeep}
use pl8_base.Attachment.{
  comment_num_attachments_update, entries, issue_counters, comment_counters,
  attachment_counter_updates, uploaded_attachment_delete, uncount_items,
}
use pl8_base.Counts.Scheme.{Scheme, Counted, Counted-writes}
use pl8_base.Counts.Schemes.{attachments_scheme, AttachmentsCounted}

module _ (x : IssueAttachment) where
  abbrev its_issue : Key
  its_issue = issue_info_key x.space_id x.issue_id

  -- The Issue's row is not there.
  abbrev pub Gone : Table → Type 0
  Gone t = is_some (lookup its_issue t) ≡ false

  -- The counts of the other Issues.
  abbrev others_scheme : Scheme
  others_scheme = record attachments_scheme {
    IsOwner = λ i.
        (contains b'#' i.0 ≡ false)
        × (text_eq (issue_pk x.space_id x.issue_id) (issue_pk i.0 i.1) ≡ false);
  }

  to_others : (t : Table) → AttachmentsCounted t → Counted others_scheme t
  to_others t h = record { unique = h.unique; counted = λ i own matter. h.counted i own.0 matter }

  from_others : (t : Table) → Gone t → Counted others_scheme t → AttachmentsCounted t
  from_others t gone h = record {
    unique = h.unique;
    counted = λ i own matter.
        elim (Bool-cases (text_eq (issue_pk x.space_id x.issue_id) (issue_pk i.0 i.1))) [
          | inl same ↦
              ground (arith, text_eq_iff (issue_pk x.space_id x.issue_id) (issue_pk i.0 i.1))
          | inr other ↦ h.counted i (own, other) matter
        ];
  }

  abbrev bare_uncounting : Option Text → Bool → List Write
  bare_uncounting link with_comment =
      uploaded_attachment_delete x
      ∷ entries (
          issue_counters false x.space_id x.issue_id (negsuc 0)
          ++ comment_counters with_comment x.space_id x.issue_id link (negsuc 0))

  bare-others :
      (link : Option Text) (wc : Bool)
      → WritesKeep (Counted others_scheme) (bare_uncounting link wc)
  unfolding uploaded_attachment_delete comment_num_attachments_update
  bare-others link false =
      Counted-writes others_scheme (bare_uncounting link false)
        λ t i n m hs accepted moved right there. ground arith
  bare-others none true =
      Counted-writes others_scheme (bare_uncounting none true)
        λ t i n m hs accepted moved right there. ground arith
  bare-others (some comment_id) true =
      Counted-writes others_scheme (bare_uncounting (some comment_id) true)
        λ t i n m hs accepted moved right there. ground arith

  bare-Gone :
      (link : Option Text) (wc : Bool) (t : Table)
      → is_some (row_after (bare_uncounting link wc) t its_issue) ≡ is_some (lookup its_issue t)
  unfolding uploaded_attachment_delete comment_num_attachments_update
  bare-Gone link false t = ground arith
  bare-Gone none true t = ground arith
  bare-Gone (some comment_id) true t = ground arith

  -- The count is right, and the Issue is gone.
  abbrev pub CountedAndGone : Table → Type 0
  CountedAndGone t = AttachmentsCounted t × Gone t

  pub uncount-CountedAndGone :
      (wc : Bool)
      → WritesKeep CountedAndGone
          (uncount_items x (attachment_counter_updates x (negsuc 0) false wc))
  unfolding attachment_counter_updates
  uncount-CountedAndGone wc t apart accepted h =
      let others = bare-others x.comment_id wc t apart accepted (to_others t h.0) in
      let gone : Gone _ =
        is_some-apply_writes (bare_uncounting x.comment_id wc) t its_issue h.0.unique apart
        ∙ (bare-Gone x.comment_id wc t ∙ h.1) in
      (from_others _ gone others, gone)
