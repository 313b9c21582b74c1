-- ===== src/Session/KeepsDone.antt =====
-- Writes that leave a DONE row DONE, or delete it.
use pl8_base.Base.{
  ◌≡◌, ap, ◌∙◌, Bool, true, false, Bool-cases, inl, inr, Option, none, some, List, [], ◌∷◌, all,
  arith,
}
use pl8_base.Base.Text.{Text}
use pl8_base.Dynamo.{
  Attr, Item, Table, Key, key_eq, key_eq_iff, Write, lookup, holds, is_accepted, attr_is, new_row,
  row_not_exists,
}
use pl8_base.Dynamo.Transaction.{row_after}
use pl8_base.Types.{done}
use pl8_base.Manager.Update.{UpdateArgs, update_request, update_clauses}
use pl8_base.Counts.Neutral.{touches, run_clauses-untouched}
use pl8_base.Issue.{status_val}

-- The row is there, and its status is DONE.
abbrev pub is_done_row : Option Item → Bool
is_done_row none = false
is_done_row (some item) = attr_is (item Attr.status) (status_val done)

abbrev pub is_done_or_gone : Option Item → Bool
is_done_or_gone none = true
is_done_or_gone (some item) = attr_is (item Attr.status) (status_val done)

-- What a write makes of a DONE row that meets its conditions.
abbrev pub KeepsDone : Write → Type 0
KeepsDone w =
    (o : Option Item)
    → all (holds o) w.conditions ≡ true
    → is_done_row o ≡ true
    → is_done_or_gone (new_row w.action o) ≡ true

abbrev pub AllKeepDone : List Write → Type 0
AllKeepDone [] = Unit
AllKeepDone (w ∷ ws) = KeepsDone w × AllKeepDone ws

pub still_done : (o : Option Item) → is_done_row o ≡ true → is_done_or_gone o ≡ true
still_done none h = ground arith
still_done (some item) h = h

-- A row that is DONE is there, so no new row is put over it.
pub put_refused :
    {A : Type 0} (o : Option Item)
    → all (holds o) (row_not_exists ∷ []) ≡ true
    → is_done_row o ≡ true
    → A
put_refused none met was = ground arith
put_refused (some item) met was = ground arith

pub row_after-done :
    (ws : List Write) (t : Table) (j : Key)
    → AllKeepDone ws
    → all (is_accepted t) ws ≡ true
    → is_done_row (lookup j t) ≡ true
    → is_done_or_gone (row_after ws t j) ≡ true
row_after-done [] t j keep ok was = still_done (lookup j t) was
row_after-done (w ∷ ws) t j keep ok was = elim (Bool-cases (key_eq w.key j)) [
  | inl e ↦
      let same : lookup w.key t ≡ lookup j t = ap (λ k. lookup k t) ((key_eq_iff w.key j).0 e) in
      rw e (keep.0 (lookup w.key t) (ground arith) (ap is_done_row same ∙ was))
  | inr e ↦ rw e (row_after-done ws t j keep.1 (ground arith) was)
]

pub untouched_update :
    (now : Text) (args : UpdateArgs)
    → touches Attr.status (update_clauses now args) ≡ false
    → KeepsDone (update_request now args)
unfolding update_request
untouched_update now args h none met was = ground arith
untouched_update now args h (some item) met was =
    ap (λ v. attr_is v (status_val done))
      (run_clauses-untouched Attr.status (update_clauses now args) item h)
    ∙ was
