-- ===== src/Lifecycle/Requests.antt =====
-- What one write of a request does to the row of an Issue, as a step of the diagram.
use pl8_base.Base.{
  ◌≡◌, ap, ◌∙◌, true, false, Bool-cases, inl, inr, Option, none, some, List, [], ◌∷◌, all, arith,
  if◌then◌else◌,
}
use mathlib.Core.Path.{subst}
use pl8_base.Base.Int.{ℤ, pos, eqb_ℤ_iff}
use pl8_base.Base.Text.{Text}
use pl8_base.Dynamo.{
  Attr, Val, text, num, flag, bytes, null, number_or_zero, Item, Table, Key, key_eq, key_eq_iff,
  Write, lookup, holds, is_accepted, attr_is, new_row,
}
use pl8_base.Dynamo.Transaction.{row_after}
use pl8_base.Types.{IssueStatus, todo, blocked, in_progress, done}
use pl8_base.Manager.Update.{UpdateArgs, update_request, update_clauses}
use pl8_base.Counts.Neutral.{touches, run_clauses-untouched}
use pl8_base.Issue.{status_val, transition_args, unblock_args, block_args, release_args}
use pl8_base.Lifecycle.Diagram.{
  is_done, status_of, view, Act, stays, moves, blocks, releases, unblocks, Step, stay, move, block,
  release, unblock,
}

-- A write to the row at a key takes its view along a step of an act.
abbrev pub Follows : Key → Act → Write → Type 0
Follows k act w =
    (o : Option Item)
    → key_eq w.key k ≡ true
    → all (holds o) w.conditions ≡ true
    → Step act (view o) (view (new_row w.action o))

-- The writes, each with its act; those beyond the last act leave the view as it is.
abbrev pub AllFollow : Key → List Act → List Write → Type 0
AllFollow k acts [] = Unit
AllFollow k [] (w ∷ ws) = Follows k stays w × AllFollow k [] ws
AllFollow k (act ∷ acts) (w ∷ ws) = Follows k act w × AllFollow k acts ws

-- The act of the write at a key.
abbrev pub act_at : Key → List Act → List Write → Act
act_at k [] ws = stays
act_at k (act ∷ acts) [] = stays
act_at k (act ∷ acts) (w ∷ ws) = if key_eq w.key k then act else act_at k acts ws

module _ (t : Table) (k : Key) where
  written :
      {act : Act} (w : Write)
      → Follows k act w
      → key_eq w.key k ≡ true
      → is_accepted t w ≡ true
      → Step act (view (lookup k t)) (view (new_row w.action (lookup w.key t)))
  written {act} w follow e ok =
      let same : lookup w.key t ≡ lookup k t = ap (λ j. lookup j t) ((key_eq_iff w.key k).0 e) in
      subst (λ o. Step act (view o) (view (new_row w.action (lookup w.key t)))) same
        (follow (lookup w.key t) e (ground arith))

  pub row_after-Step :
      (acts : List Act) (ws : List Write)
      → AllFollow k acts ws
      → all (is_accepted t) ws ≡ true
      → Step (act_at k acts ws) (view (lookup k t)) (view (row_after ws t k))
  row_after-Step [] [] follow ok = stay
  row_after-Step (act ∷ acts) [] follow ok = stay
  row_after-Step [] (w ∷ ws) follow ok = elim (Bool-cases (key_eq w.key k)) [
    | inl e ↦ rw e (written w follow.0 e (ground arith))
    | inr e ↦ rw e (row_after-Step [] ws follow.1 (ground arith))
  ]
  row_after-Step (act ∷ acts) (w ∷ ws) follow ok = elim (Bool-cases (key_eq w.key k)) [
    | inl e ↦ rw e (written w follow.0 e (ground arith))
    | inr e ↦ rw e (row_after-Step acts ws follow.1 (ground arith))
  ]

-- An update that names neither attribute.
pub other_update :
    (now : Text) (args : UpdateArgs) (k : Key)
    → touches Attr.status (update_clauses now args) ≡ false
    → touches Attr.num_active_blockers (update_clauses now args) ≡ false
    → Follows k stays (update_request now args)
unfolding update_request
other_update now args k h1 h2 none at met = ground arith
other_update now args k h1 h2 (some item) at met =
    rw
      (
        run_clauses-untouched Attr.status (update_clauses now args) item h1,
        run_clauses-untouched Attr.num_active_blockers (update_clauses now args) item h2,
      )
      stay

-- A write to another row.
pub other_row : (w : Write) (k : Key) → key_eq w.key k ≡ false → Follows k stays w
other_row w k apart o at met = ground arith

is_done-status_of : (v : Option Val) → is_done (status_of v) ≡ attr_is v (status_val done)
is_done-status_of v = ground arith

status_of-blocked :
    (v : Option Val) → attr_is v (status_val blocked) ≡ true → status_of v ≡ some blocked
status_of-blocked none h = ground arith
status_of-blocked (some (text [])) h = ground arith
status_of-blocked (some (text (c ∷ s))) h = ground arith
status_of-blocked (some (num _)) h = ground arith
status_of-blocked (some (flag _)) h = ground arith
status_of-blocked (some (bytes _)) h = ground arith
status_of-blocked (some null) h = ground arith

number-zero : (v : Option Val) → attr_is v (num (pos 0)) ≡ true → number_or_zero v ≡ pos 0
number-zero none h = ground arith
number-zero (some (num n)) h = (eqb_ℤ_iff n (pos 0)).0 h
number-zero (some (text _)) h = ground arith
number-zero (some (flag _)) h = ground arith
number-zero (some (bytes _)) h = ground arith
number-zero (some null) h = ground arith

module _ (now sp id : Text) (k : Key) where
  pub moved :
      (read_at : Text) (st : IssueStatus) (version : Option ℤ)
      → Follows k (moves st) (update_request now (transition_args read_at sp id st version))
  unfolding update_request transition_args
  moved read_at todo version none at met = ground arith
  moved read_at blocked version none at met = ground arith
  moved read_at in_progress version none at met = ground arith
  moved read_at done version none at met = ground arith
  moved read_at todo version (some item) at met = move (
      ground
        (arith, is_done-status_of (item Attr.status), number-zero (item Attr.num_active_blockers)))
  moved read_at blocked version (some item) at met =
      move (ground (arith, is_done-status_of (item Attr.status)))
  moved read_at in_progress version (some item) at met = move (
      ground
        (arith, is_done-status_of (item Attr.status), number-zero (item Attr.num_active_blockers)))
  moved read_at done version (some item) at met =
      move (ground (arith, number-zero (item Attr.num_active_blockers)))

  pub blocking : (read_at : Text) → Follows k blocks (update_request now (block_args read_at sp id))
  unfolding update_request block_args
  blocking read_at none at met = ground arith
  blocking read_at (some item) at met = block (is_done-status_of (item Attr.status) ∙ ground arith)

  pub unblocking :
      (read_at : Text) → Follows k unblocks (update_request now (unblock_args read_at sp id))
  unfolding update_request unblock_args
  unblocking read_at none at met = ground arith
  unblocking read_at (some item) at met =
      rw
        (
          status_of-blocked (item Attr.status) (ground arith),
          number-zero (item Attr.num_active_blockers) (ground arith),
        )
        unblock

  pub releasing : Follows k releases (update_request now (release_args sp id))
  unfolding update_request release_args
  releasing none at met = ground arith
  releasing (some item) at met = release
