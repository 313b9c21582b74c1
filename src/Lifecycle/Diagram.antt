-- ===== src/Lifecycle/Diagram.antt =====
-- The lifecycle of an Issue, as types/issue.py and mixins/issue.py describe it: its status and its
-- number of active blockers, without keys, versions and times.
use pl8_base.Base.{
  suc, ◌≡◌, refl, Bool, true, false, not, ◌&&◌, ◌||◌, Option, none, some, List, [], ◌∷◌, arith,
  if◌then◌else◌,
}
use pl8_base.Base.Int.{ℤ, pos, negsuc, ◌+ℤ◌, eqb_ℤ}
use pl8_base.Dynamo.{Attr, Val, Item, attr_is, number_or_zero}
use pl8_base.Types.{IssueStatus, todo, blocked, in_progress, done}
use pl8_base.Issue.{status_val}

-- No row, or the status of one, where it is one of the four, and its active blockers.
pub data View : Type 0 where
  gone : View
  present : Option IssueStatus → ℤ → View

abbrev pub status_of : Option Val → Option IssueStatus
status_of v =
    if attr_is v (status_val done)
    then some done
    else if attr_is v (status_val blocked)
    then some blocked
    else if attr_is v (status_val todo)
    then some todo
    else if attr_is v (status_val in_progress)
    then some in_progress
    else none

abbrev pub view : Option Item → View
view none = gone
view (some item) =
    present (status_of (item Attr.status)) (number_or_zero (item Attr.num_active_blockers))

abbrev pub is_done : Option IssueStatus → Bool
is_done (some done) = true
is_done _ = false

abbrev pub is_blocked : Option IssueStatus → Bool
is_blocked (some blocked) = true
is_blocked _ = false

-- DONE is left for DONE only, and only BLOCKED is entered with active blockers.
abbrev pub may_move : Option IssueStatus → IssueStatus → ℤ → Bool
may_move s target n =
    (not (is_done s) || is_done (some target)) && (is_blocked (some target) || eqb_ℤ n (pos 0))

-- What a request may do to an Issue.
pub data Act : Type 0 where
  stays : Act
  creates : IssueStatus → Act
  moves : IssueStatus → Act
  blocks : Act
  releases : Act
  unblocks : Act
  drops : Act

pub data Step : Act → View → View → Type 0 where
  stay : {v : View} → Step stays v v
  create : {s : IssueStatus} → Step (creates s) gone (present (some s) (pos 0))
  move :
      {s : Option IssueStatus} {n : ℤ} {target : IssueStatus}
      → may_move s target n ≡ true
      → Step (moves target) (present s n) (present (some target) n)
  block :
      {s : Option IssueStatus} {n : ℤ}
      → is_done s ≡ false
      → Step blocks (present s n) (present (some blocked) (n +ℤ pos 1))
  release :
      {s : Option IssueStatus} {n : ℤ} → Step releases (present s n) (present s (n +ℤ negsuc 0))
  unblock : Step unblocks (present (some blocked) (pos 0)) (present (some todo) (pos 0))
  drop : {v : View} → Step drops v gone

-- One step for each act, the last one first.
pub data Steps (v : View) : List Act → View → Type 0 where
  here : Steps v [] v
  next :
      {acts : List Act} {act : Act} {u w : View}
      → Steps v acts u
      → Step act u w
      → Steps v (act ∷ acts) w

abbrev is_positive : ℤ → Bool
is_positive (pos (suc n)) = true
is_positive _ = false

-- Active blockers are on a BLOCKED Issue only.
abbrev pub is_settled : View → Bool
is_settled gone = true
is_settled (present s n) = is_blocked s || not (is_positive n)

Step-is_settled :
    {act : Act} {v u : View} → Step act v u → is_settled v ≡ true → is_settled u ≡ true
unfolding ◌+ℤ◌
Step-is_settled stay h = h
Step-is_settled create h = ground arith
Step-is_settled (move {s} {n} {target} e) h = ground arith
Step-is_settled (block e) h = refl
Step-is_settled (release {s} {n}) h = ground arith
Step-is_settled unblock h = refl
Step-is_settled drop h = refl

pub Steps-is_settled :
    {v : View} {acts : List Act} {u : View}
    → Steps v acts u
    → is_settled v ≡ true
    → is_settled u ≡ true
Steps-is_settled here h = h
Steps-is_settled (next l e) h = Step-is_settled e (Steps-is_settled l h)
