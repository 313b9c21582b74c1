-- ===== src/Lifecycle/Sessions.antt =====
-- Sessions of calls along the diagram.
use pl8_base.Base.{ℕ, ◌≡◌, true, Option, List, [], ◌∷◌, map, all}
use pl8_base.Base.Text.{Text}
use pl8_base.Dynamo.{Client, Table, IsUnique, lookup, is_accepted, apply_writes}
use pl8_base.Dynamo.Documented.{IsDynamo}
use pl8_base.Dynamo.Transaction.{is_distinct, apply_writes-IsUnique, lookup-apply_writes}
use pl8_base.Types.{Gzip, issue_info_key}
use pl8_base.Manager.Keeps.{WritesKeep}
use pl8_base.Attachment.StorageSteps.{Quiet}
use pl8_base.Handlers.Stored.{ReadsStored}
use pl8_base.Storage.{Storage}
use pl8_base.Util.{Codec}
use pl8_base.Session.{Sent, writes, Call, is_fit, run_calls}
use pl8_base.Session.Steps.{run_calls-keeps}
use pl8_base.Lifecycle.Diagram.{is_settled, Steps-is_settled, Act, view, Step, Steps, here, next}
use pl8_base.Lifecycle.Requests.{act_at, row_after-Step}
use pl8_base.Lifecycle.Sent.{acts, sent-AllFollow}

module _ (c : Client) (z : Gzip) where
  -- The requests that took the table to another, the last one first: each names no row twice and is
  -- accepted by the table that it finds.
  pub data Executes (t : Table) : List Sent → Table → Type 0 where
    start : Executes t [] t
    after :
        {qs : List Sent} {u : Table} (q : Sent)
        → Executes t qs u
        → is_distinct (writes c z q) ≡ true
        → all (is_accepted u) (writes c z q) ≡ true
        → Executes t (q ∷ qs) (apply_writes (writes c z q) u)

  -- What a request does to an Issue.
  abbrev pub act_on : (sp id : Text) → Sent → Act
  act_on sp id q = act_at (issue_info_key sp id) (acts q) (writes c z q)

  -- Each request that names no row twice and is accepted is one step of the diagram for an Issue, and
  -- the step is of the act that the request has for it: to create it, to move it to the status asked
  -- for, to block, to release, to unblock, to drop it, or none. The table has no duplicate keys.
  pub sent-Step :
      (q : Sent) (t : Table) (sp id : Text)
      → IsUnique t
      → is_distinct (writes c z q) ≡ true
      → all (is_accepted t) (writes c z q) ≡ true
      → Step
          (act_on sp id q)
          (view (lookup (issue_info_key sp id) t))
          (view (lookup (issue_info_key sp id) (apply_writes (writes c z q) t)))
  sent-Step q t sp id u apart ok =
      rw (lookup-apply_writes (writes c z q) t (issue_info_key sp id) u apart) (
        row_after-Step t (issue_info_key sp id) (acts q) (writes c z q) (sent-AllFollow sp id c z q)
          ok)

  -- Some requests took the table from `t` to `u`, and the Issue's row went along their acts.
  abbrev Simulated : (sp id : Text) (t u : Table) → Type 0
  Simulated sp id t u =
      (qs : List Sent) × (Executes t qs u
        × Steps (view (lookup (issue_info_key sp id) t)) (map (act_on sp id) qs)
            (view (lookup (issue_info_key sp id) u)))

  record Followed (sp id : Text) (from t : Table) : Type 0 where
    unique : IsUnique t
    simulated : Simulated sp id from t

  sent-Followed :
      (sp id : Text) (from : Table) (q : Sent) → WritesKeep (Followed sp id from) (writes c z q)
  sent-Followed sp id from q t apart ok h =
      let (qs, (ran, steps)) = h.simulated in
      record {
        unique = apply_writes-IsUnique (writes c z q) t h.unique;
        simulated =
            (q ∷ qs, (after q ran apart ok, next steps (sent-Step q t sp id h.unique apart ok)));
      }

-- The operations and the event handlers implement the diagram: whatever a sequence of calls returned
-- or raised, there are requests, each accepted by the table that it found, that took the table from
-- the first to the last, and the status and the active blockers of an Issue's row went along one
-- step for each of them, in their order and with the act that the request has for the Issue: to
-- create it, to move it to the status asked for, to block, to release, to unblock, to drop it, or
-- none. The table has no duplicate keys, the storage writes nothing to it, the queries return rows
-- as they are stored, and so are the blockers that single sweep steps are handed.
pub run_calls-Steps :
    (c : Client) (z : Gzip) (storage : Option (Storage c.State)) (j : Codec) (pages : ℕ)
    (calls : List Call) (s : c.State) (sp id : Text)
    → IsDynamo c
    → Quiet c storage
    → ReadsStored c z j
    → all is_fit calls ≡ true
    → IsUnique (c.table s)
    → (qs : List Sent) × (Executes c z
          (c.table s)
          qs
          (c.table (run_calls c z storage j pages calls s))
        × Steps (view (lookup (issue_info_key sp id) (c.table s))) (map (act_on c z sp id) qs) (
            view (lookup (issue_info_key sp id) (c.table (run_calls c z storage j pages calls s)))))
run_calls-Steps c z storage j pages calls s sp id d quiet reads fit u =
    (run_calls-keeps c z storage j pages d quiet reads (sent-Followed c z sp id (c.table s)) calls s
      fit (record { unique = u; simulated = ([], (start, here)) })).simulated

-- Only a BLOCKED Issue counts active blockers: if an Issue's row is absent, BLOCKED, or counts no
-- active blocker, then that is so after any sequence of calls of the operations and of the event
-- handlers, under the same conditions on the client, the storage and the queries.
pub run_calls-is_settled :
    (c : Client) (z : Gzip) (storage : Option (Storage c.State)) (j : Codec) (pages : ℕ)
    (calls : List Call) (s : c.State) (sp id : Text)
    → IsDynamo c
    → Quiet c storage
    → ReadsStored c z j
    → all is_fit calls ≡ true
    → IsUnique (c.table s)
    → is_settled (view (lookup (issue_info_key sp id) (c.table s))) ≡ true
    → is_settled
        (view (lookup (issue_info_key sp id) (c.table (run_calls c z storage j pages calls s))))
      ≡ true
run_calls-is_settled c z storage j pages calls s sp id d quiet reads fit u =
    let (qs, (ran, steps)) =
      run_calls-Steps c z storage j pages calls s sp id d quiet reads fit u in
    Steps-is_settled steps
