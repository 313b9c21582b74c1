-- ===== src/Dynamo/Memory.antt =====
-- A client that keeps the table in memory and never fails of itself: the documented behaviour has
-- an instance, and the model runs on it.
use package.text.Mathlib.Text.{◌==◌ as str_eq}
use pl8_base.Base.{
  Bool, ◌&&◌, ◌||◌, ◌≡◌, refl, true, false, Bool-cases, inl, inr, Option, none, some, List, [], ◌∷◌,
  all, map, if◌then◌else◌, arith,
}
use mathlib.Core.Path.{subst}
use pl8_base.Base.Text.{Text, codes, text_eq, text_leb, starts_with}
use pl8_base.Const.{condition_failed_code, condition_failed_reason}
use pl8_base.Dynamo.{
  Attr, text, attr_is, Query, SortCondition, any_sort_key, begins_with, between, Item, Table, Write,
  Client, ClientError, Reason, Reply, replied, client_error, lookup, new_row, is_accepted,
  conditions_hold, apply_write, apply_writes,
}
use pl8_base.Dynamo.Transaction.{is_distinct}
use pl8_base.Dynamo.Available.{IsAvailable}
use pl8_base.Dynamo.Documented.{
  IsDynamo, Outcome, applied, refused, ReasonsFit, names_failure, old_row, reasons_of,
}

abbrev reason : Table → Write → Reason
reason t w =
    if conditions_hold t w
    then record { code = some "None"; item = none }
    else record { code = some condition_failed_reason; item = old_row t w }

abbrev cancelled : Table → List Write → ClientError
cancelled t ws = record {
  code = "TransactionCanceledException";
  reasons = some (map (reason t) ws);
  item = none;
}

abbrev write_refused : Table → Write → ClientError
write_refused t w =
    if conditions_hold t w
    then record { code = "ValidationException"; reasons = none; item = none }
    else record { code = condition_failed_code; reasons = none; item = old_row t w }

abbrev invalid : ClientError
invalid = record { code = "ValidationException"; reasons = none; item = none }

abbrev memory_transact : List Write → Table → Reply (Unit {0}) × Table
memory_transact ws t =
    if is_distinct ws
    then (if all (is_accepted t) ws
        then (replied tt, apply_writes ws t)
        else (client_error (cancelled t ws), t))
    else (client_error invalid, t)

abbrev memory_write : Write → Table → Reply (Option Item) × Table
memory_write w t =
    if is_accepted t w
    then (replied (new_row w.action (lookup w.key t)), apply_write w t)
    else (client_error (write_refused t w), t)

abbrev sort_fits : SortCondition → Text → Bool
sort_fits any_sort_key sk = true
sort_fits (begins_with prefix) sk = starts_with sk prefix
sort_fits (between lo hi) sk = text_leb lo sk && text_leb sk hi

-- The rows of a partition of the table, or of the index, in one page.
abbrev memory_rows : Query → Table → List Item
memory_rows q [] = []
memory_rows q ((key, item) ∷ t) =
    let rest = memory_rows q t in
    let in_partition =
      if q.on_index
      then attr_is (item Attr.gsi1pk) (text q.partition)
      else text_eq key.pk q.partition in
    if in_partition && (q.on_index || sort_fits q.sort key.sk) then item ∷ rest else rest

abbrev pub memory : Client
memory = record {
  State = Table;
  table = λ t. t;
  isotime = λ t. (codes "2025-01-01T00:00:00.000Z", t);
  choice = λ alphabet t. (b'a', t);
  uuid7 = λ t. (codes "01900000-0000-7000-8000-000000000000", t);
  parse_uuid = λ s. some (record { version = 7; time = 0 });
  render_time = λ n. codes "2025-01-01T00:00:00.000Z";
  sleep = λ n t. t;
  get_item = λ key t. (replied (lookup key t), t);
  write_item = memory_write;
  transact_write_items = memory_transact;
  time = λ t. (1_700_000_000, t);
  query = λ q t. (replied (record { items = memory_rows q t; last_key = none }), t);
}

reasons-fit : (t : Table) (ws : List Write) → ReasonsFit t ws (map (reason t) ws)
reasons-fit t [] = tt
reasons-fit t (w ∷ ws) = elim (Bool-cases (conditions_hold t w)) [
  | inl e ↦ (rw e (λ h. absurd_name h), reasons-fit t ws)
  | inr e ↦ (rw e (λ h. (refl, refl)), reasons-fit t ws)
]
  where
    absurd_name : {A : Type 0} → names_failure (some "None") ≡ true → A
    absurd_name h = ground arith

transact-Outcome :
    (ws : List Write) (t : Table) → Outcome ws t (memory_transact ws t).0 (memory_transact ws t).1
transact-Outcome ws t = elim (Bool-cases (is_distinct ws)) [
  | inl d ↦ elim (Bool-cases (all (is_accepted t) ws)) [
    | inl e ↦ rw (d, e) (applied tt refl d e refl)
    | inr e ↦ rw (d, e) (refused (cancelled t ws) refl refl (reasons-fit t ws))
  ]
  | inr d ↦ rw d (refused invalid refl refl tt)
]

refused-fit : (w : Write) (t : Table) → ReasonsFit t (w ∷ []) (reasons_of (write_refused t w))
refused-fit w t = elim (Bool-cases (conditions_hold t w)) [ inl e ↦ rw e tt | inr e ↦ rw e tt ]

write-Outcome :
    (w : Write) (t : Table) → Outcome (w ∷ []) t (memory_write w t).0 (memory_write w t).1
write-Outcome w t = elim (Bool-cases (is_accepted t w)) [
  | inl e ↦ rw e (applied (new_row w.action (lookup w.key t)) refl refl (rw e refl) refl)
  | inr e ↦ rw e (refused (write_refused t w) refl refl (refused-fit w t))
]

refused-reason :
    (w : Write) (t : Table)
    → str_eq (write_refused t w).code condition_failed_code ≡ true
    → (conditions_hold t w ≡ false) × ((write_refused t w).item ≡ old_row t w)
refused-reason w t = elim (Bool-cases (conditions_hold t w)) [
  | inl e ↦ rw e (λ h. (ground arith))
  | inr e ↦ rw e (λ h. (refl, refl))
]

write-reason :
    (w : Write) (t : Table) (e : ClientError)
    → (memory_write w t).0 ≡ client_error e
    → str_eq e.code condition_failed_code ≡ true
    → (conditions_hold t w ≡ false) × (e.item ≡ old_row t w)
write-reason w t e = elim (Bool-cases (is_accepted t w)) [
  | inl a ↦ rw a (λ r h. ground arith)
  | inr a ↦ rw a (λ r.
      subst
        (λ (x : ClientError).
          str_eq x.code condition_failed_code ≡ true
          → (conditions_hold t w ≡ false) × (x.item ≡ old_row t w))
        (error_injective r) (refused-reason w t))
]
  where
    error_injective :
        {a b : ClientError} → Path (Reply (Option Item)) (client_error a) (client_error b) → a ≡ b
    error_injective r = ground arith

write-returns :
    (w : Write) (t : Table) (o : Option Item)
    → (memory_write w t).0 ≡ replied o
    → o ≡ new_row w.action (lookup w.key t)
write-returns w t o = elim (Bool-cases (is_accepted t w)) [
  | inl a ↦ rw a (λ r. ground arith)
  | inr a ↦ rw a (λ r. ground arith)
]

pub memory-IsDynamo : IsDynamo memory
memory-IsDynamo = record {
  isotime_quiet = λ s. refl;
  choice_quiet = λ alphabet s. refl;
  uuid7_quiet = λ s. refl;
  sleep_quiet = λ n s. refl;
  time_quiet = λ s. refl;
  query_quiet = λ q s. refl;
  get_item_quiet = λ key s. refl;
  transact_outcome = transact-Outcome;
  write_outcome = write-Outcome;
  write_reason = write-reason;
  write_returns = write-returns;
}

pub memory-IsAvailable : IsAvailable memory
memory-IsAvailable = record {
  writes = λ w t ok. rw ok (refl, refl);
  transacts = λ ws t apart ok. rw (apart, ok) (refl, refl);
}
