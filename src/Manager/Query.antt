-- ===== src/Manager/Query.antt =====
-- run_query (manager.py): one page of a query, and the cursor of the next.
use pl8_base.Base.{ℕ, Bool, Option, none, some, List, [], ◌∷◌}
use pl8_base.Base.Text.{Text}
use pl8_base.Base.Json.{Fields, no_fields, field}
use pl8_base.Errors.{internal, Result, ok, err, Exec, pure, raise, lift, ◌>>=◌}
use pl8_base.Dynamo.{
  Item, SortCondition, Query, Page, Client, Reply, replied, client_error, botocore_error, query,
}
use pl8_base.Types.{Gzip}
use pl8_base.Util.{str, Codec, encode_pagination_cursor, decode_pagination_cursor}
use pl8_base.Manager.Parse.{BaseObject, parse_item}

-- What run_query is given: the caller's parameters, without the page's limit and start.
pub record QueryParams : Type 0 where
  pub on_index : Bool
  pub partition : Text
  pub sort : SortCondition
  pub forward : Bool
  pub consistent : Bool

abbrev pub paged : QueryParams → Option ℕ → Option Fields → Query
paged params limit start = record {
  on_index = params.on_index;
  partition = params.partition;
  sort = params.sort;
  forward = params.forward;
  consistent = params.consistent;
  limit = limit;
  start = start;
}

-- A page of parsed rows with the cursor of the next page.
abbrev pub Rows : Type 0
Rows = List BaseObject × Option Text

module _ (c : Client) (z : Gzip) (j : Codec) where
  -- parse_item gives None for None only.
  abbrev pub with_row : Option BaseObject → List BaseObject → List BaseObject
  with_row none xs = xs
  with_row (some x) xs = x ∷ xs

  unfoldable pub parse_items : List Item → Exec c.State (List BaseObject)
  parse_items [] = pure []
  parse_items (item ∷ items) = do
    x ← parse_item c z (some item)
    xs ← parse_items items
    pure (with_row x xs)

  abbrev pub start_of : Option Text → Result (Option Fields)
  start_of none = ok none
  start_of (some cursor) = elim (decode_pagination_cursor j (str cursor)) [
    | ok fields ↦ ok (some fields)
    | err e ↦ err e
  ]

  -- An empty LastEvaluatedKey is as none.
  abbrev pub next_cursor : Option Fields → Result (Option Text)
  next_cursor none = ok none
  next_cursor (some no_fields) = ok none
  next_cursor (some (field k v rest)) = elim (encode_pagination_cursor j (field k v rest)) [
    | ok t ↦ ok (some t)
    | err e ↦ err e
  ]

  abbrev pub on_query : Reply Page → Exec c.State Rows
  on_query (replied page) = do
    xs ← parse_items page.items
    next ← lift (next_cursor page.last_key)
    pure (xs, next)
  on_query (client_error _) = raise internal
  on_query botocore_error = raise internal

  unfoldable pub run_query : QueryParams → Option Text → Option ℕ → Exec c.State Rows
  run_query params cursor limit = do
    start ← lift (start_of cursor)
    reply ← query c (paged params limit start)
    on_query reply
