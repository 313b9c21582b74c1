-- ===== src/Manager/QuerySteps.antt =====
-- What a page of a query, and a loop over pages, keep of the table.
use pl8_base.Base.{
  ℕ, zero, suc, ◌≡◌, refl, Bool, true, false, Option, none, some, List, [], ◌∷◌, all, arith,
}
use pl8_base.Base.Text.{Text}
use pl8_base.Errors.{pure, ok, internal, resume, Result, err, Exec, ◌>>=◌}
use pl8_base.Dynamo.{Item, Table, Client, Page, Reply, replied, client_error, botocore_error}
use pl8_base.Dynamo.Documented.{IsDynamo}
use pl8_base.Types.{Gzip}
use pl8_base.Util.{Codec}
use pl8_base.Manager.Parse.{BaseObject}
use pl8_base.Manager.Query.{QueryParams, Rows, parse_items, on_query, run_query}
use pl8_base.Manager.Paginate.{Progress, finished, stopped, unfinished, turn, for_items, paginate}
use pl8_base.Manager.Keeps.{Keeps, Keeps-bind, Keeps-pure, Keeps-raise, Keeps-lift, Keeps-query}
use pl8_base.Manager.Reads.{Keeps-parse_item}

module _ (c : Client) (z : Gzip) (j : Codec) (d : IsDynamo c) {P : Table → Type 0} where
  Keeps-parse_items : (items : List Item) → Keeps c P (parse_items c z j items)
  unfolding parse_items
  Keeps-parse_items [] = Keeps-pure c _
  Keeps-parse_items (item ∷ items) =
      Keeps-bind c _ _ (Keeps-parse_item c z d (some item))
        λ x. Keeps-bind c _ _ (Keeps-parse_items items) λ xs. Keeps-pure c _

  Keeps-on_query : (r : Reply Page) → Keeps c P (on_query c z j r)
  Keeps-on_query (replied page) =
      Keeps-bind c _ _ (Keeps-parse_items page.items)
        λ xs. Keeps-bind c _ _ (Keeps-lift c _) λ next. Keeps-pure c _
  Keeps-on_query (client_error _) = Keeps-raise c internal
  Keeps-on_query botocore_error = Keeps-raise c internal

  pub Keeps-run_query :
      (params : QueryParams) (cursor : Option Text) (limit : Option ℕ)
      → Keeps c P (run_query c z j params cursor limit)
  unfolding run_query
  Keeps-run_query params cursor limit =
      Keeps-bind c _ _ (Keeps-lift c _) λ start. Keeps-bind c _ _ (Keeps-query c d _) Keeps-on_query

module _ (c : Client) {P : Table → Type 0} where
  -- What follows may use what is known of each value that the first part returns.
  pub Keeps-bind-known :
      {A B : Type 0} (Q : A → Type 0) (m : Exec c.State A) (f : A → Exec c.State B)
      → ((a : A) (s : c.State) → (m s).0 ≡ ok a → Q a)
      → Keeps c P m
      → ((a : A) → Q a → Keeps c P (f a))
      → Keeps c P (m >>= f)
  unfolding ◌>>=◌
  Keeps-bind-known Q m f known km kf = record {
    at = λ s h. (Keeps-resumed (m s).0 (λ a e. kf a (known a s e))).at (m s).1 (km.at s h);
  }
    where
      Keeps-resumed :
          (r : Result _) → ((a : _) → r ≡ ok a → Keeps c P (f a)) → Keeps c P (resume r f)
      Keeps-resumed (ok a) k = k a refl
      Keeps-resumed (err e) k = record { at = λ s h. h }

  module _ (body : BaseObject → Exec c.State Bool) (good : BaseObject → Bool)
      (each : (x : BaseObject) → good x ≡ true → Keeps c P (body x)) where
    Keeps-for_items : (xs : List BaseObject) → all good xs ≡ true → Keeps c P (for_items body xs)
    unfolding for_items
    Keeps-for_items [] h = Keeps-pure c true
    Keeps-for_items (x ∷ xs) h =
        Keeps-bind c _ _ (each x (ground arith))
          (unless_stopped (Keeps-for_items xs (ground arith)))
      where
        unless_stopped :
            {m : Exec c.State Bool}
            → Keeps c P m
            → (go : Bool) → Keeps c P (elim go [ true ↦ m | false ↦ pure false ])
        unless_stopped k true = k
        unless_stopped k false = Keeps-pure c false

    module _ (query : Option Text → Exec c.State Rows)
        (rows_good : (cursor : Option Text) (s : c.State) (rows : Rows)
          → (query cursor s).0 ≡ ok rows
          → all good rows.0 ≡ true)
        (quiet : (cursor : Option Text) → Keeps c P (query cursor)) where
      Keeps-turn :
          (again : Text → Exec c.State Progress) (next : Option Text) (go : Bool)
          → ((t : Text) → Keeps c P (again t))
          → Keeps c P (turn again next go)
      Keeps-turn again next false k = Keeps-pure c stopped
      Keeps-turn again none true k = Keeps-pure c finished
      Keeps-turn again (some t) true k = k t

      -- A loop over pages keeps what its body keeps on the items that the pages have.
      pub Keeps-paginate :
          (pages : ℕ) (cursor : Option Text) → Keeps c P (paginate body query pages cursor)
      unfolding paginate
      Keeps-paginate zero cursor = Keeps-pure c unfinished
      Keeps-paginate (suc pages) cursor =
          Keeps-bind-known (λ rows. all good rows.0 ≡ true) _ _ (λ rows s. rows_good cursor s rows)
            (quiet cursor)
            λ rows ok_rows.
              Keeps-bind c _ _ (Keeps-for_items rows.0 ok_rows)
                λ go. Keeps-turn _ rows.1 go λ t. Keeps-paginate pages (some t)
