-- ===== src/Manager/PaginateRows.antt =====
-- Looping over paginate is looping over the rows of all pages.
use pl8_base.Base.{
  ℕ, zero, suc, ◌≡◌, refl, ◌∙◌, sym, ap, Bool, true, false, Option, none, some, List, [], ◌∷◌, ◌++◌,
}
use pl8_base.Base.Text.{Text}
use pl8_base.Errors.{Result, ok, err, Exec, pure, resume, ◌>>=◌}
use pl8_base.Manager.Parse.{BaseObject}
use pl8_base.Manager.Query.{Rows}
use pl8_base.Manager.Paginate.{Progress, finished, stopped, unfinished, for_items, paginate, turn}

-- What is left to do once a list of rows is through.
abbrev go_on : {State A : Type 0} → Exec State A → A → Bool → Exec State A
go_on more over true = more
go_on more over false = pure over

-- A page's rows with those of the pages behind its cursor, and whether they are all.
abbrev joined :
    (Text → List BaseObject × Bool) → List BaseObject → Option Text → List BaseObject × Bool
joined more rows none = (rows, true)
joined more rows (some next) = let (rest, ended) = more next in (rows ++ rest, ended)

-- The pages of a query that nothing changes meanwhile.
abbrev pub reading : {State : Type 0} → (Option Text → Rows) → Option Text → Exec State Rows
reading page cursor = pure (page cursor)

-- The rows of at most so many pages, and whether they are all of them.
abbrev pub rows_from : (Option Text → Rows) → ℕ → Option Text → List BaseObject × Bool
rows_from page zero cursor = ([], false)
rows_from page (suc pages) cursor =
    joined (λ next. rows_from page pages (some next)) (page cursor).0 (page cursor).1

abbrev pub at_end : Bool → Progress
at_end true = finished
at_end false = unfinished

module _ {State : Type 0} (body : BaseObject → Exec State Bool) where
  for_items-append :
      (xs ys : List BaseObject) (s : State)
      → for_items body (xs ++ ys) s ≡ (for_items body xs >>= go_on (for_items body ys) false) s
  unfolding for_items pure ◌>>=◌
  for_items-append [] ys s = refl
  for_items-append (x ∷ xs) ys s = of_body (body x s).0 (body x s).1 (for_items-append xs ys)
    where
      of_body :
          (r : Result Bool) (s' : State)
          → ((s : State)
              → for_items body (xs ++ ys) s
                ≡ (for_items body xs >>= go_on (for_items body ys) false) s)
          → resume r (λ go. elim go [ true ↦ for_items body (xs ++ ys) | false ↦ pure false ]) s'
            ≡ (let (q, t) =
                  resume r (λ go. elim go [ true ↦ for_items body xs | false ↦ pure false ]) s' in
                resume q (go_on (for_items body ys) false) t)
      of_body (ok true) s' again = again s'
      of_body (ok false) s' again = refl
      of_body (err e) s' again = refl

  -- The loop over one list, with how it came out.
  abbrev pub over_rows : List BaseObject × Bool → Exec State Progress
  over_rows (rows, ended) = for_items body rows >>= go_on (pure (at_end ended)) stopped

  module _ (page : Option Text → Rows) where
    module _ (pages : ℕ)
        (again : (next : Text) (s : State)
          → paginate body (reading page) pages (some next) s
            ≡ over_rows (rows_from page pages (some next)) s) where
      -- From how the page's own rows came out.
      of_rows :
          (next : Text) (r : Result Bool) (s : State)
          → resume r (turn (λ n. paginate body (reading page) pages (some n)) (some next)) s ≡ (
              let (q, t) =
                resume r (go_on (for_items body (rows_from page pages (some next)).0) false) s in
              resume q (go_on (pure (at_end (rows_from page pages (some next)).1)) stopped) t)
      unfolding pure ◌>>=◌
      of_rows next (ok true) s = again next s
      of_rows next (ok false) s = refl
      of_rows next (err e) s = refl

      of_page :
          (rows : List BaseObject) (o : Option Text) (s : State)
          → (for_items body rows >>= turn (λ n. paginate body (reading page) pages (some n)) o) s
            ≡ over_rows (joined (λ next. rows_from page pages (some next)) rows o) s
      unfolding ◌>>=◌
      of_page rows none s = last (for_items body rows s).0 (for_items body rows s).1
        where
          last :
              (r : Result Bool) (t : State)
              → resume r (turn (λ n. paginate body (reading page) pages (some n)) none) t
                ≡ resume r (go_on (pure finished) stopped) t
          last (ok true) t = refl
          last (ok false) t = refl
          last (err e) t = refl
      of_page rows (some next) s =
          of_rows next (for_items body rows s).0 (for_items body rows s).1
          ∙ ap
              (λ (p : Result Bool × State).
                resume p.0 (go_on (pure (at_end (rows_from page pages (some next)).1)) stopped) p.1)
              (sym (for_items-append rows (rows_from page pages (some next)).0 s))

    -- Looping over paginate, where the pages that the query gives do not change meanwhile, is looping
    -- over one list, of all their rows in order: it has the same effects, and comes out `finished`,
    -- `stopped` by the body, or `unfinished` where the pages that it may read are not all.
    pub paginate-over_rows :
        (pages : ℕ) (cursor : Option Text) (s : State)
        → paginate body (reading page) pages cursor s ≡ over_rows (rows_from page pages cursor) s
    unfolding paginate pure ◌>>=◌ for_items
    paginate-over_rows zero cursor s = refl
    paginate-over_rows (suc pages) cursor s =
        of_page pages (λ next. paginate-over_rows pages (some next)) (page cursor).0 (page cursor).1
          s
