-- ===== src/Manager/PaginateLaws.antt =====
-- That paginate ends.
use pl8_base.Base.{ℕ, zero, suc, ◌≡◌, refl, ◌<◌, Bool, true, false, Option, none, some, arith}
use pl8_base.Base.Text.{Text}
use pl8_base.Errors.{ok, Exec, pure}
use pl8_base.Errors.Bind.{bind-ok}
use pl8_base.Manager.Parse.{BaseObject}
use pl8_base.Manager.Query.{Rows}
use pl8_base.Manager.Paginate.{unfinished, for_items, paginate, turn}

module _ {State : Type 0} (body : BaseObject → Exec State Bool)
    (query : Option Text → Exec State Rows) (rank : Option Text → ℕ) where
  -- The cursor that a page hands over is further on than the one that the page was asked with.
  pub record Advances : Type 0 where
    pub further :
        (cursor : Option Text) (next : Text) (page : Rows) (s : State)
        → (query cursor s).0 ≡ ok page
        → page.1 ≡ some next
        → rank (some next) < rank cursor

  -- A loop over pages whose cursors get further on is not out of fuel where it was given more of it
  -- than the rank of the cursor that it starts from.
  pub paginate-ends :
      (pages : ℕ) (cursor : Option Text) (s : State)
      → Advances
      → rank cursor < pages
      → ¬ ((paginate body query pages cursor s).0 ≡ ok unfinished)
  unfolding paginate pure
  paginate-ends zero cursor s adv enough h = ground arith
  paginate-ends (suc pages) cursor s adv enough h =
      let (page, (got, rest)) = bind-ok (query cursor) _ s unfinished h in
      let (go, (went, over)) = bind-ok (for_items body page.0) _ _ unfinished rest in
      go_on page.1 go _ over λ next e t.
        paginate-ends pages (some next) t adv (ground (arith, adv.further cursor next page s got e))
    where
      go_on :
          (o : Option Text) (go : Bool) (t : State)
          → (turn (λ next. paginate body query pages (some next)) o go t).0 ≡ ok unfinished
          → ((next : Text)
              → o ≡ some next
              → (t : State) → ¬ ((paginate body query pages (some next) t).0 ≡ ok unfinished))
          → ⊥
      go_on o false t over ends = ground arith
      go_on none true t over ends = ground arith
      go_on (some next) true t over ends = ends next refl t over
