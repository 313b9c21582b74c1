-- ===== src/Manager/Paginate.antt =====
-- paginate (manager.py) and the loops over it. The pages are bounded by fuel here: a loop that is
-- out of it says so.
use pl8_base.Base.{ℕ, zero, suc, Bool, true, false, Option, none, some, List, [], ◌∷◌}
use pl8_base.Base.Text.{Text}
use pl8_base.Errors.{Exec, pure, ◌>>=◌}
use pl8_base.Manager.Parse.{BaseObject}
use pl8_base.Manager.Query.{Rows}

-- How a loop over the pages came out: at their end, by a `return` in its body, or out of fuel.
pub data Progress : Type 0 where
  finished stopped unfinished : Progress

-- After a page's items: the end, or the next page.
abbrev pub turn :
    {State : Type 0} → (Text → Exec State Progress) → Option Text → Bool → Exec State Progress
turn again next false = pure stopped
turn again none true = pure finished
turn again (some next) true = again next

module _ {State : Type 0} (body : BaseObject → Exec State Bool) where
  -- The loop's body on the items of a page; `false` is a `return`.
  unfoldable pub for_items : List BaseObject → Exec State Bool
  for_items [] = pure true
  for_items (x ∷ xs) = do go ← body x; elim go [ true ↦ for_items xs | false ↦ pure false ]

  module _ (query : Option Text → Exec State Rows) where
    -- `for item in self.paginate(query)`, from a cursor on.
    unfoldable pub paginate : ℕ → Option Text → Exec State Progress
    paginate zero cursor = pure unfinished
    paginate (suc pages) cursor = do
      page ← query cursor
      go ← for_items page.0
      turn (λ next. paginate pages (some next)) page.1 go
