-- ===== src/Dynamo/Calls.antt =====
-- The client's calls as actions. A failed call is a reply here; who makes the call looks at it.
use pl8_base.Base.{ℕ, Option, List}
use pl8_base.Base.Text.{Text}
use pl8_base.Errors.{ok, Exec}
use pl8_base.Dynamo.Rows.{Item}
use pl8_base.Dynamo.PrimaryKey.{Key}
use pl8_base.Dynamo.Request.{Write}
use pl8_base.Dynamo.Queries.{Query, Page}
use pl8_base.Dynamo.Clients.{Client, Reply}

module _ (c : Client) where
  unfoldable pub isotime : Exec c.State Text
  isotime s = let (t, s') = c.isotime s in (ok t, s')

  unfoldable pub uuid7 : Exec c.State Text
  uuid7 s = let (t, s') = c.uuid7 s in (ok t, s')

  unfoldable pub choice : Text → Exec c.State ℕ
  choice alphabet s = let (n, s') = c.choice alphabet s in (ok n, s')

  unfoldable pub get_item : Key → Exec c.State (Reply (Option Item))
  get_item key s = let (r, s') = c.get_item key s in (ok r, s')

  unfoldable pub write_item : Write → Exec c.State (Reply (Option Item))
  write_item w s = let (r, s') = c.write_item w s in (ok r, s')

  unfoldable pub transact_write_items : List Write → Exec c.State (Reply (Unit {0}))
  transact_write_items ws s = let (r, s') = c.transact_write_items ws s in (ok r, s')

  unfoldable pub time : Exec c.State ℕ
  time s = let (n, s') = c.time s in (ok n, s')

  unfoldable pub query : Query → Exec c.State (Reply Page)
  query q s = let (r, s') = c.query q s in (ok r, s')
