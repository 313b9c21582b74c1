-- ===== src/Dynamo/Available.antt =====
-- A client at its best: what DynamoDB documents of a call that meets no conflict and no failure of
-- the service.
use pl8_base.Base.{◌≡◌, true, List, all}
use pl8_base.Dynamo.Tables.{lookup}
use pl8_base.Dynamo.Request.{Write, new_row, is_accepted, apply_write, apply_writes}
use pl8_base.Dynamo.Transaction.{is_distinct}
use pl8_base.Dynamo.Clients.{Client, replied}

-- Writes that may be applied are, and the reply says so.
pub record IsAvailable (c : Client) : Type 0 where
  pub writes :
      (w : Write) (s : c.State)
      → is_accepted (c.table s) w ≡ true
      → ((c.write_item w s).0 ≡ replied (new_row w.action (lookup w.key (c.table s))))
        × (c.table (c.write_item w s).1 ≡ apply_write w (c.table s))
  pub transacts :
      (ws : List Write) (s : c.State)
      → is_distinct ws ≡ true
      → all (is_accepted (c.table s)) ws ≡ true
      → ((c.transact_write_items ws s).0 ≡ replied tt)
        × (c.table (c.transact_write_items ws s).1 ≡ apply_writes ws (c.table s))
