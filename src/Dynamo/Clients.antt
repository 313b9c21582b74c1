-- ===== src/Dynamo/Clients.antt =====
-- The boto3 clients, the clock and the random sources as the manager calls them: a parameter of the
-- model. A call takes the state of the world and gives a reply, or one of botocore's two exceptions.
use pl8_base.Base.{ℕ, Option, List, String}
use pl8_base.Base.Text.{Text}
use pl8_base.Dynamo.Rows.{Item}
use pl8_base.Dynamo.PrimaryKey.{Key}
use pl8_base.Dynamo.Tables.{Table}
use pl8_base.Dynamo.Request.{Write}
use pl8_base.Dynamo.Queries.{Query, Page}

-- One entry of CancellationReasons; `reason.get` gives None where a field is absent.
pub record Reason : Type 0 where
  pub code : Option String
  pub item : Option Item

-- A ClientError's response: Error.Code, CancellationReasons and Item.
pub record ClientError : Type 0 where
  pub code : String
  pub reasons : Option (List Reason)
  pub item : Option Item

pub data Reply {ℓ} (A : Type ℓ) : Type ℓ where
  replied : A → Reply A
  client_error : ClientError → Reply A
  botocore_error : Reply A

-- What `uuid.UUID(value)` gives: the version and the 48 bit timestamp of a UUIDv7.
pub record Uuid : Type 0 where
  pub version : ℕ
  pub time : ℕ

pub record Client : Type 1 where
  pub State : Type 0
  -- What the table holds; the manager does not see it but through the calls.
  pub table : State → Table
  -- isotime(): the clock, rendered.
  pub isotime : State → Text × State
  -- secrets.choice(alphabet)
  pub choice : Text → State → ℕ × State
  -- str(uuid7())
  pub uuid7 : State → Text × State
  -- uuid.UUID(value), and isotime of a millisecond timestamp.
  pub parse_uuid : Text → Option Uuid
  pub render_time : ℕ → Text
  -- time.sleep(random.uniform(0, interval)), the interval in hundredths of a second.
  pub sleep : ℕ → State → State
  pub get_item : Key → State → Reply (Option Item) × State
  -- put_item, update_item or delete_item, by the action; the reply has the new attributes.
  pub write_item : Write → State → Reply (Option Item) × State
  pub transact_write_items : List Write → State → Reply (Unit {0}) × State
  -- int(time.time())
  pub time : State → ℕ × State
  pub query : Query → State → Reply Page × State
