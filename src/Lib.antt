-- ===== src/Lib.antt =====
-- The data layer of PL8: Spaces, Issues, their blockers, comments and attachments, kept as rows of
-- one DynamoDB table (src/pl8_base).
--
-- Dynamo: attribute values, rows, the table, the writes that the manager builds, and the client that
-- answers them. The client is a parameter: Dynamo.Clients has its calls, Dynamo.Documented what the
-- services document of them (a write is applied whole or not at all and never names a row twice, a
-- refused one applies nothing, a call that breaks off may have been applied), and Dynamo.Memory an
-- instance. A condition or update expression and its placeholder dictionaries are represented by the
-- clauses that they spell.
-- Types: src/pl8_base/types. Each entity as a record, its __post_init__ (init_*), serialize and
-- from_item; Dict has dict and public_dict. gzip is a parameter (Types.Compression). Every str is the list of its code points.
-- Const, Errors: src/pl8_base/const.py and errors.py. Exec is an action on the state of the world that
-- returns a value or raises an Error; what was written before a raise stays written.
-- Storage: the S3 client, which is a parameter too.
-- Util: the validators, gen_issue_id and the pagination cursors of src/pl8_base/util.py. The json and
-- base64 packages are a parameter (Util.Cursor).
-- Manager: src/pl8_base/manager.py and the retry decorator of util.py. Parse is parse_item, Failure the
-- reading of failed calls, Update is _build_update and apply_update, Retry the decorator, Query and
-- Paginate are run_query and paginate; Keeps, Reads, Validated and QuerySteps say what an action does
-- to the table from what its requests do.
-- Space, Issue, Comment, Attachment: src/pl8_base/mixins. Writes and Requests have the requests, the
-- other files the operations with their retries, validation, error paths and fall-backs; Steps has
-- what they keep of the table. Issue.Blame and Attachment.Ladder are about the idempotent
-- transactions and the ladder of deletes. Paged has the paged reads, Handlers the event handlers that
-- loop over pages.
-- Events: src/pl8_base/types/events.py, and send_event and parse_event of util.py.
-- Counts: the counters that one row keeps over others. Scheme is the general form, Schemes the four
-- counters, the other files the requests that move them or leave them alone.
-- Session: every list of writes that the operations send, calls, and sequences of calls.
-- Lifecycle: the abstract view of an Issue, its status and active blockers, with the diagram of its
-- acts and steps (Diagram), each write of a request as such a step (Requests), the acts of each
-- request (Sent), and runs of accepted requests along the diagram (Sessions). The act of an attachment's
-- delete is to drop the row that its key fields name, since those are what the code deletes by.
-- Causes: what an exception says of the table. Rules has one rule for each way to build an action,
-- Entries is about cancellation reasons, Updates about apply_update, the rest about operations.
-- Available: what operations achieve with a client that refuses nothing that it may apply
-- (Dynamo.Available), with one rule for each way to build an action.
-- Samples, Tests, EventTests, EntityTests, AttachmentTests, PagingTests, SessionTests, LifecycleTests,
-- CauseTests, CommentTests, AvailableTests, ReadTests: small inputs, and each theorem that has hypotheses at
-- one of them.
--
-- The create_issue loop has RETRY_ISSUE_ID_COLLISIONS rounds and the retry loop five attempts, as in
-- the source, and the ladder of deletes has ATTACHMENT_DELETE_ATTEMPTS. A loop over pages has fuel for
-- them and says so where it is out of it: how much is enough depends on how many pages the table has,
-- which Manager.PaginateLaws says. No other bound is chosen. Delays are in hundredths of a second.
--
-- Not modelled: logging, the messages of exceptions, and what TypeDeserializer, cleanup_decimals and
-- serialize_value make of Python numbers and enum members: a row has integers and texts already.
-- Python arguments of a wrong type are modelled for the validators only.
pub mod Base
pub mod Const
pub mod Errors
pub mod Dynamo
pub mod Storage
pub mod Types
pub mod Util
pub mod Manager
pub mod Space
pub mod Issue
pub mod Comment
pub mod Attachment
pub mod Paged
pub mod Handlers
pub mod Events
pub mod Counts
pub mod Session
pub mod Lifecycle
pub mod Causes
pub mod Available
pub mod Samples
pub mod EventTests
pub mod EntityTests
pub mod AttachmentTests
pub mod PagingTests
pub mod SessionTests
pub mod LifecycleTests
pub mod CauseTests
pub mod CommentTests
pub mod AvailableTests
pub mod ReadTests
pub mod Tests
