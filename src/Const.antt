-- ===== src/Const.antt =====
-- const.py.
use pl8_base.Base.{ℕ, ◌*◌, String}

abbrev pub max_issue_id_len : ℕ
max_issue_id_len = 16

abbrev pub min_issue_id_len : ℕ
min_issue_id_len = 3

abbrev pub retry_issue_id_collisions : ℕ
retry_issue_id_collisions = 5

abbrev pub max_space_id_len : ℕ
max_space_id_len = 64

abbrev pub max_creator_len : ℕ
max_creator_len = 256

abbrev pub transact_retry_attempts : ℕ
transact_retry_attempts = 5

-- Seconds in the source, 0.05 and 1.0; here hundredths of a second.
abbrev pub transact_retry_base_delay : ℕ
transact_retry_base_delay = 5

abbrev pub transact_retry_max_delay : ℕ
transact_retry_max_delay = 100

abbrev pub transact_conflict_reason : String
transact_conflict_reason = "TransactionConflict"

abbrev pub transact_conflict_code : String
transact_conflict_code = "TransactionConflictException"

abbrev pub condition_failed_reason : String
condition_failed_reason = "ConditionalCheckFailed"

abbrev pub condition_failed_code : String
condition_failed_code = "ConditionalCheckFailedException"

abbrev pub max_attachment_size_bytes : ℕ
max_attachment_size_bytes = 100 * 1024 * 1024

abbrev pub max_attachment_name_len : ℕ
max_attachment_name_len = 128

abbrev pub max_content_type_len : ℕ
max_content_type_len = 128

abbrev pub attachment_pending_ttl_seconds : ℕ
attachment_pending_ttl_seconds = 86_400

abbrev pub presign_expiry_seconds : ℕ
presign_expiry_seconds = 300
