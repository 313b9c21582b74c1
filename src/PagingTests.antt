-- ===== src/PagingTests.antt =====
-- Runs of the paged and the attachment operations on small inputs, and the theorems on them.
use native.Mathlib.Omega.{arith as omega_arith}
use Prim.Native.Nat.{◌%◌}
use pl8_base.Base.{
  ℕ, zero, suc, ◌+◌, ◌-◌, ◌*◌, ◌<◌, ◌≡◌, refl, ap, sym, ◌∙◌, Bool, true, false, Option, none, some,
  [], ◌∷◌, ◌++◌, length, ◌==◌, arith, if◌then◌else◌,
}
use pl8_base.Base.Text.{Text, codes, contains}
use pl8_base.Base.Json.{
  Json, json_null, json_bool, json_int, json_str, json_array, json_object, Fields, no_fields, field,
}
use pl8_base.Errors.{Result, ok, err, Exec, pure, ◌>>=◌}
use pl8_base.Util.{
  Codec, IsCodec, equals_signs, str, encode_pagination_cursor, decode_pagination_cursor,
}
use pl8_base.Dynamo.{Table, lookup}
use pl8_base.Dynamo.Memory.{memory}
use pl8_base.Types.{
  Gzip, IssueAttachment, pending, uploaded, is_uploaded, issue_pk, default_type_version,
  first_version,
}
use pl8_base.Types.Serialize.{serialize_attachment}
use pl8_base.Manager.Parse.{BaseObject, issue_attachment}
use pl8_base.Manager.Query.{Rows}
use pl8_base.Manager.Paginate.{paginate, unfinished}
use pl8_base.Manager.PaginateLaws.{Advances, paginate-ends}
use pl8_base.Issue.{apply_idempotent_transaction}
use pl8_base.Attachment.{
  pending_attachment_delete, reread, own_key, attachment_delete_attempts, delete_ladder,
  delete_attachment_with_counters,
}
use pl8_base.Attachment.Ladder.{RereadSettled, delete_attachment_with_counters-attempts}
use pl8_base.Samples.{plain, stale, current}
use pl8_base.Util.CursorLaws.{decode_pagination_cursor-encode}

-- A codec of start keys of one empty attribute. A byte is two characters of base64 here.
abbrev dumped : Json → Option Text
dumped (json_object (field k (json_object no_fields) no_fields)) = some k
dumped _ = none

abbrev two_each : Text → Text
two_each [] = []
two_each (b ∷ t) = (b + 62) ∷ 65 ∷ two_each t

abbrev from_two_each : Text → Text
from_two_each (c ∷ d ∷ t) = let rest = from_two_each t in if c == b'=' then [] else (c - 62) ∷ rest
from_two_each _ = []

abbrev encoded : Text → Text
encoded t = two_each t ++ equals_signs (2 * (length t % 2))

abbrev small_codec : Codec
small_codec = record {
  dumps = dumped;
  loads = λ t. some (json_object (field t (json_object no_fields) no_fields));
  encode_utf8 = λ t. t;
  decode_utf8 = λ t. some t;
  urlsafe_b64encode = encoded;
  urlsafe_b64decode = λ t. some (from_two_each t);
}

from_two_each-padded : (t : Text) (n : ℕ) → from_two_each (two_each t ++ equals_signs n) ≡ t
from_two_each-padded [] zero = refl
from_two_each-padded [] (suc zero) = refl
from_two_each-padded [] (suc (suc n)) = refl
from_two_each-padded (b ∷ t) n = ground (arith, from_two_each-padded t n)

two_each-clean : (t : Text) → contains b'=' (two_each t) ≡ false
two_each-clean [] = refl
two_each-clean (b ∷ t) = ground (arith, two_each-clean t)

length-two_each : (t : Text) → length (two_each t) ≡ 2 * length t
length-two_each [] = refl
length-two_each (b ∷ t) = ground (arith, length-two_each t)

groups_of_four : (n : ℕ) → (2 * n + 2 * (n % 2)) % 4 ≡ 0
groups_of_four n = omega omega_arith

dumped-loaded :
    (v : Json) (t : Text)
    → dumped v ≡ some t
    → some (json_object (field t (json_object no_fields) no_fields)) ≡ some v
dumped-loaded (json_object (field k (json_object no_fields) no_fields)) t h = ground arith
dumped-loaded (json_object (field k (json_object no_fields) (field l w rest))) t h = ground arith
dumped-loaded (json_object (field k (json_object (field l w more)) rest)) t h = ground arith
dumped-loaded (json_object (field k json_null rest)) t h = ground arith
dumped-loaded (json_object (field k (json_bool b) rest)) t h = ground arith
dumped-loaded (json_object (field k (json_int n) rest)) t h = ground arith
dumped-loaded (json_object (field k (json_str x) rest)) t h = ground arith
dumped-loaded (json_object (field k (json_array xs) rest)) t h = ground arith
dumped-loaded (json_object no_fields) t h = ground arith
dumped-loaded json_null t h = ground arith
dumped-loaded (json_bool b) t h = ground arith
dumped-loaded (json_int n) t h = ground arith
dumped-loaded (json_str x) t h = ground arith
dumped-loaded (json_array xs) t h = ground arith

small_codec-IsCodec : IsCodec small_codec
small_codec-IsCodec = record {
  loads_dumps = dumped-loaded;
  decode_encode = λ t. refl;
  b64decode_b64encode = λ t. ap some (from_two_each-padded t _);
  b64_shape = λ t. (
    two_each t,
    2 * (length t % 2),
    refl,
    two_each-clean t,
    omega omega_arith,
    rw (length-two_each t) (groups_of_four (length t)),
  );
}

abbrev start_key : Fields
start_key = field (codes "SK1") (json_object no_fields) no_fields

decode_pagination_cursor-encode_example :
    decode_pagination_cursor small_codec (str (145 ∷ 65 ∷ 137 ∷ 65 ∷ 111 ∷ 65 ∷ [])) ≡ ok start_key
unfolding encode_pagination_cursor
decode_pagination_cursor-encode_example =
    decode_pagination_cursor-encode small_codec small_codec-IsCodec start_key
      (145 ∷ 65 ∷ 137 ∷ 65 ∷ 111 ∷ 65 ∷ []) refl refl

-- Two pages, the first of which hands over a cursor.
abbrev two_pages : Option Text → Exec (Unit {0}) Rows
two_pages none = pure ([], some (codes "next"))
two_pages (some cursor) = pure ([], none)

abbrev pages_left : Option Text → ℕ
pages_left none = 1
pages_left (some cursor) = 0

abbrev keep_going : BaseObject → Exec (Unit {0}) Bool
keep_going x = pure true

two_pages-Advances : Advances keep_going two_pages pages_left
unfolding pure
two_pages-Advances = record { further = steps }
  where
    steps :
        (cursor : Option Text) (next : Text) (page : Rows) (s : Unit {0})
        → (two_pages cursor s).0 ≡ ok page
        → page.1 ≡ some next
        → pages_left (some next) < pages_left cursor
    steps none next page s got more = ground arith
    steps (some cursor) next page s got more = ground arith

paginate-ends_example : ¬ ((paginate keep_going two_pages 2 none tt).0 ≡ ok unfinished)
paginate-ends_example =
    paginate-ends keep_going two_pages pages_left 2 none tt two_pages-Advances (ground arith)

abbrev uploaded_row : Table
uploaded_row = (own_key stale, serialize_attachment current) ∷ []

abbrev shows_uploaded : Result (Option (Option BaseObject)) → Bool
shows_uploaded (ok (some (some (issue_attachment y)))) = is_uploaded y.status
shows_uploaded _ = true

refused_state :
    (apply_idempotent_transaction memory plain
      (pending_attachment_delete stale ∷ [])
      uploaded_row).1
    ≡ uploaded_row
unfolding ◌>>=◌ apply_idempotent_transaction pl8_base.Manager.Retry.retried
    pl8_base.Manager.Retry.retry_loop pl8_base.Manager.Retry.retry_on_transaction_conflict lookup
    pl8_base.Dynamo.transact_write_items pending_attachment_delete serialize_attachment
    pl8_base.Manager.Failure.raise_for_transaction_conflict
    pl8_base.Manager.Failure.is_transaction_conflict pl8_base.Issue.first_failed
    pl8_base.Manager.Failure.failed_reason_item pl8_base.Manager.Failure.is_failed_entry
    pl8_base.Manager.Failure.cancellation_reasons pure pl8_base.Errors.raise
    pl8_base.Manager.Parse.parse_item pl8_base.Types.FromItem.attachment_from_item
refused_state = refl

shown_uploaded : shows_uploaded (reread memory plain stale uploaded_row).0 ≡ true
unfolding ◌>>=◌ pl8_base.Errors.catch_missing pl8_base.Manager.Failure.get_primary_item
    pl8_base.Dynamo.get_item lookup pl8_base.Manager.Parse.parse_item serialize_attachment
    pl8_base.Types.FromItem.attachment_from_item pl8_base.Types.init_attachment pure
    pl8_base.Manager.Parse.isotime_from_uuid7
shown_uploaded = refl

stale-RereadSettled : RereadSettled memory plain stale uploaded_row
stale-RereadSettled = record {
  settled = λ a y refused read.
      ap shows_uploaded (sym read)
      ∙ (ap (λ t. shows_uploaded (reread memory plain stale t).0) refused_state ∙ shown_uploaded);
}

delete_attachment_with_counters_example :
    delete_ladder memory plain (attachment_delete_attempts + 3) stale true true uploaded_row
    ≡ delete_attachment_with_counters memory plain stale true true uploaded_row
delete_attachment_with_counters_example =
    delete_attachment_with_counters-attempts memory plain 3 stale true true uploaded_row
      stale-RereadSettled
