-- ===== src/Events.antt =====
-- types/events.py, EVENT_CLASS_MAP, and send_event and parse_event (util.py). The EventBridge client
-- and json.dumps are parameters. A dict is a function of its keys, so it has no order.
pub mod RoundTrip
pub mod Sending
use pl8_base.Base.{
  ℕ, zero, suc, Bool, true, false, Option, none, some, List, [], ◌∷◌, if◌then◌else◌,
}
use pl8_base.Base.Text.{Text, codes, text_eq}
use pl8_base.Base.Json.{Json, json_null, json_bool, json_int, json_str, json_array, json_object}
use pl8_base.Errors.{
  event_send, event_corrupted, python_error, Result, ok, err, Exec, pure, raise, ◌>>=◌,
}
use pl8_base.Dynamo.{Reply, replied, client_error, botocore_error}

-- The event classes.
pub data EventClass : Type 0 where
  attachment_deleted comment_deleted blockers_zeroed issue_deleted issue_done issue_ready :
      EventClass

-- type(self).__name__, which is the tag too.
abbrev pub class_name : EventClass → Text
class_name attachment_deleted = codes "IssueAttachmentDeleted"
class_name comment_deleted = codes "IssueCommentDeleted"
class_name blockers_zeroed = codes "IssueNumActiveBlockersZeroed"
class_name issue_deleted = codes "IssueDeleted"
class_name issue_done = codes "IssueDone"
class_name issue_ready = codes "IssueReady"

-- The field that a class has beside space_id and issue_id.
abbrev pub own_field : EventClass → Option Text
own_field attachment_deleted = some (codes "attachment_id")
own_field comment_deleted = some (codes "comment_id")
own_field _ = none

-- An event of some class; `own` is the value of its own field, if the class has one.
pub record Event : Type 0 where
  pub event_class : EventClass
  pub type_version : Text
  pub event_id : Option Text
  pub sent_at : Option Text
  pub space_id : Text
  pub issue_id : Text
  pub own : Option Text

abbrev pub or_fresh : Text → Option Text → Option Text
or_fresh fresh none = some fresh
or_fresh fresh (some []) = some fresh
or_fresh fresh (some (c ∷ t)) = some (c ∷ t)

-- BaseEvent.__post_init__, at what str(uuid.uuid4()) and isotime() return.
unfoldable pub init_event : Text → Text → Event → Event
init_event uuid now e = record e {
  event_id = or_fresh uuid e.event_id;
  sent_at = or_fresh now e.sent_at;
}

abbrev pub Dict : Type 0
Dict = Text → Option Json

abbrev pub optional_str : Option Text → Json
optional_str none = json_null
optional_str (some t) = json_str t

abbrev pub own_value : Option Text → Option Text → Text → Option Json
own_value (some name) (some value) key = if text_eq key name then some (json_str value) else none
own_value _ _ key = none

-- BaseEvent.dict
unfoldable pub event_dict : Event → Dict
event_dict e key =
    if text_eq key (codes "type")
    then some (json_str (class_name e.event_class))
    else if text_eq key (codes "type_version")
    then some (json_str e.type_version)
    else if text_eq key (codes "event_id")
    then some (optional_str e.event_id)
    else if text_eq key (codes "sent_at")
    then some (optional_str e.sent_at)
    else if text_eq key (codes "space_id")
    then some (json_str e.space_id)
    else if text_eq key (codes "issue_id")
    then some (json_str e.issue_id)
    else own_value (own_field e.event_class) e.own key

-- An entry of put_events.
pub record Entry : Type 0 where
  pub source : Text
  pub detail_type : Text
  pub detail : Text
  pub event_bus_name : Text

-- BaseEvent.to_entry
unfoldable pub to_entry : (Dict → Text) → Event → Text → Text → Entry
to_entry dumps e source event_bus_name = record {
  source = source;
  detail_type = class_name e.event_class;
  detail = dumps (event_dict e);
  event_bus_name = event_bus_name;
}

-- What put_events answers: FailedEntryCount, 0 where it is left out, and the ErrorCodes of Entries.
pub record Response : Type 0 where
  pub failed_entry_count : ℕ
  pub entries : List (Option Text)

module _ {State : Type 0} (put_events : Entry → State → Reply Response × State)
    (dumps : Dict → Text) where
  -- `response["Entries"][0]` is an IndexError where there is no entry.
  abbrev pub on_count : Response → ℕ → List (Option Text) → Exec State Response
  on_count response zero entries = pure response
  on_count response (suc _) [] = raise python_error
  on_count response (suc _) (failed ∷ _) = raise event_send

  abbrev pub on_put_events : Reply Response → Exec State Response
  on_put_events (replied response) = on_count response response.failed_entry_count response.entries
  on_put_events (client_error _) = raise event_send
  on_put_events botocore_error = raise event_send

  unfoldable pub send_event : Event → Text → Text → Exec State Response
  send_event e source event_bus_name s =
      let (r, s') = put_events (to_entry dumps e source event_bus_name) s in on_put_events r s'

-- EVENT_CLASS_MAP.get
unfoldable pub event_class_of : Text → Option EventClass
event_class_of name =
    if text_eq name (codes "IssueAttachmentDeleted")
    then some attachment_deleted
    else if text_eq name (codes "IssueCommentDeleted")
    then some comment_deleted
    else if text_eq name (codes "IssueNumActiveBlockersZeroed")
    then some blockers_zeroed
    else if text_eq name (codes "IssueDeleted")
    then some issue_deleted
    else if text_eq name (codes "IssueDone")
    then some issue_done
    else if text_eq name (codes "IssueReady")
    then some issue_ready
    else none

-- The fields of msgspec.convert; `none` is its ValidationError.
abbrev pub str_field : Option Json → Option Text
str_field (some (json_str t)) = some t
str_field _ = none

abbrev pub str_field_or : Text → Option Json → Option Text
str_field_or default none = some default
str_field_or default (some (json_str t)) = some t
str_field_or default (some _) = none

abbrev pub optional_field : Option Json → Option (Option Text)
optional_field none = some none
optional_field (some json_null) = some none
optional_field (some (json_str t)) = some (some t)
optional_field (some _) = none

abbrev pub own_field_of : Option Text → Dict → Option (Option Text)
own_field_of none detail = some none
own_field_of (some name) detail = elim (str_field (detail name)) [
  | none ↦ none
  | some t ↦ some (some t)
]

unfoldable pub converted : EventClass → Dict → Option Event
converted cls detail = elim (str_field_or (codes "0.0.1") (detail (codes "type_version"))) [
  | none ↦ none
  | some type_version ↦ elim (optional_field (detail (codes "event_id"))) [
    | none ↦ none
    | some event_id ↦ elim (optional_field (detail (codes "sent_at"))) [
      | none ↦ none
      | some sent_at ↦ elim (str_field (detail (codes "space_id"))) [
        | none ↦ none
        | some space_id ↦ elim (str_field (detail (codes "issue_id"))) [
          | none ↦ none
          | some issue_id ↦ elim (own_field_of (own_field cls) detail) [
            | none ↦ none
            | some own ↦ some (record {
              event_class = cls;
              type_version = type_version;
              event_id = event_id;
              sent_at = sent_at;
              space_id = space_id;
              issue_id = issue_id;
              own = own;
            })
          ]
        ]
      ]
    ]
  ]
]

abbrev pub checked : Text → Text → Option Event → Result Event
checked uuid now none = err event_corrupted
checked uuid now (some e) = ok (init_event uuid now e)

abbrev pub of_class : Text → Text → Dict → Option EventClass → Result Event
of_class uuid now detail none = err event_corrupted
of_class uuid now detail (some cls) = checked uuid now (converted cls detail)

-- A list or a dict is no key of EVENT_CLASS_MAP: that is a TypeError.
abbrev pub of_type : Text → Text → Dict → Option Json → Result Event
of_type uuid now detail (some (json_str name)) = of_class uuid now detail (event_class_of name)
of_type uuid now detail (some (json_array _)) = err python_error
of_type uuid now detail (some (json_object _)) = err python_error
of_type uuid now detail _ = err event_corrupted

unfoldable pub parse_event : Text → Text → Dict → Result Event
parse_event uuid now detail = of_type uuid now detail (detail (codes "type"))
