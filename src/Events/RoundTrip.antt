-- ===== src/Events/RoundTrip.antt =====
-- Events are read back as they were sent, and a detail that is no event is refused as corrupted.
use pl8_base.Base.{◌≡◌, refl, ap, ◌∙◌, Bool, true, false, ◌⊎◌, inl, inr, Option, none, some, arith}
use pl8_base.Base.Text.{Text, codes}
use pl8_base.Base.Json.{Json, json_null, json_bool, json_int, json_str, json_array, json_object}
use pl8_base.Errors.{event_corrupted, ok, err}
use pl8_base.Events.{
  EventClass, attachment_deleted, comment_deleted, blockers_zeroed, issue_deleted, issue_done,
  issue_ready, own_field, Event, init_event, Dict, event_dict, optional_str, optional_field,
  checked, event_class_of, converted, of_class, of_type, parse_event,
}

-- The event has its class's own field, and no other.
abbrev pub is_complete : Event → Bool
is_complete e = elim (own_field e.event_class) [
  | none ↦ elim e.own [ none ↦ true | some _ ↦ false ]
  | some _ ↦ elim e.own [ none ↦ false | some _ ↦ true ]
]

optional_back : (o : Option Text) → optional_field (some (optional_str o)) ≡ some o
optional_back none = refl
optional_back (some t) = refl

module _ (uuid now version : Text) (event_id sent_at : Option Text) (sp id : Text) where
  abbrev event_of : EventClass → Option Text → Event
  event_of cls own = record {
    event_class = cls;
    type_version = version;
    event_id = event_id;
    sent_at = sent_at;
    space_id = sp;
    issue_id = id;
    own = own;
  }

  parsed_back :
      (cls : EventClass) (own : Option Text)
      → is_complete (event_of cls own) ≡ true
      → parse_event uuid now (event_dict (event_of cls own))
        ≡ ok (init_event uuid now (event_of cls own))
  unfolding parse_event event_dict event_class_of converted
  parsed_back attachment_deleted (some t) h =
      ground (arith, optional_back event_id, optional_back sent_at)
  parsed_back comment_deleted (some t) h =
      ground (arith, optional_back event_id, optional_back sent_at)
  parsed_back blockers_zeroed none h = ground (arith, optional_back event_id, optional_back sent_at)
  parsed_back issue_deleted none h = ground (arith, optional_back event_id, optional_back sent_at)
  parsed_back issue_done none h = ground (arith, optional_back event_id, optional_back sent_at)
  parsed_back issue_ready none h = ground (arith, optional_back event_id, optional_back sent_at)
  parsed_back attachment_deleted none h = ground arith
  parsed_back comment_deleted none h = ground arith
  parsed_back blockers_zeroed (some t) h = ground arith
  parsed_back issue_deleted (some t) h = ground arith
  parsed_back issue_done (some t) h = ground arith
  parsed_back issue_ready (some t) h = ground arith

-- parse_event reads an event back from its dict, whatever uuid4 and isotime would return, if
-- __post_init__ leaves the event as it is and it has the field of its class and no other.
pub parse_event-event_dict :
    (uuid now : Text) (e : Event)
    → is_complete e ≡ true
    → init_event uuid now e ≡ e
    → parse_event uuid now (event_dict e) ≡ ok e
parse_event-event_dict uuid now e complete built =
    parsed_back uuid now e.type_version e.event_id e.sent_at e.space_id e.issue_id e.event_class
      e.own complete
    ∙ ap ok built

-- A type that is a list or a dict.
abbrev pub is_unhashable : Option Json → Bool
is_unhashable (some (json_array _)) = true
is_unhashable (some (json_object _)) = true
is_unhashable _ = false

class_result :
    (uuid now : Text) (detail : Dict) (o : Option EventClass)
    → ((e : Event) × (of_class uuid now detail o ≡ ok e))
      ⊎ (of_class uuid now detail o ≡ err event_corrupted)
class_result uuid now detail none = inr refl
class_result uuid now detail (some cls) = of_converted (converted cls detail)
  where
    of_converted :
        (o : Option Event)
        → ((e : Event) × (checked uuid now o ≡ ok e)) ⊎ (checked uuid now o ≡ err event_corrupted)
    of_converted none = inr refl
    of_converted (some e) = inl (init_event uuid now e, refl)

type_result :
    (uuid now : Text) (detail : Dict) (o : Option Json)
    → is_unhashable o ≡ false
    → ((e : Event) × (of_type uuid now detail o ≡ ok e))
      ⊎ (of_type uuid now detail o ≡ err event_corrupted)
type_result uuid now detail (some (json_str name)) h =
    class_result uuid now detail (event_class_of name)
type_result uuid now detail (some (json_array _)) h = ground arith
type_result uuid now detail (some (json_object _)) h = ground arith
type_result uuid now detail (some json_null) h = inr refl
type_result uuid now detail (some (json_bool _)) h = inr refl
type_result uuid now detail (some (json_int _)) h = inr refl
type_result uuid now detail none h = inr refl

-- parse_event gives an event or raises EventCorruptedError, for every detail whose type is not a
-- list or a dict.
pub parse_event-total :
    (uuid now : Text) (detail : Dict)
    → is_unhashable (detail (codes "type")) ≡ false
    → ((e : Event) × (parse_event uuid now detail ≡ ok e))
      ⊎ (parse_event uuid now detail ≡ err event_corrupted)
unfolding parse_event
parse_event-total uuid now detail h = type_result uuid now detail (detail (codes "type")) h
