-- ===== src/EventTests.antt =====
-- An event, sent and read back, and the theorems on it.
use pl8_base.Base.{ℕ, ◌≡◌, refl, ◌⊎◌, none, some, []}
use pl8_base.Base.Text.{Text, codes}
use pl8_base.Errors.{event_corrupted, ok, err, pure}
use pl8_base.Dynamo.{Reply, replied}
use pl8_base.Events.{
  Event, comment_deleted, Dict, Entry, Response, init_event, event_dict, to_entry, parse_event,
  send_event,
}
use pl8_base.Events.RoundTrip.{parse_event-event_dict, parse_event-total}
use pl8_base.Events.Sending.{send_event-ok}

abbrev an_event : Event
an_event = record {
  event_class = comment_deleted;
  type_version = codes "0.0.1";
  event_id = some (codes "0d1c");
  sent_at = some (codes "2025-01-01T00:00:00.000Z");
  space_id = codes "team-1";
  issue_id = codes "aaaaaa";
  own = some (codes "0199");
}

parse_event-event_dict_example :
    parse_event (codes "ffff") (codes "2026") (event_dict an_event) ≡ ok an_event
unfolding init_event
parse_event-event_dict_example =
    parse_event-event_dict (codes "ffff") (codes "2026") an_event refl refl

abbrev untyped : Dict
untyped key = none

parse_event-total_example :
    ((e : Event) × (parse_event (codes "ffff") (codes "2026") untyped ≡ ok e))
    ⊎ (parse_event (codes "ffff") (codes "2026") untyped ≡ err event_corrupted)
parse_event-total_example = parse_event-total (codes "ffff") (codes "2026") untyped refl

abbrev accepted : Response
accepted = record { failed_entry_count = 0; entries = [] }

-- The bus counts the entries that it was sent.
abbrev bus : Entry → ℕ → Reply Response × ℕ
bus entry n = (replied accepted, 1)

abbrev undumped : Dict → Text
undumped d = []

send_event-ok_example :
    ((bus (to_entry undumped an_event (codes "pl8") (codes "bus")) 0).0 ≡ replied accepted)
    × (accepted.failed_entry_count ≡ 0)
unfolding send_event pure
send_event-ok_example =
    send_event-ok bus undumped an_event (codes "pl8") (codes "bus") 0 accepted refl
