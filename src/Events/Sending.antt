-- ===== src/Events/Sending.antt =====
-- What a response of send_event tells.
use pl8_base.Base.{ℕ, zero, suc, ◌≡◌, refl, ap, sym, ◌∙◌, Option, List, [], ◌∷◌, arith}
use pl8_base.Base.Text.{Text}
use pl8_base.Errors.{Result, ok, pure, raise}
use pl8_base.Dynamo.{Reply, replied, client_error, botocore_error}
use pl8_base.Events.{Event, Dict, Entry, Response, to_entry, on_count, on_put_events, send_event}

module _ {State : Type 0} (put_events : Entry → State → Reply Response × State)
    (dumps : Dict → Text) where
  of_count :
      (got : Response) (n : ℕ) (entries : List (Option Text)) (s : State) (response : Response)
      → (on_count put_events dumps got n entries s).0 ≡ ok response
      → (got ≡ response) × (n ≡ 0)
  unfolding pure raise
  of_count got zero entries s response h = (ok_injective h, refl)
    where
      ok_injective : {a b : Response} → Path (Result Response) (ok a) (ok b) → a ≡ b
      ok_injective h = ground arith
  of_count got (suc n) [] s response h = ground arith
  of_count got (suc n) (e ∷ es) s response h = ground arith

  of_reply :
      (r : Reply Response) (s : State) (response : Response)
      → (on_put_events put_events dumps r s).0 ≡ ok response
      → (r ≡ replied response) × (response.failed_entry_count ≡ 0)
  unfolding raise
  of_reply (replied got) s response h =
      let (same, none_failed) = of_count got got.failed_entry_count got.entries s response h in
      (ap replied same, ap (λ (x : Response). x.failed_entry_count) (sym same) ∙ none_failed)
  of_reply (client_error _) s response h = ground arith
  of_reply botocore_error s response h = ground arith

  -- send_event returns a response only where EventBridge gave it for the event's entry and reported
  -- no failed entry in it.
  pub send_event-ok :
      (e : Event) (source event_bus_name : Text) (s : State) (response : Response)
      → (send_event put_events dumps e source event_bus_name s).0 ≡ ok response
      → ((put_events (to_entry dumps e source event_bus_name) s).0 ≡ replied response)
        × (response.failed_entry_count ≡ 0)
  unfolding send_event
  send_event-ok e source event_bus_name s response h =
      let (r, s') = put_events (to_entry dumps e source event_bus_name) s in
      of_reply r s' response h
