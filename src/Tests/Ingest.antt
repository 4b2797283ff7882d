-- ===== src/Tests/Ingest.antt =====
-- Two signed bodies under one empty event id, and a forged one.
use reclaim_os.Prelude.{
  Text, codes, ◌≡◌, ◌≢◌, refl, true, false, none, some, [], ◌∷◌, ◌++◌, text_eq, arith,
}
use reclaim_os.Store.Canonical.{
  canonical_json, money_is_integer, ends_with, encodable, Value, object, field, end, str,
}
use reclaim_os.Store.Events.{
  EventTable, InboundEvent, count_events, append_event, insert_event, get_event, to_event,
}
use reclaim_os.Store.Events.Log.{Logged, append_events, append_events-Logged}
use reclaim_os.Ingest.Json.{Python, parsed, instant, get_value, extract}
use reclaim_os.Ingest.Signature.{verify_signature}
use reclaim_os.Ingest.Webhook.{Ingested, IngestResult, result, ingest, parse}
use reclaim_os.Policy.Executor.Results.{get_field}
use reclaim_os.Ingest.Webhook.Delivery.{is_accepted, ingest_second, ingest_forged}
use reclaim_os.Tests.Fixtures.{sha, dumps, loads}

-- The bodies "a" and "b" stand for two envelopes with their own types.
abbrev json_of : Text → Value
json_of body =
    object (field (codes "entity") (str (codes "event")) (field (codes "event") (str body) end))

abbrev py : Python
py = record {
  hmac_hex = λ secret body. secret ++ body;
  sha256_hex = sha;
  strip = λ s. s;
  json_loads = λ body. parsed (json_of body);
  json_dumps = dumps;
  read_json = loads;
  from_timestamp = λ v. instant (codes "t");
}

abbrev no_events : EventTable
no_events = record { rows = []; autoincrement = 0 }

abbrev delivery : Text → EventTable → Ingested × EventTable
delivery body =
    ingest py (codes "now") (codes "u") body (some (codes "s" ++ body)) (codes "s") (some [])

abbrev event_a : InboundEvent
event_a = record {
  event_id = codes "evt_1";
  event_type = codes "payment.failed";
  occurred_at = codes "t";
  signature_verified = true;
  payload = json_of (codes "a");
  subscription_id = none;
  payment_id = none;
}

append_events-Logged_example :
    Logged dumps loads
      (codes "evt_1")
      no_events
      (append_events dumps loads ((codes "1", event_a) ∷ ((codes "2", event_a) ∷ [])) no_events)
append_events-Logged_example =
    append_events-Logged dumps loads (codes "evt_1")
      ((codes "1", event_a) ∷ ((codes "2", event_a) ∷ [])) no_events (omega arith)

abbrev first : IngestResult
first = record {
  accepted = true;
  duplicate = false;
  reason = codes "accepted";
  event = record {
    inbound = record {
      event_id = [];
      event_type = codes "a";
      occurred_at = codes "now";
      signature_verified = true;
      payload = loads (codes "{}");
      subscription_id = none;
      payment_id = none;
    };
    seq = 1;
    received_at = codes "now";
  };
  dedupable = true;
}

ingest_a : (delivery (codes "a") no_events).0 ≡ result first
unfolding ingest text_eq parse get_value get_field append_event canonical_json money_is_integer
    ends_with encodable insert_event get_event to_event extract verify_signature
ingest_a = refl

ingest_b : is_accepted (delivery (codes "b") no_events).0 ≡ true
unfolding ingest text_eq parse get_value get_field append_event canonical_json money_is_integer
    ends_with encodable insert_event get_event to_event extract verify_signature
ingest_b = refl

ingest_second_example : delivery (codes "b") (delivery (codes "a") no_events).1 ≡ (
  result
      (record first { duplicate = true; reason = codes "redelivery of an already-recorded event" }),
  (delivery (codes "a") no_events).1,
)
ingest_second_example =
    ingest_second py (codes "now") (codes "u") (codes "a") (codes "now") (codes "u") (codes "b")
      (some (codes "sa")) (some (codes "sb")) (codes "s") [] no_events no_events first ingest_a refl
      ingest_b

unsigned : verify_signature py (codes "a") none (codes "s") ≢ some true
unfolding verify_signature
unsigned e = ground (arith, e)

ingest_forged_example :
    (is_accepted (ingest py (codes "now") (codes "u") (codes "a") none (codes "s") none no_events).0
      ≡ false)
    × (count_events true
          (ingest py (codes "now") (codes "u") (codes "a") none (codes "s") none no_events).1
        ≡ count_events true no_events)
ingest_forged_example =
    ingest_forged py (codes "now") (codes "u") (codes "a") none (codes "s") none no_events unsigned
