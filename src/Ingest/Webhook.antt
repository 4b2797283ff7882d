-- ===== src/Ingest/Webhook.antt =====
-- src/reclaimos/ingest/webhook.py: verify, normalise and append one delivery.
-- A body is its bytes. HMAC-SHA256, SHA-256, `str.strip`, `json.loads` and
-- `datetime.fromtimestamp` belong to Python's library; the clock and `uuid4` are arguments.
pub mod Delivery
use reclaim_os.Prelude.{
  ℕ, Text, codes, ◌++◌, Bool, true, false, not, ◌&&◌, ◌||◌, Option, none, some, List, [], ◌∷◌,
  is_empty, length, take, any, ltb, text_eq, if◌then◌else◌,
}
use reclaim_os.Prelude.Int.{ℤ, pos}
use reclaim_os.Prelude.Dict.{is_some, or_default}
use reclaim_os.Store.Canonical.{Value, Fields, object, field, end, str, int, float, bool}
use reclaim_os.Store.Events.{
  InboundEvent, StoredEvent, EventTable, EventAppended, stored, not_canonical, integrity_error,
  append_event,
}
use reclaim_os.Ingest.Json.{
  parsed, value_error, Instant, instant, bad_timestamp, out_of_range, Python, get_value, is_object,
  is_number, as_text, extract, distinguishing, or_else, text_is,
}
use reclaim_os.Ingest.Signature.{verify_signature}

pub record DerivedEventId : Type 0 where
  pub event_id : Text
  pub dedupable : Bool
  pub reason : Text

pub record IngestResult : Type 0 where
  pub accepted : Bool
  pub duplicate : Bool
  pub reason : Text
  pub event : StoredEvent
  pub dedupable : Bool

-- What `parse` returns, the ValueError that it raises with its text, or the OverflowError or
-- OSError of fromtimestamp.
pub data Envelope : Type 0 where
  event : InboundEvent → Envelope
  no_envelope : Text → Envelope
  timestamp_error : Envelope

-- `ingest` returns a result, or lets out what the event store, `compare_digest` or fromtimestamp
-- raises.
pub data Ingested : Type 0 where
  result : IngestResult → Ingested
  raised : EventAppended → Ingested
  type_error : Ingested
  instant_error : Ingested

module _ (py : Python) where
  -- `derive_event_id` of a body that is a JSON object
  unfoldable pub derive_event_id : Text → Text → Value → DerivedEventId
  derive_event_id uuid body raw =
      let digest = take 32 (py.sha256_hex body) in
      if distinguishing raw
      then record {
        event_id = codes "evt_body_" ++ digest;
        dedupable = true;
        reason = codes "body carries a timestamp and an entity id";
      }
      else record {
        event_id = codes "evt_nodedupe_" ++ (digest ++ (codes "_" ++ uuid));
        dedupable = false;
        reason =
            codes
              "body lacks a timestamp or an entity id, so a digest match cannot be distinguished from two separate events; not deduplicating";
      }

  unfoldable pub occurred_at : Text → Value → Instant
  occurred_at now raw = elim (get_value (codes "created_at") raw) [
    | none ↦ instant now
    | some v ↦ if is_number (some v) then py.from_timestamp v else instant now
  ]

  -- The last step of `parse`.
  unfoldable pub envelope_event : Value → Text → Text → Text → InboundEvent
  envelope_event raw event_id event_type at = record {
    event_id = event_id;
    event_type = event_type;
    occurred_at = at;
    signature_verified = true;
    payload = raw;
    subscription_id =
        or_else (extract raw (codes "subscription") (codes "id"))
          (extract raw (codes "payment") (codes "subscription_id"));
    payment_id = extract raw (codes "payment") (codes "id");
  }

  unfoldable pub parse : Text → Value → Text → Envelope
  unfolding envelope_event occurred_at
  parse now raw event_id =
      if text_is (codes "event") (get_value (codes "entity") raw)
      then elim (as_text (get_value (codes "event") raw)) [
        | none ↦ no_envelope (codes "not a Razorpay event envelope")
        | some event_type ↦ elim (occurred_at now raw) [
          | bad_timestamp why ↦ no_envelope why
          | out_of_range ↦ timestamp_error
          | instant at ↦ event (envelope_event raw event_id event_type at)
        ]
      ]
      else no_envelope (codes "not a Razorpay event envelope")

  abbrev rejection_payload : Text → Text → Value
  rejection_payload body reason = object (
      field (codes "body_sha256") (str (py.sha256_hex body)) (
        field (codes "body_bytes") (int (pos (length body)))
          (field (codes "reason") (str reason) end)))

  -- The event of a rejection.
  abbrev pub rejection : Text → Text → Text → InboundEvent
  rejection now body reason = record {
    event_id = codes "rej_" ++ take 32 (py.sha256_hex body);
    event_type = codes "webhook.rejected";
    occurred_at = now;
    signature_verified = false;
    payload = rejection_payload body reason;
    subscription_id = none;
    payment_id = none;
  }

  abbrev pub store_event : Text → InboundEvent → EventTable → EventAppended × EventTable
  store_event = append_event py.json_dumps py.read_json

  abbrev rejected_result : Text → EventAppended → Ingested
  rejected_result reason (stored e is_new) = result (record {
    accepted = false;
    duplicate = not is_new;
    reason = reason;
    event = e;
    dedupable = true;
  })
  rejected_result reason not_canonical = raised not_canonical
  rejected_result reason integrity_error = raised integrity_error

  -- `_reject`
  unfoldable pub reject_delivery : Text → Text → Text → EventTable → Ingested × EventTable
  reject_delivery now body reason t =
      let (answer, t') = store_event now (rejection now body reason) t in
      (rejected_result reason answer, t')

  abbrev pub accepted_reason : Bool → Option DerivedEventId → Text
  accepted_reason false derived = codes "redelivery of an already-recorded event"
  accepted_reason true none = codes "accepted"
  accepted_reason true (some d) =
      if d.dedupable then codes "accepted" else codes "accepted without deduplication: " ++ d.reason

  abbrev pub is_dedupable : Option DerivedEventId → Bool
  is_dedupable none = true
  is_dedupable (some d) = d.dedupable

  abbrev pub accepted_result : Option DerivedEventId → EventAppended → Ingested
  accepted_result derived (stored e is_new) = result (record {
    accepted = true;
    duplicate = not is_new;
    reason = accepted_reason is_new derived;
    event = e;
    dedupable = is_dedupable derived;
  })
  accepted_result derived not_canonical = raised not_canonical
  accepted_result derived integrity_error = raised integrity_error

  -- From `parse` on.
  unfoldable pub accept_delivery :
      Text → Text → Option DerivedEventId → Text → Value → EventTable → Ingested × EventTable
  unfolding reject_delivery
  accept_delivery now body derived event_id raw t = elim (parse now raw event_id) [
    | no_envelope why ↦ reject_delivery now body why t
    | timestamp_error ↦ (instant_error, t)
    | event e ↦ let (answer, t') = store_event now e t in (accepted_result derived answer, t')
  ]

  abbrev invalid_json : Text → Text
  invalid_json why = codes "body is not valid JSON: " ++ why

  -- The delivery whose signature verifies.
  unfoldable pub verified_delivery :
      Text → Text → Text → Option Text → EventTable → Ingested × EventTable
  unfolding accept_delivery derive_event_id
  verified_delivery now uuid body header t = elim (py.json_loads body) [
    | value_error why ↦ reject_delivery now body (invalid_json why) t
    | parsed raw ↦
        if not (is_object raw)
        then reject_delivery now body (codes "body is not a JSON object") t
        else elim header [
          | none ↦
              let d = derive_event_id uuid body raw in
              accept_delivery now body (some d) d.event_id raw t
          | some event_id ↦ accept_delivery now body none event_id raw t
        ]
  ]

  unfoldable pub ingest :
      Text → Text → Text → Option Text → Text → Option Text → EventTable → Ingested × EventTable
  unfolding verified_delivery
  ingest now uuid body signature secret header t =
      elim (verify_signature py body signature secret) [
        | none ↦ (type_error, t)
        | some false ↦ reject_delivery now body (codes "signature verification failed") t
        | some true ↦ verified_delivery now uuid body header t
      ]
