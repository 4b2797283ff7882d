-- ===== src/Live/Receiver.antt =====
-- src/reclaimos/live/webhook_receiver.py: the handler and its state. The headers of a request are
-- the look-up by name of http.server, which ignores case; redact and json.dumps of the preview
-- are parameters. The lock makes each record one step.
pub mod Answers
use reclaim_os.Prelude.{
  ℕ, zero, suc, ◌+◌, ◌-◌, Text, codes, Bool, true, false, not, ◌&&◌, Option, none, some, List, [],
  ◌∷◌, ◌++◌, length, count, is_empty, take, text_eq, ltb, if◌then◌else◌, ◌==◌,
}
use reclaim_os.Prelude.Decimal.{decimal}
use reclaim_os.Prelude.Dict.{Dict, or_default}
use reclaim_os.Store.Canonical.{Value}
use reclaim_os.Store.Events.{EventTable}
use reclaim_os.Ingest.Json.{Python, parsed, value_error}
use reclaim_os.Ingest.Webhook.{Ingested, result, raised, type_error, instant_error, ingest}

pub record WebhookDelivery : Type 0 where
  pub received_at : Text
  pub method : Text
  pub path : Text
  pub headers : Dict Text
  pub body_bytes : ℕ
  pub status_returned : ℕ
  pub event_id_header : Option Text
  pub signature_header : Option Text
  pub ingest_accepted : Bool
  pub ingest_duplicate : Bool
  pub ingest_reason : Text
  pub body_preview : Text

-- `ReceiverState`: the secret, the table behind the event store, the deliveries.
pub record ReceiverState : Type 0 where
  pub webhook_secret : Text
  pub events : EventTable
  pub deliveries : List WebhookDelivery

-- A POST, with the time and the uuid4 of its handling.
pub record Request : Type 0 where
  pub now : Text
  pub uuid : Text
  pub path : Text
  pub get_header : Text → Option Text
  pub body : Text

pub record Answer : Type 0 where
  pub accepted : Bool
  pub duplicate : Bool
  pub reason : Text

-- What the client is sent: a 404, a status with its answer, or nothing, since the handler raised.
pub data Response : Type 0 where
  not_found : Response
  responded : ℕ → Answer → Response
  no_response : Response

abbrev pub interesting_headers : List Text
interesting_headers =
    codes "x-razorpay-event-id"
    ∷ (codes "x-razorpay-signature"
        ∷ (codes "content-type" ∷ (codes "x-razorpay-event" ∷ (codes "user-agent" ∷ []))))

-- A header is there and not empty.
abbrev pub has_text : Option Text → Bool
has_text none = false
has_text (some t) = not (is_empty t)

-- The loop over the interesting headers, in one of the orders of their set.
unfoldable pub capture : (Text → Option Text) → List Text → Dict Text
capture get_header [] = []
capture get_header (h ∷ hs) =
    let rest = capture get_header hs in
    elim (get_header h) [ none ↦ rest | some v ↦ if is_empty v then rest else (h, v) ∷ rest ]

-- headers.get(lower) or headers.get(name)
unfoldable pub header_of : (Text → Option Text) → Text → Text → Option Text
header_of get_header lower_name header_name =
    if has_text (get_header lower_name) then get_header lower_name else get_header header_name

-- path.rstrip("/")
unfoldable pub rstrip_slash : Text → Text
rstrip_slash [] = []
rstrip_slash (c ∷ s) =
    let rest = rstrip_slash s in if is_empty rest && c == b'/' then [] else c ∷ rest

-- `ReceiverState.record`
unfoldable pub record_delivery : WebhookDelivery → ReceiverState → ReceiverState
record_delivery d s = record s { deliveries = s.deliveries ++ d ∷ [] }

pub record EventIdReport : Type 0 where
  pub total_deliveries : ℕ
  pub with_event_id_header : ℕ
  pub without_event_id_header : ℕ
  pub consistent : Bool
  pub event_ids : List Text

unfoldable pub ids_seen : List WebhookDelivery → List Text
ids_seen [] = []
ids_seen (d ∷ ds) =
    let rest = ids_seen ds in
    if has_text d.event_id_header then or_default d.event_id_header [] ∷ rest else rest

-- `event_id_report`
unfoldable pub event_id_report : ReceiverState → EventIdReport
unfolding ids_seen
event_id_report s =
    let total = length s.deliveries in
    let with_id = count (λ d. has_text d.event_id_header) s.deliveries in
    record {
      total_deliveries = total;
      with_event_id_header = with_id;
      without_event_id_header = total - with_id;
      consistent = ltb 0 total && total - with_id == 0;
      event_ids = ids_seen s.deliveries;
    }

module _ (py : Python) (redact : Text → Text) (dumps : Value → Text) where
  -- The preview: truncated, then redacted.
  unfoldable pub preview_of : Text → Text
  preview_of body = elim (py.json_loads body) [
    | parsed raw ↦ redact (take 500 (dumps raw))
    | value_error e ↦ codes "<" ++ (decimal (length body) ++ codes " bytes, not valid JSON>")
  ]

  unfoldable pub delivery_of : Request → Option Text → Option Text → Answer → WebhookDelivery
  unfolding capture preview_of
  delivery_of q event_id signature answer = record {
    received_at = q.now;
    method = codes "POST";
    path = q.path;
    headers = capture q.get_header interesting_headers;
    body_bytes = length q.body;
    status_returned = if answer.accepted then 200 else 400;
    event_id_header = event_id;
    signature_header = if has_text signature then some (codes "[present]") else none;
    ingest_accepted = answer.accepted;
    ingest_duplicate = answer.duplicate;
    ingest_reason = answer.reason;
    body_preview = preview_of q.body;
  }

  -- The rest of `do_POST` after `ingest`.
  unfoldable pub respond :
      Request
      → Option Text
      → Option Text
      → Ingested × EventTable
      → ReceiverState
      → Response × ReceiverState
  unfolding delivery_of record_delivery
  respond q event_id signature (result r, t) s =
      let answer : Answer = record {
        accepted = r.accepted;
        duplicate = r.duplicate;
        reason = r.reason;
      } in
      (
        responded (if r.accepted then 200 else 400) answer,
        record_delivery (delivery_of q event_id signature answer) (record s { events = t }),
      )
  respond q event_id signature (raised e, t) s = (no_response, record s { events = t })
  respond q event_id signature (type_error, t) s = (no_response, record s { events = t })
  respond q event_id signature (instant_error, t) s = (no_response, record s { events = t })

  unfoldable pub do_post : Request → ReceiverState → Response × ReceiverState
  unfolding header_of rstrip_slash respond
  do_post q s =
      let event_id =
        header_of q.get_header (codes "x-razorpay-event-id") (codes "X-Razorpay-Event-Id") in
      let signature =
        header_of q.get_header (codes "x-razorpay-signature") (codes "X-Razorpay-Signature") in
      if not (text_eq (rstrip_slash q.path) (codes "/webhook/razorpay"))
      then (not_found, s)
      else respond q event_id signature
          (ingest py q.now q.uuid q.body signature s.webhook_secret event_id s.events) s

  -- The requests of a session, one after the other.
  unfoldable pub serve : List Request → ReceiverState → List Response × ReceiverState
  serve [] s = ([], s)
  serve (q ∷ qs) s =
      let (answer, s') = do_post q s in let (answers, s'') = serve qs s' in (answer ∷ answers, s'')

-- `do_GET`: the report on /health.
unfoldable pub do_get : Text → ReceiverState → Option (ℕ × EventIdReport)
do_get path s =
    if text_eq (rstrip_slash path) (codes "/health")
    then some (length s.deliveries, event_id_report s)
    else none
