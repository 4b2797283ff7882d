-- ===== src/Live/Receiver/Answers.antt =====
-- What the receiver answers, and what it keeps of a session.
use reclaim_os.Prelude.{
  ℕ, ◌+◌, ◌≡◌, ◌≢◌, refl, ap, ◌∙◌, inl, inr, arith, Text, codes, Bool, true, false, not, Option,
  some, List, [], ◌∷◌, length, length-append, count, count-append, text_eq, if◌then◌else◌, ◌==◌,
  Bool-cases, count≤length, if_both,
}
use reclaim_os.Store.Canonical.{Value}
use reclaim_os.Store.Events.{EventTable, count_events}
use reclaim_os.Ingest.Json.{Python}
use reclaim_os.Ingest.Signature.{verify_signature}
use reclaim_os.Ingest.Webhook.{Ingested, result, raised, type_error, instant_error, ingest}
use reclaim_os.Ingest.Webhook.Delivery.{is_accepted, ingest_forged}
use reclaim_os.Live.Receiver.{
  WebhookDelivery, ReceiverState, Request, Answer, Response, not_found, responded, no_response,
  has_text, header_of, rstrip_slash, record_delivery, event_id_report, ids_seen, delivery_of,
  respond, do_post, serve,
}

-- A response with a status behind `ingest`, and one with status 200.
abbrev pub is_responded : Response → Bool
is_responded not_found = false
is_responded (responded status a) = true
is_responded no_response = false

abbrev pub is_ok : Response → Bool
is_ok not_found = false
is_ok (responded status a) = status == 200
is_ok no_response = false

-- The signature header of a request.
abbrev pub signature_of : Request → Option Text
signature_of q =
    header_of q.get_header (codes "x-razorpay-signature") (codes "X-Razorpay-Signature")

ids_seen-length :
    (ds : List WebhookDelivery) → length (ids_seen ds) ≡ count (λ d. has_text d.event_id_header) ds
unfolding ids_seen
ids_seen-length [] = refl
ids_seen-length (d ∷ ds) = elim (Bool-cases (has_text d.event_id_header)) [
  | inl e ↦ rw e (omega (arith, ids_seen-length ds))
  | inr e ↦ rw e (ids_seen-length ds ∙ omega arith)
]

module _ (py : Python) (redact : Text → Text) (dumps : Value → Text) where
  abbrev pub one : Bool → ℕ
  one b = if b then 1 else 0

  -- What a response adds to the deliveries: itself, if it was answered behind `ingest`.
  record Adds (s : ReceiverState) (out : Response × ReceiverState) : Type 0 where
    grown : length out.1.deliveries ≡ length s.deliveries + one (is_responded out.0)
    accepted :
        count (λ d. d.ingest_accepted) out.1.deliveries
        ≡ count (λ d. d.ingest_accepted) s.deliveries + one (is_ok out.0)

  respond-Adds :
      (q : Request) (event_id signature : Option Text) (out : Ingested × EventTable)
      (s : ReceiverState)
      → Adds s (respond py redact dumps q event_id signature out s)
  unfolding respond record_delivery delivery_of
  respond-Adds q event_id signature (result r, t) s =
      let answer : Answer = record {
        accepted = r.accepted;
        duplicate = r.duplicate;
        reason = r.reason;
      } in
      let d = delivery_of py redact dumps q event_id signature answer in
      record {
        grown = length-append s.deliveries (d ∷ []) ∙ omega arith;
        accepted = elim (Bool-cases r.accepted) [
          | inl e ↦ count-append (λ x. x.ingest_accepted) s.deliveries (d ∷ []) ∙ rw e (omega arith)
          | inr e ↦ count-append (λ x. x.ingest_accepted) s.deliveries (d ∷ []) ∙ rw e (omega arith)
        ];
      }
  respond-Adds q event_id signature (raised e, t) s = record {
    grown = omega arith;
    accepted = omega arith;
  }
  respond-Adds q event_id signature (instant_error, t) s = record {
    grown = omega arith;
    accepted = omega arith;
  }
  respond-Adds q event_id signature (type_error, t) s = record {
    grown = omega arith;
    accepted = omega arith;
  }

  do_post-Adds : (q : Request) (s : ReceiverState) → Adds s (do_post py redact dumps q s)
  unfolding do_post
  do_post-Adds q s =
      if_both (Adds s) (not (text_eq (rstrip_slash q.path) (codes "/webhook/razorpay")))
        (λ e. record { grown = omega arith; accepted = omega arith })
        λ e.
          respond-Adds q _ (signature_of q)
            (ingest py q.now q.uuid q.body (signature_of q) s.webhook_secret _ s.events) s

  -- A session behind the state `s`.
  pub record IsRecorded (s : ReceiverState) (answers : List Response) (end : ReceiverState)
      : Type 0 where
    pub recorded : length end.deliveries ≡ length s.deliveries + count is_responded answers
    pub accepted :
        count (λ d. d.ingest_accepted) end.deliveries
        ≡ count (λ d. d.ingest_accepted) s.deliveries + count is_ok answers
    pub reported :
        (event_id_report end).total_deliveries ≡ length s.deliveries + count is_responded answers
    pub partition :
        (event_id_report end).with_event_id_header + (event_id_report end).without_event_id_header
        ≡ (event_id_report end).total_deliveries
    pub ids : length (event_id_report end).event_ids ≡ (event_id_report end).with_event_id_header

  serve-counts :
      (qs : List Request) (s : ReceiverState)
      → let (answers, last) = serve py redact dumps qs s in
        (length last.deliveries ≡ length s.deliveries + count is_responded answers)
        × (count (λ d. d.ingest_accepted) last.deliveries
            ≡ count (λ d. d.ingest_accepted) s.deliveries + count is_ok answers)
  unfolding serve
  serve-counts [] s = (omega arith, omega arith)
  serve-counts (q ∷ qs) s =
      let added = do_post-Adds q s in
      let rest = serve-counts qs (do_post py redact dumps q s).1 in
      (omega (arith, added.grown, rest.0), omega (arith, added.accepted, rest.1))

  -- Of any sequence of POSTs: each one that was answered with 200 or 400 is one delivery, and no
  -- other is; the deliveries accepted are as many as the answers 200. The report counts them all,
  -- those with an event id and those without make up the total, and it lists an id for each of
  -- the first kind.
  pub serve-IsRecorded :
      (qs : List Request) (s : ReceiverState)
      → IsRecorded s (serve py redact dumps qs s).0 (serve py redact dumps qs s).1
  unfolding event_id_report
  serve-IsRecorded qs s =
      let (grown, accepted) = serve-counts qs s in
      let ds = (serve py redact dumps qs s).1.deliveries in
      record {
        recorded = grown;
        accepted = accepted;
        reported = grown;
        partition = omega (arith, count≤length (λ d. has_text d.event_id_header) ds);
        ids = ids_seen-length ds;
      }

  respond-refused :
      (q : Request) (event_id signature : Option Text) (out : Ingested × EventTable)
      (s : ReceiverState)
      → is_accepted out.0 ≡ false
      → (is_ok (respond py redact dumps q event_id signature out s).0 ≡ false)
        × ((respond py redact dumps q event_id signature out s).1.events ≡ out.1)
  unfolding respond record_delivery
  respond-refused q event_id signature (result r, t) s h = (rw h refl, refl)
  respond-refused q event_id signature (raised e, t) s h = (refl, refl)
  respond-refused q event_id signature (type_error, t) s h = (refl, refl)
  respond-refused q event_id signature (instant_error, t) s h = (refl, refl)

  -- A POST whose signature header does not verify for its body and the receiver's secret is not
  -- answered with 200, and the number of verified events stays the same.
  pub do_post-forged :
      (q : Request) (s : ReceiverState)
      → verify_signature py q.body (signature_of q) s.webhook_secret ≢ some true
      → (is_ok (do_post py redact dumps q s).0 ≡ false)
        × (count_events true (do_post py redact dumps q s).1.events ≡ count_events true s.events)
  unfolding do_post
  do_post-forged q s forged =
      if_both
        (λ (out : Response × ReceiverState).
          (is_ok out.0 ≡ false) × (count_events true out.1.events ≡ count_events true s.events))
        (not (text_eq (rstrip_slash q.path) (codes "/webhook/razorpay"))) (λ e. (refl, refl))
        λ e.
          let id =
            header_of q.get_header (codes "x-razorpay-event-id") (codes "X-Razorpay-Event-Id") in
          let (not_accepted, same) =
            ingest_forged py q.now q.uuid q.body (signature_of q) s.webhook_secret id s.events
              forged in
          let (bad, table) =
            respond-refused q id (signature_of q)
              (ingest py q.now q.uuid q.body (signature_of q) s.webhook_secret id s.events) s
              not_accepted in
          (bad, ap (count_events true) table ∙ same)
