-- ===== src/Ingest/Webhook/Delivery.antt =====
-- What a delivery does to the event log: forged ones, and two under one event id.
use reclaim_os.Prelude.{
  Text, codes, ◌≡◌, ◌≢◌, refl, sym, ap, ◌∙◌, Bool, true, false, Option, none, some, arith, List, [],
  ◌∷◌, ◌++◌, Bool-cases, inl, inr, ◌⊎◌, keep, length, if◌then◌else◌,
}
use reclaim_os.Store.Canonical.{Value, non_canonical, canonical_json}
use reclaim_os.Store.Events.{
  InboundEvent, EventRow, EventTable, EventAppended, stored, not_canonical, integrity_error,
  append_event, event_row, to_event, row_for, count_events,
}
use reclaim_os.Store.Events.Log.{append_event_outcome, row_for-append}
use reclaim_os.Ingest.Json.{
  Parsed, parsed, value_error, Instant, instant, bad_timestamp, out_of_range, Python, is_object,
}
use reclaim_os.Ingest.Signature.{verify_signature}
use reclaim_os.Ingest.Webhook.{
  IngestResult, Ingested, result, raised, type_error, instant_error, Envelope, event, no_envelope,
  timestamp_error, parse, occurred_at, envelope_event, rejection, store_event, rejected_result,
  reject_delivery, accepted_result, accept_delivery, verified_delivery, ingest,
}

Parsed-cases {ℓ} :
    {A : Type ℓ} (p : Parsed A) → ((a : A) × (p ≡ parsed a)) ⊎ ((w : Text) × (p ≡ value_error w))
Parsed-cases (parsed a) = inl (a, refl)
Parsed-cases (value_error w) = inr (w, refl)

Instant-cases :
    (i : Instant)
    → ((a : Text) × (i ≡ instant a)) ⊎ (((w : Text) × (i ≡ bad_timestamp w)) ⊎ (i ≡ out_of_range))
Instant-cases (instant a) = inl (a, refl)
Instant-cases (bad_timestamp w) = inr (inl (w, refl))
Instant-cases out_of_range = inr (inr refl)

Envelope-cases :
    (p : Envelope)
    → ((e : InboundEvent) × (p ≡ event e))
      ⊎ (((w : Text) × (p ≡ no_envelope w)) ⊎ (p ≡ timestamp_error))
Envelope-cases (event e) = inl (e, refl)
Envelope-cases (no_envelope w) = inr (inl (w, refl))
Envelope-cases timestamp_error = inr (inr refl)

verdict_cases : (o : Option Bool) → (o ≡ none) ⊎ ((o ≡ some false) ⊎ (o ≡ some true))
verdict_cases none = inl refl
verdict_cases (some false) = inr (inl refl)
verdict_cases (some true) = inr (inr refl)

abbrev pub is_accepted : Ingested → Bool
is_accepted (result x) = x.accepted
is_accepted (raised _) = false
is_accepted type_error = false
is_accepted instant_error = false

module _ (py : Python) where
  not_accepted :
      (reason : Text) (a : EventAppended) → is_accepted (rejected_result py reason a) ≡ false
  not_accepted reason (stored e n) = refl
  not_accepted reason not_canonical = refl
  not_accepted reason integrity_error = refl

  rejected-not :
      (now body reason : Text) (t : EventTable)
      → is_accepted (reject_delivery py now body reason t).0 ≡ false
  unfolding reject_delivery
  rejected-not now body reason t =
      not_accepted reason (store_event py now (rejection py now body reason) t).0

  verified_count :
      (rs : List EventRow) (r : EventRow)
      → r.signature_verified ≡ false
      → length (keep (λ (q : EventRow). if true then q.signature_verified else true) (rs ++ r ∷ []))
        ≡ length (keep (λ (q : EventRow). if true then q.signature_verified else true) rs)
  verified_count [] r h = ground (arith, h)
  verified_count (q ∷ rs) r h = ground (arith, verified_count rs r h)

  rejected_count :
      (now body reason : Text) (t : EventTable)
      → count_events true (reject_delivery py now body reason t).1 ≡ count_events true t
  unfolding reject_delivery count_events
  rejected_count now body reason t =
      let e = rejection py now body reason in
      elim (append_event_outcome py.json_dumps py.read_json now e t) [
        | inl (_, out) ↦ rw out refl
        | inr (inl (old, _, out)) ↦ rw out refl
        | inr (inr (free, out)) ↦
            rw out (verified_count t.rows (event_row now (py.json_dumps e.payload) e t) refl)
      ]

  parsed_id :
      (now : Text) (raw : Value) (id : Text) (e : InboundEvent)
      → parse py now raw id ≡ event e
      → e.event_id ≡ id
  unfolding parse envelope_event
  parsed_id now raw id e h = ground (arith, Instant-cases (occurred_at py now raw))

  -- An accepted delivery is the append of one event under the id of its header.
  abbrev Accepts : Text → Text → Text → Option Text → Text → Text → Type 0
  Accepts now uuid body signature secret id =
      (e : InboundEvent) × (e.event_id ≡ id)
      × ((t : EventTable)
          → ingest py now uuid body signature secret (some id) t
            ≡ (accepted_result py none (store_event py now e t).0, (store_event py now e t).1))

  accepted-Accepts :
      (now uuid body : Text) (signature : Option Text) (secret id : Text) (t : EventTable)
      → is_accepted (ingest py now uuid body signature secret (some id) t).0 ≡ true
      → Accepts now uuid body signature secret id
  unfolding ingest verified_delivery accept_delivery
  accepted-Accepts now uuid body signature secret id t h =
      elim (verdict_cases (verify_signature py body signature secret)) [
        | inl v ↦ absurd (ground (arith, v))
        | inr (inl v) ↦
            absurd
              (ground (arith, v, rejected-not now body (codes "signature verification failed") t))
        | inr (inr v) ↦ elim (Parsed-cases (py.json_loads body)) [
          | inr (w, j) ↦ absurd (
              ground (arith, v, j, rejected-not now body (codes "body is not valid JSON: " ++ w) t))
          | inl (raw, j) ↦ elim (Bool-cases (is_object raw)) [
            | inr ob ↦ absurd (
                ground
                  (arith, v, j, ob, rejected-not now body (codes "body is not a JSON object") t))
            | inl ob ↦ elim (Envelope-cases (parse py now raw id)) [
              | inr (inr p) ↦ absurd (ground (arith, v, j, ob, p))
              | inr (inl (w, p)) ↦ absurd (ground (arith, v, j, ob, p, rejected-not now body w t))
              | inl (e, p) ↦ (e, parsed_id now raw id e p, λ u. ground (arith, v, j, ob, p))
            ]
          ]
        ]
      ]

  -- What an accepted append leaves under its id.
  held_after :
      (now : Text) (e : InboundEvent) (t : EventTable) (x : IngestResult)
      → accepted_result py none (store_event py now e t).0 ≡ result x
      → (r : EventRow) × (row_for e.event_id (store_event py now e t).1.rows ≡ some r)
        × (x.event ≡ to_event py.read_json r)
  held_after now e t x h = elim (append_event_outcome py.json_dumps py.read_json now e t) [
    | inl (refused, out) ↦ absurd (ground (arith, out))
    | inr (inl (old, found, out)) ↦ (
      old,
      ap (λ (o : EventAppended × EventTable). row_for e.event_id o.1.rows) out ∙ found,
      ground (arith, out),
    )
    | inr (inr (free, out)) ↦
        let r = event_row now (py.json_dumps e.payload) e t in
        (
          r,
          ap (λ (o : EventAppended × EventTable). row_for e.event_id o.1.rows) out
              ∙ row_for-append e.event_id t.rows r free refl,
          ground (arith, out),
        )
  ]

  accepted-canonical :
      (now : Text) (e : InboundEvent) (u : EventTable)
      → is_accepted (accepted_result py none (store_event py now e u).0) ≡ true
      → canonical_json py.json_dumps e.payload ≢ non_canonical
  accepted-canonical now e u h refused =
      let out : store_event py now e u ≡ (not_canonical, u) =
        unfold append_event in rw (refused, append_event) refl in
      ground (arith, out)

  lost_append :
      (now : Text) (e : InboundEvent) (t : EventTable) (r : EventRow)
      → canonical_json py.json_dumps e.payload ≢ non_canonical
      → row_for e.event_id t.rows ≡ some r
      → store_event py now e t ≡ (stored (to_event py.read_json r) false, t)
  lost_append now e t r ok found = elim (append_event_outcome py.json_dumps py.read_json now e t) [
    | inl (refused, _) ↦ absurd (ok refused)
    | inr (inl (old, found', out)) ↦ out ∙ ground (arith, found, found')
    | inr (inr (free, _)) ↦ absurd (ground (arith, free, found))
  ]

  -- Take two deliveries with one event id in their headers, the second one such that it would
  -- be accepted in some table, and let the first be accepted. Then the second, whatever its
  -- body says, is answered with the event stored for the first, as a redelivery, and the table
  -- stays as it is. It is so too when the header is there but empty.
  pub ingest_second :
      (now uuid body now2 uuid2 body2 : Text) (signature signature2 : Option Text)
      (secret id : Text) (t u : EventTable) (x : IngestResult)
      → (ingest py now uuid body signature secret (some id) t).0 ≡ result x
      → x.accepted ≡ true
      → is_accepted (ingest py now2 uuid2 body2 signature2 secret (some id) u).0 ≡ true
      → let t1 = (ingest py now uuid body signature secret (some id) t).1 in
        ingest py now2 uuid2 body2 signature2 secret (some id) t1 ≡ (
          result (record {
            accepted = true;
            duplicate = true;
            reason = codes "redelivery of an already-recorded event";
            event = x.event;
            dedupable = true;
          }),
          t1,
        )
  ingest_second now uuid body now2 uuid2 body2 signature signature2 secret id t u x hx accepted
        accepted2 =
      let (e, same, run) =
        accepted-Accepts now uuid body signature secret id t (ap is_accepted hx ∙ accepted) in
      let (e2, same2, run2) = accepted-Accepts now2 uuid2 body2 signature2 secret id u accepted2 in
      let t1 = (ingest py now uuid body signature secret (some id) t).1 in
      let moved : t1 ≡ (store_event py now e t).1 =
        ap (λ (o : Ingested × EventTable). o.1) (run t) in
      let (r, found, kept) =
        held_after now e t x (sym (ap (λ (o : Ingested × EventTable). o.0) (run t)) ∙ hx) in
      let ok2 =
        accepted-canonical now2 e2 u
          (sym (ap (λ (o : Ingested × EventTable). is_accepted o.0) (run2 u)) ∙ accepted2) in
      let there : row_for e2.event_id t1.rows ≡ some r =
        ap (λ k. row_for k t1.rows) (same2 ∙ sym same)
        ∙ ap (λ (z : EventTable). row_for e.event_id z.rows) moved
        ∙ found in
      let lost = lost_append now2 e2 t1 r ok2 there in
      run2 t1
      ∙ ap (λ (o : EventAppended × EventTable). (accepted_result py none o.0, o.1)) lost
      ∙ ground (arith, kept)

  -- The number of events of the log that count as verified is the same after a delivery whose
  -- signature does not verify, which is never accepted.
  pub ingest_forged :
      (now uuid body : Text) (signature : Option Text) (secret : Text) (header : Option Text)
      (t : EventTable)
      → verify_signature py body signature secret ≢ some true
      → (is_accepted (ingest py now uuid body signature secret header t).0 ≡ false)
        × (count_events true (ingest py now uuid body signature secret header t).1
            ≡ count_events true t)
  unfolding ingest
  ingest_forged now uuid body signature secret header t forged =
      elim (verdict_cases (verify_signature py body signature secret)) [
        | inl v ↦ ground (arith, v)
        | inr (inl v) ↦
            rw (v, ingest)
              (
                rejected-not now body (codes "signature verification failed") t,
                rejected_count now body _ t,
              )
        | inr (inr v) ↦ absurd (forged v)
      ]
