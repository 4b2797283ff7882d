-- ===== src/Policy/Executor/Once.antt =====
-- Never more than one charge for a key, whatever is called, in whatever order, and whether or
-- not the gateway raises.
use reclaim_os.Prelude.{
  ℕ, ◌+◌, ◌≤◌, Text, ◌≡◌, Bool, arith, List, [], ◌∷◌, ◌++◌, count, count-append, text_eq,
  text_eq_iff, if◌then◌else◌, Bool-cases, inl, inr, Option-cases,
}
use reclaim_os.Prelude.Int.{pos}
use reclaim_os.Prelude.Dict.{is_some}
use reclaim_os.Domain.Models.{ActionType, SubscriptionRecord}
use reclaim_os.Store.Canonical.{Value}
use reclaim_os.Store.Idempotency.{Backend, idempotency_key}
use reclaim_os.Store.Idempotency.Laws.{IsBackend}
use reclaim_os.Policy.Mandate.{Signing, ChargeRequest}
use reclaim_os.Policy.Gateway.{Gateway}
use reclaim_os.Policy.Executor.{charge_claimed, execute_charge, contact_claimed, execute_contact}
use reclaim_os.Policy.Executor.Results.{stored_value, contact_value}

-- A gateway together with the charges that reached it, raised or not.
abbrev pub logged : {G : Type 0} → Gateway G → Gateway (G × List ChargeRequest)
logged gateway = record {
  charge = λ r g. let (answer, g') = gateway.charge r g.0 in (answer, (g', g.1 ++ r ∷ []));
  contact = λ r a g. let (answer, g') = gateway.contact r a g.0 in (answer, (g', g.1));
}

-- A call of the executor, with its clock.
pub data Job : Type 0 where
  charge_job : Text → ChargeRequest → Job
  contact_job : Text → SubscriptionRecord → ActionType → ℕ → Job

module _ {S G : Type 0} (b : Backend S) (gateway : Gateway G) (signing : Signing) where
  unfoldable pub job : Job → S × (G × List ChargeRequest) → S × (G × List ChargeRequest)
  job (charge_job now r) st =
      let (_, s, g) = execute_charge b (logged gateway) now signing r st in (s, g)
  job (contact_job now r a n) st =
      let (_, s, g) = execute_contact b (logged gateway) now r a n st in (s, g)

  unfoldable pub run_jobs : List Job → S × (G × List ChargeRequest) → S × (G × List ChargeRequest)
  unfolding job
  run_jobs [] st = st
  run_jobs (j ∷ js) st = run_jobs js (job j st)

  -- The charges for a key that reached the gateway.
  abbrev pub charges : Text → S × (G × List ChargeRequest) → ℕ
  charges k st = count (λ r. text_eq r.idempotency_key k) st.1.1

  -- How many more the key allows.
  abbrev pub room : Text → S × (G × List ChargeRequest) → ℕ
  room k st = if is_some (b.get k st.0) then 0 else 1

  module _ {accepts : Value → Bool} {reread : Value → Value}
      (laws : IsBackend b accepts reread) where
    held-record_result :
        (k j : Text) (v : Value) (s : S)
        → is_some (b.get k (b.record_result j v s).1) ≡ is_some (b.get k s)
    held-record_result k j v s =
        ground (arith, text_eq_iff j k, laws.get-record_result j k v s, Bool-cases (accepts v))

    charge_claimed-room :
        (k now : Text) (r : ChargeRequest) (s : S) (g : G × List ChargeRequest)
        → let (_, s', g') = charge_claimed b (logged gateway) now r (s, g) in
          (room k (s', g') ≡ room k (s, g))
          × (charges k (s', g') ≡ charges k (s, g) + (if text_eq r.idempotency_key k then 1 else 0))
    unfolding charge_claimed
    charge_claimed-room k now r s g =
        let more = count-append (λ (q : ChargeRequest). text_eq q.idempotency_key k) g.1 (r ∷ []) in
        elim (Option-cases ((gateway.charge r g.0).0)) [
          | inl e ↦ ground (arith, more)
          | inr (a, e) ↦ ground (
            arith,
            more,
            held-record_result k r.idempotency_key
                (stored_value a.succeeded (if a.succeeded then r.amount_paise else pos 0)
                  a.reference now)
                s,
          )
        ]

    contact_claimed-room :
        (k now j : Text) (r : SubscriptionRecord) (a : ActionType) (s : S)
        (g : G × List ChargeRequest)
        → let (_, s', g') = contact_claimed b (logged gateway) now r a j (s, g) in
          (room k (s', g') ≡ room k (s, g)) × (charges k (s', g') ≡ charges k (s, g))
    unfolding contact_claimed
    contact_claimed-room k now j r a s g = elim (Option-cases ((gateway.contact r a g.0).0)) [
      | inl e ↦ ground arith
      | inr (x, e) ↦
          ground (arith, held-record_result k j (contact_value x.succeeded x.reference now) s)
    ]

    job-room :
        (k : Text) (j : Job) (st : S × (G × List ChargeRequest))
        → charges k (job j st) + room k (job j st) ≤ charges k st + room k st
    unfolding job execute_charge execute_contact
    job-room k (charge_job now r) (s, g) = ground (
      arith,
      text_eq_iff r.idempotency_key k,
      laws.claim_answer now r.idempotency_key s,
      laws.get-claim now r.idempotency_key k s,
      charge_claimed-room k now r (b.claim now r.idempotency_key s).1 g,
    )
    job-room k (contact_job now r a n) (s, g) =
        let j = idempotency_key r.subscription_id n a in
        ground (
          arith,
          text_eq_iff j k,
          laws.claim_answer now j s,
          laws.get-claim now j k s,
          contact_claimed-room k now j r a (b.claim now j s).1 g,
        )

    run_jobs-room :
        (k : Text) (js : List Job) (st : S × (G × List ChargeRequest))
        → charges k (run_jobs js st) + room k (run_jobs js st) ≤ charges k st + room k st
    unfolding run_jobs
    run_jobs-room k [] st = omega arith
    run_jobs-room k (j ∷ js) st = omega (arith, run_jobs-room k js (job j st), job-room k j st)

    -- From any state of a store that keeps the promises, with any gateway, over any
    -- sequence of charges and contacts: at most one charge for a key reaches the gateway,
    -- and none if the key was held at the start. The gateway may raise at any call.
    pub charged_once :
        (k : Text) (js : List Job) (s : S) (g : G)
        → charges k (run_jobs js (s, (g, []))) ≤ (if is_some (b.get k s) then 0 else 1)
    charged_once k js s g = omega (arith, run_jobs-room k js (s, (g, [])))
