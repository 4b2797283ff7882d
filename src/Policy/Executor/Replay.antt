-- ===== src/Policy/Executor/Replay.antt =====
-- What a second call for the same key returns: after a charge, and after a gateway that raised.
use reclaim_os.Prelude.{
  Text, codes, ◌≡◌, refl, ap, ◌∙◌, Bool, true, false, not, Option, none, some, arith, text_eq_refl,
  if◌then◌else◌,
}
use reclaim_os.Prelude.Int.{ℤ, pos}
use reclaim_os.Prelude.Dict.{is_some}
use reclaim_os.Domain.Models.{retry_charge}
use reclaim_os.Store.Canonical.{Value}
use reclaim_os.Store.Idempotency.{Backend, Claim, recorded}
use reclaim_os.Store.Idempotency.Laws.{IsBackend}
use reclaim_os.Policy.Mandate.{Signing, ChargeRequest, verify}
use reclaim_os.Policy.Gateway.{Gateway, GatewayResult}
use reclaim_os.Policy.Executor.{
  ExecutionReceipt, receipt, gateway_error, replay_receipt, charge_receipt, after_record,
  charge_claimed, execute_charge,
}
use reclaim_os.Policy.Executor.Results.{stored_value, read_value, read_result}

-- The receipt of a replay of a charge with this outcome.
abbrev pub replayed_receipt : ChargeRequest → Bool → ℤ → Option Text → ExecutionReceipt
replayed_receipt r succeeded amount reference = record {
  subscription_id = r.subscription_id;
  action = retry_charge;
  idempotency_key = r.idempotency_key;
  executed = false;
  replayed = true;
  succeeded = succeeded;
  amount_paise = amount;
  reference = reference;
  detail = codes "already executed; returning the recorded result";
}

read-stored_value :
    (succeeded : Bool) (amount : ℤ) (reference : Option Text) (now : Text)
    → read_value (stored_value succeeded amount reference now)
      ≡ some (record { succeeded = succeeded; amount_paise = amount; reference = reference })
unfolding read_value stored_value
read-stored_value succeeded amount none now = refl
read-stored_value succeeded amount (some t) now = refl

module _ {S G : Type 0} (b : Backend S) (gateway : Gateway G) {accepts : Value → Bool}
    {reread : Value → Value} (laws : IsBackend b accepts reread) (signing : Signing) where
  -- A call whose key is held never reaches the gateway, and answers from what the key holds.
  held_call :
      (r : ChargeRequest) (now : Text) (s : S) (g : G) {c : Claim}
      → verify signing r.token ≡ true
      → b.get r.idempotency_key s ≡ some c
      → execute_charge b gateway now signing r (s, g)
        ≡ (replay_receipt r (some c), (b.claim now r.idempotency_key s).1, g)
  unfolding execute_charge
  held_call r now s g signed h =
      let k = r.idempotency_key in
      let lost = laws.claim_answer now k s ∙ ap (λ o. not (is_some o)) h in
      ground (arith, lost, signed, h, laws.get-claim now k k s, text_eq_refl k)

  module _ (r : ChargeRequest) (now : Text) (s : S) (g : G) (signed : verify signing r.token ≡ true)
      (free : b.get r.idempotency_key s ≡ none) where
    abbrev key : Text
    key = r.idempotency_key

    abbrev s1 : S
    s1 = (b.claim now key s).1

    won : (b.claim now key s).0 ≡ true
    won = laws.claim_answer now key s ∙ ap (λ o. not (is_some o)) free

    held : b.get key s1 ≡ some (record { key = key; claimed_at = now; result = none })
    held = ground (arith, laws.get-claim now key key s, text_eq_refl key)

    -- The first call goes to the gateway.
    first_call :
        execute_charge b gateway now signing r (s, g) ≡ charge_claimed b gateway now r (s1, g)
    unfolding execute_charge
    first_call = ground (arith, won, signed)

    -- Over a store that keeps the promises, take a free key and a request whose token
    -- verifies. If the gateway raises, the key stays claimed with no result: the next call
    -- returns a receipt that says "already executed", not succeeded, with no amount and no
    -- reference, and leaves the gateway alone, whatever it would answer now.
    pub after_gateway_error :
        (later : Text)
        → (gateway.charge r g).0 ≡ none
        → let (x, s', g') = execute_charge b gateway now signing r (s, g) in
          let (y, s'', g'') = execute_charge b gateway later signing r (s', g') in
          (x ≡ gateway_error) × (y ≡ receipt (replayed_receipt r false (pos 0) none)) × (g'' ≡ g')
    unfolding charge_claimed
    after_gateway_error later raised = rw first_call (
        rw (raised, charge_claimed)
          (rw (held_call r later s1 (gateway.charge r g).1 signed held)
            (refl, unfold replay_receipt read_result read_value in refl, refl)))

    module _ (result : GatewayResult) (answered : (gateway.charge r g).0 ≡ some result) where
      abbrev amount : ℤ
      amount = if result.succeeded then r.amount_paise else pos 0

      abbrev stored : Value
      stored = stored_value result.succeeded amount result.reference now

      abbrev s2 : S
      s2 = (b.record_result key stored s1).1

      module _ (storable : accepts stored ≡ true) where
        kept :
            b.get key s2
            ≡ some (record { key = key; claimed_at = now; result = some (reread stored) })
        kept =
            ground
              (arith, laws.get-record_result key key stored s1, text_eq_refl key, held, storable)

        recorded_ok : (b.record_result key stored s1).0 ≡ recorded
        recorded_ok = ground (arith, laws.record_answer key stored s1, held, storable)

        claimed_call :
            charge_claimed b gateway now r (s1, g)
            ≡ (receipt (charge_receipt r result), s2, (gateway.charge r g).1)
        unfolding charge_claimed charge_receipt after_record
        claimed_call = ground (arith, answered, recorded_ok)

        -- Over a store that keeps the promises, take a free key and a request whose
        -- token verifies, and let the gateway answer. The charge goes to the gateway
        -- once and its receipt is returned. A second call with the key leaves the
        -- gateway alone and returns the same outcome, amount and reference, marked as
        -- replayed and not executed. The conditions on the store are that it accepts
        -- the recorded dict, and that what it reads back of that dict, a bool, an int and
        -- two texts or None, reads like what was written.
        pub replay_returns_first :
            (later : Text)
            → read_value (reread stored) ≡ read_value stored
            → let (x, s', g') = execute_charge b gateway now signing r (s, g) in
              let (y, s'', g'') = execute_charge b gateway later signing r (s', g') in
              (x ≡ receipt (charge_receipt r result))
              × (y ≡ receipt (replayed_receipt r result.succeeded amount result.reference))
              × (g' ≡ (gateway.charge r g).1)
              × (g'' ≡ g')
        replay_returns_first later faithful = rw first_call (
            rw claimed_call (
              rw (held_call r later s2 (gateway.charge r g).1 signed kept) (
                refl,
                read_back (reread stored)
                    (faithful ∙ read-stored_value result.succeeded amount result.reference now),
                refl,
                refl,
              )))
          where
            read_back :
                (v : Value)
                → read_value v
                  ≡ some (record {
                    succeeded = result.succeeded;
                    amount_paise = amount;
                    reference = result.reference;
                  })
                → replay_receipt r (some (record { key = key; claimed_at = now; result = some v }))
                  ≡ receipt (replayed_receipt r result.succeeded amount result.reference)
            read_back v e = unfold replay_receipt read_result in rw (e, replay_receipt) refl
