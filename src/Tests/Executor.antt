-- ===== src/Tests/Executor.antt =====
-- The executor over the two stores, the simulated gateway and one that raises.
use reclaim_os.Prelude.{
  ℕ, ◌+◌, ◌≤◌, codes, ◌≡◌, refl, true, false, none, some, List, [], ◌∷◌, ◌++◌, Text, text_eq,
  text_eq_refl,
}
use reclaim_os.Prelude.Int.{pos}
use reclaim_os.Prelude.Dict.{lookup}
use reclaim_os.Domain.Models.{upi_autopay, send_payment_link}
use reclaim_os.Store.Idempotency.Backends.{memory}
use reclaim_os.Store.Idempotency.Laws.{memory-IsBackend}
use reclaim_os.Policy.Mandate.{ChargeRequest, verify}
use reclaim_os.Policy.Mandate.Envelope.{token_for}
use reclaim_os.Policy.Gateway.{
  GatewayResult, Gateway, Simulated, simulated, padded, simulated_charge,
}
use reclaim_os.Policy.Executor.{execute_charge, receipt, gateway_error, charge_receipt}
use reclaim_os.Policy.Executor.Once.{Job, charge_job, contact_job, run_jobs, charges, charged_once}
use reclaim_os.Policy.Executor.Results.{stored_value, read_value}
use reclaim_os.Store.Canonical.{Value, canonical_json, money_is_integer, encodable, ends_with}
use reclaim_os.Store.Idempotency.Backends.{sqlite, sqlite_get}
use reclaim_os.Store.Idempotency.Laws.{sqlite-IsBackend}
use reclaim_os.Prelude.Dict.{or_default}
use reclaim_os.Policy.Executor.Replay.{replayed_receipt, after_gateway_error, replay_returns_first}
use reclaim_os.Tests.Fixtures.{signing, mandate, subscription}

abbrev request : ChargeRequest
request = record {
  token = token_for signing mandate (pos 49900) upi_autopay 5;
  subscription_id = codes "sub_1";
  amount_paise = pos 49900;
  method = upi_autopay;
  idempotency_key = codes "sub_1:1:retry_charge";
}

signed : verify signing request.token ≡ true
signed = unfold verify in text_eq_refl request.token.signature

-- A gateway that counts its calls and always raises.
abbrev raising : Gateway ℕ
raising = record { charge = λ r n. (none, n + 1); contact = λ r a n. (none, n + 1) }

abbrev fresh_gateway : Simulated
fresh_gateway = record {
  charge_succeeds = true;
  contact_succeeds = true;
  charges = [];
  contacts = [];
}

abbrev jobs : List Job
jobs =
    charge_job (codes "1") request
    ∷ (contact_job (codes "2") subscription send_payment_link 2
        ∷ (charge_job (codes "3") request ∷ []))

charged_once_example :
    charges memory raising signing request.idempotency_key
      (run_jobs memory raising signing jobs ([], (0, [])))
    ≤ 1
unfolding lookup
charged_once_example =
    charged_once memory raising signing memory-IsBackend request.idempotency_key jobs [] 0

after_gateway_error_example :
    let (x, s', g') = execute_charge memory raising (codes "1") signing request ([], 0) in
    let (y, s'', g'') = execute_charge memory raising (codes "2") signing request (s', g') in
    (x ≡ gateway_error) × (y ≡ receipt (replayed_receipt request false (pos 0) none)) × (g'' ≡ g')
after_gateway_error_example =
    after_gateway_error memory raising memory-IsBackend signing request (codes "1") [] 0 signed
      (unfold lookup in refl) (codes "2") refl

abbrev result : GatewayResult
result = record {
  succeeded = true;
  reference = some (codes "pay_SIM" ++ padded 1);
  detail = codes "simulated charge";
}

-- JSON for the dicts of successful charges of this amount: their reference.
abbrev json_dumps : Value → Text
json_dumps v = elim (read_value v) [ none ↦ [] | some r ↦ or_default r.reference [] ]

abbrev json_loads : Text → Value
json_loads reference = stored_value true (pos 49900) (some reference) (codes "1")

replay_returns_first_example :
    let store = sqlite json_dumps json_loads in
    let (x, s', g') =
      execute_charge store simulated (codes "1") signing request ([], fresh_gateway) in
    let (y, s'', g'') = execute_charge store simulated (codes "2") signing request (s', g') in
    (x ≡ receipt (charge_receipt request result))
    × (y ≡ receipt (replayed_receipt request true (pos 49900) result.reference))
    × (g' ≡ (simulated_charge request fresh_gateway).1)
    × (g'' ≡ g')
replay_returns_first_example =
    replay_returns_first (sqlite json_dumps json_loads) simulated
      (sqlite-IsBackend json_dumps json_loads) signing request (codes "1") [] fresh_gateway signed
      (unfold lookup sqlite_get in refl) result (unfold simulated_charge in refl)
      (unfold canonical_json stored_value money_is_integer encodable ends_with text_eq in refl)
      (codes "2") (unfold read_value stored_value in refl)
