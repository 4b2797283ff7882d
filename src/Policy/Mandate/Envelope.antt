-- ===== src/Policy/Mandate/Envelope.antt =====
-- `authorize` and `build_charge` against the envelope that a mandate describes.
use reclaim_os.Prelude.{
  ℕ, ◌≤◌, ◌≡◌, refl, ◌↔◌, true, ◌&&◌, not, arith, Option, text_eq_refl, ◌⊎◌, inl, inr,
}
use reclaim_os.Prelude.Int.{ℤ, pos, leb_ℤ, ◌≤ℤ◌}
use reclaim_os.Prelude.Dict.{or_default}
use reclaim_os.Domain.Models.{
  Method, Mandate, SubscriptionRecord, same_method, permits, retry_charge,
}
use reclaim_os.Store.Idempotency.{idempotency_key}
use reclaim_os.Policy.Mandate.{
  Violation, Signing, MandateToken, Result, ok, violation, ◌>>=◌, check_envelope, authorize,
  permits_charge, new_request, build_charge, verify, sign, fingerprint_of,
}

-- The consent that a mandate gives.
pub record Covers (m : Mandate) (amount : ℤ) (method : Method) (at : ℕ) : Type 0 where
  pub positive : pos 1 ≤ℤ amount
  pub within_cap : amount ≤ℤ pos m.max_amount_paise
  pub same_rail : method ≡ m.allowed_method
  pub in_time : at ≤ m.expiry

pub same_method-eq : (a b : Method) → (same_method a b ≡ true) ↔ (a ≡ b)
unfolding same_method
same_method-eq a b = (ground arith, ground arith)

Result-cases : (r : Result (Unit {0})) → (r ≡ ok tt) ⊎ ((v : Violation) × (r ≡ violation v))
Result-cases (ok tt) = inl refl
Result-cases (violation v) = inr (v, refl)

check_envelope-Covers :
    (m : Mandate) (amount : ℤ) (method : Method) (at : ℕ)
    → (check_envelope m amount method at ≡ ok tt) ↔ Covers m amount method at
unfolding check_envelope
check_envelope-Covers m amount method at =
    let rail = same_method-eq method m.allowed_method in
    (λ h. ground (arith, rail), λ c. ground (arith, rail))

module _ (g : Signing) where
  -- The token of an authorised charge.
  abbrev pub token_for : Mandate → ℤ → Method → ℕ → MandateToken
  token_for m amount method at = record {
    fingerprint = fingerprint_of g m;
    amount_paise = amount;
    method = method;
    at = at;
    reason_code = m.reason_code;
    signature = sign g (fingerprint_of g m) amount method at;
  }

  verify-token_for :
      (m : Mandate) (amount : ℤ) (method : Method) (at : ℕ)
      → verify g (token_for m amount method at) ≡ true
  unfolding verify
  verify-token_for m amount method at = text_eq_refl (sign g (fingerprint_of g m) amount method at)

  -- `authorize` returns a token exactly when the amount is positive and within the cap, the
  -- rail is the mandated one and the mandate has not expired; that token is the one for this
  -- mandate, amount, rail and time, and it verifies. Any other answer is a violation.
  pub authorize-Covers :
      (m : Mandate) (amount : ℤ) (method : Method) (at : ℕ)
      → ((authorize g m amount method at ≡ ok (token_for m amount method at))
          ↔ Covers m amount method at)
        × ((((v : Violation) × (authorize g m amount method at ≡ violation v))
              ⊎ Covers m amount method at)
            × (verify g (token_for m amount method at) ≡ true))
  unfolding authorize
  authorize-Covers m amount method at =
      let envelope = check_envelope-Covers m amount method at in
      (
        (λ h. envelope.0 (ground arith), λ c. rw (envelope.1 c) refl),
        (
          elim (Result-cases (check_envelope m amount method at)) [
            | inl granted ↦ inr (envelope.0 granted)
            | inr (v, refused) ↦ inl (v, rw refused refl)
          ],
          verify-token_for m amount method at,
        ),
      )

  -- The probe of the policy and the model's own test agree except on amounts that are zero or
  -- negative, which only the probe refuses.
  pub permits_charge-permits :
      (m : Mandate) (amount : ℤ) (method : Method) (at : ℕ)
      → permits_charge g m amount method at
        ≡ (not (leb_ℤ amount (pos 0)) && permits m amount method at)
  unfolding permits_charge authorize check_envelope permits
  permits_charge-permits m amount method at = ground arith

  -- `build_charge` fails only as `authorize` does, on the plan's amount, rail and mandate unless
  -- others are given; a request that it builds is for the authorised amount and rail under the
  -- key of this attempt, and its token verifies.
  pub build_charge-Covers :
      (r : SubscriptionRecord) (attempt_no at : ℕ) (amount : Option ℤ) (method : Option Method)
      (mandate : Option Mandate)
      → let m = or_default mandate r.mandate in
        let a = or_default amount (pos r.plan_amount_paise) in
        let rail = or_default method r.method in
        (verify g (token_for m a rail at) ≡ true)
        × (build_charge g r attempt_no at amount method mandate ≡ (
            check_envelope m a rail at >>= λ _. ok (record {
              token = token_for m a rail at;
              subscription_id = r.subscription_id;
              amount_paise = a;
              method = rail;
              idempotency_key = idempotency_key r.subscription_id attempt_no retry_charge;
            })))
  unfolding build_charge authorize new_request
  build_charge-Covers r attempt_no at amount method mandate =
      let m = or_default mandate r.mandate in
      let a = or_default amount (pos r.plan_amount_paise) in
      let rail = or_default method r.method in
      (
        verify-token_for m a rail at,
        ground (arith, verify-token_for m a rail at, same_method-eq rail rail),
      )
