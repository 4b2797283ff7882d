-- ===== src/Tests/Mandate.antt =====
-- A charge inside its mandate, and charges outside of it.
use reclaim_os.Prelude.{codes, ◌≡◌, refl, ◌↔◌, ◌⊎◌, true, not, ◌&&◌, none, text_eq_refl}
use reclaim_os.Prelude.Int.{pos, leb_ℤ}
use reclaim_os.Domain.Models.{upi_autopay, permits, retry_charge}
use reclaim_os.Store.Idempotency.{idempotency_key}
use reclaim_os.Policy.Mandate.{
  Violation, MandateToken, ok, violation, over_cap, ◌>>=◌, authorize, verify, check_envelope,
  permits_charge, build_charge,
}
use reclaim_os.Policy.Mandate.Envelope.{
  Covers, token_for, authorize-Covers, permits_charge-permits, build_charge-Covers,
}
use reclaim_os.Policy.Mandate.Tokens.{HmacCollision, SameCharge, signature_binds}
use reclaim_os.Tests.Fixtures.{signing, mandate, subscription}

-- One paisa above the cap.
too_much :
    check_envelope mandate (pos 100001) upi_autopay 5 ≡ violation (over_cap (pos 100001) 100000)
unfolding check_envelope
too_much = refl

abbrev token : MandateToken
token = token_for signing mandate (pos 49900) upi_autopay 5

authorize-Covers_example :
    ((authorize signing mandate (pos 49900) upi_autopay 5 ≡ ok token)
      ↔ Covers mandate (pos 49900) upi_autopay 5)
    × ((((v : Violation) × (authorize signing mandate (pos 49900) upi_autopay 5 ≡ violation v))
          ⊎ Covers mandate (pos 49900) upi_autopay 5)
        × (verify signing token ≡ true))
authorize-Covers_example = authorize-Covers signing mandate (pos 49900) upi_autopay 5

permits_charge-permits_example :
    permits_charge signing mandate (pos 0) upi_autopay 5
    ≡ (not (leb_ℤ (pos 0) (pos 0)) && permits mandate (pos 0) upi_autopay 5)
permits_charge-permits_example = permits_charge-permits signing mandate (pos 0) upi_autopay 5

build_charge-Covers_example :
    (verify signing token ≡ true)
    × (build_charge signing subscription 1 5 none none none ≡ (
        check_envelope mandate (pos 49900) upi_autopay 5 >>= λ _. ok (record {
          token = token;
          subscription_id = codes "sub_1";
          amount_paise = pos 49900;
          method = upi_autopay;
          idempotency_key = idempotency_key (codes "sub_1") 1 retry_charge;
        })))
build_charge-Covers_example = build_charge-Covers signing subscription 1 5 none none none

-- The token with another reason code.
abbrev other_reason : MandateToken
other_reason = record token { reason_code = codes "other" }

signature_binds_example : HmacCollision signing ⊎ SameCharge signing token other_reason
signature_binds_example =
    signature_binds signing token other_reason refl refl
      (unfold verify in text_eq_refl token.signature)
      (unfold verify in text_eq_refl token.signature)
