-- ===== src/Policy/Mandate.antt =====
-- src/reclaimos/policy/mandate.py and `build_charge` of policy/executor.py.
-- SHA-256, HMAC-SHA256 under the key of the process and `datetime.isoformat` are Python's: the
-- record `Signing` has them as parameters. The texts of the violations are not modelled: each
-- is a constructor with the values that its text names.
pub mod Envelope
pub mod Tokens
use reclaim_os.Prelude.{
  ℕ, ◌+◌, Text, codes, ◌++◌, Bool, true, false, not, ◌&&◌, ◌||◌, Option, none, some, text_eq, leb,
  ltb, if◌then◌else◌,
}
use reclaim_os.Prelude.Int.{ℤ, pos, negsuc, leb_ℤ, eq_ℤ}
use reclaim_os.Prelude.Decimal.{decimal}
use reclaim_os.Prelude.Dict.{or_default}
use reclaim_os.Domain.Models.{
  Method, Mandate, SubscriptionRecord, retry_charge, method_value, same_method,
}
use reclaim_os.Store.Idempotency.{idempotency_key}

pub record Signing : Type 0 where
  pub sha256_hex : Text → Text
  pub hmac_hex : Text → Text
  pub isoformat : ℕ → Text

pub data Violation : Type 0 where
  not_positive : ℤ → Violation
  over_cap : ℤ → ℕ → Violation
  wrong_method : Method → Method → Violation
  expired : ℕ → ℕ → Violation
  not_issuer : Violation
  bad_signature : Violation
  mismatch : Violation

pub data Result {ℓ} (A : Type ℓ) : Type ℓ where
  ok : A → Result A
  violation : Violation → Result A

infixl 5 ◌>>=◌
abbrev pub ◌>>=◌ {ℓ κ} : {A : Type ℓ} {B : Type κ} → Result A → (A → Result B) → Result B
ok a >>= f = f a
violation v >>= f = violation v

-- str(n)
unfoldable pub int_text : ℤ → Text
int_text (pos n) = decimal n
int_text (negsuc n) = codes "-" ++ decimal (n + 1)

pub record MandateToken : Type 0 where
  pub fingerprint : Text
  pub amount_paise : ℤ
  pub method : Method
  pub at : ℕ
  pub reason_code : Text
  pub signature : Text

pub record ChargeRequest : Type 0 where
  pub token : MandateToken
  pub subscription_id : Text
  pub amount_paise : ℤ
  pub method : Method
  pub idempotency_key : Text

-- `MandateToken.__init__`; the flag says whether the caller holds `_ISSUER`.
unfoldable pub new_token : Bool → Text → ℤ → Method → ℕ → Text → Text → Result MandateToken
new_token is_issuer fingerprint amount method at reason_code signature =
    if is_issuer
    then ok (record {
      fingerprint = fingerprint;
      amount_paise = amount;
      method = method;
      at = at;
      reason_code = reason_code;
      signature = signature;
    })
    else violation not_issuer

-- The four guards of `authorize`, in their order.
unfoldable pub check_envelope : Mandate → ℤ → Method → ℕ → Result (Unit {0})
check_envelope m amount method at =
    if leb_ℤ amount (pos 0)
    then violation (not_positive amount)
    else if not (leb_ℤ amount (pos m.max_amount_paise))
    then violation (over_cap amount m.max_amount_paise)
    else if not (same_method method m.allowed_method)
    then violation (wrong_method method m.allowed_method)
    else if ltb m.expiry at
    then violation (expired m.expiry at)
    else ok tt

module _ (g : Signing) where
  -- `_fingerprint`
  unfoldable pub fingerprint_of : Mandate → Text
  fingerprint_of m = g.sha256_hex (
      decimal m.max_amount_paise
      ++ (codes ":"
          ++ (method_value m.allowed_method
              ++ (codes ":" ++ (g.isoformat m.expiry ++ (codes ":" ++ m.reason_code))))))

  -- What `_sign` hands to the HMAC.
  unfoldable pub material : Text → ℤ → Method → ℕ → Text
  material fingerprint amount method at =
      fingerprint
      ++ (codes "|"
          ++ (int_text amount
              ++ (codes "|" ++ (method_value method ++ (codes "|" ++ g.isoformat at)))))

  -- `_sign`
  unfoldable pub sign : Text → ℤ → Method → ℕ → Text
  sign fingerprint amount method at = g.hmac_hex (material fingerprint amount method at)

  -- `MandateToken.verify`; `hmac.compare_digest` is equality on hex digests.
  unfoldable pub verify : MandateToken → Bool
  verify t = text_eq (sign t.fingerprint t.amount_paise t.method t.at) t.signature

  unfoldable pub authorize : Mandate → ℤ → Method → ℕ → Result MandateToken
  unfolding new_token
  authorize m amount method at = check_envelope m amount method at >>= λ _.
      let fingerprint = fingerprint_of m in
      new_token true fingerprint amount method at m.reason_code (sign fingerprint amount method at)

  -- `permits`, the probe that does not raise.
  unfoldable pub permits_charge : Mandate → ℤ → Method → ℕ → Bool
  permits_charge m amount method at = elim (authorize m amount method at) [
    | ok _ ↦ true
    | violation _ ↦ false
  ]

  -- `ChargeRequest.__init__`
  unfoldable pub new_request : MandateToken → Text → ℤ → Method → Text → Result ChargeRequest
  new_request t subscription_id amount method key =
      if not (verify t)
      then violation bad_signature
      else if not (eq_ℤ t.amount_paise amount) || not (same_method t.method method)
      then violation mismatch
      else ok (record {
        token = t;
        subscription_id = subscription_id;
        amount_paise = amount;
        method = method;
        idempotency_key = key;
      })

  -- `build_charge` with its optional arguments.
  unfoldable pub build_charge :
      SubscriptionRecord → ℕ → ℕ → Option ℤ → Option Method → Option Mandate → Result ChargeRequest
  build_charge r attempt_no at amount_paise method mandate =
      let envelope = or_default mandate r.mandate in
      let amount = or_default amount_paise (pos r.plan_amount_paise) in
      let rail = or_default method r.method in
      authorize envelope amount rail at >>= λ token.
      new_request token r.subscription_id amount rail
        (idempotency_key r.subscription_id attempt_no retry_charge)
