-- ===== src/Tests/Fixtures.antt =====
-- Stand-ins for the parameters of the model, and the records that the tests use.
use reclaim_os.Prelude.{
  ℕ, suc, zero, ◌+◌, ◌-◌, ◌*◌, ◌/◌, ◌%◌, ◌^◌, ◌≡◌, refl, Text, codes, true, false, none, some, [],
  ◌∷◌, foldl, length, take, replicate, leb, arith, min,
}
use reclaim_os.Store.Canonical.{Value, str}
use reclaim_os.Domain.Real.{Reals, IsOrdered}
use reclaim_os.Domain.Models.{
  SubscriptionRecord, PaymentAttempt, Mandate, upi_autopay, retry_charge,
}
use reclaim_os.Domain.Declines.{soft_insufficient_funds}
use reclaim_os.Generator.World.{WorldRecord}
use reclaim_os.Generator.Profiles.{Random, IsRandom}
use reclaim_os.Policy.Mandate.{Signing}
use reclaim_os.Policy.Config.{AgentConfig, Calendar, LoopState}

abbrev checksum : Text → ℕ
checksum = foldl (λ a c. (a * 31 + c) % 65521) 7

-- A hash of 64 characters.
abbrev pub sha : Text → Text
sha x = take 64 (checksum x ∷ replicate 63 b'0')

pub sha_width : (x : Text) → length (sha x) ≡ 64
sha_width x = refl

abbrev pub dumps : Value → Text
dumps (str t) = t
dumps _ = codes "{}"

abbrev pub loads : Text → Value
loads t = str t

abbrev pub signing : Signing
signing = record { sha256_hex = sha; hmac_hex = sha; isoformat = λ at. at ∷ [] }

abbrev power : ℕ → ℕ → ℕ
power a zero = 10000
power a (suc n) = a * power a n / 10000

-- Numbers in units of 1/10000.
abbrev pub fixed_point : Reals
fixed_point = record {
  Real = ℕ;
  lit = λ n d. n * 10000 / (10 ^ d);
  add = λ a b. a + b;
  sub = λ a b. a - b;
  mul = λ a b. a * b / 10000;
  div = λ a b. a * 10000 / b;
  pow = power;
  of_nat = λ n. n * 10000;
  leb = leb;
  round4 = λ a. a;
  fixed = λ d a. a ∷ [];
  hours = λ a. a * 360000;
}

pub fixed_point-IsOrdered : IsOrdered fixed_point
fixed_point-IsOrdered = record {
  total = λ a b. ground arith;
  trans = λ a b c h k. ground arith;
  round4_mono = λ a b h. h;
  round4_zero = refl;
  round4_one = refl;
  not-one-le-zero = refl;
  zero-le-one = refl;
}

abbrev day_us : ℕ
day_us = 86400000000

-- Months of 30 days.
abbrev pub calendar : Calendar ℕ
calendar = record {
  year = λ at. at / (day_us * 360);
  month = λ at. at / (day_us * 30) % 12 + 1;
  day = λ at. at / day_us % 30 + 1;
  first_of = λ y m. (y * 12 + m - 1) * 30 * day_us;
  total_seconds = λ us. us / 100;
}

-- The defaults of `AgentConfig`.
abbrev pub config : AgentConfig ℕ
config = record {
  retry_min_propensity = 1500;
  max_charge_attempts = 3;
  max_contact_actions = 2;
  soft_retry_delays_hours = 480000 ∷ 960000 ∷ 1680000 ∷ [];
  technical_retry_delay_hours = 360000;
  limit_exceeded_delay_hours = 480000;
  payday_alignment = true;
  payday_buffer_hours = 80000;
  payday_max_wait_hours = 2400000;
  contact_delay_hours = 120000;
  contact_on_hard_decline = true;
  contact_on_expiry = true;
  ambiguity_shortens_ladder = true;
  hitl_amount_threshold_paise = 500000;
  recovery_window_hours = 7200000;
}

abbrev pub mandate : Mandate
mandate = record {
  max_amount_paise = 100000;
  expiry = 90 * day_us;
  allowed_method = upi_autopay;
  reason_code = codes "subscription";
}

-- The gateway's tuple of three classes, one of them hard.
abbrev pub failed : PaymentAttempt
failed = record {
  attempt_no = 0;
  occurred_at = 10 * day_us;
  amount_paise = 49900;
  succeeded = false;
  action = retry_charge;
  error_code = some (codes "BAD_REQUEST_ERROR");
  error_source = some (codes "bank");
  error_step = some (codes "payment_authorization");
  error_reason = some (codes "payment_failed");
  error_description = none;
}

abbrev pub subscription : SubscriptionRecord
subscription = record {
  subscription_id = codes "sub_1";
  customer_id = codes "cust_1";
  plan_id = codes "plan_1";
  method = upi_autopay;
  plan_amount_paise = 49900;
  currency = codes "INR";
  billing_cycle_day = 11;
  charge_at = 10 * day_us;
  customer_tenure_months = 12;
  prior_success_count = 11;
  prior_failure_count = 1;
  mandate = mandate;
  failed_attempt = failed;
}

abbrev pub first_slot : LoopState ℕ
first_slot = record {
  current = subscription;
  elapsed_hours = 0;
  charge_attempts = 0;
  contact_actions = 0;
  slot = 0;
  history = [];
}

-- Funds return after two days.
abbrev pub world : WorldRecord ℕ
world = record {
  true_class = soft_insufficient_funds;
  funds_return_hours = 480000;
  outage_end_hours = 0;
  base_intent = 5000;
  draws = 9000 ∷ (2000 ∷ []);
}

-- Draws that count up.
abbrev pub counting : Random ℕ
counting = record {
  State = ℕ;
  seeded = λ seed. seed;
  random = λ s. (s % 10000, suc s);
  randrange = λ n s. (min s (n - 1), suc s);
  choices = λ ws s. (min s (length ws - 1), suc s);
  expovariate = λ a s. (s * 1000, suc s);
  betavariate = λ a b s. (s * 100 % 10000, suc s);
  uniform = λ a b s. (a, suc s);
  truncate = λ a. a / 10000;
}

pub counting-IsRandom : IsRandom counting
counting-IsRandom = record {
  randrange-lt = λ n s h. omega arith;
  choices-lt = λ ws s h. omega arith;
}
