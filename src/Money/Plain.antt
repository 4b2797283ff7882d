-- ===== src/Money/Plain.antt =====
-- `rupees` reads what `to_rupee_str` prints.
use reclaim_os.Prelude.{
  ℕ, zero, suc, ◌+◌, ◌*◌, ◌/◌, ◌%◌, ◌<◌, ◌≤◌, ◌≡◌, refl, ◌∙◌, inl, inr, arith, Text, Bool, true,
  false, and-false, some, [], ◌∷◌, ◌++◌, is_empty, is_empty-append, ltb, lt→ltb, ltb→lt, Bool-cases,
  ◌==◌, All,
}
use reclaim_os.Prelude.Int.{ℤ, pos, negsuc}
use reclaim_os.Prelude.Decimal.{decimal, decimal_on, value_from, value_from-decimal, decimal-All}
use reclaim_os.Money.{
  Decimal, is_digit, all_digits, at_point, unsigned_decimal, plain_decimal, paise, rupees, to_paise,
  round_half_up, precision_limit, signed, absolute, two_digits, to_rupee_str,
}

-- A digit, as a number between b'0' and b'9'.
abbrev Digit : ℕ → Type 0
Digit c = (48 ≤ c) × (c < 58)

decimal-Digit : (n : ℕ) → All Digit (decimal n)
decimal-Digit n = decimal-All Digit (λ d h. (omega arith, omega arith)) n

value_from-concat :
    (acc : ℕ) (s t : Text) → value_from acc (s ++ t) ≡ value_from (value_from acc s) t
value_from-concat acc [] t = refl
value_from-concat acc (c ∷ s) t = value_from-concat (acc * 10 + (c % 48)) s t

decimal_on-one_digit : (fuel n : ℕ) → n < 10 → decimal_on fuel n ≡ (48 + n % 10) ∷ []
unfolding decimal_on
decimal_on-one_digit zero n h = refl
decimal_on-one_digit (suc fuel) n h = rw (lt→ltb n 10 h) refl

decimal-one_digit : (n : ℕ) → n < 10 → decimal n ≡ (48 + n % 10) ∷ []
unfolding decimal
decimal-one_digit n h = decimal_on-one_digit n n h

decimal-two_digits : (n : ℕ) → 10 ≤ n → n < 100 → decimal n ≡ (48 + n / 10) ∷ ((48 + n % 10) ∷ [])
unfolding decimal decimal_on
decimal-two_digits zero h k = absurd (omega arith)
decimal-two_digits (suc n) h k =
    let big : ltb (suc n) 10 ≡ false = ground arith in
    let small : (suc n / 10) % 10 ≡ suc n / 10 = omega arith in
    rw big (rw (decimal_on-one_digit n (suc n / 10) (omega arith)) (rw small refl))

two_digits-pair : (n : ℕ) → n < 100 → two_digits n ≡ (48 + n / 10) ∷ ((48 + n % 10) ∷ [])
unfolding two_digits
two_digits-pair n h = elim (Bool-cases (ltb n 10)) [
  | inl e ↦
      let small = ltb→lt n 10 e in
      let tens : n / 10 ≡ 0 = omega arith in rw (decimal-one_digit n small) (rw tens refl)
  | inr e ↦ rw (decimal-two_digits n (ground arith) h) refl
]

at_point-split : (s t : Text) → All Digit s → at_point (s ++ 46 ∷ t) ≡ (s, t)
unfolding at_point
at_point-split [] t h = refl
at_point-split (c ∷ s) t h =
    let digit = h.0 in
    let other : (c == 46) ≡ false = ground arith in rw other (rw (at_point-split s t h.1) refl)

all_digits-Digit : (s : Text) → All Digit s → all_digits s ≡ true
all_digits-Digit [] h = refl
all_digits-Digit (c ∷ s) h =
    let digit = h.0 in
    let this : is_digit c ≡ true = ground arith in rw this (all_digits-Digit s h.1)

value_from-two_places :
    (w f : ℕ)
    → f < 100
    → value_from 0 (decimal w ++ (48 + f / 10) ∷ ((48 + f % 10) ∷ [])) ≡ w * 100 + f
value_from-two_places w f h =
    rw (value_from-concat 0 (decimal w) ((48 + f / 10) ∷ ((48 + f % 10) ∷ [])))
      (rw (value_from-decimal w) (omega arith))

-- A text of whole rupees, a point and two digits of paise is read as their number.
unsigned_decimal-two_places :
    (negative : Bool) (w f : ℕ)
    → f < 100
    → unsigned_decimal negative (decimal w ++ (46 ∷ two_digits f))
      ≡ some (record { negative = negative; coefficient = w * 100 + f; places = 2 })
unfolding unsigned_decimal
unsigned_decimal-two_places negative w f h =
    let pair : Text = (48 + f / 10) ∷ ((48 + f % 10) ∷ []) in
    let digits : all_digits pair ≡ true =
      all_digits-Digit pair ((omega arith, omega arith), ((omega arith, omega arith), tt)) in
    rw (two_digits-pair f h) (
      rw (at_point-split (decimal w) pair (decimal-Digit w)) (
        rw (all_digits-Digit (decimal w) (decimal-Digit w)) (
          rw digits
            (rw (and-false (is_empty (decimal w))) (rw (value_from-two_places w f h) refl)))))

decimal_on-not_empty : (fuel n : ℕ) → is_empty (decimal_on fuel n) ≡ false
unfolding decimal_on
decimal_on-not_empty zero n = refl
decimal_on-not_empty (suc fuel) n = elim (Bool-cases (ltb n 10)) [
  | inl e ↦ rw e refl
  | inr e ↦ rw e (
      rw (is_empty-append (decimal_on fuel (n / 10)) ((48 + n % 10) ∷ []))
        (and-false (is_empty (decimal_on fuel (n / 10)))))
]

plain_decimal-unsigned :
    (s t : Text)
    → All Digit s
    → is_empty s ≡ false
    → plain_decimal (s ++ t) ≡ unsigned_decimal false (s ++ t)
unfolding plain_decimal
plain_decimal-unsigned [] t h e = cc
plain_decimal-unsigned (c ∷ s) t h e =
    let digit = h.0 in
    let minus : (c == 45) ≡ false = ground arith in
    let plus : (c == 43) ≡ false = ground arith in rw minus (rw plus refl)

decimal-no_sign :
    (n : ℕ) (t : Text) → plain_decimal (decimal n ++ t) ≡ unsigned_decimal false (decimal n ++ t)
unfolding decimal
decimal-no_sign n t =
    plain_decimal-unsigned (decimal n) t (decimal-Digit n) (decimal_on-not_empty n n)

to_paise-two_places :
    (negative : Bool) (n : ℕ)
    → n * 100 < precision_limit
    → to_paise (record { negative = negative; coefficient = n; places = 2 })
      ≡ paise (signed negative n)
unfolding to_paise round_half_up
to_paise-two_places negative n h =
    let exact : (2 * (n * 100) + 100) / 200 ≡ n = omega arith in
    rw (lt→ltb (n * 100) precision_limit h) (rw exact refl)

rupees-parsed : (s : Text) {d : Decimal} → plain_decimal s ≡ some d → rupees s ≡ to_paise d
unfolding rupees
rupees-parsed s e = rw (e, rupees) refl

read_back :
    (negative : Bool) (n : ℕ) (s : Text)
    → n < 100000000000000000000000000
    → plain_decimal s
      ≡ some (record { negative = negative; coefficient = n / 100 * 100 + n % 100; places = 2 })
    → rupees s ≡ paise (signed negative n)
read_back negative n s h e =
    let whole : n / 100 * 100 + n % 100 ≡ n = omega arith in
    rupees-parsed s e ∙ rw whole (to_paise-two_places negative n (omega arith))

-- What `to_rupee_str` prints, `rupees` reads back as the same paise: an amount, of either sign,
-- of less than 10^26 paise.
pub rupees-to_rupee_str :
    (amount : ℤ)
    → absolute amount < 100000000000000000000000000
    → rupees (to_rupee_str amount) ≡ paise amount
unfolding to_rupee_str plain_decimal
rupees-to_rupee_str (pos n) h = read_back false n (to_rupee_str (pos n)) h (
    decimal-no_sign (n / 100) (46 ∷ two_digits (n % 100))
    ∙ unsigned_decimal-two_places false (n / 100) (n % 100) (omega arith))
rupees-to_rupee_str (negsuc n) h =
    read_back true (suc n) (to_rupee_str (negsuc n)) h
      (unsigned_decimal-two_places true (suc n / 100) (suc n % 100) (omega arith))
