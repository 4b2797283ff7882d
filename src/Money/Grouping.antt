-- ===== src/Money/Grouping.antt =====
-- The digit groups of `format_inr`.
use reclaim_os.Prelude.{
  ℕ, zero, suc, ◌-◌, ◌/◌, ◌%◌, ◌≤◌, ◌≡◌, refl, sym, ap, ◌∙◌, inl, inr, arith, Text, codes, Bool,
  false, not, ◌||◌, List, [], ◌∷◌, ◌++◌, length, is_empty, keep, keep-append, ltb, ltb→lt, ◌==◌,
  if◌then◌else◌, Bool-cases, take-append-drop, length-take, length-drop, drop_last, take_last,
  concat, join, All, All-append, append_assoc, append-nil, ap₂, replicate,
}
use reclaim_os.Prelude.Int.{ℤ, pos, negsuc}
use reclaim_os.Prelude.Decimal.{decimal, decimal-All}
use reclaim_os.Money.{
  absolute, sign_of, two_digits, to_rupee_str, group_head, groups_of, format_inr,
}

-- Groups of two digits and a last one of three.
pub data Pairs : List Text → Type 0 where
  last : {g : Text} → length g ≡ 3 → Pairs (g ∷ [])
  pair : {g : Text} {gs : List Text} → length g ≡ 2 → Pairs gs → Pairs (g ∷ gs)

-- The Indian grouping: one group of three digits at most, or a group of one or two digits before
-- groups of two and a last one of three.
pub data IsIndian : List Text → Type 0 where
  single : {g : Text} → length g ≤ 3 → IsIndian (g ∷ [])
  several : {g : Text} {gs : List Text} → 1 ≤ length g → length g ≤ 2 → Pairs gs → IsIndian (g ∷ gs)

-- A character that the display adds to the plain text, by code: "," and "₹".
abbrev is_added : ℕ → Bool
is_added c = c == 44 || c == 8377

abbrev pub without_marks : Text → Text
without_marks = keep (λ c. not (is_added c))

length-drop_last : (n : ℕ) (s : Text) → n ≤ length s → length (drop_last n s) ≡ length s - n
length-drop_last n s h = length-take (length s - n) s ∙ omega arith

length-take_last : (n : ℕ) (s : Text) → n ≤ length s → length (take_last n s) ≡ n
length-take_last n s h = length-drop (length s - n) s ∙ omega arith

not_empty : (s : Text) → 1 ≤ length s → is_empty s ≡ false
not_empty [] h = absurd (omega arith)
not_empty (c ∷ s) h = refl

group_head-IsIndian :
    (fuel : ℕ) (head : Text) (groups : List Text) (tail : Text)
    → length head ≤ fuel
    → 1 ≤ length head
    → Pairs (groups ++ tail ∷ [])
    → IsIndian (group_head fuel head groups ++ tail ∷ [])
unfolding group_head
group_head-IsIndian zero head groups tail h k p = absurd (omega arith)
group_head-IsIndian (suc fuel) head groups tail h k p = elim (Bool-cases (ltb 2 (length head))) [
  | inl e ↦
      let long = ltb→lt 2 (length head) e in
      let shorter = length-drop_last 2 head (omega arith) in
      rw e (
        group_head-IsIndian fuel (drop_last 2 head) (take_last 2 head ∷ groups) tail (omega arith)
          (omega arith) (pair (length-take_last 2 head (omega arith)) p))
  | inr e ↦ rw e (rw (not_empty head k) (several k (ground arith) p))
]

if_empty-concat :
    (head : Text) (groups : List Text)
    → concat (if is_empty head then groups else head ∷ groups) ≡ head ++ concat groups
if_empty-concat [] groups = refl
if_empty-concat (c ∷ s) groups = refl

group_head-concat :
    (fuel : ℕ) (head : Text) (groups : List Text)
    → concat (group_head fuel head groups) ≡ head ++ concat groups
unfolding group_head
group_head-concat zero head groups = if_empty-concat head groups
group_head-concat (suc fuel) head groups = elim (Bool-cases (ltb 2 (length head))) [
  | inl e ↦
      let cut = take-append-drop (length head - 2) head in
      rw e (
        group_head-concat fuel (drop_last 2 head) (take_last 2 head ∷ groups)
        ∙ sym (append_assoc (drop_last 2 head) (take_last 2 head) (concat groups))
        ∙ ap (λ s. s ++ concat groups) cut)
  | inr e ↦ rw e (if_empty-concat head groups)
]

concat-append : (gs : List Text) (t : Text) → concat (gs ++ t ∷ []) ≡ concat gs ++ t
concat-append [] t = append-nil t
concat-append (g ∷ gs) t = ap (◌++◌ g) (concat-append gs t) ∙ sym (append_assoc g (concat gs) t)

groups_of-IsIndian : (digits : Text) → IsIndian (groups_of digits)
unfolding groups_of
groups_of-IsIndian digits = elim (Bool-cases (ltb 3 (length digits))) [
  | inl e ↦
      let long = ltb→lt 3 (length digits) e in
      let shorter = length-drop_last 3 digits (omega arith) in
      let head = drop_last 3 digits in
      rw e (
        group_head-IsIndian (length head) head [] (take_last 3 digits) (omega arith) (omega arith)
          (last (length-take_last 3 digits (omega arith))))
  | inr e ↦ rw e (single (ground arith))
]

groups_of-concat : (digits : Text) → concat (groups_of digits) ≡ digits
unfolding groups_of
groups_of-concat digits = elim (Bool-cases (ltb 3 (length digits))) [
  | inl e ↦
      let head = drop_last 3 digits in
      rw e (
        concat-append (group_head (length head) head []) (take_last 3 digits)
        ∙ ap (λ s. s ++ take_last 3 digits)
            (group_head-concat (length head) head [] ∙ append-nil head)
        ∙ take-append-drop (length digits - 3) digits)
  | inr e ↦ rw e (append-nil digits)
]

without_marks-join :
    (gs : List Text) → without_marks (join (codes ",") gs) ≡ without_marks (concat gs)
without_marks-join [] = refl
without_marks-join (g ∷ []) = ap without_marks (sym (append-nil g))
without_marks-join (g ∷ (h ∷ gs)) =
    keep-append (λ c. not (is_added c)) g (codes "," ++ join (codes ",") (h ∷ gs))
    ∙ ap (◌++◌ (without_marks g)) (without_marks-join (h ∷ gs))
    ∙ sym (keep-append (λ c. not (is_added c)) g (concat (h ∷ gs)))

without_marks-plain : (s : Text) → All (λ c. is_added c ≡ false) s → without_marks s ≡ s
without_marks-plain [] h = refl
without_marks-plain (c ∷ s) h = rw (h.0) (ap (◌∷◌ c) (without_marks-plain s h.1))

decimal-plain : (n : ℕ) → All (λ c. is_added c ≡ false) (decimal n)
decimal-plain = decimal-All (λ c. is_added c ≡ false) (λ d h. ground arith)

zeros-plain : (n : ℕ) → All (λ c. is_added c ≡ false) (replicate n b'0')
zeros-plain zero = tt
zeros-plain (suc n) = (refl, zeros-plain n)

two_digits-plain : (n : ℕ) → All (λ c. is_added c ≡ false) (two_digits n)
unfolding two_digits
two_digits-plain n =
    All-append (λ c. is_added c ≡ false) (replicate (2 - length (decimal n)) b'0') (decimal n)
      (zeros-plain (2 - length (decimal n))) (decimal-plain n)

-- The rest of the text behind the sign, of w rupees and f paise.
without_marks-amount :
    (w f : ℕ)
    → without_marks
        (codes "₹" ++ (join (codes ",") (groups_of (decimal w)) ++ (codes "." ++ two_digits f)))
      ≡ decimal w ++ (codes "." ++ two_digits f)
without_marks-amount w f =
    keep-append (λ c. not (is_added c)) (join (codes ",") (groups_of (decimal w)))
      (codes "." ++ two_digits f)
    ∙ ap₂ ◌++◌
        (without_marks-join (groups_of (decimal w))
          ∙ ap without_marks (groups_of-concat (decimal w))
          ∙ without_marks-plain (decimal w) (decimal-plain w))
        (ap (◌∷◌ b'.') (without_marks-plain (two_digits f) (two_digits-plain f)))

-- The display of an amount is its sign, "₹", the digits of its whole rupees in groups with a ","
-- between them, ".", and two digits of paise. The groups are the Indian ones: three digits at most,
-- or a group of one or two before groups of two and a last one of three. Without the marks "," and
-- "₹" the display is the plain text.
pub format_inr-to_rupee_str :
    (amount : ℤ)
    → ((gs : List Text) × IsIndian gs
        × (concat gs ≡ decimal (absolute amount / 100))
        × (format_inr amount
            ≡ sign_of amount
              ++ (codes "₹"
                  ++ (join (codes ",") gs ++ (codes "." ++ two_digits (absolute amount % 100))))))
      × (without_marks (format_inr amount) ≡ to_rupee_str amount)
unfolding format_inr to_rupee_str
format_inr-to_rupee_str amount = (
  (
    groups_of (decimal (absolute amount / 100)),
    groups_of-IsIndian (decimal (absolute amount / 100)),
    groups_of-concat (decimal (absolute amount / 100)),
    refl,
  ),
  plain amount,
)
  where
    plain : (n : ℤ) → without_marks (format_inr n) ≡ to_rupee_str n
    plain (pos n) = without_marks-amount (n / 100) (n % 100)
    plain (negsuc n) = ap (◌∷◌ b'-') (without_marks-amount (suc n / 100) (suc n % 100))
