-- ===== src/Strings/Decimal.antt =====
-- Decimal print and parse: strconv.ParseInt reads back what %d writes.
use gobuild.Common.{
  ℕ, zero, suc, ◌+◌, ◌-◌, ◌*◌, ◌/◌, ◌%◌, ◌^◌, ◌≤◌, ◌≡◌, ◌≢◌, refl, true, some, [], ◌∷◌, ◌++◌, Bytes,
  ltb, All, All-mono, arith, Bool-cases, inl, inr,
}
use mathlib.Core.List.{concat-ne-nil}
use gobuild.Common.Int.{ℤ, pos, negsuc}
use gobuild.Strings.{
  is_digit, all_digits, value, parse_digits, parse_int, digits, format_nat, format_int, at_most,
  as_pos,
}

value-append : (n : ℕ) (s : Bytes) (c : ℕ) → value n (s ++ c ∷ []) ≡ value n s * 10 + (c - b'0')
unfolding value
value-append n [] c = refl
value-append n (d ∷ s) c = value-append (n * 10 + (d - b'0')) s c

all_digits-append :
    (s : Bytes) (c : ℕ) → all_digits s ≡ true → is_digit c ≡ true → all_digits (s ++ c ∷ []) ≡ true
unfolding all_digits
all_digits-append [] c h k = ground arith
all_digits-append (d ∷ s) c h k = ground (arith, all_digits-append s c)

all_digits-digits : (f n : ℕ) → all_digits (digits f n) ≡ true
unfolding digits all_digits
all_digits-digits zero n = ground arith
all_digits-digits (suc f) n =
    ground
      (arith, all_digits-append (digits f (n / 10)) (b'0' + n % 10) (all_digits-digits f (n / 10)))

value-digits : (f n : ℕ) → n ≤ f → value 0 (digits f n) ≡ n
unfolding digits value
value-digits zero n h = ground arith
value-digits (suc f) n h =
    ground (arith, value-append 0 (digits f (n / 10)) (b'0' + n % 10), value-digits f (n / 10))

digits-ne-nil : (f n : ℕ) → digits f n ≢ []
unfolding digits
digits-ne-nil zero n = ground arith
digits-ne-nil (suc f) n = elim (Bool-cases (ltb n 10)) [
  | inl small ↦ rw small (ground arith)
  | inr large ↦ rw large (concat-ne-nil (b'0' + n % 10) (digits f (n / 10)))
]

pub format_nat-ne-nil : (n : ℕ) → format_nat n ≢ []
unfolding format_nat
format_nat-ne-nil n = digits-ne-nil n n

pub all_digits-format_nat : (n : ℕ) → all_digits (format_nat n) ≡ true
unfolding format_nat
all_digits-format_nat n = all_digits-digits n n

value-format_nat : (n : ℕ) → value 0 (format_nat n) ≡ n
unfolding format_nat
value-format_nat n = value-digits n n (omega arith)

parse_digits_all : (s : Bytes) → s ≢ [] → all_digits s ≡ true → parse_digits s ≡ some (value 0 s)
unfolding parse_digits
parse_digits_all [] h d = absurd (h refl)
parse_digits_all (c ∷ s) h d = rw d

parse_digits-format_nat : (n : ℕ) → parse_digits (format_nat n) ≡ some n
parse_digits-format_nat n =
    rw (parse_digits_all _ (format_nat-ne-nil n) (all_digits-format_nat n), value-format_nat n)

first_digit : (c : ℕ) (s : Bytes) → all_digits (c ∷ s) ≡ true → is_digit c ≡ true
unfolding all_digits
first_digit c s h = ground arith

-- A text that starts with a digit has no sign.
parse_int_unsigned :
    (bits : ℕ) (s : Bytes)
    → s ≢ []
    → all_digits s ≡ true
    → parse_int bits s ≡ as_pos (at_most (2 ^ (bits - 1) - 1) (parse_digits s))
parse_int_unsigned bits [] h d = absurd (h refl)
parse_int_unsigned bits (c ∷ s) h d = step (first_digit c s d)
  where
    step :
        is_digit c ≡ true
        → parse_int bits (c ∷ s) ≡ as_pos (at_most (2 ^ (bits - 1) - 1) (parse_digits (c ∷ s)))
    step k = unfold parse_int is_digit in ground arith

abbrev pub Fits : ℕ → ℤ → Type 0
Fits bits (pos n) = n ≤ 2 ^ (bits - 1) - 1
Fits bits (negsuc n) = suc n ≤ 2 ^ (bits - 1)

-- Every integer of the width is read back from its decimal print.
pub parse_int-format_int : (bits : ℕ) (z : ℤ) → Fits bits z → parse_int bits (format_int z) ≡ some z
unfolding format_int
parse_int-format_int bits (pos n) h =
    rw
      (
        parse_int_unsigned bits _ (format_nat-ne-nil n) (all_digits-format_nat n),
        parse_digits-format_nat n,
      )
      (ground arith)
parse_int-format_int bits (negsuc n) h = negative
  where
    negative : parse_int bits (b'-' ∷ format_nat (suc n)) ≡ some (negsuc n)
    negative = unfold parse_int in rw (parse_digits-format_nat (suc n)) (ground arith)

pub all_digits-All : (s : Bytes) → all_digits s ≡ true → All (λ c. (b'0' ≤ c) × (c ≤ b'9')) s
unfolding all_digits
all_digits-All [] h = tt
all_digits-All (c ∷ s) h = ((ground arith, ground arith), all_digits-All s (ground arith))

-- What %d writes has no byte below '-', so no space and no control character.
pub format_int-All : (z : ℤ) → All (λ c. (b'-' ≤ c) × (c ≤ b'9')) (format_int z)
format_int-All (pos n) =
    unfold format_int in
    All-mono (λ c h. (omega arith, omega arith)) (format_nat n)
      (all_digits-All (format_nat n) (all_digits-format_nat n))
format_int-All (negsuc n) =
    unfold format_int in
    (
      (omega arith, omega arith),
      All-mono (λ c h. (omega arith, omega arith)) (format_nat (suc n))
          (all_digits-All (format_nat (suc n)) (all_digits-format_nat (suc n))),
    )

pub format_int-ne-nil : (z : ℤ) → format_int z ≢ []
format_int-ne-nil (pos n) = unfold format_int in format_nat-ne-nil n
format_int-ne-nil (negsuc n) = unfold format_int in (ground arith)
