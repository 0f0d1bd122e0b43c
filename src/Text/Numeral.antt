-- ===== src/Text/Numeral.antt =====
-- Numbers to digits and back, in any base up to 16 (the %u, %d and %X of printf, and the digit loop
-- of strtoul and sscanf).
use pnet_driver_test.Prelude.{
  ℕ, zero, suc, ◌+◌, ◌-◌, ◌*◌, ◌/◌, ◌%◌, ◌^◌, ◌≤◌, ◌<◌, ◌≡◌, refl, sym, ap, ◌∙◌, Bool, true, false,
  ◌&&◌, Option, none, some, [], ◌∷◌, ◌++◌, arith, ltb, leb, if◌then◌else◌, Bool-cases, inl, inr,
  length, append-nil, ltb→lt, ltb→ge, lt→ltb, All,
}
use native.Mathlib.Nat.{pow-succ', mul_comm, div-lt_iff_lt-mul, mul-one, pow-zero}
use pnet_driver_test.Text.Bytes.{Bytes}

-- capital letters for the digits above 9, as %X prints them
unfoldable pub digit_char : ℕ → ℕ
digit_char d = if ltb d 10 then d + 48 else d + 55

unfoldable pub digit_value : ℕ → Option ℕ
digit_value c =
    if leb 48 c && leb c 57
    then some (c - 48)
    else if leb 65 c && leb c 90
    then some (c - 55)
    else if leb 97 c && leb c 122
    then some (c - 87)
    else none

-- the value of `c` as a digit in base `b`
unfoldable pub digit_in : ℕ → ℕ → Option ℕ
unfolding digit_value
digit_in b c = elim (digit_value c) [ none ↦ none | some d ↦ if ltb d b then some d else none ]

-- The digits of `n` in front of `acc`; the first argument is fuel.
unfoldable pub print_onto : ℕ → ℕ → ℕ → Bytes → Bytes
print_onto b zero n acc = acc
print_onto b (suc f) n acc =
    let more = print_onto b f (n / b) (digit_char (n % b) ∷ acc) in
    if ltb n b then digit_char n ∷ acc else more

-- enough fuel for every base from 2 on (`scan-print_onto`)
unfoldable pub print_base : ℕ → ℕ → Bytes
unfolding print_onto digit_char
print_base b n = print_onto b (suc n) n []

-- reads digits for as long as there are some; the value, and what is left
unfoldable pub scan : ℕ → ℕ → Bytes → ℕ × Bytes
scan b acc [] = (acc, [])
scan b acc (c ∷ cs) = elim (digit_in b c) [
  | none ↦ (acc, c ∷ cs)
  | some d ↦ scan b (acc * b + d) cs
]

abbrev pub starts_with_digit : ℕ → Bytes → Bool
starts_with_digit b [] = false
starts_with_digit b (c ∷ cs) = elim (digit_in b c) [ none ↦ false | some d ↦ true ]

pub digit_in-digit_char : (b d : ℕ) → d < b → b ≤ 16 → digit_in b (digit_char d) ≡ some d
unfolding digit_in digit_char
digit_in-digit_char b d h k = ground arith

scan_digit :
    (b acc d : ℕ) (cs : Bytes)
    → d < b
    → b ≤ 16
    → scan b acc (digit_char d ∷ cs) ≡ scan b (acc * b + d) cs
unfolding scan
scan_digit b acc d cs h k = rw (digit_in-digit_char b d h k, scan)

-- Reading what was printed comes to the number, with the bytes behind it left to read.
scan-print_onto :
    (b f n : ℕ) (acc : Bytes)
    → 2 ≤ b
    → b ≤ 16
    → n < f
    → scan b 0 (print_onto b f n acc) ≡ scan b n acc
unfolding print_onto
scan-print_onto b zero n acc lo hi h = absurd (omega arith)
scan-print_onto b (suc f) n acc lo hi h = elim (Bool-cases (ltb n b)) [
  | inl small ↦
      rw small (scan_digit b 0 n acc (ltb→lt n b small) hi ∙ ap (λ k. scan b k acc) (omega arith))
  | inr big ↦ rw big (
      scan-print_onto b f (n / b) (digit_char (n % b) ∷ acc) lo hi (smaller (ltb→ge n b big))
      ∙ scan_digit b (n / b) (n % b) acc (omega arith) hi
      ∙ ap (λ k. scan b k acc) (omega arith))
]
  where
    smaller : b ≤ n → n / b < f
    smaller g = grind arith

-- what follows a number does not go on with a digit
abbrev pub NoDigit : ℕ → Bytes → Type 0
NoDigit b rest = starts_with_digit b rest ≡ false

scan_stops : (b n : ℕ) (rest : Bytes) → NoDigit b rest → scan b n rest ≡ (n, rest)
unfolding scan
scan_stops b n [] h = refl
scan_stops b n (c ∷ cs) h = ground arith

print_onto-append :
    (b f n : ℕ) (acc rest : Bytes) → print_onto b f n acc ++ rest ≡ print_onto b f n (acc ++ rest)
unfolding print_onto
print_onto-append b zero n acc rest = refl
print_onto-append b (suc f) n acc rest =
    ground (arith, print_onto-append b f (n / b) (digit_char (n % b) ∷ acc) rest)

pub scan-print_base :
    (b n : ℕ) (rest : Bytes)
    → 2 ≤ b
    → b ≤ 16
    → NoDigit b rest
    → scan b 0 (print_base b n ++ rest) ≡ (n, rest)
unfolding print_base
scan-print_base b n rest lo hi h =
    ap (scan b 0) (print_onto-append b (suc n) n [] rest)
    ∙ scan-print_onto b (suc n) n rest lo hi (omega arith)
    ∙ scan_stops b n rest h

-- With nothing behind it the number is read to the end.
pub scan-print_base_end : (b n : ℕ) → 2 ≤ b → b ≤ 16 → scan b 0 (print_base b n) ≡ (n, [])
scan-print_base_end b n lo hi =
    ap (scan b 0) (sym (append-nil (print_base b n))) ∙ scan-print_base b n [] lo hi refl

-- Every byte printed is a digit: `P` holds of the whole if it holds of the digits.
All-print_onto :
    (P : ℕ → Type 0) (b f n : ℕ) (acc : Bytes)
    → 0 < b
    → ((d : ℕ) → d < b → P (digit_char d))
    → All P acc
    → All P (print_onto b f n acc)
unfolding print_onto
All-print_onto P b zero n acc hb p h = h
All-print_onto P b (suc f) n acc hb p h = elim (Bool-cases (ltb n b)) [
  | inl small ↦ rw small (p n (ltb→lt n b small), h)
  | inr big ↦
      rw big
        (All-print_onto P b f (n / b) (digit_char (n % b) ∷ acc) hb p (p (n % b) (omega arith), h))
]

pub All-print_base :
    (P : ℕ → Type 0) (b n : ℕ)
    → 0 < b
    → ((d : ℕ) → d < b → P (digit_char d))
    → All P (print_base b n)
unfolding print_base
All-print_base P b n hb p = All-print_onto P b (suc n) n [] hb p tt

-- the first digit, which is 0 for the number 0 only
abbrev pub Leads : ℕ → ℕ → Bytes → Type 0
Leads b n s = (d : ℕ) × (r : Bytes) × (s ≡ digit_char d ∷ r) × (d < b) × (0 < n → 0 < d)

print_onto-Leads : (b f n : ℕ) (acc : Bytes) → 2 ≤ b → n < f → Leads b n (print_onto b f n acc)
unfolding print_onto
print_onto-Leads b zero n acc lo h = absurd (omega arith)
print_onto-Leads b (suc f) n acc lo h = elim (Bool-cases (ltb n b)) [
  | inl small ↦ rw small (n, acc, refl, ltb→lt n b small, λ p. p)
  | inr big ↦
      let (d, r, e, q, up) =
        print_onto-Leads b f (n / b) (digit_char (n % b) ∷ acc) lo (smaller (ltb→ge n b big)) in
      rw big (d, r, e, q, λ p. up (grows (ltb→ge n b big)))
]
  where
    smaller : b ≤ n → n / b < f
    smaller g = grind arith

    grows : b ≤ n → 0 < n / b
    grows g = grind arith

pub print_base-Leads : (b n : ℕ) → 2 ≤ b → Leads b n (print_base b n)
unfolding print_base
print_base-Leads b n lo = print_onto-Leads b (suc n) n [] lo (omega arith)

length-print_onto :
    (b f n k : ℕ) (acc : Bytes)
    → 0 < b
    → n < b ^ suc k
    → length (print_onto b f n acc) ≤ suc k + length acc
unfolding print_onto
length-print_onto b zero n k acc pos h = omega arith
length-print_onto b (suc f) n zero acc pos h =
    let small : n < b = rw (pow-succ' b 0, pow-zero b, mul-one) at h in
    rw (lt→ltb n b small) (omega arith)
length-print_onto b (suc f) n (suc k) acc pos h = elim (Bool-cases (ltb n b)) [
  | inl small ↦ rw small (omega arith)
  | inr big ↦ rw big (
      omega (
        arith,
        length-print_onto b f (n / b) k (digit_char (n % b) ∷ acc) pos
            ((div-lt_iff_lt-mul pos).1 (rw (mul_comm (b ^ suc k) b, ← pow-succ' b (suc k)) h)),
      ))
]

-- A number below b ^ k has at most k digits in base b.
pub length-print_base : (b n k : ℕ) → 0 < b → n < b ^ suc k → length (print_base b n) ≤ suc k
unfolding print_base
length-print_base b n k pos h = omega (arith, length-print_onto b (suc n) n k [] pos h)

pub length-print_decimal : (n k : ℕ) → n < 10 ^ suc k → length (print_base 10 n) ≤ suc k
length-print_decimal n k h = length-print_base 10 n k (omega arith) h
