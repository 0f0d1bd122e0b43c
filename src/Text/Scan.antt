-- ===== src/Text/Scan.antt =====
-- strtoul, atoi and the %u of sscanf, as glibc has them: `unsigned long` has 64 bits, a value out
-- of range is the nearest one in range, and a narrower result keeps the low bits.
use pnet_driver_test.Prelude.{
  ℕ, zero, suc, ◌+◌, ◌-◌, ◌%◌, ◌^◌, ◌≤◌, ◌<◌, ◌≡◌, refl, sym, ap, ◌∙◌, Bool, true, false, ◌&&◌,
  ◌||◌, Option, none, some, [], ◌∷◌, ◌++◌, arith, ltb, leb, ◌==◌, if◌then◌else◌, ℤ, pos, negsuc,
  IsInt32, append-nil, min,
}
use pnet_driver_test.Text.Bytes.{Bytes, skip_space}
use pnet_driver_test.Text.Numeral.{
  print_base, scan, scan-print_base, scan-print_base_end, starts_with_digit, NoDigit, digit_char,
  digit_in, print_base-Leads, digit_in-digit_char,
}

-- an optional sign: whether it is a minus, and the rest
unfoldable pub read_sign : Bytes → Bool × Bytes
read_sign [] = (false, [])
read_sign (c ∷ cs) =
    if c == b'-' then (true, cs) else if c == b'+' then (false, cs) else (false, c ∷ cs)

-- what strtoul makes of the digits' value
unfoldable pub ulong : Bool → ℕ → ℕ
ulong neg v = if leb (2 ^ 64) v then 2 ^ 64 - 1 else if neg then (2 ^ 64 - v) % 2 ^ 64 else v

-- behind a leading 0: an `x` with a hexadecimal digit, or octal digits
after_zero : Bytes → ℕ
after_zero [] = 0
after_zero (x ∷ cs) =
    if (x == b'x' || x == b'X') && starts_with_digit 16 cs
    then (scan 16 0 cs).0
    else (scan 8 0 (x ∷ cs)).0

auto_base : Bytes → ℕ
unfolding after_zero
auto_base [] = 0
auto_base (c ∷ cs) = if c == b'0' then after_zero cs else (scan 10 0 (c ∷ cs)).0

-- `strtoul(s, NULL, 0)`
unfoldable pub strtoul : Bytes → ℕ
unfolding auto_base ulong read_sign skip_space
strtoul s = let (neg, t) = read_sign (skip_space s) in ulong neg (auto_base t)

-- the `int` in the low 32 bits
unfoldable pub to_int : ℕ → ℤ
to_int w = let v = w % 2 ^ 32 in if ltb v (2 ^ 31) then pos v else negsuc (2 ^ 32 - v - 1)

-- `(int)strtol(s, NULL, 10)`
unfoldable pub atoi : Bytes → ℤ
unfolding to_int read_sign skip_space
atoi s =
    let (neg, t) = read_sign (skip_space s) in
    let v = (scan 10 0 t).0 in to_int (if neg then 2 ^ 64 - min v (2 ^ 63) else min v (2 ^ 63 - 1))

-- one `%u` of sscanf: the `unsigned` read, and the rest
unfoldable pub scan_unsigned : Bytes → Option (ℕ × Bytes)
unfolding ulong read_sign skip_space
scan_unsigned s =
    let (neg, t) = read_sign (skip_space s) in
    let (v, rest) = scan 10 0 t in
    if starts_with_digit 10 t then some (ulong neg v % 2 ^ 32, rest) else none

-- one `%lu` of sscanf at the end of what is read
unfoldable pub scan_ulong : Bytes → Option ℕ
unfolding ulong read_sign skip_space
scan_ulong s =
    let (neg, t) = read_sign (skip_space s) in
    if starts_with_digit 10 t then some (ulong neg (scan 10 0 t).0) else none

-- one ordinary byte of sscanf's format
unfoldable pub scan_byte : ℕ → Bytes → Option Bytes
scan_byte c [] = none
scan_byte c (x ∷ xs) = if x == c then some xs else none

-- %d
unfoldable pub print_int : ℤ → Bytes
print_int (pos n) = print_base 10 n
print_int (negsuc n) = b'-' ∷ print_base 10 (n + 1)

-- %04X
unfoldable pub pad4 : Bytes → Bytes
pad4 (a ∷ b ∷ c ∷ d ∷ s) = a ∷ b ∷ c ∷ d ∷ s
pad4 (a ∷ b ∷ c ∷ []) = b'0' ∷ a ∷ b ∷ c ∷ []
pad4 (a ∷ b ∷ []) = b'0' ∷ b'0' ∷ a ∷ b ∷ []
pad4 (a ∷ []) = b'0' ∷ b'0' ∷ b'0' ∷ a ∷ []
pad4 [] = b'0' ∷ b'0' ∷ b'0' ∷ b'0' ∷ []

digit_unsigned :
    (d : ℕ) (r : Bytes)
    → d < 10
    → read_sign (skip_space (digit_char d ∷ r)) ≡ (false, digit_char d ∷ r)
unfolding read_sign skip_space digit_char
digit_unsigned d r h = ground arith

print_base_unsigned :
    (n : ℕ) (rest : Bytes)
    → read_sign (skip_space (print_base 10 n ++ rest)) ≡ (false, print_base 10 n ++ rest)
print_base_unsigned n rest =
    let (d, r, e, q, up) = print_base-Leads 10 n (omega arith) in
    rw e (digit_unsigned d (r ++ rest) q)

pub print_base_starts :
    (b n : ℕ) (rest : Bytes) → 2 ≤ b → b ≤ 16 → starts_with_digit b (print_base b n ++ rest) ≡ true
print_base_starts b n rest lo hi =
    let (d, r, e, q, up) = print_base-Leads b n lo in
    rw e (rw (digit_in-digit_char b d q hi, starts_with_digit))

auto_base_leading :
    (d : ℕ) (r : Bytes)
    → 0 < d
    → d < 10
    → auto_base (digit_char d ∷ r) ≡ (scan 10 0 (digit_char d ∷ r)).0
unfolding auto_base digit_char
auto_base_leading d r lo hi = ground arith

auto_base-print_base : (n : ℕ) → auto_base (print_base 10 n) ≡ n
unfolding auto_base print_base scan
auto_base-print_base zero = refl
auto_base-print_base (suc n) =
    let (d, r, e, q, up) = print_base-Leads 10 (suc n) (omega arith) in
    ap auto_base e
    ∙ auto_base_leading d r (up (omega arith)) q
    ∙ ap (λ s. (scan 10 0 s).0) (sym e)
    ∙ ap (λ (p : ℕ × Bytes). p.0) (scan-print_base_end 10 (suc n) (omega arith) (omega arith))

-- The text of a number below 2 ^ 64 is read back by strtoul.
pub strtoul-print_base : (n : ℕ) → n < 2 ^ 64 → strtoul (print_base 10 n) ≡ n
unfolding strtoul
strtoul-print_base n h =
    ground (arith, print_base_unsigned n [], append-nil (print_base 10 n), auto_base-print_base n)

starts-pad4 : (s : Bytes) → starts_with_digit 16 s ≡ true → starts_with_digit 16 (pad4 s) ≡ true
unfolding pad4 digit_in
starts-pad4 (a ∷ b ∷ c ∷ d ∷ s) h = h
starts-pad4 (a ∷ b ∷ c ∷ []) h = refl
starts-pad4 _ h = refl

scan-pad4 : (s : Bytes) → scan 16 0 (pad4 s) ≡ scan 16 0 s
unfolding pad4 digit_in scan
scan-pad4 (a ∷ b ∷ c ∷ d ∷ s) = refl
scan-pad4 (a ∷ b ∷ c ∷ []) = refl
scan-pad4 (a ∷ b ∷ []) = refl
scan-pad4 (a ∷ []) = refl
scan-pad4 [] = refl

pub strtoul-hex : (n : ℕ) → n < 2 ^ 16 → strtoul (b'0' ∷ b'x' ∷ pad4 (print_base 16 n)) ≡ n
unfolding strtoul
strtoul-hex n h = ground (
  arith,
  starts-pad4 (print_base 16 n),
  print_base_starts 16 n [] (omega arith) (omega arith),
  append-nil (print_base 16 n),
  scan-pad4 (print_base 16 n),
  scan-print_base_end 16 n (omega arith) (omega arith),
)

pub atoi-print_int : (z : ℤ) → IsInt32 z → atoi (print_int z) ≡ z
unfolding atoi print_int
atoi-print_int (pos n) h = ground (
  arith,
  print_base_unsigned n [],
  append-nil (print_base 10 n),
  scan-print_base_end 10 n (omega arith) (omega arith),
)
atoi-print_int (negsuc n) h =
    ground (arith, scan-print_base_end 10 (n + 1) (omega arith) (omega arith))

pub scan_unsigned-print_base :
    (n : ℕ) (rest : Bytes)
    → n < 2 ^ 32
    → NoDigit 10 rest
    → scan_unsigned (print_base 10 n ++ rest) ≡ some (n, rest)
unfolding scan_unsigned
scan_unsigned-print_base n rest h e = ground (
  arith,
  print_base_unsigned n rest,
  print_base_starts 10 n rest (omega arith) (omega arith),
  scan-print_base 10 n rest (omega arith) (omega arith) e,
)

pub scan_ulong-print_base :
    (n : ℕ) (rest : Bytes)
    → n < 2 ^ 64
    → NoDigit 10 rest
    → scan_ulong (print_base 10 n ++ rest) ≡ some n
unfolding scan_ulong
scan_ulong-print_base n rest h e = ground (
  arith,
  print_base_unsigned n rest,
  print_base_starts 10 n rest (omega arith) (omega arith),
  scan-print_base 10 n rest (omega arith) (omega arith) e,
)
