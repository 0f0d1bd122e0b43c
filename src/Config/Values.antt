-- ===== src/Config/Values.antt =====
-- The values that `app_config_save` writes, as values that a line of the file can hold.
use pnet_driver_test.Prelude.{
  ℕ, ◌+◌, ◌^◌, ◌≤◌, ◌<◌, ◌≡◌, refl, ℤ, pos, negsuc, IsInt32, Bool, true, false, [], ◌∷◌, ◌++◌,
  arith, ◌==◌, length, length-append, All, All-append,
}
use pnet_driver_test.Text.Bytes.{Bytes, codes, isspace}
use pnet_driver_test.Text.Numeral.{
  print_base, digit_char, All-print_base, length-print_base, length-print_decimal, print_base-Leads,
}
use pnet_driver_test.Text.Scan.{print_int, pad4}
use pnet_driver_test.Text.Strip.{IsTrimmed, last_of}
use pnet_driver_test.Address.{format_ip, octet}
use pnet_driver_test.Address.RoundTrip.{length-format_ip}
use pnet_driver_test.Config.Load.Lines.{Plain}
use pnet_driver_test.Config.Save.{yes_no, hex4}

-- a value that comes back from its line as it is: not empty, with no white space at its ends and
-- no byte that ends a line, and below `size` bytes
pub record IsValue (size : ℕ) (v : Bytes) : Type 0 where
  pub nonempty : 0 < length v
  pub trimmed : IsTrimmed v
  pub plain : All Plain v
  pub fits : length v < size

-- no white space, and not NUL
abbrev Solid : ℕ → Type 0
Solid c = (isspace c ≡ false) × ((c == 0) ≡ false)

Plain-Solid : (c : ℕ) → Solid c → Plain c
Plain-Solid c h = ground arith

All-Plain : (s : Bytes) → All Solid s → All Plain s
All-Plain [] h = tt
All-Plain (c ∷ s) (h, hs) = (Plain-Solid c h, All-Plain s hs)

last-Solid : (c : ℕ) (s : Bytes) → Solid c → All Solid s → isspace (last_of c s) ≡ false
last-Solid c [] h hs = h.0
last-Solid c (d ∷ s) h (k, ks) = last-Solid d s k ks

IsTrimmed-Solid : (s : Bytes) → All Solid s → IsTrimmed s
IsTrimmed-Solid [] h = tt
IsTrimmed-Solid (c ∷ s) (h, hs) = (h.0, last-Solid c s h hs)

Solid-IsValue :
    (size : ℕ) (s : Bytes) → All Solid s → 0 < length s → length s < size → IsValue size s
Solid-IsValue size s h some_byte fits = record {
  nonempty = some_byte;
  trimmed = IsTrimmed-Solid s h;
  plain = All-Plain s h;
  fits = fits;
}

digit_char-Solid : (d : ℕ) → d < 16 → Solid (digit_char d)
unfolding digit_char
digit_char-Solid d h = ground arith

print_base-Solid : (b n : ℕ) → 0 < b → b ≤ 16 → All Solid (print_base b n)
print_base-Solid b n some_base h =
    All-print_base Solid b n some_base (λ d k. digit_char-Solid d (omega arith))

print_base-pos : (b n : ℕ) → 2 ≤ b → 0 < length (print_base b n)
print_base-pos b n h = let (d, r, e, q, up) = print_base-Leads b n h in rw e (omega arith)

pub print_base-IsValue : (n : ℕ) → n < 2 ^ 32 → IsValue 300 (print_base 10 n)
print_base-IsValue n h =
    Solid-IsValue 300 (print_base 10 n) (print_base-Solid 10 n (omega arith) (omega arith))
      (print_base-pos 10 n (omega arith)) (omega (arith, length-print_decimal n 9 (omega arith)))

pub print_int-IsValue : (z : ℤ) → IsInt32 z → IsValue 300 (print_int z)
unfolding print_int
print_int-IsValue (pos n) h = print_base-IsValue n (omega arith)
print_int-IsValue (negsuc n) h =
    Solid-IsValue 300 (b'-' ∷ print_base 10 (n + 1))
      ((refl, refl), print_base-Solid 10 (n + 1) (omega arith) (omega arith)) (omega arith)
      (omega (arith, length-print_decimal (n + 1) 9 (omega arith)))

field-Solid : (n : ℕ) (rest : Bytes) → All Solid rest → All Solid (print_base 10 n ++ (b'.' ∷ rest))
field-Solid n rest h =
    All-append Solid (print_base 10 n) (b'.' ∷ rest)
      (print_base-Solid 10 n (omega arith) (omega arith)) ((refl, refl), h)

format_ip-Solid : (ip : ℕ) → All Solid (format_ip ip)
unfolding format_ip
format_ip-Solid ip = field-Solid (octet ip 24) _ (
    field-Solid (octet ip 16) _
      (field-Solid (octet ip 8) _ (print_base-Solid 10 (octet ip 0) (omega arith) (omega arith))))

format_ip-pos : (ip : ℕ) → 0 < length (format_ip ip)
unfolding format_ip
format_ip-pos ip =
    let first = print_base 10 (octet ip 24) in
    omega (arith, length-append first (b'.' ∷ _), print_base-pos 10 (octet ip 24) (omega arith))

pub format_ip-IsValue : (ip : ℕ) → IsValue 300 (format_ip ip)
format_ip-IsValue ip =
    Solid-IsValue 300 (format_ip ip) (format_ip-Solid ip) (format_ip-pos ip)
      (omega (arith, length-format_ip ip))

pub yes_no-IsValue : (b : Bool) → IsValue 300 (yes_no b)
unfolding yes_no
yes_no-IsValue true = Solid-IsValue 300 (codes "true") (ground arith) (omega arith) (omega arith)
yes_no-IsValue false = Solid-IsValue 300 (codes "false") (ground arith) (omega arith) (omega arith)

pad4-Solid : (s : Bytes) → All Solid s → All Solid (pad4 s)
unfolding pad4
pad4-Solid (a ∷ b ∷ c ∷ d ∷ s) h = h
pad4-Solid (a ∷ b ∷ c ∷ []) h = ((refl, refl), h)
pad4-Solid (a ∷ b ∷ []) h = ((refl, refl), ((refl, refl), h))
pad4-Solid (a ∷ []) h = ((refl, refl), ((refl, refl), ((refl, refl), h)))
pad4-Solid [] h = ((refl, refl), ((refl, refl), ((refl, refl), ((refl, refl), tt))))

length-pad4 : (s : Bytes) → length s ≤ 4 → length (pad4 s) ≤ 4
unfolding pad4
length-pad4 (a ∷ b ∷ c ∷ d ∷ s) h = h
length-pad4 (a ∷ b ∷ c ∷ []) h = omega arith
length-pad4 _ h = omega arith

pub hex4-IsValue : (n : ℕ) → n < 2 ^ 16 → IsValue 300 (hex4 n)
unfolding hex4
hex4-IsValue n h =
    Solid-IsValue 300 (b'0' ∷ b'x' ∷ pad4 (print_base 16 n))
      (
        (refl, refl),
        (
          (refl, refl),
          pad4-Solid (print_base 16 n) (print_base-Solid 16 n (omega arith) (omega arith)),
        ),
      )
      (omega arith)
      (omega (
        arith,
        length-pad4 (print_base 16 n) (length-print_base 16 n 3 (omega arith) (omega arith)),
      ))
