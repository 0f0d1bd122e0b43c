-- ===== src/Text/Print.antt =====
-- The formats of printf that the terminal's lines use, beside those of Numeral and Scan.
use pnet_driver_test.Prelude.{
  ℕ, suc, ◌+◌, ◌-◌, List, [], ◌∷◌, ◌++◌, ltb, if◌then◌else◌, length, replicate, ◌≡◌, refl, ap, ◌<◌,
  ◌≤◌, ◌^◌, arith, length-append, length-replicate,
}
use pnet_driver_test.Text.Bytes.{Bytes, codes}
use pnet_driver_test.Text.Numeral.{print_base, length-print_base}

-- %u of a value
abbrev pub u : ℕ → Bytes
u n = print_base 10 n

unfoldable pub lower : Bytes → Bytes
lower [] = []
lower (c ∷ cs) = (if ltb 64 c then c + 32 else c) ∷ lower cs

-- %0nx, with lower case digits
unfoldable pub hex : ℕ → ℕ → Bytes
hex width n = let s = lower (print_base 16 n) in replicate (width - length s) b'0' ++ s

-- the pieces of one line, one behind the other
abbrev pub say : List Bytes → Bytes
say [] = codes "\n"
say (t ∷ ts) = t ++ say ts

-- the lines of one output, each with its line end
unfoldable pub lines : List (List Bytes) → Bytes
lines [] = []
lines (l ∷ ls) = say l ++ lines ls

length-lower : (s : Bytes) → length (lower s) ≡ length s
unfolding lower
length-lower [] = refl
length-lower (c ∷ cs) = ap suc (length-lower cs)

-- A number of at most as many digits as its field is wide fills the field.
pub length-hex : (k n : ℕ) → n < 16 ^ suc k → length (hex (suc k) n) ≡ suc k
unfolding hex
length-hex k n h =
    let s = lower (print_base 16 n) in
    let short : length s ≤ suc k =
      rw (length-lower (print_base 16 n)) (length-print_base 16 n k (omega arith) h) in
    rw
      (
        length-append (replicate (suc k - length s) b'0') s,
        length-replicate {A = ℕ} (suc k - length s) b'0',
      )
      (omega (arith, short))
