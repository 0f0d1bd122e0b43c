-- ===== src/Net/Tuning/Reading.antt =====
-- What the tuning's texts are, and reading them.
use pnet_driver_test.Prelude.{
  ℕ, ◌^◌, ◌<◌, ◌≡◌, refl, pos, is_zero, Bool, true, false, not, some, [], ◌∷◌, ◌++◌, if◌then◌else◌,
}
use pnet_driver_test.Text.Bytes.{Bytes, codes, skip_space}
use pnet_driver_test.Text.Numeral.{print_base, digit_in}
use pnet_driver_test.Text.Scan.{print_int, scan_unsigned, scan_unsigned-print_base}
use pnet_driver_test.Net.{Triple}
use pnet_driver_test.Net.Tuning.{
  Files, triple_text, scan_int, scan_triple, proc_read_int, proc_read_u32_triple, as_int,
}

abbrev pub flag_text : Bool → Bytes
flag_text b = if b then codes "1\n" else codes "0\n"

-- each of the six numbers is in the range of its type
abbrev pub TripleFits : Triple → Type 0
TripleFits (a, b, c) = (a < 2 ^ 32) × (b < 2 ^ 32) × (c < 2 ^ 32)

scan_unsigned-blank :
    (n : ℕ) (rest : Bytes)
    → n < 2 ^ 32
    → scan_unsigned (print_base 10 n ++ (b' ' ∷ rest)) ≡ some (n, b' ' ∷ rest)
unfolding digit_in
scan_unsigned-blank n rest h = scan_unsigned-print_base n (b' ' ∷ rest) h refl

scan_unsigned-newline :
    (n : ℕ) → n < 2 ^ 32 → scan_unsigned (print_base 10 n ++ (b'\n' ∷ [])) ≡ some (n, b'\n' ∷ [])
unfolding digit_in
scan_unsigned-newline n h = scan_unsigned-print_base n (b'\n' ∷ []) h refl

-- %u passes over white space before its digits
skip_blank : (s : Bytes) → scan_unsigned (b' ' ∷ s) ≡ scan_unsigned s
unfolding scan_unsigned skip_space
skip_blank s = refl

pub scan_triple-triple_text : (t : Triple) → TripleFits t → scan_triple (triple_text t) ≡ some t
unfolding scan_triple
scan_triple-triple_text (a, b, c) (ha, hb, hc) = rw (scan_unsigned-blank a _ ha) (
    rw (skip_blank (print_base 10 b ++ (b' ' ∷ print_base 10 c ++ (b'\n' ∷ [])))) (
      rw (scan_unsigned-blank b _ hb)
        (rw (skip_blank (print_base 10 c ++ (b'\n' ∷ []))) (rw (scan_unsigned-newline c hc) refl))))

pub proc_read_triple_lem :
    (files : Files) (path : Bytes) (t : Triple)
    → files path ≡ some (triple_text t)
    → TripleFits t
    → proc_read_u32_triple files path (0, 0, 0) ≡ (pos 0, t)
unfolding proc_read_u32_triple
proc_read_triple_lem files path t e h = rw (e, scan_triple-triple_text t h) refl

pub proc_read_flag :
    (files : Files) (path : Bytes) (b : Bool)
    → files path ≡ some (flag_text b)
    → proc_read_int files path (pos 0) ≡ (pos 0, as_int b)
unfolding proc_read_int scan_int skip_space digit_in pnet_driver_test.Text.Scan.read_sign
    pnet_driver_test.Text.Scan.atoi pnet_driver_test.Text.Numeral.scan
proc_read_flag files path true e = rw e refl
proc_read_flag files path false e = rw e refl

pub as_int_back : (b : Bool) → not (is_zero (as_int b)) ≡ b
as_int_back true = refl
as_int_back false = refl
