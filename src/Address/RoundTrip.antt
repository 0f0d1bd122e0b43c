-- ===== src/Address/RoundTrip.antt =====
-- Printing an address and reading it back.
use pnet_driver_test.Prelude.{
  ℕ, ◌+◌, ◌^◌, ◌≤◌, ◌<◌, ◌≡◌, refl, ap, ◌∙◌, sym, Option, none, some, [], ◌∷◌, ◌++◌, arith, length,
  length-append, append-nil,
}
use pnet_driver_test.Text.Bytes.{Bytes}
use pnet_driver_test.Text.Numeral.{print_base, length-print_decimal, digit_in}
use pnet_driver_test.Text.Scan.{scan_unsigned, scan_byte, scan_unsigned-print_base}
use pnet_driver_test.Address.{scan_quad, quad_to_ip, parse_ip, octet, format_ip}

-- a field and the dot behind it
read_field :
    (n : ℕ) (rest : Bytes)
    → n < 256
    → scan_unsigned (print_base 10 n ++ (b'.' ∷ rest)) ≡ some (n, b'.' ∷ rest)
unfolding digit_in
read_field n rest h = scan_unsigned-print_base n (b'.' ∷ rest) (omega arith) refl

last_field : (n : ℕ) → n < 256 → scan_unsigned (print_base 10 n) ≡ some (n, [])
last_field n h =
    ap scan_unsigned (sym (append-nil (print_base 10 n)))
    ∙ scan_unsigned-print_base n [] (omega arith) refl

scan_quad-format_ip :
    (ip : ℕ) → scan_quad (format_ip ip) ≡ some (octet ip 24, octet ip 16, octet ip 8, octet ip 0)
unfolding scan_quad format_ip scan_byte
scan_quad-format_ip ip = rw (read_field (octet ip 24) _ (omega arith)) (
    rw (read_field (octet ip 16) _ (omega arith))
      (rw (read_field (octet ip 8) _ (omega arith)) (rw (last_field (octet ip 0) (omega arith)))))

-- Every 32-bit address is read back from its text.
pub parse_ip-format_ip : (ip : ℕ) → ip < 2 ^ 32 → parse_ip (format_ip ip) ≡ ip
unfolding parse_ip
parse_ip-format_ip ip h = rw (scan_quad-format_ip ip) (ground arith)

length-field :
    (n : ℕ) (rest : Bytes) → n < 256 → length (print_base 10 n ++ (b'.' ∷ rest)) ≤ 4 + length rest
length-field n rest h =
    omega
      (arith, length-append (print_base 10 n) (b'.' ∷ rest), length-print_decimal n 2 (omega arith))

-- The text of an address fits a buffer of 16 bytes with its NUL.
pub length-format_ip : (ip : ℕ) → length (format_ip ip) ≤ 15
unfolding format_ip
length-format_ip ip = omega (
  arith,
  length-field (octet ip 24) _ (omega arith),
  length-field (octet ip 16) _ (omega arith),
  length-field (octet ip 8) _ (omega arith),
  length-print_decimal (octet ip 0) 2 (omega arith),
)

-- Whatever the text, the result is a 32-bit address.
pub parse_ip-lt : (s : Bytes) → parse_ip s < 2 ^ 32
unfolding parse_ip quad_to_ip
parse_ip-lt s = bounded (scan_quad s)
  where
    bounded : (q : Option (ℕ × ℕ × ℕ × ℕ)) → quad_to_ip q < 2 ^ 32
    bounded none = omega arith
    bounded (some (a, b, c, d)) = ground arith
