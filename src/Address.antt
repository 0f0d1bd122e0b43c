-- ===== src/Address.antt =====
-- IPv4 addresses as 32-bit words with the first octet in the highest byte: `parse_ip` and
-- `format_ip` of src/config/app_config.c, and the two `ip_to_str`, of src/main.c and (through
-- inet_ntop) of src/security/security_policy.c, which print the same text.
pub mod RoundTrip
use pnet_driver_test.Prelude.{
  ℕ, ◌+◌, ◌*◌, ◌/◌, ◌%◌, ◌^◌, Bool, ◌||◌, Option, none, some, ◌∷◌, ◌++◌, ltb, if◌then◌else◌,
}
use pnet_driver_test.Text.Bytes.{Bytes}
use pnet_driver_test.Text.Numeral.{print_base}
use pnet_driver_test.Text.Scan.{scan_unsigned, scan_byte}

infixl 5 ◌>>=◌
abbrev pub ◌>>=◌ : {A B : Type 0} → Option A → (A → Option B) → Option B
none >>= f = none
some a >>= f = f a

-- the four fields of sscanf(str, "%u.%u.%u.%u"); `none` if it converts fewer
unfoldable pub scan_quad : Bytes → Option (ℕ × ℕ × ℕ × ℕ)
scan_quad s = do
  (a, s₁) ← scan_unsigned s
  t₁ ← scan_byte b'.' s₁
  (b, s₂) ← scan_unsigned t₁
  t₂ ← scan_byte b'.' s₂
  (c, s₃) ← scan_unsigned t₂
  t₃ ← scan_byte b'.' s₃
  (d, s₄) ← scan_unsigned t₃
  some (a, b, c, d)

-- The fields are below 256 here, so `|` joins disjoint bits and is `+`.
abbrev pub join : ℕ → ℕ → ℕ → ℕ → ℕ
join a b c d = a * 2 ^ 24 + b * 2 ^ 16 + c * 2 ^ 8 + d

unfoldable pub quad_to_ip : Option (ℕ × ℕ × ℕ × ℕ) → ℕ
quad_to_ip none = 0
quad_to_ip (some (a, b, c, d)) =
    if ltb 255 a || ltb 255 b || ltb 255 c || ltb 255 d then 0 else join a b c d

unfoldable pub parse_ip : Bytes → ℕ
unfolding quad_to_ip scan_quad
parse_ip s = quad_to_ip (scan_quad s)

-- `(ip >> k) & 0xFF`
abbrev pub octet : ℕ → ℕ → ℕ
octet ip k = ip / 2 ^ k % 256

-- The text has at most 15 bytes (`length-format_ip`), and each buffer holds 16.
unfoldable pub format_ip : ℕ → Bytes
format_ip ip =
    print_base 10 (octet ip 24)
    ++ (b'.' ∷ print_base 10 (octet ip 16)
        ++ (b'.' ∷ print_base 10 (octet ip 8) ++ (b'.' ∷ print_base 10 (octet ip 0))))
