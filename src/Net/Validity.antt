-- ===== src/Net/Validity.antt =====
-- The address utilities: `net_ip_is_valid`, and the conversions over inet_pton and inet_ntop, which
-- are parameters. The machine is little-endian: the first octet of a network-order word is its lowest byte.
use pnet_driver_test.Prelude.{
  ℕ, ◌-◌, ◌/◌, ◌%◌, ◌^◌, ◌≤◌, ◌<◌, ◌≡◌, ◌↔◌, refl, Bool, true, false, Option, none, some, arith,
  ◌==◌, if◌then◌else◌, take,
}
use pnet_driver_test.Text.Bytes.{Bytes, codes}
use pnet_driver_test.Address.{join, octet}

-- the four bytes in the other order
unfoldable pub ntohl : ℕ → ℕ
ntohl n = join (octet n 0) (octet n 8) (octet n 16) (octet n 24)

-- The masks 0xFF000000 and 0xF0000000 keep the highest 8 and 4 of 32 bits.
unfoldable pub net_ip_is_valid : ℕ → Bool
unfolding ntohl
net_ip_is_valid ip =
    let host_ip = ntohl ip in
    if host_ip == 0
    then false
    else if host_ip == 0xFFFFFFFF
    then false
    else if host_ip / 2 ^ 24 == 0
    then false
    else if host_ip / 2 ^ 28 == 15
    then false
    else true

pub ntohl-join :
    (a b c d : ℕ) → a < 256 → b < 256 → c < 256 → d < 256 → ntohl (join a b c d) ≡ join d c b a
unfolding ntohl
ntohl-join a b c d ha hb hc hd = omega arith

first_octet : (n : ℕ) → n < 2 ^ 32 → ntohl n / 2 ^ 24 ≡ n % 256
unfolding ntohl
first_octet n h = omega arith

-- A 32-bit address in network byte order is valid if its first octet is from 1 to 239, and only
-- then.
pub net_ip_is_valid_iff :
    (ip : ℕ) → ip < 2 ^ 32 → (net_ip_is_valid ip ≡ true) ↔ ((1 ≤ ip % 256) × (ip % 256 < 240))
unfolding net_ip_is_valid
net_ip_is_valid_iff ip h = ground (arith, first_octet ip h)

-- inet_pton gives the word that a text stands for, and inet_ntop the text of a word, if it fits
-- the buffer with its NUL. The manual page has the largest text at 16 bytes.
pub record Inet : Type 0 where
  pub inet_pton : Bytes → Option ℕ
  pub inet_ntop : ℕ → ℕ → Option Bytes
  pub fits : (ip size : ℕ) → ip < 2 ^ 32 → 16 ≤ size → (s : Bytes) × (inet_ntop ip size ≡ some s)
  pub read_back :
      (ip size : ℕ) (s : Bytes) → ip < 2 ^ 32 → inet_ntop ip size ≡ some s → inet_pton s ≡ some ip

module _ (inet : Inet) where
  open inet use {inet_pton, inet_ntop, fits, read_back}

  word_or_zero : Option ℕ → ℕ
  word_or_zero none = 0
  word_or_zero (some ip) = ip

  unfoldable pub net_ip_from_string : Option Bytes → ℕ
  unfolding word_or_zero
  net_ip_from_string none = 0
  net_ip_from_string (some str) = word_or_zero (inet_pton str)

  text_or_zero : ℕ → Option Bytes → Bytes
  text_or_zero buf_size none = take (buf_size - 1) (codes "0.0.0.0")
  text_or_zero buf_size (some s) = s

  -- what the buffer then holds; `none` if nothing is written
  unfoldable pub net_ip_to_string : ℕ → Bool → ℕ → Option Bytes
  unfolding text_or_zero
  net_ip_to_string ip buf buf_size =
      if buf
      then if buf_size == 0 then none else some (text_or_zero buf_size (inet_ntop ip buf_size))
      else none

  -- A word that is printed into a buffer of 16 bytes or more is read back.
  pub net_ip_from_string-net_ip_to_string :
      (ip buf_size : ℕ)
      → ip < 2 ^ 32
      → 16 ≤ buf_size
      → net_ip_from_string (net_ip_to_string ip true buf_size) ≡ ip
  unfolding net_ip_from_string net_ip_to_string
  net_ip_from_string-net_ip_to_string ip buf_size bound h =
      let (s, e) = fits ip buf_size bound h in
      let some_size : (buf_size == 0) ≡ false = ground arith in
      rw (some_size, e, read_back ip buf_size s bound e) refl
