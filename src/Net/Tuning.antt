-- ===== src/Net/Tuning.antt =====
-- TCP tuning through the files of /proc/sys (the branch for PLATFORM_LINUX).
pub mod Reading
pub mod Applied
use pnet_driver_test.Prelude.{
  ℕ, ◌%◌, ◌^◌, ◌<◌, ◌≡◌, ◌↔◌, refl, ℤ, pos, negsuc, is_zero, Bool, true, false, not, ◌&&◌, Option,
  none, some, List, [], ◌∷◌, ◌++◌, arith, if◌then◌else◌,
}
use pnet_driver_test.Text.Bytes.{Bytes, codes, same, skip_space}
use pnet_driver_test.Text.Numeral.{print_base, starts_with_digit}
use pnet_driver_test.Text.Scan.{print_int, read_sign, atoi, scan_unsigned}
use pnet_driver_test.Address.{◌>>=◌}
use pnet_driver_test.Net.{TcpTuningConfig, Triple, zero_tuning}

abbrev pub proc_tcp_timestamps : Bytes
proc_tcp_timestamps = codes "/proc/sys/net/ipv4/tcp_timestamps"

abbrev pub proc_tcp_win_scale : Bytes
proc_tcp_win_scale = codes "/proc/sys/net/ipv4/tcp_window_scaling"

abbrev pub proc_tcp_sack : Bytes
proc_tcp_sack = codes "/proc/sys/net/ipv4/tcp_sack"

abbrev pub proc_tcp_rmem : Bytes
proc_tcp_rmem = codes "/proc/sys/net/ipv4/tcp_rmem"

abbrev pub proc_tcp_wmem : Bytes
proc_tcp_wmem = codes "/proc/sys/net/ipv4/tcp_wmem"

-- the files, by path: their text, or `none` for one that cannot be opened for reading
abbrev pub Files : Type 0
Files = Bytes → Option Bytes

abbrev pub put_file : Bytes → Bytes → Files → Files
put_file path text files p = if same p path then some text else files p

abbrev pub triple_text : Triple → Bytes
triple_text (a, b, c) =
    print_base 10 a ++ (b' ' ∷ print_base 10 b ++ (b' ' ∷ print_base 10 c ++ (b'\n' ∷ [])))

-- `fscanf(fp, "%d", out)`
unfoldable pub scan_int : Bytes → Option ℤ
scan_int s =
    let (neg, t) = read_sign (skip_space s) in
    if starts_with_digit 10 t then some (atoi s) else none

-- `fscanf(fp, "%u %u %u", &a, &b, &c)`; the blanks match any white space, and %u passes over it too
unfoldable pub scan_triple : Bytes → Option Triple
scan_triple s = do
  (a, s₁) ← scan_unsigned s
  (b, s₂) ← scan_unsigned s₁
  (c, s₃) ← scan_unsigned s₂
  some (a, b, c)

-- a result, and the value behind the pointer: the one that was there if nothing was read
abbrev pub read_or : {A : Type 0} → A → Option A → ℤ × A
read_or old none = (negsuc 0, old)
read_or old (some v) = (pos 0, v)

unfoldable pub proc_read_int : Files → Bytes → ℤ → ℤ × ℤ
unfolding scan_int
proc_read_int files path out = read_or out (files path >>= scan_int)

unfoldable pub proc_read_u32_triple : Files → Bytes → Triple → ℤ × Triple
unfolding scan_triple
proc_read_u32_triple files path out = read_or out (files path >>= scan_triple)

-- `a | b` on results that are 0 or -1
abbrev pub or_result : ℤ → ℤ → ℤ
or_result a b = if is_zero a then b else a

abbrev pub as_int : Bool → ℤ
as_int b = if b then pos 1 else pos 0

unfoldable pub net_tcp_tuning_read_current : Files → Bool → ℤ × Option TcpTuningConfig
net_tcp_tuning_read_current files false = (negsuc 0, none)
net_tcp_tuning_read_current files true =
    let (r₁, ts) = proc_read_int files proc_tcp_timestamps (pos 0) in
    let (r₂, ws) = proc_read_int files proc_tcp_win_scale (pos 0) in
    let (r₃, sack) = proc_read_int files proc_tcp_sack (pos 0) in
    let (r₄, rmem) = proc_read_u32_triple files proc_tcp_rmem (0, 0, 0) in
    let (r₅, wmem) = proc_read_u32_triple files proc_tcp_wmem (0, 0, 0) in
    let ret = or_result (or_result (or_result (or_result r₁ r₂) r₃) r₄) r₅ in
    (
      if is_zero ret then pos 0 else negsuc 0,
      some (record {
        tcp_timestamps = not (is_zero ts);
        tcp_window_scaling = not (is_zero ws);
        tcp_sack = not (is_zero sack);
        tcp_rmem = rmem;
        tcp_wmem = wmem;
      }),
    )

-- `can_write` is whether `fopen(path, "w")` succeeds, and `takes` whether the kernel then takes this
-- text. What fprintf writes is not empty and goes to the stream's buffer, so it reports no failure;
-- the text reaches the file at fclose, whose result nothing looks at.
module _ (can_write : Bytes → Bool) (takes : Bytes → Bytes → Bool) where
  unfoldable pub proc_write : Files → Bytes → Bytes → ℤ × Files
  proc_write files path text =
      if can_write path
      then (pos 0, if takes path text then put_file path text files else files)
      else (negsuc 0, files)

  unfoldable pub proc_write_int : Files → Bytes → ℤ → ℤ × Files
  unfolding proc_write
  proc_write_int files path value = proc_write files path (print_int value ++ (b'\n' ∷ []))

  unfoldable pub proc_write_u32_triple : Files → Bytes → Triple → ℤ × Files
  unfolding proc_write
  proc_write_u32_triple files path val = proc_write files path (triple_text val)

  unfoldable pub net_tcp_tuning_apply : Files → Option TcpTuningConfig → ℤ × Files
  net_tcp_tuning_apply files none = (negsuc 0, files)
  net_tcp_tuning_apply files (some tuning) =
      let (r₁, f₁) = proc_write_int files proc_tcp_timestamps (as_int tuning.tcp_timestamps) in
      let (r₂, f₂) = proc_write_int f₁ proc_tcp_win_scale (as_int tuning.tcp_window_scaling) in
      let (r₃, f₃) = proc_write_int f₂ proc_tcp_sack (as_int tuning.tcp_sack) in
      let (r₄, f₄) = proc_write_u32_triple f₃ proc_tcp_rmem tuning.tcp_rmem in
      let (r₅, f₅) = proc_write_u32_triple f₄ proc_tcp_wmem tuning.tcp_wmem in
      let ret = or_result (or_result (or_result (or_result r₁ r₂) r₃) r₄) r₅ in
      (if is_zero ret then pos 0 else negsuc 0, f₅)
