-- ===== src/Text/Buffer.antt =====
-- `snprintf(buf + offset, len - (size_t)offset, …)` into a buffer of `len` bytes, as the report and
-- script writers of src/security/security_policy.c call it.
use pnet_driver_test.Prelude.{
  ℕ, ◌+◌, ◌-◌, ◌%◌, ◌^◌, ◌≤◌, ◌<◌, ◌≡◌, refl, Bool, true, false, ◌||◌, [], ◌++◌, arith, leb, ◌==◌,
  if◌then◌else◌, length, take, min, take_all, length-append, take-append_split, ap, ◌∙◌,
}
use pnet_driver_test.Text.Bytes.{Bytes}

pub record Cursor : Type 0 where
  pub offset : ℕ
  pub content : Bytes  -- the string in the buffer
  pub overrun : Bool  -- a byte was written outside the buffer

abbrev pub at_start : Cursor
at_start = record { offset = 0; content = []; overrun = false }

-- `len - (size_t)offset`, which wraps
abbrev pub room : ℕ → ℕ → ℕ
room len offset = (len + 2 ^ 64 - offset) % 2 ^ 64

-- snprintf writes at most `room - 1` bytes and a NUL, and nothing if `room` is 0.
unfoldable pub snprintf : ℕ → Bytes → Cursor → Cursor
snprintf len t c =
    if room len c.offset == 0
    then c
    else let fit = room len c.offset - 1 in
      record c {
        content = take c.offset c.content ++ take fit t;
        overrun = c.overrun || leb len (c.offset + min (length t) fit);
      }

-- `written = snprintf(…); offset += written;`
unfoldable pub put : ℕ → Bytes → Cursor → Cursor
unfolding snprintf
put len t c = record (snprintf len t c) { offset = c.offset + length t }

-- `s` is what was printed up to here; if it fits, it is what the buffer holds.
pub record Tracks (len : ℕ) (s : Bytes) (c : Cursor) : Type 0 where
  pub at : c.offset ≡ length s
  pub holds : length s < len → (c.content ≡ s) × (c.overrun ≡ false)

pub at_start-Tracks : (len : ℕ) → Tracks len [] at_start
at_start-Tracks len = record { at = refl; holds = λ h. (refl, refl) }

room_of_lt : (len off : ℕ) → len < 2 ^ 64 → off < len → room len off ≡ len - off
room_of_lt len off h k = omega arith

pub snprintf_fits :
    {len : ℕ} {s : Bytes} (t : Bytes) {c : Cursor}
    → len < 2 ^ 64
    → Tracks len s c
    → length s + length t < len
    → ((snprintf len t c).content ≡ s ++ t) × ((snprintf len t c).overrun ≡ false)
unfolding snprintf
snprintf_fits {len} {s} t {c} big k h =
    let (same, clear) = k.holds (omega arith) in
    let off : c.offset ≡ length s = k.at in
    let r : room len c.offset ≡ len - c.offset = room_of_lt len c.offset big (omega arith) in
    ground (
      arith,
      same,
      clear,
      r,
      take_all c.offset c.content (rw same (omega arith)),
      take_all (len - c.offset - 1) t (omega arith),
    )

pub put-Tracks :
    {len : ℕ} {s : Bytes} (t : Bytes) {c : Cursor}
    → len < 2 ^ 64
    → Tracks len s c
    → Tracks len (s ++ t) (put len t c)
unfolding put
put-Tracks {len} {s} t {c} big k = record {
  at = omega (arith, k.at, length-append s t);
  holds = λ h. snprintf_fits t big k (omega (arith, length-append s t));
}

-- Past the end of the buffer the subtraction wraps, and snprintf writes outside.
pub snprintf_overruns :
    (len : ℕ) (t : Bytes) (c : Cursor)
    → c.offset < 2 ^ 64
    → len < c.offset
    → (snprintf len t c).overrun ≡ true
unfolding snprintf
snprintf_overruns len t c h k = ground arith

-- Inside the buffer it never does.
pub snprintf_inside :
    (len : ℕ) (t : Bytes) (c : Cursor)
    → len < 2 ^ 64
    → c.offset ≤ len
    → (snprintf len t c).overrun ≡ c.overrun
unfolding snprintf
snprintf_inside len t c h k = ground arith

-- What does not fit is cut off.
pub put_cut :
    {len : ℕ} {s : Bytes} (t : Bytes) {c : Cursor}
    → len < 2 ^ 64
    → Tracks len s c
    → length s < len
    → ((put len t c).content ≡ take (len - 1) (s ++ t)) × ((put len t c).overrun ≡ false)
unfolding put snprintf
put_cut {len} {s} t {c} big k h =
    let (same, clear) = k.holds h in
    let off : c.offset ≡ length s = k.at in
    let r : room len c.offset ≡ len - c.offset = room_of_lt len c.offset big (omega arith) in
    (
      ground (
        arith,
        same,
        r,
        off,
        take_all c.offset c.content (rw same (omega arith)),
        take-append_split (len - 1) s t (omega arith),
        ap (λ m. take m t) {x = len - c.offset - 1} {y = len - 1 - length s} (omega arith),
      ),
      snprintf_inside len t c big (omega arith) ∙ clear,
    )
