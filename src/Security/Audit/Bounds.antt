-- ===== src/Security/Audit/Bounds.antt =====
-- The audit report against the buffer, and the results of `sec_policy_audit`.
use pnet_driver_test.Prelude.{
  ge→ltb, ltb→lt, ltb→ge, lt→ltb, ◌&&◌, ap, ◌∙◌, false, ℕ, ◌+◌, ◌^◌, ◌≤◌, ◌<◌, ◌≡◌, refl, true,
  some, [], ◌++◌, arith, leb, ltb, if◌then◌else◌, length, length-append, Bool-cases, inl, inr,
  gt→leb, le→leb, leb→gt, leb→le,
}
use pnet_driver_test.Text.Bytes.{Bytes}
use pnet_driver_test.Text.Buffer.{
  at_start, put, at_start-Tracks, put-Tracks, snprintf_inside, snprintf_overruns, snprintf_fits,
}
use pnet_driver_test.Security.{Policy, enospc}
use pnet_driver_test.Security.Table.{IsValid}
use pnet_driver_test.Security.Audit.{
  warnings, audit_fail, audit_header, summary_text, Audit, run_checks, finish_audit, write_audit,
  sec_policy_audit,
}
use pnet_driver_test.Security.Audit.Report.{
  warning_count, body, report, Reports, run_checks-Reports, put-safe,
}
use pnet_driver_test.Security.Audit.Size.{warning_count-le, length-report, length-body}

start : ℕ → Policy → Audit
start len p = record { cursor = put len (audit_header p) at_start; count = 0 }

start-Reports : {len : ℕ} (p : Policy) → len < 2 ^ 64 → Reports len (audit_header p) 0 (start len p)
unfolding start
start-Reports {len} p big = record {
  tracks = put-Tracks (audit_header p) big (at_start-Tracks len);
  counted = refl;
  safe = λ h. put-safe [] (audit_header p) at_start big refl (λ k. refl) h;
}

-- the cursor and count before the summary
checked :
    {len : ℕ} {p : Policy}
    → len < 2 ^ 64
    → IsValid p
    → Reports len (body p) (warning_count p) (run_checks len p (start len p))
checked {p} big v = run_checks-Reports big v (start-Reports p big)

-- the end of the audit, with `s` and `n` for the report and the warnings up to there
module _ {len : ℕ} {s : Bytes} {n : ℕ} {a : Audit} (big : len < 2 ^ 64)
    (k : Reports len s n a) where
  finish_result :
      let (r, c) = finish_audit len a in
      (length (s ++ summary_text n) < len
        → (r ≡ warnings n) × (c.content ≡ s ++ summary_text n) × (c.overrun ≡ false))
      × (len ≤ length (s ++ summary_text n) → r ≡ audit_fail enospc)
  unfolding finish_audit
  finish_result = rw k.counted (
    λ h.
        let (same, clear) = snprintf_fits (summary_text n) big k.tracks (omega (arith, total)) in
        (
          rw (
              gt→leb len (a.cursor.offset + length (summary_text n))
                (omega (arith, k.tracks.at, total))),
          same,
          clear,
        ),
    λ h. rw (
        le→leb len (a.cursor.offset + length (summary_text n)) (omega (arith, k.tracks.at, total))),
  )
    where
      total : length (s ++ summary_text n) ≡ length s + length (summary_text n)
      total = length-append s (summary_text n)

  finish_overrun :
      length s < 2 ^ 64
      → let (r, c) = finish_audit len a in
        (len < length s → c.overrun ≡ true) × (length s ≤ len → c.overrun ≡ false)
  unfolding finish_audit
  finish_overrun small = (
    λ h.
        snprintf_overruns len (summary_text a.count) a.cursor (omega (arith, k.tracks.at))
          (omega (arith, k.tracks.at)),
    λ h.
        snprintf_inside len (summary_text a.count) a.cursor big (omega (arith, k.tracks.at))
        ∙ k.safe h,
  )

audit_open :
    (len : ℕ) (p : Policy)
    → length (audit_header p) < len
    → sec_policy_audit (some p) true len ≡ finish_audit len (run_checks len p (start len p))
unfolding sec_policy_audit write_audit start
audit_open len p h = ground arith

audit_short :
    (len : ℕ) (p : Policy)
    → 0 < len
    → len ≤ length (audit_header p)
    → (sec_policy_audit (some p) true len).0 ≡ audit_fail enospc
unfolding sec_policy_audit write_audit
audit_short len p pos h = ground arith

longer : (n : ℕ) (xs ys : Bytes) → n ≤ length xs → n ≤ length (xs ++ ys)
longer n xs ys h = omega (arith, length-append xs ys)

header-le-report : (p : Policy) → length (audit_header p) ≤ length (report p)
unfolding report
header-le-report p =
    let n = length (audit_header p) in
    longer n _ _ (
      longer n _ _ (
        longer n _ _
          (longer n _ _ (longer n _ _ (longer n _ _ (longer n (audit_header p) _ (omega arith)))))))

-- the result before the summary is tested, on either side of the header's test
audit_header_full :
    (len : ℕ) (p : Policy)
    → len < 2 ^ 64
    → len ≤ length (audit_header p)
    → (sec_policy_audit (some p) true len).1.overrun ≡ false
unfolding sec_policy_audit write_audit
audit_header_full len p big h = ground (arith, snprintf_inside len (audit_header p) at_start)

module _ {len : ℕ} {p : Policy} (big : len < 2 ^ 64) (v : IsValid p) where
  -- The audit of a valid policy into a buffer of at least one byte and fewer than 2 ^ 64 returns the
  -- number of its warnings if the report fits the buffer with its NUL, and -ENOSPC otherwise.
  pub sec_policy_audit_result :
      0 < len
      → (sec_policy_audit (some p) true len).0
        ≡ (if ltb (length (report p)) len then warnings (warning_count p) else audit_fail enospc)
  sec_policy_audit_result pos = elim (Bool-cases (leb len (length (audit_header p)))) [
    | inl short ↦
        rw (ge→ltb (length (report p)) len (omega (arith, header-le-report p, leb→le _ _ short)))
          (audit_short len p pos (leb→le _ _ short))
    | inr fits ↦
        rw (audit_open len p (leb→gt _ _ fits)) (elim (Bool-cases (ltb (length (report p)) len)) [
          | inl all ↦
              rw all (unfold report in ((finish_result big (checked big v)).0 (ltb→lt _ _ all)).0)
          | inr part ↦
              rw part (unfold report in (finish_result big (checked big v)).1 (ltb→ge _ _ part))
        ])
  ]

  -- If the report of a valid policy fits a buffer of `len` bytes with its NUL, the buffer then
  -- holds it: the header, each warning that the rules deserve, and the summary. No byte is written
  -- outside the buffer.
  pub sec_policy_audit_fits :
      length (report p) < len
      → let c = (sec_policy_audit (some p) true len).1 in
        (c.content ≡ report p) × (c.overrun ≡ false)
  sec_policy_audit_fits h = rw (audit_open len p (omega (arith, header-le-report p))) (
      unfold report in
      let (r, same, clear) = (finish_result big (checked big v)).0 h in (same, clear))

  -- The audit of a valid policy writes outside a buffer of `len` bytes exactly if the header fits
  -- it with its NUL and the report up to its summary is longer than the buffer.
  pub sec_policy_audit_overrun :
      (sec_policy_audit (some p) true len).1.overrun
      ≡ (ltb (length (audit_header p)) len && ltb len (length (body p)))
  sec_policy_audit_overrun = elim (Bool-cases (ltb (length (audit_header p)) len)) [
    | inr short ↦ rw short (audit_header_full len p big (ltb→ge _ _ short))
    | inl fits ↦
        rw (fits, audit_open len p (ltb→lt _ _ fits))
          (elim (Bool-cases (ltb len (length (body p)))) [
            | inl long ↦ rw long ((finish_overrun big (checked big v) small).0 (ltb→lt _ _ long))
            | inr inside ↦
                rw inside ((finish_overrun big (checked big v) small).1 (ltb→ge _ _ inside))
          ])
  ]
    where
      small : length (body p) < 2 ^ 64
      small = omega (arith, length-body v)

  -- A buffer of 462 bytes is enough for the audit of any valid policy: it returns the number of the
  -- policy's warnings, which is at most five, and the buffer then holds the report.
  pub sec_policy_audit_enough :
      462 ≤ len
      → let (r, c) = sec_policy_audit (some p) true len in
        (r ≡ warnings (warning_count p)) × (warning_count p ≤ 5) × (c.content ≡ report p)
  sec_policy_audit_enough h =
      let fits : length (report p) < len = omega (arith, length-report v) in
      (
        sec_policy_audit_result (omega arith)
            ∙ ap (λ b. if b then warnings (warning_count p) else audit_fail enospc)
                (lt→ltb _ _ fits),
        warning_count-le p,
        (sec_policy_audit_fits fits).0,
      )
