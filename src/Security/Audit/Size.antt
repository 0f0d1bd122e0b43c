-- ===== src/Security/Audit/Size.antt =====
-- The size of an audit report.
use pnet_driver_test.Prelude.{
  false, ℕ, ◌*◌, ◌/◌, ◌≤◌, ◌<◌, Bool, true, not, List, [], ◌∷◌, arith, ltb, ◌==◌, if◌then◌else◌,
  length,
}
use pnet_driver_test.Text.Bytes.{Bytes, codes}
use pnet_driver_test.Text.Numeral.{print_base, length-print_decimal}
use pnet_driver_test.Security.{Rule, Policy}
use pnet_driver_test.Security.Table.{IsValid, live, length-live}
use pnet_driver_test.Security.Script.Lines.{le_append}
use pnet_driver_test.Security.Audit.{
  is_default_deny, is_ipsec, audit_header, disabled_text, no_rules_text, no_deny_text,
  no_ipsec_text, inactive_note, full_text, summary_text,
}
use pnet_driver_test.Security.Audit.Report.{
  any, inactive, when, bit, crowded, warning_count, body, report,
}

inactive-le-length : (rs : List Rule) → inactive rs ≤ length rs
unfolding inactive
inactive-le-length [] = omega arith
inactive-le-length (r ∷ rs) = ground (arith, inactive-le-length rs)

length-when : (b : Bool) (t : Bytes) (m : ℕ) → length t ≤ m → length (when b t) ≤ m
length-when true t m h = h
length-when false t m h = omega arith

length-audit_header : (p : Policy) → p.rule_count < 100 → length (audit_header p) ≤ 88
unfolding audit_header
length-audit_header p h =
    le_append (codes "=== PROFINET Security Policy Audit Report ===\nTotal rules: ") _ 59 29
      (omega arith)
      (le_append (print_base 10 p.rule_count) _ 2 27
        (length-print_decimal p.rule_count 1 (omega arith))
        (le_append (codes " / 64\nPolicy enabled: ") _ 22 5 (omega arith) (
          le_append (if p.enabled then codes "yes" else codes "no") (codes "\n\n") 3 2
            (ground arith) (omega arith))))

length-inactive_note : (n : ℕ) → n < 100 → length (inactive_note n) ≤ 36
unfolding inactive_note
length-inactive_note n h =
    le_append (codes "[INFO] ") _ 7 29 (omega arith)
      (le_append (print_base 10 n) _ 2 27 (length-print_decimal n 1 (omega arith)) (omega arith))

length-full_text : (n : ℕ) → n ≤ 64 → length (full_text n) ≤ 80
unfolding full_text
length-full_text n h = le_append (codes "[WARN] Rule table is ") _ 21 59 (omega arith) (
    le_append (print_base 10 (n * 100 / 64)) _ 3 56
      (length-print_decimal (n * 100 / 64) 2 (omega arith))
      (le_append (codes "% full (") _ 8 48 (omega arith) (
        le_append (print_base 10 n) _ 2 46 (length-print_decimal n 1 (omega arith)) (omega arith))))

length-summary_text : (n : ℕ) → n < 10 → length (summary_text n) ≤ 31
unfolding summary_text
length-summary_text n h =
    le_append (codes "\nAudit complete: ") _ 17 14 (omega arith)
      (le_append (print_base 10 n) _ 1 13 (length-print_decimal n 0 (omega arith)) (omega arith))

bit-le-one : (b : Bool) → bit b ≤ 1
bit-le-one b = ground arith

-- A policy gets at most five warnings.
pub warning_count-le : (p : Policy) → warning_count p ≤ 5
unfolding warning_count
warning_count-le p = omega (
  arith,
  bit-le-one (not p.enabled),
  bit-le-one (p.rule_count == 0),
  bit-le-one (not (any is_default_deny (live p))),
  bit-le-one (not (any is_ipsec (live p))),
  bit-le-one (crowded p),
)

pub length-body : {p : Policy} → IsValid p → length (body p) ≤ 430
unfolding body
length-body {p} v =
    le_append _ (when (crowded p) (full_text p.rule_count)) 350 80
      (le_append _ (when (ltb 0 silent) (inactive_note silent)) 314 36
        (le_append _ (when (not (any is_ipsec (live p))) no_ipsec_text) 220 94
          (le_append _ (when (not (any is_default_deny (live p))) no_deny_text) 175 45
            (le_append _ (when (p.rule_count == 0) no_rules_text) 140 35
              (le_append (audit_header p) (when (not p.enabled) disabled_text) 88 52
                (length-audit_header p (omega arith))
                (length-when (not p.enabled) _ _ (omega arith)))
              (length-when (p.rule_count == 0) _ _ (omega arith)))
            (length-when (not (any is_default_deny (live p))) _ _ (omega arith)))
          (length-when (not (any is_ipsec (live p))) _ _ (omega arith)))
        (length-when (ltb 0 silent) _ _ (length-inactive_note silent (omega (arith, few)))))
      (length-when (crowded p) _ _ (length-full_text p.rule_count (omega (arith, v.fits))))
  where
    silent : ℕ
    silent = inactive (live p)

    few : inactive (live p) ≤ 64
    few = omega (arith, inactive-le-length (live p), length-live v, v.fits)

-- No report has more than 461 bytes.
pub length-report : {p : Policy} → IsValid p → length (report p) ≤ 461
unfolding report
length-report {p} v =
    le_append (body p) (summary_text (warning_count p)) 430 31 (length-body v)
      (length-summary_text (warning_count p) (omega (arith, warning_count-le p)))
