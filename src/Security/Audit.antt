-- ===== src/Security/Audit.antt =====
-- `sec_policy_audit`.
pub mod Report
pub mod Size
pub mod Bounds
use pnet_driver_test.Prelude.{
  ℕ, zero, suc, ◌+◌, ◌*◌, ◌/◌, ◌-◌, Bool, true, false, not, ◌&&◌, ◌||◌, Option, none, some, List,
  [], ◌∷◌, ◌++◌, leb, ltb, ◌==◌, if◌then◌else◌, length, get_or,
}
use pnet_driver_test.Text.Bytes.{Bytes, codes}
use pnet_driver_test.Text.Numeral.{print_base}
use pnet_driver_test.Text.Buffer.{Cursor, at_start, put, snprintf}
use pnet_driver_test.Security.{
  Action, accept, drop, reject, Chain, input, output, forward, Errno, einval, enospc, Rule, Policy,
  zero_rule, max_fw_rules,
}

-- the `int` that comes back: a number of warnings, or an error
pub data AuditResult : Type 0 where
  warnings : ℕ → AuditResult
  audit_fail : Errno → AuditResult

abbrev is_input : Chain → Bool
is_input input = true
is_input _ = false

abbrev denies : Action → Bool
denies accept = false
denies _ = true

unfoldable pub is_default_deny : Rule → Bool
is_default_deny r =
    is_input r.chain && r.protocol == 0 && r.dst_port == 0 && r.src_ip == 0 && denies r.action

unfoldable pub is_ipsec : Rule → Bool
is_ipsec r = r.protocol == 17 && (r.dst_port == 500 || r.dst_port == 4500)

-- `for (i …) if (test(&rules[i])) { found = true; break; }`, with the rounds left
unfoldable pub find_rule : (Rule → Bool) → List Rule → ℕ → ℕ → Bool
find_rule test rs zero i = false
find_rule test rs (suc n) i = elim (test (get_or rs i zero_rule)) [
  | true ↦ true
  | false ↦ find_rule test rs n (suc i)
]

-- the loop that counts inactive rules, with the rounds left
unfoldable pub count_inactive : List Rule → ℕ → ℕ → ℕ → ℕ
count_inactive rs zero i acc = acc
count_inactive rs (suc n) i acc =
    count_inactive rs n (suc i) (if (get_or rs i zero_rule).active then acc else suc acc)

unfoldable pub audit_header : Policy → Bytes
audit_header p =
    codes "=== PROFINET Security Policy Audit Report ===\nTotal rules: "
    ++ (print_base 10 p.rule_count
        ++ (codes " / 64\nPolicy enabled: "
            ++ ((if p.enabled then codes "yes" else codes "no") ++ codes "\n\n")))

abbrev pub disabled_text : Bytes
disabled_text = codes "[WARN] Policy is disabled - no rules are enforced\n"

abbrev pub no_rules_text : Bytes
no_rules_text = codes "[WARN] No firewall rules defined\n"

abbrev pub no_deny_text : Bytes
no_deny_text = codes "[WARN] No default-deny rule on INPUT chain\n"

abbrev pub no_ipsec_text : Bytes
no_ipsec_text =
    codes
      "[WARN] No IPSec (UDP 500/4500) rules found - consider enabling IPSec for encrypted traffic\n"

unfoldable pub inactive_note : ℕ → Bytes
inactive_note n = codes "[INFO] " ++ (print_base 10 n ++ codes " inactive rule(s) present\n")

-- MAX_FW_RULES is 64
unfoldable pub full_text : ℕ → Bytes
full_text n =
    codes "[WARN] Rule table is "
    ++ (print_base 10 (n * 100 / max_fw_rules)
        ++ (codes "% full (" ++ (print_base 10 n ++ codes "/64) - consider consolidating rules\n")))

unfoldable pub summary_text : ℕ → Bytes
summary_text n = codes "\nAudit complete: " ++ (print_base 10 n ++ codes " warning(s)\n")

-- where the report stands, and the warnings so far
pub record Audit : Type 0 where
  pub cursor : Cursor
  pub count : ℕ

-- `if (b) { written = snprintf(…); if (written > 0) { offset += written; warnings++; } }`; no text
-- printed this way is empty
unfoldable pub warn_if : ℕ → Bool → Bytes → Audit → Audit
warn_if len b t a = if b then record { cursor = put len t a.cursor; count = suc a.count } else a

-- the same without a warning
unfoldable pub note_if : ℕ → Bool → Bytes → Audit → Audit
note_if len b t a = if b then record a { cursor = put len t a.cursor } else a

-- the checks between the header and the summary
unfoldable pub run_checks : ℕ → Policy → Audit → Audit
run_checks len p a =
    let n = p.rule_count in
    let inactive = count_inactive p.rules n 0 0 in
    let a₁ = warn_if len (not p.enabled) disabled_text a in
    let a₂ = warn_if len (n == 0) no_rules_text a₁ in
    let a₃ = warn_if len (not (find_rule is_default_deny p.rules n 0)) no_deny_text a₂ in
    let a₄ = warn_if len (not (find_rule is_ipsec p.rules n 0)) no_ipsec_text a₃ in
    let a₅ = note_if len (ltb 0 inactive) (inactive_note inactive) a₄ in
    warn_if len (ltb (max_fw_rules * 3 / 4) n) (full_text n) a₅

unfoldable pub finish_audit : ℕ → Audit → AuditResult × Cursor
finish_audit len a =
    let t = summary_text a.count in
    (
      if leb len (a.cursor.offset + length t) then audit_fail enospc else warnings a.count,
      snprintf len t a.cursor,
    )

unfoldable pub write_audit : ℕ → Policy → AuditResult × Cursor
write_audit len p =
    if leb len (length (audit_header p))
    then (audit_fail enospc, snprintf len (audit_header p) at_start)
    else finish_audit len
        (run_checks len p (record { cursor = put len (audit_header p) at_start; count = 0 }))

-- `report` is `true` for a pointer that is not NULL; the cursor tells what the buffer then holds.
unfoldable pub sec_policy_audit : Option Policy → Bool → ℕ → AuditResult × Cursor
sec_policy_audit none report len = (audit_fail einval, at_start)
sec_policy_audit (some p) report len =
    if report
    then if len == 0 then (audit_fail einval, at_start) else write_audit len p
    else (audit_fail einval, at_start)
