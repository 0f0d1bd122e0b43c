-- ===== src/Tests/Security.antt =====
-- The security policy: a table of two rules, its script and its audit.
use pnet_driver_test.Prelude.{
  ◌≤◌, ◌<◌, ◌≡◌, refl, ℤ, pos, negsuc, true, false, ◌&&◌, some, List, [], ◌∷◌, arith, ltb,
  if◌then◌else◌, length, All, replicate,
}
use pnet_driver_test.Text.Bytes.{Bytes, codes}
use pnet_driver_test.Security.{
  Status, ok, fail, enospc, erange, eio, accept, drop, input, forward, Rule, Policy, zero_rule,
}
use pnet_driver_test.Security.Table.{IsValid, live, Op, add, remove, run, spec_run, run_refines}
use pnet_driver_test.Security.Script.{sec_policy_generate_script}
use pnet_driver_test.Security.Script.Lines.{IsStored}
use pnet_driver_test.Security.Script.Whole.{
  script, sec_policy_generate_script_fits, sec_policy_generate_script_full,
}
use pnet_driver_test.Security.Script.Size.{length-script}
use pnet_driver_test.Security.Apply.{flush_command, sec_policy_apply, sec_policy_apply_lem}
use pnet_driver_test.Security.Audit.{
  AuditResult, warnings, audit_fail, audit_header, sec_policy_audit,
}
use pnet_driver_test.Security.Audit.Report.{body, report, warning_count}
use pnet_driver_test.Security.Audit.Size.{length-report}
use pnet_driver_test.Security.Audit.Bounds.{
  sec_policy_audit_fits, sec_policy_audit_overrun, sec_policy_audit_enough, sec_policy_audit_result,
}

abbrev web : Rule
web = record zero_rule {
  src_ip = 0xC0A80000;
  src_mask = 0xFFFFFF00;
  dst_port = 443;
  protocol = 6;
  active = true;
  comment = codes "web";
}

abbrev deny : Rule
deny = record zero_rule { action = drop; active = true; comment = codes "deny" }

abbrev two_rules : Policy
two_rules = record { rules = web ∷ deny ∷ replicate 62 zero_rule; rule_count = 2; enabled = false }

two_rules-IsValid : IsValid two_rules
two_rules-IsValid = omega arith

two_rules-IsStored : All IsStored (live two_rules)
two_rules-IsStored = omega arith

abbrev calls : List Op
calls = add web ∷ remove (pos 0) ∷ remove (pos 5) ∷ remove (negsuc 0) ∷ []

run_refines_example :
    let (ss, q) = run two_rules calls in
    ((ss, live q) ≡ spec_run (live two_rules) calls) × IsValid q × (q.enabled ≡ false)
run_refines_example = run_refines calls two_rules-IsValid

calls_run :
    spec_run (live two_rules) calls ≡ (ok ∷ ok ∷ fail erange ∷ fail erange ∷ [], deny ∷ web ∷ [])
unfolding spec_run pnet_driver_test.Security.Table.spec_step
calls_run = refl

script-two_rules :
    script two_rules
    ≡ codes
        "#!/bin/bash\n# Auto-generated PROFINET security policy\n# Rule count: 2\n\nset -e\n\n# Rule 0: web\niptables -A INPUT -s 192.168.0.0/255.255.255.0 -p tcp --dport 443 -j ACCEPT\n\n# Rule 1: deny\niptables -A INPUT -p all --dport 0 -j DROP\n\necho \"PROFINET security policy applied: 2 rules\"\n"
unfolding pnet_driver_test.Security.Script.rule_entry pnet_driver_test.Security.Script.script_header
    pnet_driver_test.Security.Script.script_footer pnet_driver_test.Security.Script.active_text
    pnet_driver_test.Security.Script.chain_to_str pnet_driver_test.Security.Script.source_part
    pnet_driver_test.Security.Script.proto_to_str pnet_driver_test.Security.Script.action_to_str
    pnet_driver_test.Address.format_ip pnet_driver_test.Text.Numeral.print_base
script-two_rules = refl

sec_policy_generate_script_fits_example :
    let (s, c) = sec_policy_generate_script (some two_rules) true 4096 in
    (s ≡ ok) × (c.content ≡ script two_rules) × (c.overrun ≡ false)
sec_policy_generate_script_fits_example =
    sec_policy_generate_script_fits (omega arith) two_rules-IsValid two_rules-IsStored
      (length-script two_rules-IsValid two_rules-IsStored (omega arith))

sec_policy_generate_script_full_example :
    let (s, c) = sec_policy_generate_script (some two_rules) true 64 in
    (s ≡ fail enospc) × (c.overrun ≡ false)
sec_policy_generate_script_full_example =
    sec_policy_generate_script_full (omega arith) two_rules-IsValid two_rules-IsStored (omega arith)
      (rw script-two_rules (omega arith))

abbrev succeeds : Bytes → ℤ
succeeds command = pos 0

sec_policy_apply_lem_example : sec_policy_apply succeeds (some two_rules) ≡ (
    if ltb (length (script two_rules)) 4096
    then (ok, flush_command ∷ script two_rules ∷ [])
    else (fail enospc, []))
sec_policy_apply_lem_example = sec_policy_apply_lem succeeds two_rules-IsValid two_rules-IsStored

length-script_example : length (script two_rules) < 4096
length-script_example = length-script two_rules-IsValid two_rules-IsStored (omega arith)

two_rules_warnings : warning_count two_rules ≡ 2
unfolding warning_count pnet_driver_test.Security.Audit.Report.any
    pnet_driver_test.Security.Audit.is_default_deny pnet_driver_test.Security.Audit.is_ipsec
two_rules_warnings = refl

two_rules_short : length (report two_rules) < 512
two_rules_short = omega (arith, length-report two_rules-IsValid)

sec_policy_audit_fits_example :
    let c = (sec_policy_audit (some two_rules) true 512).1 in
    (c.content ≡ report two_rules) × (c.overrun ≡ false)
sec_policy_audit_fits_example =
    sec_policy_audit_fits {len = 512} (omega arith) two_rules-IsValid two_rules_short

-- A buffer of 100 bytes holds the header, and not what follows.
sec_policy_audit_overrun_example :
    (sec_policy_audit (some two_rules) true 100).1.overrun
    ≡ (ltb (length (audit_header two_rules)) 100 && ltb 100 (length (body two_rules)))
sec_policy_audit_overrun_example =
    sec_policy_audit_overrun {len = 100} (omega arith) two_rules-IsValid

sec_policy_audit_result_example : (sec_policy_audit (some two_rules) true 100).0 ≡ (
    if ltb (length (report two_rules)) 100
    then warnings (warning_count two_rules)
    else audit_fail enospc)
sec_policy_audit_result_example =
    sec_policy_audit_result {len = 100} (omega arith) two_rules-IsValid (omega arith)

sec_policy_audit_enough_example :
    let (r, c) = sec_policy_audit (some two_rules) true 512 in
    (r ≡ warnings (warning_count two_rules))
    × (warning_count two_rules ≤ 5)
    × (c.content ≡ report two_rules)
sec_policy_audit_enough_example =
    sec_policy_audit_enough {len = 512} (omega arith) two_rules-IsValid (omega arith)
