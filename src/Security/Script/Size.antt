-- ===== src/Security/Script/Size.antt =====
-- How large a script can be, against the 4096 bytes that `sec_policy_apply` has for it.
use pnet_driver_test.Prelude.{
  ℕ, suc, ◌+◌, ◌*◌, ◌≤◌, ◌<◌, List, [], ◌∷◌, ◌++◌, arith, length, length-append, All,
}
use pnet_driver_test.Text.Bytes.{codes}
use pnet_driver_test.Text.Numeral.{print_base, length-print_decimal}
use pnet_driver_test.Security.{Rule, Policy}
use pnet_driver_test.Security.Table.{IsValid, live, length-live}
use pnet_driver_test.Security.Script.{rule_entry, script_header, script_footer}
use pnet_driver_test.Security.Script.Lines.{IsStored, rule_text, generate_rule_line_lem, le_append}
use pnet_driver_test.Security.Script.Whole.{script, entries}

length-rule_entry :
    (i : ℕ) (r : Rule) → i < 100 → IsStored r → length (rule_entry i r (rule_text r)) ≤ 167
unfolding rule_entry
length-rule_entry i r h v = le_append (codes "# Rule ") _ 7 160 (omega arith) (
    le_append (print_base 10 i) _ 2 158 (length-print_decimal i 1 (omega arith)) (
      le_append (codes ": ") _ 2 156 (omega arith) (
        le_append r.comment _ 63 93 v.comment_fits (
          le_append (codes "\n") _ 1 92 (omega arith) (
            le_append (rule_text r) (codes "\n\n") 90 2 (generate_rule_line_lem r v).1
              (omega arith))))))

length-entries :
    (i : ℕ) (rs : List Rule)
    → i + length rs ≤ 100
    → All IsStored rs
    → length (entries i rs) ≤ 167 * length rs
length-entries i [] h v = omega arith
length-entries i (r ∷ rs) h (v, vs) = omega (
  arith,
  length-append (rule_entry i r (rule_text r)) (entries (suc i) rs),
  length-rule_entry i r (omega arith) v,
  length-entries (suc i) rs (omega arith) vs,
)

length-script_header : (p : Policy) → p.rule_count < 100 → length (script_header p) ≤ 85
unfolding script_header
length-script_header p h =
    le_append (codes "#!/bin/bash\n# Auto-generated PROFINET security policy\n# Rule count: ") _ 69
      16 (omega arith)
      (le_append (print_base 10 p.rule_count) _ 2 14
        (length-print_decimal p.rule_count 1 (omega arith)) (omega arith))

length-script_footer : (p : Policy) → p.rule_count < 100 → length (script_footer p) ≤ 60
unfolding script_footer
length-script_footer p h =
    le_append (codes "echo \"PROFINET security policy applied: ") _ 40 20 (omega arith) (
      le_append (print_base 10 p.rule_count) _ 2 18
        (length-print_decimal p.rule_count 1 (omega arith)) (omega arith))

-- The script of a policy with at most 23 rules fits the buffer of `sec_policy_apply`, whatever the
-- rules are.
pub length-script :
    {p : Policy} → IsValid p → All IsStored (live p) → p.rule_count ≤ 23 → length (script p) < 4096
length-script {p} v stored few = omega (
  arith,
  length-append (script_header p ++ entries 0 (live p)) (script_footer p),
  length-append (script_header p) (entries 0 (live p)),
  length-script_header p (omega arith),
  length-script_footer p (omega arith),
  length-entries 0 (live p) (omega (arith, length-live v)) stored,
  length-live v,
)
