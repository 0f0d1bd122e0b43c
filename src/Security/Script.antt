-- ===== src/Security/Script.antt =====
-- The iptables script: `generate_rule_line` and `sec_policy_generate_script`.
pub mod Lines
pub mod Whole
pub mod Size
use pnet_driver_test.Prelude.{
  ℕ, zero, suc, ◌+◌, ◌-◌, Bool, true, false, Option, none, some, List, [], ◌∷◌, ◌++◌, leb, ◌==◌,
  if◌then◌else◌, length, take, get_or,
}
use pnet_driver_test.Text.Bytes.{Bytes, codes}
use pnet_driver_test.Text.Numeral.{print_base}
use pnet_driver_test.Text.Buffer.{Cursor, at_start, put, snprintf}
use pnet_driver_test.Address.{format_ip}
use pnet_driver_test.Security.{
  Action, accept, drop, reject, Chain, input, output, forward, Status, ok, fail, einval, enospc,
  Rule, Policy, zero_rule,
}

-- The `default` of the two switches over an enum is not reached.
unfoldable pub action_to_str : Action → Bytes
action_to_str accept = codes "ACCEPT"
action_to_str drop = codes "DROP"
action_to_str reject = codes "REJECT"

unfoldable pub chain_to_str : Chain → Bytes
chain_to_str input = codes "INPUT"
chain_to_str output = codes "OUTPUT"
chain_to_str forward = codes "FORWARD"

unfoldable pub proto_to_str : ℕ → Bytes
proto_to_str p = if p == 6 then codes "tcp" else if p == 17 then codes "udp" else codes "all"

-- what stands between the chain and the protocol
unfoldable pub source_part : Rule → Bytes
source_part r =
    if r.src_ip == 0
    then []
    else if r.src_mask == 0
    then codes " -s " ++ format_ip r.src_ip
    else codes " -s " ++ format_ip r.src_ip ++ codes "/" ++ format_ip r.src_mask

-- the three formats for an active rule
unfoldable pub active_text : Rule → Bytes
active_text r =
    codes "iptables -A "
    ++ (chain_to_str r.chain
        ++ (source_part r
            ++ (codes " -p "
                ++ (proto_to_str r.protocol
                    ++ (codes " --dport "
                        ++ (print_base 10 r.dst_port
                            ++ (codes " -j " ++ action_to_str r.action)))))))

unfoldable pub inactive_text : Rule → Bytes
inactive_text r = codes "# [inactive] rule: " ++ (r.comment ++ codes "\n")

-- `generate_rule_line(line, sizeof(line), rule)` with its 256 bytes: what `line` then holds, or
-- `none` for -1. The line of an inactive rule is cut off without an error.
unfoldable pub generate_rule_line : Rule → Option Bytes
generate_rule_line r =
    if r.active
    then if leb 256 (length (active_text r)) then none else some (active_text r)
    else some (take 255 (inactive_text r))

-- "# Rule %d: %s\n%s\n\n"
unfoldable pub rule_entry : ℕ → Rule → Bytes → Bytes
rule_entry i r line =
    codes "# Rule "
    ++ (print_base 10 i ++ (codes ": " ++ (r.comment ++ (codes "\n" ++ (line ++ codes "\n\n")))))

unfoldable pub script_header : Policy → Bytes
script_header p =
    codes "#!/bin/bash\n# Auto-generated PROFINET security policy\n# Rule count: "
    ++ (print_base 10 p.rule_count ++ codes "\n\nset -e\n\n")

unfoldable pub script_footer : Policy → Bytes
script_footer p =
    codes "echo \"PROFINET security policy applied: "
    ++ (print_base 10 p.rule_count ++ codes " rules\"\n")

-- `written = snprintf(…); if (written < 0 || offset + written >= len) return -ENOSPC;` and on.
-- The string is in the buffer before the test.
unfoldable pub put_checked : ℕ → Bytes → Cursor → Status × Cursor
put_checked len t c =
    if leb len (c.offset + length t) then (fail enospc, snprintf len t c) else (ok, put len t c)

unfoldable pub then_put : (Cursor → Status × Cursor) → Status × Cursor → Status × Cursor
then_put next (ok, c) = next c
then_put next (fail e, c) = (fail e, c)

-- the body of the loop; a rule whose line fails is passed over
unfoldable pub put_rule : ℕ → ℕ → Rule → Option Bytes → Cursor → Status × Cursor
put_rule len i r none c = (ok, c)
put_rule len i r (some line) c = put_checked len (rule_entry i r line) c

-- the loop over the rules, with the rounds left
unfoldable pub script_rules : ℕ → Policy → ℕ → ℕ → Cursor → Status × Cursor
script_rules len p zero i c = (ok, c)
script_rules len p (suc n) i c =
    let r = get_or p.rules i zero_rule in
    then_put (script_rules len p n (suc i)) (put_rule len i r (generate_rule_line r) c)

unfoldable pub write_script : ℕ → Policy → Status × Cursor
write_script len p =
    then_put (put_checked len (script_footer p))
      (then_put (script_rules len p p.rule_count 0) (put_checked len (script_header p) at_start))

-- `buf` is `true` for a pointer that is not NULL; the cursor tells what the buffer then holds.
unfoldable pub sec_policy_generate_script : Option Policy → Bool → ℕ → Status × Cursor
sec_policy_generate_script none buf len = (fail einval, at_start)
sec_policy_generate_script (some p) buf len =
    if buf
    then if len == 0 then (fail einval, at_start) else write_script len p
    else (fail einval, at_start)
