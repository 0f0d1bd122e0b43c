-- ===== src/Security/Script/Lines.antt =====
-- The line of a rule, and how long it can be.
use pnet_driver_test.Prelude.{
  ℕ, ◌+◌, ◌^◌, ◌≤◌, ◌<◌, ◌≡◌, some, ◌++◌, arith, if◌then◌else◌, length, take_all, length-append,
}
use pnet_driver_test.Text.Bytes.{Bytes, codes}
use pnet_driver_test.Text.Numeral.{print_base, length-print_decimal}
use pnet_driver_test.Address.{format_ip}
use pnet_driver_test.Address.RoundTrip.{length-format_ip}
use pnet_driver_test.Security.{Action, accept, Chain, input, Rule}
use pnet_driver_test.Security.Script.{
  action_to_str, chain_to_str, proto_to_str, source_part, active_text, inactive_text,
  generate_rule_line,
}

-- what the C types guarantee of a rule: a 32-bit port, and a comment with its NUL in 64 bytes
pub record IsStored (r : Rule) : Type 0 where
  pub port : r.dst_port < 2 ^ 32
  pub comment_fits : length r.comment ≤ 63

length-action_to_str : (a : Action) → length (action_to_str a) ≤ 6
unfolding action_to_str
length-action_to_str accept = omega arith
length-action_to_str _ = omega arith

length-chain_to_str : (c : Chain) → length (chain_to_str c) ≤ 7
unfolding chain_to_str
length-chain_to_str input = omega arith
length-chain_to_str _ = omega arith

length-proto_to_str : (p : ℕ) → length (proto_to_str p) ≤ 3
unfolding proto_to_str
length-proto_to_str p = ground arith

pub le_append :
    (xs ys : Bytes) (m n : ℕ) → length xs ≤ m → length ys ≤ n → length (xs ++ ys) ≤ m + n
le_append xs ys m n h k = omega (arith, length-append xs ys)

length-source_part : (r : Rule) → length (source_part r) ≤ 35
unfolding source_part
length-source_part r = ground (
  arith,
  length-format_ip r.src_ip,
  le_append (format_ip r.src_ip ++ codes "/") (format_ip r.src_mask) 16 15,
  le_append (format_ip r.src_ip) (codes "/") 15 1,
  length-format_ip r.src_mask,
)

length-active_text : (r : Rule) → IsStored r → length (active_text r) ≤ 90
unfolding active_text
length-active_text r v = le_append (codes "iptables -A ") _ 12 78 (omega arith) (
    le_append (chain_to_str r.chain) _ 7 71 (length-chain_to_str r.chain) (
      le_append (source_part r) _ 35 36 (length-source_part r) (
        le_append (codes " -p ") _ 4 32 (omega arith) (
          le_append (proto_to_str r.protocol) _ 3 29 (length-proto_to_str r.protocol) (
            le_append (codes " --dport ") _ 9 20 (omega arith) (
              le_append (print_base 10 r.dst_port) _ 10 10 port
                (le_append (codes " -j ") _ 4 6 (omega arith) (length-action_to_str r.action))))))))
  where
    port : length (print_base 10 r.dst_port) ≤ 10
    port = length-print_decimal r.dst_port 9 (omega (arith, v.port))

length-inactive_text : (r : Rule) → IsStored r → length (inactive_text r) ≤ 83
unfolding inactive_text
length-inactive_text r v = omega (arith, v, length-append r.comment (codes "\n"))

-- the line of a rule, active or not
abbrev pub rule_text : Rule → Bytes
rule_text r = if r.active then active_text r else inactive_text r

-- Every rule that the table can hold has a line, and no line is cut off.
pub generate_rule_line_lem :
    (r : Rule)
    → IsStored r
    → (generate_rule_line r ≡ some (rule_text r)) × (length (rule_text r) ≤ 90)
unfolding generate_rule_line
generate_rule_line_lem r v =
    ground (arith, length-active_text r v, length-inactive_text r v, take_all 255 (inactive_text r))
