-- ===== src/Security.antt =====
-- src/security/security_policy.c, the policy's rule table: its types, and the calls that change it.
-- A pointer argument is an `Option`, `none` for NULL.
pub mod Table
pub mod Script
pub mod Audit
pub mod Apply
pub mod Ipsec
use pnet_driver_test.Prelude.{
  ℕ, zero, suc, ◌+◌, ◌-◌, ◌%◌, ℤ, pos, negsuc, Bool, true, false, Option, none, some, List, [], ◌∷◌,
  leb, if◌then◌else◌, get_or, set, replicate,
}
use pnet_driver_test.Text.Bytes.{Bytes}

abbrev pub max_fw_rules : ℕ
max_fw_rules = 64

pub data Action : Type 0 where
  accept drop reject : Action

pub data Chain : Type 0 where
  input output forward : Chain

-- the error codes that the program returns, negated in C
pub data Errno : Type 0 where
  einval enospc erange eio eperm enosys : Errno

-- an `int` result: 0, or an error
pub data Status : Type 0 where
  ok : Status
  fail : Errno → Status

pub record Rule : Type 0 where
  pub chain : Chain
  pub src_ip : ℕ  -- uint32_t
  pub src_mask : ℕ  -- uint32_t
  pub dst_port : ℕ  -- uint32_t
  pub protocol : ℕ  -- uint8_t
  pub action : Action
  pub priority : ℤ
  pub active : Bool
  pub comment : Bytes  -- char[64]

pub record Policy : Type 0 where
  pub rules : List Rule  -- rules[MAX_FW_RULES]
  pub rule_count : ℕ
  pub enabled : Bool

-- `memset(rule, 0, sizeof(sec_rule_t))`
abbrev pub zero_rule : Rule
zero_rule = record {
  chain = input;
  src_ip = 0;
  src_mask = 0;
  dst_port = 0;
  protocol = 0;
  action = accept;
  priority = pos 0;
  active = false;
  comment = [];
}

abbrev pub zero_table : List Rule
zero_table = replicate max_fw_rules zero_rule

abbrev pub empty_policy : Policy
empty_policy = record { rules = zero_table; rule_count = 0; enabled = false }

-- What `*policy` held before does not matter.
unfoldable pub sec_policy_init : Option Policy → Status × Option Policy
sec_policy_init none = (fail einval, none)
sec_policy_init (some p) = (ok, some empty_policy)

abbrev pub activate : Rule → Rule
activate r = record r { active = true }

-- `rules[i] = *rule; rules[i].active = true`
unfoldable pub write_rule : List Rule → ℕ → Rule → List Rule
write_rule rs i r = let rs' = set rs i r in set rs' i (activate (get_or rs' i zero_rule))

unfoldable pub add_rule : Policy → Rule → Status × Policy
add_rule p r =
    if leb max_fw_rules p.rule_count
    then (fail enospc, p)
    else (ok, record p { rules = write_rule p.rules p.rule_count r; rule_count = suc p.rule_count })

unfoldable pub sec_policy_add_rule : Option Policy → Option Rule → Status × Option Policy
unfolding add_rule
sec_policy_add_rule none r = (fail einval, none)
sec_policy_add_rule (some p) none = (fail einval, some p)
sec_policy_add_rule (some p) (some r) = let (s, p') = add_rule p r in (s, some p')

-- `for (i = index; i < rule_count - 1; i++) rules[i] = rules[i + 1]`, with the rounds left
unfoldable pub shift_down : ℕ → ℕ → List Rule → List Rule
shift_down zero i rs = rs
shift_down (suc n) i rs = shift_down n (suc i) (set rs i (get_or rs (suc i) zero_rule))

unfoldable pub remove_at_index : Policy → ℕ → Status × Policy
remove_at_index p i =
    if leb p.rule_count i
    then (fail erange, p)
    else let last = p.rule_count - 1 in
      (
        ok,
        record p {
          rules = set (shift_down (last - i) i p.rules) last zero_rule;
          rule_count = last;
        },
      )

unfoldable pub sec_policy_remove_rule : Option Policy → ℤ → Status × Option Policy
unfolding remove_at_index
sec_policy_remove_rule none i = (fail einval, none)
sec_policy_remove_rule (some p) (negsuc i) = (fail erange, some p)
sec_policy_remove_rule (some p) (pos i) = let (s, p') = remove_at_index p i in (s, some p')

unfoldable pub sec_policy_flush : Option Policy → Status × Option Policy
sec_policy_flush none = (fail einval, none)
sec_policy_flush (some p) = (ok, some (record p { rules = zero_table; rule_count = 0 }))
