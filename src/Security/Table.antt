-- ===== src/Security/Table.antt =====
-- The rule table as a list of at most 64 rules, and the calls as operations on that list.
use pnet_driver_test.Prelude.{
  ℕ, zero, suc, ◌+◌, ◌-◌, ◌≤◌, ◌<◌, ◌≡◌, refl, sym, ap, ◌∙◌, ℤ, pos, negsuc, true, Option, none,
  some, List, [], ◌∷◌, ◌++◌, arith, leb, if◌then◌else◌, get_or, set, take, length, length-set,
  length-take, leb→gt, take-set_end, take-set_past, Bool-cases, inl, inr,
}
use pnet_driver_test.Security.{
  Status, ok, fail, enospc, erange, Rule, Policy, max_fw_rules, zero_rule, empty_policy,
  sec_policy_init, activate, write_rule, add_rule, sec_policy_add_rule, shift_down, remove_at_index,
  sec_policy_remove_rule, sec_policy_flush,
}

pub record IsValid (p : Policy) : Type 0 where
  pub table : length p.rules ≡ max_fw_rules
  pub fits : p.rule_count ≤ max_fw_rules

-- the rules that are in the table
abbrev pub live : Policy → List Rule
live p = take p.rule_count p.rules

-- The specification: a list of rules, never more than 64.
pub data Op : Type 0 where
  add : Rule → Op
  remove : ℤ → Op
  flush : Op

module _ {ℓ} {A : Type ℓ} where
  abbrev pub remove_at : ℕ → List A → List A
  remove_at i [] = []
  remove_at zero (x ∷ xs) = xs
  remove_at (suc i) (x ∷ xs) = x ∷ remove_at i xs

unfoldable pub spec_step : List Rule → Op → Status × List Rule
spec_step rs (add r) =
    if leb max_fw_rules (length rs)
    then (fail enospc, rs)
    else (ok, rs ++ (record r { active = true } ∷ []))
spec_step rs (remove (negsuc i)) = (fail erange, rs)
spec_step rs (remove (pos i)) =
    if leb (length rs) i then (fail erange, rs) else (ok, remove_at i rs)
spec_step rs flush = (ok, [])

-- what stands behind a pointer after a call
abbrev held : Policy → Option Policy → Policy
held p none = p
held p (some q) = q

-- the same operation on the table
unfoldable pub table_step : Policy → Op → Status × Policy
table_step p (add r) = let (s, q) = sec_policy_add_rule (some p) (some r) in (s, held p q)
table_step p (remove i) = let (s, q) = sec_policy_remove_rule (some p) i in (s, held p q)
table_step p flush = let (s, q) = sec_policy_flush (some p) in (s, held p q)

length-shift_down : (n i : ℕ) (rs : List Rule) → length (shift_down n i rs) ≡ length rs
unfolding shift_down
length-shift_down zero i rs = refl
length-shift_down (suc n) i rs =
    length-shift_down n (suc i) (set rs i (get_or rs (suc i) zero_rule))
    ∙ length-set rs i (get_or rs (suc i) zero_rule)

shift_down-cons :
    (n i : ℕ) (r : Rule) (rs : List Rule) → shift_down n (suc i) (r ∷ rs) ≡ r ∷ shift_down n i rs
unfolding shift_down
shift_down-cons zero i r rs = refl
shift_down-cons (suc n) i r rs =
    shift_down-cons n (suc i) r (set rs i (get_or rs (suc i) zero_rule))

take-shift_down_zero :
    (n : ℕ) (rs : List Rule)
    → n < length rs
    → take n (shift_down n 0 rs) ≡ remove_at 0 (take (suc n) rs)
unfolding shift_down
take-shift_down_zero zero [] h = refl
take-shift_down_zero zero (x ∷ xs) h = refl
take-shift_down_zero (suc n) [] h = absurd (omega arith)
take-shift_down_zero (suc n) (x ∷ []) h = absurd (omega arith)
take-shift_down_zero (suc n) (x ∷ y ∷ ys) h =
    ap (take (suc n)) (shift_down-cons n 0 y (y ∷ ys))
    ∙ ap (λ t. y ∷ t) (take-shift_down_zero n (y ∷ ys) (omega arith))

-- The loop moves the rules behind index `i` one place down.
take-shift_down :
    (i n m : ℕ) (rs : List Rule)
    → i + n ≡ m
    → m < length rs
    → take m (shift_down n i rs) ≡ remove_at i (take (suc m) rs)
take-shift_down i n m [] e h = absurd (omega arith)
take-shift_down zero n m (x ∷ xs) e h =
    let same : n ≡ m = omega arith in rw (← same) (take-shift_down_zero n (x ∷ xs) (omega arith))
take-shift_down (suc i) n zero (x ∷ xs) e h = absurd (omega arith)
take-shift_down (suc i) n (suc m) (x ∷ xs) e h =
    ap (take (suc m)) (shift_down-cons n i x xs)
    ∙ ap (λ t. x ∷ t) (take-shift_down i n m xs (omega arith) (omega arith))

-- What an operation has done: the specification's status and list, in a valid table.
record Refines (p : Policy) (o : Op) (s : Status) (p' : Policy) : Type 0 where
  agrees : (s, live p') ≡ spec_step (live p) o
  valid : IsValid p'
  kept : p'.enabled ≡ p.enabled

pub length-live : {p : Policy} → IsValid p → length (live p) ≡ p.rule_count
length-live {p} v = omega (arith, v, length-take p.rule_count p.rules)

get_or-set_self :
    (xs : List Rule) (i : ℕ) (v d : Rule) → i < length xs → get_or (set xs i v) i d ≡ v
get_or-set_self [] i v d h = absurd (omega arith)
get_or-set_self (x ∷ xs) zero v d h = refl
get_or-set_self (x ∷ xs) (suc i) v d h = get_or-set_self xs i v d (omega arith)

set-set : (xs : List Rule) (i : ℕ) (v w : Rule) → set (set xs i v) i w ≡ set xs i w
set-set [] i v w = refl
set-set (x ∷ xs) zero v w = refl
set-set (x ∷ xs) (suc i) v w = ap (λ t. x ∷ t) (set-set xs i v w)

write_rule_lem :
    (rs : List Rule) (i : ℕ) (r : Rule) → i < length rs → write_rule rs i r ≡ set rs i (activate r)
unfolding write_rule
write_rule_lem rs i r h =
    ap (λ x. set (set rs i r) i (activate x)) (get_or-set_self rs i r zero_rule h)
    ∙ set-set rs i r (activate r)

add_rule-Refines :
    {p : Policy} (r : Rule) → IsValid p → let (s, p') = add_rule p r in Refines p (add r) s p'
unfolding add_rule spec_step
add_rule-Refines {p} r v = elim (Bool-cases (leb max_fw_rules p.rule_count)) [
  | inl full ↦ rw full (record { agrees = rw (length-live v, full); valid = v; kept = refl })
  | inr room ↦
      let below : p.rule_count < length p.rules = omega (arith, leb→gt _ _ room) in
      rw (room, write_rule_lem p.rules p.rule_count r below)
        (record {
          agrees =
              rw (length-live v, room)
                (ap (λ l. (ok, l)) (take-set_end p.rule_count p.rules (activate r) below));
          valid = record {
            table = length-set p.rules p.rule_count (activate r) ∙ v.table;
            fits = omega (arith, leb→gt _ _ room);
          };
          kept = refl;
        })
]

remove-Refines :
    {p : Policy} (i : ℕ)
    → IsValid p
    → let (s, p') = remove_at_index p i in Refines p (remove (pos i)) s p'
unfolding remove_at_index spec_step
remove-Refines {p} i v = elim (Bool-cases (leb p.rule_count i)) [
  | inl out ↦ rw out (record { agrees = rw (length-live v, out); valid = v; kept = refl })
  | inr within ↦
      let below : i < p.rule_count = leb→gt _ _ within in
      let last : ℕ = p.rule_count - 1 in
      let moved = shift_down (last - i) i p.rules in
      let count : suc last ≡ p.rule_count = omega arith in
      rw within (record {
        agrees =
            rw (length-live v, within)
              (ap (λ l. (ok, l))
                (take-set_past last last moved zero_rule (omega arith)
                  ∙ take-shift_down i (last - i) last p.rules (omega arith) (omega (arith, v))
                  ∙ ap (λ k. remove_at i (take k p.rules)) count));
        valid = record {
          table =
              length-set moved last zero_rule ∙ length-shift_down (last - i) i p.rules ∙ v.table;
          fits = omega (arith, v);
        };
        kept = refl;
      })
]

table_step-Refines :
    (o : Op) {p : Policy} → IsValid p → let (s, p') = table_step p o in Refines p o s p'
unfolding table_step sec_policy_add_rule sec_policy_remove_rule sec_policy_flush spec_step
table_step-Refines (add r) v = add_rule-Refines r v
table_step-Refines (remove (pos i)) v = remove-Refines i v
table_step-Refines (remove (negsuc i)) v = record { agrees = refl; valid = v; kept = refl }
table_step-Refines flush v = record {
  agrees = refl;
  valid = record { table = refl; fits = omega arith };
  kept = refl;
}

-- any number of calls on one table: the statuses, and the table at the end
unfoldable pub run : Policy → List Op → List Status × Policy
run p [] = ([], p)
run p (o ∷ os) = let (s, p') = table_step p o in let (ss, q) = run p' os in (s ∷ ss, q)

unfoldable pub spec_run : List Rule → List Op → List Status × List Rule
spec_run rs [] = ([], rs)
spec_run rs (o ∷ os) = let (s, rs') = spec_step rs o in let (ss, q) = spec_run rs' os in (s ∷ ss, q)

spec_run_after :
    (p : Policy) (o : Op) (os : List Op)
    → (let (s, p') = table_step p o in
        ◌≡◌ {A = Status × List Rule} (s, live p') (spec_step (live p) o))
    → spec_run (live p) (o ∷ os)
      ≡ (let (s, p') = table_step p o in let (ss, q) = spec_run (live p') os in (s ∷ ss, q))
unfolding spec_run
spec_run_after p o os e = rw (← e)

-- Any sequence of calls on a valid table returns the statuses of the same operations on a list of
-- at most 64 rules, leaves the table holding that list, valid, and does not touch `enabled`.
pub run_refines :
    (os : List Op) {p : Policy}
    → IsValid p
    → let (ss, q) = run p os in
      ((ss, live q) ≡ spec_run (live p) os) × IsValid q × (q.enabled ≡ p.enabled)
unfolding run
run_refines [] v = (unfold spec_run in refl, v, refl)
run_refines (o ∷ os) {p} v =
    let step = table_step-Refines o v in
    let (e, w, k) = run_refines os step.valid in
    (
      ap (λ (t : List Status × List Rule). ((table_step p o).0 ∷ t.0, t.1)) e
          ∙ sym (spec_run_after p o os step.agrees),
      w,
      k ∙ step.kept,
    )

-- A fresh policy is valid, empty and disabled.
pub sec_policy_init_lem :
    (p : Policy)
    → (sec_policy_init (some p) ≡ (ok, some empty_policy))
      × IsValid empty_policy
      × (live empty_policy ≡ [])
unfolding sec_policy_init
sec_policy_init_lem p = (refl, record { table = refl; fits = omega arith }, refl)
