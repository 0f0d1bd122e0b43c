-- ===== src/Security/Script/Whole.antt =====
-- The whole script: what `sec_policy_generate_script` leaves in a buffer of any size.
use pnet_driver_test.Prelude.{
  ℕ, zero, suc, ◌+◌, ◌^◌, ◌≤◌, ◌<◌, ◌≡◌, ◌⊎◌, refl, sym, ap, ◌∙◌, true, false, some, List, [], ◌∷◌,
  ◌++◌, arith, leb, length, length-append, Bool-cases, inl, inr, All, get_or, get_or-take,
  append_assoc, append-nil, leb→le, leb→gt,
}
use pnet_driver_test.Text.Bytes.{Bytes}
use pnet_driver_test.Text.Buffer.{Cursor, Tracks, at_start-Tracks, put-Tracks, snprintf_inside}
use pnet_driver_test.Security.{Status, ok, fail, enospc, Rule, Policy, zero_rule}
use pnet_driver_test.Security.Script.{
  generate_rule_line, rule_entry, script_header, script_footer, put_checked, put_rule, then_put,
  script_rules, write_script, sec_policy_generate_script,
}
use pnet_driver_test.Security.Script.Lines.{IsStored, rule_text, generate_rule_line_lem}
use pnet_driver_test.Security.Table.{live, length-live, IsValid}

-- The specification: the entries of the rules from number `i` on, and the script around them.
abbrev pub entries : ℕ → List Rule → Bytes
entries i [] = []
entries i (r ∷ rs) = rule_entry i r (rule_text r) ++ entries (suc i) rs

abbrev pub script : Policy → Bytes
script p = (script_header p ++ entries 0 (live p)) ++ script_footer p

-- After printing `s`, of which `s` is all if it fits: either all went well, or there was no room.
-- No byte is written outside the buffer either way.
record Prints (len : ℕ) (s : Bytes) (out : Status × Cursor) : Type 0 where
  went : (out.0 ≡ ok) ⊎ (out.0 ≡ fail enospc)
  fitted : out.0 ≡ ok → (length s < len) × Tracks len s out.1
  full : out.0 ≡ fail enospc → len ≤ length s
  safe : out.1.overrun ≡ false

put_checked-Prints :
    {len : ℕ} {s : Bytes} (t : Bytes) {c : Cursor}
    → len < 2 ^ 64
    → length s < len
    → Tracks len s c
    → Prints len (s ++ t) (put_checked len t c)
unfolding put_checked
put_checked-Prints {len} {s} t {c} big fits k =
    let at : c.offset ≡ length s = k.at in
    let (same, clear) = k.holds fits in
    elim (Bool-cases (leb len (c.offset + length t))) [
      | inl full ↦ rw full (record {
        went = inr refl;
        fitted = λ e. cc;
        full = λ e. omega (arith, length-append s t, leb→le _ _ full);
        safe = snprintf_inside len t c big (omega arith) ∙ clear;
      })
      | inr room ↦
          let fits' : length (s ++ t) < len = omega (arith, length-append s t, leb→gt _ _ room) in
          let k' = put-Tracks t big k in
          rw room (record {
            went = inl refl;
            fitted = λ e. (fits', k');
            full = λ e. cc;
            safe = (k'.holds fits').1;
          })
    ]

then_put-Prints :
    {len : ℕ} (s t : Bytes) (next : Cursor → Status × Cursor) (out : Status × Cursor)
    → Prints len s out
    → ((c : Cursor) → length s < len → Tracks len s c → Prints len (s ++ t) (next c))
    → Prints len (s ++ t) (then_put next out)
unfolding then_put
then_put-Prints {len} s t next (ok, c) h k = let (fits, tracks) = h.fitted refl in k c fits tracks
then_put-Prints {len} s t next (fail e, c) h k = record {
  went = h.went;
  fitted = λ e. cc;
  full = λ e. omega (arith, length-append s t, h.full e);
  safe = h.safe;
}

-- a cursor that tracks what fits has printed it
Tracks-Prints :
    {len : ℕ} {s : Bytes} {c : Cursor} → length s < len → Tracks len s c → Prints len s (ok, c)
Tracks-Prints fits k = record {
  went = inl refl;
  fitted = λ e. (fits, k);
  full = λ e. cc;
  safe = (k.holds fits).1;
}

entry_lem : (r : Rule) → IsStored r → generate_rule_line r ≡ some (rule_text r)
entry_lem r v = (generate_rule_line_lem r v).0

script_rules_step :
    (len : ℕ) (p : Policy) (n i : ℕ) (c : Cursor) (r : Rule)
    → get_or p.rules i zero_rule ≡ r
    → IsStored r
    → script_rules len p (suc n) i c
      ≡ then_put (script_rules len p n (suc i)) (put_checked len (rule_entry i r (rule_text r)) c)
unfolding script_rules put_rule
script_rules_step len p n i c r here v =
    ap (λ x. then_put (script_rules len p n (suc i)) (put_rule len i x (generate_rule_line x) c))
      here
    ∙ ap (λ x. then_put (script_rules len p n (suc i)) (put_rule len i r x c)) (entry_lem r v)

-- the loop over the rules from index `i` on, where `rs` are the `n` rules left
script_rules-Prints :
    {len : ℕ} (p : Policy) (rs : List Rule) (n i : ℕ) (s : Bytes) (c : Cursor)
    → len < 2 ^ 64
    → length rs ≡ n
    → All IsStored rs
    → ((j : ℕ) → j < n → get_or p.rules (i + j) zero_rule ≡ get_or rs j zero_rule)
    → length s < len
    → Tracks len s c
    → Prints len (s ++ entries i rs) (script_rules len p n i c)
script_rules-Prints p [] zero i s c big e v same fits k =
    unfold script_rules in rw append-nil (Tracks-Prints fits k)
script_rules-Prints p [] (suc n) i s c big e v same fits k = absurd (omega arith)
script_rules-Prints p (r ∷ rs) zero i s c big e v same fits k = absurd (omega arith)
script_rules-Prints {len} p (r ∷ rs) (suc n) i s c big e (v, vs) same fits k =
    let here : get_or p.rules i zero_rule ≡ r =
      ap (λ j. get_or p.rules j zero_rule) (omega arith) ∙ same 0 (omega arith) in
    let entry = rule_entry i r (rule_text r) in
    let next : (j : ℕ) → j < n → get_or p.rules (suc i + j) zero_rule ≡ get_or rs j zero_rule =
      λ j h. ap (λ m. get_or p.rules m zero_rule) (omega arith) ∙ same (suc j) (omega arith) in
    rw (script_rules_step len p n i c r here v, ← append_assoc s entry (entries (suc i) rs))
      (then_put-Prints (s ++ entry) (entries (suc i) rs) (script_rules len p n (suc i))
        (put_checked len entry c) (put_checked-Prints entry big fits k)
        (λ d fits' k'.
          script_rules-Prints p rs n (suc i) (s ++ entry) d big (omega arith) vs next fits' k'))

live-same :
    (p : Policy) (j : ℕ)
    → j < p.rule_count
    → get_or p.rules j zero_rule ≡ get_or (live p) j zero_rule
live-same p j h = sym (get_or-take p.rule_count j p.rules zero_rule h)

write_script-Prints :
    {len : ℕ} {p : Policy}
    → 0 < len
    → len < 2 ^ 64
    → IsValid p
    → All IsStored (live p)
    → Prints len (script p) (write_script len p)
unfolding write_script
write_script-Prints {len} {p} pos big v stored =
    then_put-Prints (script_header p ++ entries 0 (live p)) (script_footer p)
      (put_checked len (script_footer p)) _
      (then_put-Prints (script_header p) (entries 0 (live p)) (script_rules len p p.rule_count 0) _
        (put_checked-Prints (script_header p) big pos (at_start-Tracks len)) body)
      (λ c fits k. put_checked-Prints (script_footer p) big fits k)
  where
    body :
        (c : Cursor)
        → length (script_header p) < len
        → Tracks len (script_header p) c
        → Prints len (script_header p ++ entries 0 (live p)) (script_rules len p p.rule_count 0 c)
    body c fits k =
        script_rules-Prints p (live p) p.rule_count 0 (script_header p) c big (length-live v) stored
          (λ j h. ap (λ n. get_or p.rules n zero_rule) (omega arith) ∙ live-same p j h) fits k

generate_script_open :
    (len : ℕ) (p : Policy)
    → 0 < len
    → sec_policy_generate_script (some p) true len ≡ write_script len p
unfolding sec_policy_generate_script
generate_script_open len p h = ground arith

module _ {len : ℕ} {p : Policy} (big : len < 2 ^ 64) (v : IsValid p)
    (stored : All IsStored (live p)) where
  -- If the script of a valid policy fits a buffer of `len` bytes with its NUL, the call succeeds and
  -- the buffer holds the header, an entry for every rule in order, and the footer. No byte is
  -- written outside the buffer.
  pub sec_policy_generate_script_fits :
      length (script p) < len
      → let (s, c) = sec_policy_generate_script (some p) true len in
        (s ≡ ok) × (c.content ≡ script p) × (c.overrun ≡ false)
  sec_policy_generate_script_fits h =
      let pos : 0 < len = omega arith in
      let done : Prints len (script p) (write_script len p) =
        write_script-Prints pos big v stored in
      rw (generate_script_open len p pos) (elim done.went [
        | inl e ↦ (e, ((done.fitted e).1.holds h).0, done.safe)
        | inr e ↦ absurd (omega (arith, done.full e))
      ])

  -- If the script of a valid policy does not fit a buffer of `len` bytes with its NUL, the call
  -- fails with -ENOSPC, and no byte is written outside the buffer.
  pub sec_policy_generate_script_full :
      0 < len
      → len ≤ length (script p)
      → let (s, c) = sec_policy_generate_script (some p) true len in
        (s ≡ fail enospc) × (c.overrun ≡ false)
  sec_policy_generate_script_full pos h =
      let done : Prints len (script p) (write_script len p) =
        write_script-Prints pos big v stored in
      rw (generate_script_open len p pos) (elim done.went [
        | inl e ↦ absurd (omega (arith, (done.fitted e).0))
        | inr e ↦ (e, done.safe)
      ])
