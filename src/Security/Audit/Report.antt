-- ===== src/Security/Audit/Report.antt =====
-- What the audit finds, and when its report fits: the report text and the number of warnings
-- described from the list of rules, and the writes outside the buffer.
use pnet_driver_test.Prelude.{
  ℕ, zero, suc, ◌+◌, ◌^◌, ◌≤◌, ◌<◌, ◌≡◌, refl, sym, ap, ◌∙◌, Bool, true, false, not, ◌||◌, List, [],
  ◌∷◌, ◌++◌, arith, ltb, ◌==◌, if◌then◌else◌, length, length-append, Bool-cases, inl, inr, get_or,
  get_or-take, append-nil,
}
use pnet_driver_test.Text.Bytes.{Bytes}
use pnet_driver_test.Text.Buffer.{Cursor, put, Tracks, put-Tracks, snprintf_inside}
use pnet_driver_test.Security.{Rule, Policy, zero_rule}
use pnet_driver_test.Security.Table.{IsValid, live, length-live}
use pnet_driver_test.Security.Audit.{
  is_default_deny, is_ipsec, find_rule, count_inactive, audit_header, disabled_text, no_rules_text,
  no_deny_text, no_ipsec_text, inactive_note, full_text, summary_text, Audit, warn_if, note_if,
  run_checks,
}

-- some rule of the list passes the test
unfoldable pub any : (Rule → Bool) → List Rule → Bool
any test [] = false
any test (r ∷ rs) = test r || any test rs

unfoldable pub inactive : List Rule → ℕ
inactive [] = 0
inactive (r ∷ rs) = if r.active then inactive rs else suc (inactive rs)

abbrev pub when : Bool → Bytes → Bytes
when b t = if b then t else []

abbrev pub bit : Bool → ℕ
bit b = if b then 1 else 0

abbrev pub crowded : Policy → Bool
crowded p = ltb 48 p.rule_count

-- the number of warnings that a policy deserves
unfoldable pub warning_count : Policy → ℕ
warning_count p =
    bit (not p.enabled)
    + bit (p.rule_count == 0)
    + bit (not (any is_default_deny (live p)))
    + bit (not (any is_ipsec (live p)))
    + bit (crowded p)

-- the report up to its summary
unfoldable pub body : Policy → Bytes
body p =
    (((((audit_header p ++ when (not p.enabled) disabled_text)
            ++ when (p.rule_count == 0) no_rules_text)
          ++ when (not (any is_default_deny (live p))) no_deny_text)
        ++ when (not (any is_ipsec (live p))) no_ipsec_text)
      ++ when (ltb 0 (inactive (live p))) (inactive_note (inactive (live p))))
    ++ when (crowded p) (full_text p.rule_count)

unfoldable pub report : Policy → Bytes
unfolding body warning_count
report p = body p ++ summary_text (warning_count p)

-- The loops see the rules that are in the table.
abbrev Shows : List Rule → ℕ → ℕ → List Rule → Type 0
Shows table i n rs =
    (length rs ≡ n) × ((j : ℕ) → j < n → get_or table (i + j) zero_rule ≡ get_or rs j zero_rule)

Shows-head :
    (table : List Rule) (i n : ℕ) (r : Rule) (rs : List Rule)
    → Shows table i (suc n) (r ∷ rs)
    → get_or table i zero_rule ≡ r
Shows-head table i n r rs (e, same) =
    ap (λ j. get_or table j zero_rule) (omega arith) ∙ same 0 (omega arith)

Shows-tail :
    (table : List Rule) (i n : ℕ) (r : Rule) (rs : List Rule)
    → Shows table i (suc n) (r ∷ rs)
    → Shows table (suc i) n rs
Shows-tail table i n r rs (e, same) = (
  omega arith,
  λ j h. ap (λ m. get_or table m zero_rule) (omega arith) ∙ same (suc j) (omega arith),
)

find_rule-any :
    (test : Rule → Bool) (table rs : List Rule) (n i : ℕ)
    → Shows table i n rs
    → find_rule test table n i ≡ any test rs
unfolding find_rule any
find_rule-any test table [] zero i s = refl
find_rule-any test table [] (suc n) i s = absurd (omega arith)
find_rule-any test table (r ∷ rs) zero i s = absurd (omega arith)
find_rule-any test table (r ∷ rs) (suc n) i s = ground (
  arith,
  Shows-head table i n r rs s,
  find_rule-any test table rs n (suc i) (Shows-tail table i n r rs s),
)

count_inactive-inactive :
    (table rs : List Rule) (n i acc : ℕ)
    → Shows table i n rs
    → count_inactive table n i acc ≡ acc + inactive rs
unfolding count_inactive inactive
count_inactive-inactive table [] zero i acc s = omega arith
count_inactive-inactive table [] (suc n) i acc s = absurd (omega arith)
count_inactive-inactive table (r ∷ rs) zero i acc s = absurd (omega arith)
count_inactive-inactive table (r ∷ rs) (suc n) i acc s =
    let rest = Shows-tail table i n r rs s in
    rw (Shows-head table i n r rs s) (elim (Bool-cases r.active) [
      | inl on ↦ simp on (count_inactive-inactive table rs n (suc i) acc rest)
      | inr off ↦ simp off (count_inactive-inactive table rs n (suc i) (suc acc) rest ∙ omega arith)
    ])

live-Shows : {p : Policy} → IsValid p → Shows p.rules 0 p.rule_count (live p)
live-Shows {p} v = (
  length-live v,
  λ j h.
      ap (λ n. get_or p.rules n zero_rule) (omega arith)
      ∙ sym (get_or-take p.rule_count j p.rules zero_rule h),
)

-- `s` is the report so far, with `n` warnings.
pub record Reports (len : ℕ) (s : Bytes) (n : ℕ) (a : Audit) : Type 0 where
  pub tracks : Tracks len s a.cursor
  pub counted : a.count ≡ n
  pub safe : length s ≤ len → a.cursor.overrun ≡ false

pub put-safe :
    {len : ℕ} (s t : Bytes) (c : Cursor)
    → len < 2 ^ 64
    → c.offset ≡ length s
    → (length s ≤ len → c.overrun ≡ false)
    → length (s ++ t) ≤ len
    → (put len t c).overrun ≡ false
unfolding put
put-safe {len} s t c big at h k =
    let short : length s ≤ len = omega (arith, length-append s t) in
    snprintf_inside len t c big (omega arith) ∙ h short

warn_if-Reports :
    {len : ℕ} {s : Bytes} {n : ℕ} (b : Bool) (t : Bytes) {a : Audit}
    → len < 2 ^ 64
    → Reports len s n a
    → Reports len (s ++ when b t) (n + bit b) (warn_if len b t a)
unfolding warn_if
warn_if-Reports {s} false t big k =
    rw append-nil (record { tracks = k.tracks; counted = omega (arith, k.counted); safe = k.safe })
warn_if-Reports {s} true t {a} big k = record {
  tracks = put-Tracks t big k.tracks;
  counted = omega (arith, k.counted);
  safe = put-safe s t a.cursor big k.tracks.at k.safe;
}

note_if-Reports :
    {len : ℕ} {s : Bytes} {n : ℕ} (b : Bool) (t : Bytes) {a : Audit}
    → len < 2 ^ 64
    → Reports len s n a
    → Reports len (s ++ when b t) n (note_if len b t a)
unfolding note_if
note_if-Reports {s} false t big k = rw append-nil k
note_if-Reports {s} true t {a} big k = record {
  tracks = put-Tracks t big k.tracks;
  counted = k.counted;
  safe = put-safe s t a.cursor big k.tracks.at k.safe;
}

pub run_checks-Reports :
    {len : ℕ} {p : Policy} {a : Audit}
    → len < 2 ^ 64
    → IsValid p
    → Reports len (audit_header p) 0 a
    → Reports len (body p) (warning_count p) (run_checks len p a)
unfolding run_checks body warning_count
run_checks-Reports {len} {p} {a} big v k =
    rw
      (
        find_rule-any is_default_deny p.rules (live p) p.rule_count 0 (live-Shows v),
        find_rule-any is_ipsec p.rules (live p) p.rule_count 0 (live-Shows v),
        inactive_here,
      )
      (record { tracks = last.tracks; counted = omega (arith, last.counted); safe = last.safe })
  where
    inactive_here : count_inactive p.rules p.rule_count 0 0 ≡ inactive (live p)
    inactive_here =
        count_inactive-inactive p.rules (live p) p.rule_count 0 0 (live-Shows v) ∙ omega arith

    last :
        Reports len
          (body p)
          (0
            + bit (not p.enabled)
            + bit (p.rule_count == 0)
            + bit (not (any is_default_deny (live p)))
            + bit (not (any is_ipsec (live p)))
            + bit (crowded p))
          (warn_if len (crowded p) (full_text p.rule_count) (
            note_if len (ltb 0 (inactive (live p))) (inactive_note (inactive (live p))) (
              warn_if len (not (any is_ipsec (live p))) no_ipsec_text (
                warn_if len (not (any is_default_deny (live p))) no_deny_text (
                  warn_if len
                    (p.rule_count == 0)
                    no_rules_text
                    (warn_if len (not p.enabled) disabled_text a))))))
    last = warn_if-Reports (crowded p) (full_text p.rule_count) big (
        note_if-Reports (ltb 0 (inactive (live p))) (inactive_note (inactive (live p))) big (
          warn_if-Reports (not (any is_ipsec (live p))) no_ipsec_text big (
            warn_if-Reports (not (any is_default_deny (live p))) no_deny_text big (
              warn_if-Reports (p.rule_count == 0) no_rules_text big
                (warn_if-Reports (not p.enabled) disabled_text big k)))))
