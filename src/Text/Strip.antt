-- ===== src/Text/Strip.antt =====
-- `strip` of src/config/app_config.c: it cuts white space off both ends of a string.
use pnet_driver_test.Prelude.{
  ℕ, ◌≡◌, refl, ap, true, false, [], ◌∷◌, ◌++◌, if◌then◌else◌, Bool-cases, inl, inr, All,
}
use pnet_driver_test.Text.Bytes.{Bytes, isspace, skip_space}

-- one step of the loop at the end: `c` goes only if all behind it has gone
unfoldable pub keep_before : ℕ → Bytes → Bytes
keep_before c [] = if isspace c then [] else c ∷ []
keep_before c (x ∷ r) = c ∷ x ∷ r

-- `while (end > s && isspace(*end)) *end-- = 0`, on what follows the byte at `s`
unfoldable pub drop_trailing : Bytes → Bytes
unfolding keep_before
drop_trailing [] = []
drop_trailing (c ∷ cs) = keep_before c (drop_trailing cs)

unfoldable pub strip_end : Bytes → Bytes
unfolding drop_trailing
strip_end [] = []
strip_end (c ∷ cs) = c ∷ drop_trailing cs

unfoldable pub strip : Bytes → Bytes
unfolding strip_end skip_space
strip s = strip_end (skip_space s)

abbrev pub last_of : ℕ → Bytes → ℕ
last_of c [] = c
last_of c (x ∷ xs) = last_of x xs

-- no white space at either end
abbrev pub IsTrimmed : Bytes → Type 0
IsTrimmed [] = Unit
IsTrimmed (c ∷ cs) = (isspace c ≡ false) × (isspace (last_of c cs) ≡ false)

abbrev pub Blank : Bytes → Type 0
Blank = All (λ c. isspace c ≡ true)

drop_trailing_id : (c : ℕ) (cs : Bytes) → isspace (last_of c cs) ≡ false → drop_trailing cs ≡ cs
unfolding drop_trailing keep_before
drop_trailing_id c [] h = refl
drop_trailing_id c (x ∷ []) h = rw h
drop_trailing_id c (x ∷ y ∷ ys) h = ap (keep_before x) (drop_trailing_id x (y ∷ ys) h)

-- A string with no white space at its ends is left as it is.
pub strip_id : (s : Bytes) → IsTrimmed s → strip s ≡ s
unfolding strip skip_space strip_end
strip_id [] h = refl
strip_id (c ∷ cs) (first, last) = rw first (ap (λ r. c ∷ r) (drop_trailing_id c cs last))

abbrev EndsSolid : Bytes → Type 0
EndsSolid [] = Unit
EndsSolid (c ∷ cs) = isspace (last_of c cs) ≡ false

-- what the loop at the end does
abbrev Cuts : Bytes → Bytes → Type 0
Cuts cs kept = (post : Bytes) × (cs ≡ kept ++ post) × Blank post × EndsSolid kept

Cuts-keep_before : (c : ℕ) (cs kept : Bytes) → Cuts cs kept → Cuts (c ∷ cs) (keep_before c kept)
unfolding keep_before
Cuts-keep_before c cs [] (post, e, b, l) = elim (Bool-cases (isspace c)) [
  | inl blank ↦ rw blank (c ∷ post, ap (λ t. c ∷ t) e, (blank, b), tt)
  | inr solid ↦ rw solid (post, ap (λ t. c ∷ t) e, b, solid)
]
Cuts-keep_before c cs (y ∷ ys) (post, e, b, l) = (post, ap (λ t. c ∷ t) e, b, l)

drop_trailing-Cuts : (cs : Bytes) → Cuts cs (drop_trailing cs)
unfolding drop_trailing
drop_trailing-Cuts [] = ([], refl, tt, tt)
drop_trailing-Cuts (c ∷ cs) = Cuts-keep_before c cs (drop_trailing cs) (drop_trailing-Cuts cs)

-- the string is `t` between white space
abbrev pub Pads : Bytes → Bytes → Type 0
Pads s t = (pre post : Bytes) × (s ≡ pre ++ (t ++ post)) × Blank pre × Blank post × IsTrimmed t

IsTrimmed-cons : (c : ℕ) (kept : Bytes) → isspace c ≡ false → EndsSolid kept → IsTrimmed (c ∷ kept)
IsTrimmed-cons c [] h l = (h, h)
IsTrimmed-cons c (y ∷ ys) h l = (h, l)

Pads-cons : (c : ℕ) (s t : Bytes) → isspace c ≡ true → Pads s t → Pads (c ∷ s) t
Pads-cons c s t h (pre, post, e, b, d, k) = (c ∷ pre, post, ap (λ r. c ∷ r) e, (h, b), d, k)

-- `strip` cuts off white space at both ends and nothing else, and what is left has none there.
pub strip_lem : (s : Bytes) → Pads s (strip s)
unfolding strip skip_space strip_end
strip_lem [] = ([], [], refl, tt, tt, tt)
strip_lem (c ∷ cs) = elim (Bool-cases (isspace c)) [
  | inl blank ↦ rw blank (Pads-cons c cs (strip cs) blank (strip_lem cs))
  | inr solid ↦
      let (post, e, b, l) = drop_trailing-Cuts cs in
      rw solid ([], post, ap (λ t. c ∷ t) e, tt, b, IsTrimmed-cons c (drop_trailing cs) solid l)
]
