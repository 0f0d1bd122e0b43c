-- ===== src/Config/Load/Lines.antt =====
-- The lines of a file: the loop over `fgets`, and a file that was written line by line.
use pnet_driver_test.Prelude.{
  ℕ, zero, suc, ◌-◌, ◌≤◌, ◌<◌, ◌≡◌, refl, ap, ◌∙◌, false, Option, none, some, List, [], ◌∷◌, ◌++◌,
  arith, ◌==◌, length, All, Bool-cases, inl, inr, map,
}
use pnet_driver_test.Text.Bytes.{Bytes, unlines}
use pnet_driver_test.Config.Load.{
  read_up_to, fgets, add_byte, file_lines, line_text, put_before, split_at_eq,
}

-- the lines that `while (fgets(line, 512, fp))` reads first and after that
abbrev pub next_lines : Option (Bytes × Bytes) → List Bytes
next_lines none = []
next_lines (some (l, rest)) = l ∷ file_lines 511 rest

lines_on :
    (n c : ℕ) (cs : Bytes)
    → (c == b'\n') ≡ false
    → file_lines (suc (suc n)) (c ∷ cs) ≡ add_byte false c (file_lines (suc n) cs)
unfolding file_lines
lines_on n c cs h =
    let more : (suc (suc n) == 1) ≡ false = ground arith in
    let left : suc (suc n) - 1 ≡ suc n = omega arith in rw (h, more, left)

read_on :
    (n c : ℕ) (cs : Bytes)
    → (c == b'\n') ≡ false
    → read_up_to (suc n) (c ∷ cs) ≡ (let (l, rest) = read_up_to n cs in (c ∷ l, rest))
unfolding read_up_to
read_on n c cs h = rw h

file_lines-read_up_to :
    (n c : ℕ) (cs : Bytes)
    → file_lines (suc n) (c ∷ cs) ≡ next_lines (some (read_up_to (suc n) (c ∷ cs)))
file_lines-read_up_to zero c cs = unfold file_lines read_up_to add_byte in ground arith
file_lines-read_up_to (suc n) c [] = unfold file_lines read_up_to add_byte in ground arith
file_lines-read_up_to (suc n) c (d ∷ ds) = elim (Bool-cases (c == b'\n')) [
  | inl end ↦ unfold file_lines read_up_to add_byte in rw end
  | inr on ↦
      lines_on n c (d ∷ ds) on
      ∙ ap (add_byte false c) (file_lines-read_up_to n d ds)
      ∙ rw (read_on (suc n) c (d ∷ ds) on) (unfold add_byte in refl)
]

-- The lines of any text are those that `fgets` hands over, one call after the other, until it
-- finds the end of the file.
pub file_lines-fgets : (s : Bytes) → file_lines 511 s ≡ next_lines (fgets s)
unfolding fgets
file_lines-fgets [] = unfold file_lines in refl
file_lines-fgets (c ∷ cs) = file_lines-read_up_to 510 c cs

-- a byte that can stand inside a line
abbrev pub Plain : ℕ → Type 0
Plain c = ((c == 0) ≡ false) × ((c == b'\r') ≡ false) × ((c == b'\n') ≡ false)

pub read_up_to-line :
    (n : ℕ) (l rest : Bytes)
    → All Plain l
    → length l < n
    → read_up_to n (l ++ (b'\n' ∷ rest)) ≡ (l ++ (b'\n' ∷ []), rest)
unfolding read_up_to
read_up_to-line zero l rest p h = absurd (omega arith)
read_up_to-line (suc n) [] rest p h = refl
read_up_to-line (suc n) (c ∷ l) rest (p, ps) h =
    rw p.2 (ap (λ (t : Bytes × Bytes). (c ∷ t.0, t.1)) (read_up_to-line n l rest ps (omega arith)))

-- a line that fits the buffer with its newline and its NUL
abbrev pub FitsLine : Bytes → Type 0
FitsLine l = All Plain l × (length l ≤ 510)

file_lines-cons :
    (l rest : Bytes)
    → FitsLine l
    → file_lines 511 (l ++ (b'\n' ∷ rest)) ≡ (l ++ (b'\n' ∷ [])) ∷ file_lines 511 rest
unfolding fgets
file_lines-cons [] rest (p, h) = unfold file_lines in refl
file_lines-cons (c ∷ l) rest (p, h) =
    file_lines-fgets ((c ∷ l) ++ (b'\n' ∷ rest))
    ∙ ap (λ t. next_lines (some t)) (read_up_to-line 511 (c ∷ l) rest p (omega arith))

abbrev pub ended : Bytes → Bytes
ended l = l ++ (b'\n' ∷ [])

-- A text that was written line by line is read line by line, if each line fits the buffer.
pub file_lines-unlines :
    (ls : List Bytes) → All FitsLine ls → file_lines 511 (unlines ls) ≡ map ended ls
file_lines-unlines [] h = unfold file_lines in refl
file_lines-unlines (l ∷ ls) (f, fs) =
    file_lines-cons l (unlines ls) f ∙ ap (λ t. ended l ∷ t) (file_lines-unlines ls fs)

pub line_text-ended : (l : Bytes) → All Plain l → line_text (ended l) ≡ l
unfolding line_text
line_text-ended [] h = refl
line_text-ended (c ∷ l) ((a, b, d), h) = rw (a, b, d) (ap (λ t. c ∷ t) (line_text-ended l h))

pub split_at_eq_lem :
    (key val : Bytes)
    → All (λ c. (c == b'=') ≡ false) key
    → split_at_eq (key ++ (b'=' ∷ val)) ≡ some (key, val)
unfolding split_at_eq
split_at_eq_lem [] val h = refl
split_at_eq_lem (c ∷ key) val (h, hs) = rw h (ap (put_before c) (split_at_eq_lem key val hs))
