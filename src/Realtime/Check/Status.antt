-- ===== src/Realtime/Check/Status.antt =====
-- The reading of /proc/self/status.
use pnet_driver_test.Prelude.{
  ℕ, zero, suc, ◌≤◌, ◌<◌, ◌^◌, ◌≡◌, refl, ap, ◌∙◌, Bool, false, Option, none, some, List, [], ◌∷◌,
  ◌++◌, arith, ltb, ◌-◌, length, replicate, length-replicate, All, append_assoc, length-append,
  All-append, ==_refl,
}
use pnet_driver_test.Text.Bytes.{Bytes, codes, unlines, skip_space}
use pnet_driver_test.Text.Numeral.{
  print_base, digit_in, digit_char, All-print_base, length-print_decimal,
}
use pnet_driver_test.Text.Scan.{scan_ulong, scan_ulong-print_base, scan_byte}
use pnet_driver_test.Address.{◌>>=◌}
use pnet_driver_test.Config.Load.{read_up_to}
use pnet_driver_test.Config.Load.Lines.{Plain, read_up_to-line}
use pnet_driver_test.Realtime.Check.{
  locked_kb, or_more, scan_status, locked_in, scan_literal, or_false,
}

rest_shorter : (n : ℕ) (s : Bytes) → length (read_up_to n s).1 ≤ length s
unfolding read_up_to
rest_shorter zero s = omega arith
rest_shorter (suc n) [] = omega arith
rest_shorter (suc n) (c ∷ cs) = ground (arith, rest_shorter n cs)

-- a read of at least one byte
rest_smaller : (n c : ℕ) (cs : Bytes) → length (read_up_to (suc n) (c ∷ cs)).1 ≤ length cs
unfolding read_up_to
rest_smaller n c cs = ground (arith, rest_shorter n cs)

abbrev Returns : Option Bool → Type 0
Returns o = (b : Bool) × (o ≡ some b)

or_more-Returns : (kb : Option ℕ) (more : Option Bool) → Returns more → Returns (or_more kb more)
unfolding or_more
or_more-Returns none more r = r
or_more-Returns (some kb) more r = (ltb 0 kb, refl)

scan_status-Returns : (n : ℕ) (text : Bytes) → length text < n → Returns (scan_status n text)
unfolding scan_status
scan_status-Returns zero text h = absurd (omega arith)
scan_status-Returns (suc n) [] h = (false, refl)
scan_status-Returns (suc n) (c ∷ cs) h =
    let (line, rest) = read_up_to 255 (c ∷ cs) in
    or_more-Returns (locked_kb line) (scan_status n rest)
      (scan_status-Returns n rest (omega (arith, rest_smaller 254 c cs)))

-- The number of rounds makes no difference, if it is enough.
scan_status-same :
    (n m : ℕ) (text : Bytes)
    → length text < n
    → length text < m
    → scan_status n text ≡ scan_status m text
unfolding scan_status
scan_status-same zero m text h k = absurd (omega arith)
scan_status-same (suc n) zero text h k = absurd (omega arith)
scan_status-same (suc n) (suc m) [] h k = refl
scan_status-same (suc n) (suc m) (c ∷ cs) h k =
    let (line, rest) = read_up_to 255 (c ∷ cs) in
    ap (or_more (locked_kb line)) (
      scan_status-same n m rest (omega (arith, rest_smaller 254 c cs))
        (omega (arith, rest_smaller 254 c cs)))

Returns-or_false : (o : Option Bool) → Returns o → o ≡ some (or_false o)
Returns-or_false o (b, e) = rw e refl

-- The loop over the lines of a file ends in at most as many rounds as the file has bytes and one
-- more: with any such number of rounds it returns, and always the same.
pub scan_status_lem :
    (n : ℕ) (text : Bytes) → length text < n → scan_status n text ≡ some (locked_in (some text))
unfolding locked_in
scan_status_lem n text h =
    scan_status-same n (suc (length text)) text h (omega arith)
    ∙ Returns-or_false (scan_status (suc (length text)) text)
        (scan_status-Returns (suc (length text)) text (omega arith))

-- a line that is not the one looked for
abbrev pub Other : Bytes → Type 0
Other l = All Plain l × (length l ≤ 254) × (locked_kb (l ++ (b'\n' ∷ [])) ≡ none)

-- the line that proc(5) shows, with the number of kilobytes to the right in 8 places (%8lu)
abbrev pub vm_lck_line : ℕ → Bytes
vm_lck_line kb =
    codes "VmLck:\t"
    ++ (replicate (8 - length (print_base 10 kb)) b' ' ++ (print_base 10 kb ++ codes " kB"))

scan_literal-append : (l s : Bytes) → scan_literal l (l ++ s) ≡ some s
unfolding scan_literal scan_byte
scan_literal-append [] s = refl
scan_literal-append (c ∷ l) s = rw (==_refl c) (scan_literal-append l s)

skip_space-blanks : (n : ℕ) (s : Bytes) → skip_space (replicate n b' ' ++ s) ≡ skip_space s
unfolding skip_space
skip_space-blanks zero s = refl
skip_space-blanks (suc n) s = skip_space-blanks n s

scan_ulong-blanks :
    (n : ℕ) (s : Bytes) → scan_ulong (codes "\t" ++ (replicate n b' ' ++ s)) ≡ scan_ulong s
unfolding scan_ulong skip_space
scan_ulong-blanks n s = rw (skip_space-blanks n s) refl

locked_kb-vm_lck_line :
    (kb : ℕ) (rest : Bytes) → kb < 2 ^ 64 → locked_kb (vm_lck_line kb ++ rest) ≡ some kb
unfolding locked_kb
locked_kb-vm_lck_line kb rest h =
    let blanks : Bytes = replicate (8 - length (print_base 10 kb)) b' ' in
    let number = print_base 10 kb ++ codes " kB" in
    ap (λ o. o >>= scan_ulong)
      (scan_literal-append (codes "VmLck:") (codes "\t" ++ ((blanks ++ number) ++ rest)))
    ∙ ap (λ s. scan_ulong (codes "\t" ++ s)) (append_assoc blanks number rest)
    ∙ scan_ulong-blanks (8 - length (print_base 10 kb)) (number ++ rest)
    ∙ ap scan_ulong (append_assoc (print_base 10 kb) (codes " kB") rest)
    ∙ scan_ulong-print_base kb (codes " kB" ++ rest) h (unfold digit_in in refl)

scan_status-line :
    (n : ℕ) (l rest : Bytes)
    → All Plain l
    → length l ≤ 254
    → scan_status (suc n) (l ++ (b'\n' ∷ rest))
      ≡ or_more (locked_kb (l ++ (b'\n' ∷ []))) (scan_status n rest)
unfolding scan_status
scan_status-line n [] rest p h = ap judge (read_up_to-line 255 [] rest p (omega arith))
  where
    judge : Bytes × Bytes → Option Bool
    judge (line, left) = or_more (locked_kb line) (scan_status n left)
scan_status-line n (c ∷ l) rest p h = ap judge (read_up_to-line 255 (c ∷ l) rest p (omega arith))
  where
    judge : Bytes × Bytes → Option Bool
    judge (line, left) = or_more (locked_kb line) (scan_status n left)

digit_char-Plain : (d : ℕ) → d < 10 → Plain (digit_char d)
unfolding digit_char
digit_char-Plain d h = ground arith

blanks-Plain : (n : ℕ) → All Plain (replicate n b' ')
blanks-Plain zero = tt
blanks-Plain (suc n) = ((ground arith), blanks-Plain n)

vm_lck_line-Plain : (kb : ℕ) → All Plain (vm_lck_line kb)
vm_lck_line-Plain kb = All-append Plain (codes "VmLck:\t") _ (ground arith) (
    All-append Plain (replicate (8 - length (print_base 10 kb)) b' ') _ (blanks-Plain _) (
      All-append Plain (print_base 10 kb) (codes " kB")
        (All-print_base Plain 10 kb (omega arith) digit_char-Plain) (ground arith)))

length-vm_lck_line : (kb : ℕ) → kb < 2 ^ 64 → length (vm_lck_line kb) ≤ 254
length-vm_lck_line kb h =
    let blanks : Bytes = replicate (8 - length (print_base 10 kb)) b' ' in
    omega (
      arith,
      length-append blanks (print_base 10 kb ++ codes " kB"),
      length-replicate {A = ℕ} (8 - length (print_base 10 kb)) b' ',
      length-append (print_base 10 kb) (codes " kB"),
      length-print_decimal kb 19 (omega arith),
    )

or_more-none : (more : Option Bool) → or_more none more ≡ more
unfolding or_more
or_more-none more = refl

scan_status_found :
    (n : ℕ) (before : List Bytes) (kb : ℕ) (after : Bytes)
    → All Other before
    → kb < 2 ^ 64
    → length before < n
    → scan_status n (unlines before ++ (vm_lck_line kb ++ (b'\n' ∷ after))) ≡ some (ltb 0 kb)
scan_status_found zero before kb after others h k = absurd (omega arith)
scan_status_found (suc n) [] kb after others h k =
    scan_status-line n (vm_lck_line kb) after (vm_lck_line-Plain kb) (length-vm_lck_line kb h)
    ∙ ap (λ o. or_more o (scan_status n after)) (locked_kb-vm_lck_line kb (b'\n' ∷ []) h)
    ∙ (unfold or_more in refl)
scan_status_found (suc n) (l ∷ before) kb after ((plain, fits, other), others) h k =
    ap (scan_status (suc n)) (append_assoc l (b'\n' ∷ unlines before) _)
    ∙ scan_status-line n l (unlines before ++ (vm_lck_line kb ++ (b'\n' ∷ after))) plain fits
    ∙ ap (λ o. or_more o (scan_status n (unlines before ++ (vm_lck_line kb ++ (b'\n' ∷ after)))))
        other
    ∙ or_more-none _
    ∙ scan_status_found n before kb after others h (omega arith)

lines_le : (before : List Bytes) (t : Bytes) → length before ≤ length (unlines before ++ t)
lines_le [] t = omega arith
lines_le (l ∷ before) t = omega (
  arith,
  lines_le before t,
  length-append (l ++ (b'\n' ∷ unlines before)) t,
  length-append l (b'\n' ∷ unlines before),
  length-append (unlines before) t,
)

-- If the file has the line that proc(5) shows for the locked memory, of `kb` kilobytes, fewer than
-- 2 ^ 64, its number to the right in 8 places, behind lines of at most 254 bytes that are not such a line, then the memory counts
-- as locked exactly if `kb` is not 0.
pub locked_in_lem :
    (before : List Bytes) (kb : ℕ) (after : Bytes)
    → All Other before
    → kb < 2 ^ 64
    → locked_in (some (unlines before ++ (vm_lck_line kb ++ (b'\n' ∷ after)))) ≡ ltb 0 kb
unfolding locked_in
locked_in_lem before kb after others h =
    let text = unlines before ++ (vm_lck_line kb ++ (b'\n' ∷ after)) in
    ap or_false (
      scan_status_found (suc (length text)) before kb after others h
        (omega (arith, lines_le before (vm_lck_line kb ++ (b'\n' ∷ after)))))
