-- ===== src/Text/Bytes.antt =====
-- Byte strings. A C string is the list of its bytes up to, and without, its NUL.
use Prim.Native.Char.{code}
use Prim.Native.String.{String}
use pnet_driver_test.Prelude.{
  length, take_all, ◌<◌, ℕ, ◌-◌, ◌≡◌, ◌↔◌, Bool, true, false, ◌&&◌, ◌||◌, List, [], ◌∷◌, ◌++◌,
  arith, ◌==◌, leb, if◌then◌else◌, take,
}

abbrev pub Bytes : Type 0
Bytes = List ℕ

-- the bytes of an ASCII literal
abbrev pub codes : String → Bytes
codes String.[] = []
codes (String.◌∷◌ c s) = code c ∷ codes s

-- `strcmp(a, b) == 0`
unfoldable pub same : Bytes → Bytes → Bool
same [] [] = true
same (x ∷ xs) (y ∷ ys) = x == y && same xs ys
same _ _ = false

pub same_iff : (a b : Bytes) → (same a b ≡ true) ↔ (a ≡ b)
unfolding same
same_iff (x ∷ a) (y ∷ b) = ground (arith, same_iff a b)
same_iff _ _ = ground arith

-- `strncpy(dst, src, sizeof(dst) - 1)` into a buffer whose last byte is NUL: the string that `dst`
-- then holds. `strncpy` fills the rest of the buffer with NUL.
unfoldable pub strncpy : ℕ → Bytes → Bytes
strncpy size src = take (size - 1) src

-- What fits is copied whole.
pub strncpy_id : (size : ℕ) (src : Bytes) → length src < size → strncpy size src ≡ src
unfolding strncpy
strncpy_id size src h = take_all (size - 1) src (omega arith)

-- `isspace` in the "C" locale: blank, \t, \n, \v, \f, \r
abbrev pub isspace : ℕ → Bool
isspace c = c == b' ' || (leb 9 c && leb c 13)

-- from the first byte that is no white space on
unfoldable pub skip_space : Bytes → Bytes
skip_space [] = []
skip_space (c ∷ cs) = if isspace c then skip_space cs else c ∷ cs

-- lines, each ended by a newline
abbrev pub unlines : List Bytes → Bytes
unlines [] = []
unlines (l ∷ ls) = l ++ (b'\n' ∷ unlines ls)
