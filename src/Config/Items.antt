-- ===== src/Config/Items.antt =====
-- A file of comments, empty lines and settings, read line by line.
use pnet_driver_test.Prelude.{
  ℕ, ◌≤◌, ◌<◌, ◌≡◌, refl, ap, ◌∙◌, Bool, true, false, not, ◌&&◌, ◌||◌, List, [], ◌∷◌, ◌++◌, some,
  arith, ◌==◌, length, length-append, All, All-append, map, &&-true,
}
use pnet_driver_test.Text.Bytes.{Bytes, isspace, unlines}
use pnet_driver_test.Text.Strip.{IsTrimmed, last_of, strip, strip_id}
use pnet_driver_test.Config.{AppConfig, apply_kv}
use pnet_driver_test.Config.Load.{
  apply_line, apply_trimmed, apply_pair, set_pair, apply_lines, split_at_eq, file_lines,
}
use pnet_driver_test.Config.Load.Lines.{
  Plain, FitsLine, ended, file_lines-unlines, line_text-ended, split_at_eq_lem,
}
use pnet_driver_test.Config.Save.{setting}
use pnet_driver_test.Config.Values.{IsValue}

-- a byte of a key: no white space, not NUL, and none of =, # and ;
abbrev pub key_byte : ℕ → Bool
key_byte c = not (isspace c || c == 0 || c == b'=' || c == b'#' || c == b';')

abbrev pub all_bytes : (ℕ → Bool) → Bytes → Bool
all_bytes test [] = true
all_bytes test (c ∷ cs) = test c && all_bytes test cs

abbrev pub is_key : Bytes → Bool
is_key [] = false
is_key (c ∷ cs) = all_bytes key_byte (c ∷ cs)

key_byte_lem :
    (c : ℕ)
    → key_byte c ≡ true
    → (isspace c ≡ false) × ((c == b'=') ≡ false) × ((c == b'#' || c == b';') ≡ false) × Plain c
key_byte_lem c h = ground arith

All-of-bytes :
    (P : ℕ → Type 0) (s : Bytes)
    → ((c : ℕ) → key_byte c ≡ true → P c)
    → all_bytes key_byte s ≡ true
    → All P s
All-of-bytes P [] p h = tt
All-of-bytes P (c ∷ cs) p h =
    let (first, rest) = &&-true (key_byte c) (all_bytes key_byte cs) h in
    (p c first, All-of-bytes P cs p rest)

last_key : (c : ℕ) (k : Bytes) → all_bytes key_byte (c ∷ k) ≡ true → isspace (last_of c k) ≡ false
last_key c [] h = (key_byte_lem c (&&-true (key_byte c) true h).0).0
last_key c (d ∷ k) h = last_key d k (&&-true (key_byte c) _ h).1

last_of-append : (c d : ℕ) (k v : Bytes) → last_of c (k ++ (d ∷ v)) ≡ last_of d v
last_of-append c d [] v = refl
last_of-append c d (x ∷ k) v = last_of-append x d k v

-- the text of a setting's line has no white space at its ends
setting-IsTrimmed :
    (c : ℕ) (k v : Bytes)
    → isspace c ≡ false
    → 0 < length v
    → IsTrimmed v
    → IsTrimmed (setting (c ∷ k) v)
setting-IsTrimmed c k [] first some_byte h = absurd (omega arith)
setting-IsTrimmed c k (d ∷ v) first some_byte (h, last) =
    (first, ap isspace (last_of-append c b'=' k (d ∷ v)) ∙ last)

setting-Plain :
    (c : ℕ) (k val : Bytes)
    → all_bytes key_byte (c ∷ k) ≡ true
    → All Plain val
    → All Plain (setting (c ∷ k) val)
setting-Plain c k val h plain =
    All-append Plain (c ∷ k) (b'=' ∷ val)
      (All-of-bytes Plain (c ∷ k) (λ b q. (key_byte_lem b q).3) h) ((refl, refl, refl), plain)

key-IsTrimmed : (c : ℕ) (k : Bytes) → all_bytes key_byte (c ∷ k) ≡ true → IsTrimmed (c ∷ k)
key-IsTrimmed c k h = ((key_byte_lem c (&&-true (key_byte c) _ h).0).0, last_key c k h)

line_open :
    (cfg : AppConfig) (t : Bytes)
    → All Plain t
    → IsTrimmed t
    → apply_line cfg (ended t) ≡ apply_trimmed cfg t
unfolding apply_line
line_open cfg t plain trimmed =
    ap (λ s. apply_trimmed cfg (strip s)) (line_text-ended t plain)
    ∙ ap (apply_trimmed cfg) (strip_id t trimmed)

trimmed_open :
    (cfg : AppConfig) (c : ℕ) (cs : Bytes)
    → (c == b'#' || c == b';') ≡ false
    → apply_trimmed cfg (c ∷ cs) ≡ apply_pair cfg (split_at_eq (c ∷ cs))
unfolding apply_trimmed
trimmed_open cfg c cs h = rw h

pair_open :
    (cfg : AppConfig) (c d : ℕ) (k v : Bytes)
    → IsTrimmed (c ∷ k)
    → IsTrimmed (d ∷ v)
    → apply_pair cfg (some (c ∷ k, d ∷ v)) ≡ apply_kv cfg (c ∷ k) (d ∷ v)
unfolding apply_pair
pair_open cfg c d k v h l =
    ap (λ s. set_pair cfg s (strip (d ∷ v))) (strip_id (c ∷ k) h)
    ∙ ap (set_pair cfg (c ∷ k)) (strip_id (d ∷ v) l)

-- A line with a key and a value applies them.
pub apply_line-setting :
    {size : ℕ} (cfg : AppConfig) (key val : Bytes)
    → is_key key ≡ true
    → IsValue size val
    → apply_line cfg (ended (setting key val)) ≡ apply_kv cfg key val
apply_line-setting cfg [] val k v = cc
apply_line-setting cfg (c ∷ key) [] k v = absurd (omega (arith, v.nonempty))
apply_line-setting cfg (c ∷ key) (d ∷ val) k v =
    let (space, eq, comment, plain) = key_byte_lem c (&&-true (key_byte c) _ k).0 in
    line_open cfg (setting (c ∷ key) (d ∷ val)) (setting-Plain c key (d ∷ val) k v.plain)
      (setting-IsTrimmed c key (d ∷ val) space v.nonempty v.trimmed)
    ∙ trimmed_open cfg c (key ++ (b'=' ∷ d ∷ val)) comment
    ∙ ap (apply_pair cfg) (
        split_at_eq_lem (c ∷ key) (d ∷ val)
          (All-of-bytes (λ b. (b == b'=') ≡ false) (c ∷ key) (λ b q. (key_byte_lem b q).1) k))
    ∙ pair_open cfg c d key val (key-IsTrimmed c key k) v.trimmed

-- what a line of the file is
pub data Item : Type 0 where
  blank : Item
  comment : Bytes → Item
  pair : Bytes → Bytes → Item

unfoldable pub item_line : Item → Bytes
item_line blank = []
item_line (comment s) = b'#' ∷ s
item_line (pair key val) = setting key val

unfoldable pub apply_item : AppConfig → Item → AppConfig
apply_item cfg blank = cfg
apply_item cfg (comment s) = cfg
apply_item cfg (pair key val) = apply_kv cfg key val

unfoldable pub apply_items : AppConfig → List Item → AppConfig
apply_items cfg [] = cfg
apply_items cfg (i ∷ is) = apply_items (apply_item cfg i) is

-- a line of the file that is read as what it is
abbrev pub IsItem : Item → Type 0
IsItem blank = Unit
IsItem (comment s) = All Plain s × IsTrimmed (b'#' ∷ s) × (length s ≤ 200)
IsItem (pair key val) = (is_key key ≡ true) × IsValue 300 val × (length key ≤ 200)

item_line-FitsLine : (i : Item) → IsItem i → FitsLine (item_line i)
unfolding item_line
item_line-FitsLine blank h = (tt, omega arith)
item_line-FitsLine (comment s) (p, t, l) = (((refl, refl, refl), p), omega arith)
item_line-FitsLine (pair [] val) (k, v, l) = cc
item_line-FitsLine (pair (c ∷ key) val) (k, v, l) =
    (setting-Plain c key val k v.plain, omega (arith, v, length-append key (b'=' ∷ val)))

apply_line-item :
    (cfg : AppConfig) (i : Item)
    → IsItem i
    → apply_line cfg (ended (item_line i)) ≡ apply_item cfg i
unfolding item_line apply_item
apply_line-item cfg blank h = unfold apply_line strip in refl
apply_line-item cfg (comment s) (p, t, l) =
    line_open cfg (b'#' ∷ s) ((refl, refl, refl), p) t ∙ (unfold apply_trimmed in refl)
apply_line-item cfg (pair key val) (k, v, l) = apply_line-setting cfg key val k v

apply_lines-items :
    (cfg : AppConfig) (is : List Item)
    → All IsItem is
    → apply_lines cfg (map ended (map item_line is)) ≡ apply_items cfg is
unfolding apply_lines apply_items
apply_lines-items cfg [] h = refl
apply_lines-items cfg (i ∷ is) (h, hs) =
    ap (λ c. apply_lines c (map ended (map item_line is))) (apply_line-item cfg i h)
    ∙ apply_lines-items (apply_item cfg i) is hs

All-FitsLine : (is : List Item) → All IsItem is → All FitsLine (map item_line is)
All-FitsLine [] h = tt
All-FitsLine (i ∷ is) (h, hs) = (item_line-FitsLine i h, All-FitsLine is hs)

-- A file written line by line is read back item by item.
pub apply_lines-unlines :
    (cfg : AppConfig) (is : List Item)
    → All IsItem is
    → apply_lines cfg (file_lines 511 (unlines (map item_line is))) ≡ apply_items cfg is
apply_lines-unlines cfg is h =
    ap (apply_lines cfg) (file_lines-unlines (map item_line is) (All-FitsLine is h))
    ∙ apply_lines-items cfg is h
