-- ===== src/Config/Load.antt =====
-- `app_config_load`: the lines of the file as `fgets` hands them over, and what each line sets.
pub mod Lines
use pnet_driver_test.Prelude.{
  ℕ, zero, suc, ◌-◌, ℤ, pos, negsuc, Bool, true, false, ◌||◌, Option, none, some, List, [], ◌∷◌,
  ◌==◌, if◌then◌else◌,
}
use pnet_driver_test.Text.Bytes.{Bytes, strncpy}
use pnet_driver_test.Text.Strip.{strip}
use pnet_driver_test.Config.{AppConfig, app_config_default, apply_kv}

-- `fgets(line, 512, fp)` on what is left of the file: at most 511 bytes, up to and with a newline,
-- and the rest; `none` at the end of the file
unfoldable pub read_up_to : ℕ → Bytes → Bytes × Bytes
read_up_to zero s = ([], s)
read_up_to (suc n) [] = ([], [])
read_up_to (suc n) (c ∷ cs) =
    let (l, rest) = read_up_to n cs in if c == b'\n' then (c ∷ [], cs) else (c ∷ l, rest)

unfoldable pub fgets : Bytes → Option (Bytes × Bytes)
unfolding read_up_to
fgets [] = none
fgets (c ∷ cs) = some (read_up_to 511 (c ∷ cs))

-- one byte more at the front of the lines that follow it: a line of its own if it ends one
unfoldable pub add_byte : Bool → ℕ → List Bytes → List Bytes
add_byte true c ls = (c ∷ []) ∷ ls
add_byte false c [] = (c ∷ []) ∷ []
add_byte false c (l ∷ ls) = (c ∷ l) ∷ ls

-- all lines of `while (fgets(line, 512, fp))`, with the room left in the current one
unfoldable pub file_lines : ℕ → Bytes → List Bytes
unfolding add_byte
file_lines room [] = []
file_lines room (c ∷ cs) =
    let last = c == b'\n' || room == 1 in
    add_byte last c (file_lines (if last then 511 else room - 1) cs)

-- `line[strcspn(line, "\r\n")] = 0`; the string ends at a NUL too
unfoldable pub line_text : Bytes → Bytes
line_text [] = []
line_text (c ∷ cs) =
    let rest = line_text cs in if c == 0 || c == b'\r' || c == b'\n' then [] else c ∷ rest

-- `strchr(trimmed, '=')`: what is before it, and behind it
abbrev pub put_before : ℕ → Option (Bytes × Bytes) → Option (Bytes × Bytes)
put_before c none = none
put_before c (some (k, v)) = some (c ∷ k, v)

unfoldable pub split_at_eq : Bytes → Option (Bytes × Bytes)
split_at_eq [] = none
split_at_eq (c ∷ cs) =
    let more = put_before c (split_at_eq cs) in if c == b'=' then some ([], cs) else more

unfoldable pub set_pair : AppConfig → Bytes → Bytes → AppConfig
set_pair cfg [] val = cfg
set_pair cfg (k ∷ key) [] = cfg
set_pair cfg (k ∷ key) (v ∷ val) = apply_kv cfg (k ∷ key) (v ∷ val)

unfoldable pub apply_pair : AppConfig → Option (Bytes × Bytes) → AppConfig
unfolding set_pair
apply_pair cfg none = cfg
apply_pair cfg (some (key, val)) = set_pair cfg (strip key) (strip val)

-- empty lines and comments are passed over
unfoldable pub apply_trimmed : AppConfig → Bytes → AppConfig
unfolding apply_pair split_at_eq
apply_trimmed cfg [] = cfg
apply_trimmed cfg (c ∷ cs) =
    if c == b'#' || c == b';' then cfg else apply_pair cfg (split_at_eq (c ∷ cs))

unfoldable pub apply_line : AppConfig → Bytes → AppConfig
unfolding apply_trimmed line_text
apply_line cfg line = apply_trimmed cfg (strip (line_text line))

unfoldable pub apply_lines : AppConfig → List Bytes → AppConfig
apply_lines cfg [] = cfg
apply_lines cfg (l ∷ ls) = apply_lines (apply_line cfg l) ls

-- the configuration that a file's text gives
unfoldable pub load_text : Bytes → Bytes → AppConfig
load_text path text =
    apply_lines (record app_config_default { config_file = strncpy 256 path }) (file_lines 511 text)

-- `disk` is what `fopen(path, "r")` finds: the text of the file, or `none` if it fails.
module _ (disk : Bytes → Option Bytes) where
  unfoldable pub load_from : AppConfig → Bytes → Option Bytes → ℤ × AppConfig
  load_from cfg path none = (negsuc 0, cfg)
  load_from cfg path (some text) = (pos 0, load_text path text)

  unfoldable pub app_config_load : Option AppConfig → Option Bytes → ℤ × Option AppConfig
  unfolding load_from
  app_config_load none path = (negsuc 0, none)
  app_config_load (some cfg) none = (negsuc 0, some cfg)
  app_config_load (some cfg) (some path) =
      let (r, cfg') = load_from cfg path (disk path) in (r, some cfg')
