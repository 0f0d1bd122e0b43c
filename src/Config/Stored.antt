-- ===== src/Config/Stored.antt =====
-- What a load stores fits its place.
use pnet_driver_test.Prelude.{
  ◌≡◌, ◌≢◌, ◌⊎◌, inl, inr, Option-cases, refl, pos, negsuc, Option, none, some, List, [], ◌∷◌,
  arith, ◌==◌, ◌||◌,
}
use pnet_driver_test.Text.Bytes.{Bytes, strncpy}
use pnet_driver_test.Text.Strip.{strip}
use pnet_driver_test.Address.RoundTrip.{parse_ip-lt}
use pnet_driver_test.Config.{AppConfig, app_config_default}
use pnet_driver_test.Config.Load.{
  set_pair, apply_pair, apply_trimmed, apply_line, apply_lines, load_text, load_from,
  app_config_load, split_at_eq, line_text, file_lines,
}
use pnet_driver_test.Config.Fits.{Fits, length-strncpy, apply_kv-Fits, on◌have◌orelse◌}

set_pair-Fits : {cfg : AppConfig} (key val : Bytes) → Fits cfg → Fits (set_pair cfg key val)
unfolding set_pair
set_pair-Fits [] val h = h
set_pair-Fits (k ∷ key) [] h = h
set_pair-Fits (k ∷ key) (v ∷ val) h = apply_kv-Fits (k ∷ key) (v ∷ val) h

apply_pair-Fits :
    {cfg : AppConfig} (p : Option (Bytes × Bytes)) → Fits cfg → Fits (apply_pair cfg p)
unfolding apply_pair
apply_pair-Fits none h = h
apply_pair-Fits (some (key, val)) h = set_pair-Fits (strip key) (strip val) h

apply_trimmed-Fits : {cfg : AppConfig} (s : Bytes) → Fits cfg → Fits (apply_trimmed cfg s)
unfolding apply_trimmed
apply_trimmed-Fits [] h = h
apply_trimmed-Fits (c ∷ cs) h =
    on (c == b'#' || c == b';') have h orelse apply_pair-Fits (split_at_eq (c ∷ cs)) h

apply_line-Fits : {cfg : AppConfig} (line : Bytes) → Fits cfg → Fits (apply_line cfg line)
unfolding apply_line
apply_line-Fits line h = apply_trimmed-Fits (strip (line_text line)) h

apply_lines-Fits : (ls : List Bytes) {cfg : AppConfig} → Fits cfg → Fits (apply_lines cfg ls)
unfolding apply_lines
apply_lines-Fits [] h = h
apply_lines-Fits (l ∷ ls) h = apply_lines-Fits ls (apply_line-Fits l h)

default-Fits : (path : Bytes) → Fits (record app_config_default { config_file = strncpy 256 path })
default-Fits path = record {
  device = (
    omega arith,
    omega arith,
    omega arith,
    omega arith,
    parse_ip-lt _,
    parse_ip-lt _,
    parse_ip-lt _,
    omega arith,
    omega arith,
    omega arith,
  );
  network = (omega arith, parse_ip-lt _, parse_ip-lt _, parse_ip-lt _);
  level = omega arith;
  log = omega arith;
  file = length-strncpy 255 path;
  priority = omega arith;
  cpu = omega arith;
}

load_text-Fits : (path text : Bytes) → Fits (load_text path text)
unfolding load_text
load_text-Fits path text = apply_lines-Fits (file_lines 511 text) (default-Fits path)

-- Whatever bytes the file holds, a load of it returns 0 and the configuration fits its buffers and
-- types; if the file cannot be opened the load returns -1 and the configuration stays as it was.
pub app_config_load_lem :
    (disk : Bytes → Option Bytes) (old : AppConfig) (path : Bytes)
    → ((disk path ≡ none) × (app_config_load disk (some old) (some path) ≡ (negsuc 0, some old)))
      ⊎ ((cfg : AppConfig) × (disk path ≢ none)
          × (app_config_load disk (some old) (some path) ≡ (pos 0, some cfg))
          × Fits cfg)
unfolding app_config_load load_from
app_config_load_lem disk old path = elim (Option-cases (disk path)) [
  | inl missing ↦ rw missing (inl (refl, refl))
  | inr (text, found) ↦
      rw found (inr (load_text path text, (λ e. cc), refl, load_text-Fits path text))
]
