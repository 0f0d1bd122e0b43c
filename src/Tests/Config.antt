-- ===== src/Tests/Config.antt =====
-- The configuration: a file that is loaded, one that is saved and loaded again, and the validation.
use pnet_driver_test.Prelude.{
  ◌≡◌, ◌≢◌, ◌⊎◌, ◌↔◌, refl, pos, negsuc, Bool, true, false, Option, none, some, [], ◌∷◌, arith,
}
use pnet_driver_test.Text.Bytes.{Bytes, codes, unlines}
use pnet_driver_test.Config.{AppConfig, app_config_default}
use pnet_driver_test.Config.Load.{app_config_load, load_text, file_lines, fgets}
use pnet_driver_test.Config.Save.{app_config_save}
use pnet_driver_test.Config.Written.{IsSaveable}
use pnet_driver_test.Config.RoundTrip.{restored, after_save, app_config_load-app_config_save}
use pnet_driver_test.Config.Fits.{Fits}
use pnet_driver_test.Config.Stored.{app_config_load_lem}
use pnet_driver_test.Config.Validate.{app_config_validate, IsUsable, app_config_validate_iff}

abbrev text : Bytes
text = unlines (
    codes "# a comment"
    ∷ codes "  tick_us = 500  "
    ∷ codes "log_level=3"
    ∷ codes "log_level="
    ∷ codes "colour = blue"
    ∷ codes "interface=an_interface_name_too_long"
    ∷ [])

abbrev one_file : Bytes → Option Bytes
one_file path = some text

abbrev writable : Bytes → Bool
writable path = true

load_text-text :
    let cfg = load_text (codes "f") text in
    (cfg.device.tick_us ≡ 500)
    × (cfg.log_level ≡ pos 3)
    × (cfg.device.interface_name ≡ codes "an_interface_na")
unfolding load_text file_lines pnet_driver_test.Config.Load.apply_lines
    pnet_driver_test.Config.Load.apply_line pnet_driver_test.Text.Strip.strip
    pnet_driver_test.Config.apply_kv pnet_driver_test.Text.Scan.strtoul
    pnet_driver_test.Text.Bytes.same pnet_driver_test.Text.Bytes.strncpy
    pnet_driver_test.Text.Scan.atoi pnet_driver_test.Text.Numeral.scan
    pnet_driver_test.Text.Numeral.digit_in
load_text-text = (refl, refl, refl)

abbrev saved : AppConfig
saved = record app_config_default {
  device = record app_config_default.device {
    ip_addr = 0xC0A80064;
    netmask = 0xFFFFFF00;
    gateway = 0xC0A80001;
    vendor_id = 0x0493;
    tick_us = 2000;
  };
  log_level = pos 3;
  realtime_enabled = false;
}

saved-IsSaveable : IsSaveable saved
saved-IsSaveable = record {
  product = record {
    nonempty = omega arith;
    trimmed = (refl, refl);
    plain = ground arith;
    fits = omega arith;
  };
  station = record {
    nonempty = omega arith;
    trimmed = (refl, refl);
    plain = ground arith;
    fits = omega arith;
  };
  interface = record {
    nonempty = omega arith;
    trimmed = (refl, refl);
    plain = ground arith;
    fits = omega arith;
  };
  directory = record {
    nonempty = omega arith;
    trimmed = (refl, refl);
    plain = ground arith;
    fits = omega arith;
  };
  log = record {
    nonempty = omega arith;
    trimmed = (refl, refl);
    plain = ground arith;
    fits = omega arith;
  };
  ip = omega arith;
  mask = omega arith;
  router = omega arith;
  vendor = omega arith;
  ident = omega arith;
  tick = omega arith;
  level = omega arith;
  priority = omega arith;
  cpu = omega arith;
}

app_config_load-app_config_save_example :
    let (r, file) = app_config_save writable (some saved) (some (codes "/tmp/c")) in
    (r ≡ pos 0)
    × (app_config_load (after_save one_file file) (some app_config_default) (some (codes "/tmp/c"))
        ≡ (pos 0, some (restored (codes "/tmp/c") saved)))
app_config_load-app_config_save_example =
    app_config_load-app_config_save one_file writable (codes "/tmp/c") app_config_default saved
      saved-IsSaveable refl

app_config_load_lem_example :
    ((some text ≡ none)
      × (app_config_load one_file (some saved) (some (codes "f")) ≡ (negsuc 0, some saved)))
    ⊎ ((cfg : AppConfig) × (some text ≢ none)
        × (app_config_load one_file (some saved) (some (codes "f")) ≡ (pos 0, some cfg))
        × Fits cfg)
app_config_load_lem_example = app_config_load_lem one_file saved (codes "f")

app_config_validate_iff_example :
    ((app_config_validate (some saved) ≡ pos 0) ↔ IsUsable saved)
    × ((app_config_validate (some saved) ≡ pos 0) ⊎ (app_config_validate (some saved) ≡ negsuc 0))
app_config_validate_iff_example = app_config_validate_iff saved
