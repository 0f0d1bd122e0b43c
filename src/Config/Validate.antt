-- ===== src/Config/Validate.antt =====
-- `app_config_validate`.
use pnet_driver_test.Prelude.{
  ℕ, ◌≤◌, ◌<◌, ◌≡◌, ◌≢◌, ◌↔◌, ◌⊎◌, refl, ℤ, pos, negsuc, ltbℤ, Bool, true, false, ◌||◌, ◌&&◌,
  Option, none, some, [], ◌∷◌, arith, ◌==◌, if◌then◌else◌,
}
use pnet_driver_test.Text.Bytes.{Bytes}
use pnet_driver_test.Config.{AppConfig}

abbrev is_empty : Bytes → Bool
is_empty [] = true
is_empty (c ∷ s) = false

unfoldable pub app_config_validate : Option AppConfig → ℤ
app_config_validate none = negsuc 0
app_config_validate (some cfg) =
    if is_empty cfg.device.interface_name
    then negsuc 0
    else if cfg.device.ip_addr == 0
    then negsuc 0
    else if cfg.device.ip_addr == 0 || cfg.device.ip_addr == 0xFFFFFFFF
    then negsuc 0
    else if cfg.device.tick_us == 0
    then negsuc 0
    else if cfg.device.vendor_id == 0
    then negsuc 0
    else if cfg.device.device_id == 0
    then negsuc 0
    else if ltbℤ cfg.log_level (pos 0) || ltbℤ (pos 3) cfg.log_level
    then negsuc 0
    else if cfg.realtime_enabled
        && (ltbℤ cfg.realtime.rt_priority (pos 1) || ltbℤ (pos 99) cfg.realtime.rt_priority)
    then negsuc 0
    else pos 0

-- from `lo` to `hi`, neither of them negative
abbrev pub Within : ℕ → ℕ → ℤ → Type 0
Within lo hi (pos n) = (lo ≤ n) × (n ≤ hi)
Within lo hi (negsuc n) = ⊥

abbrev pub PriorityFits : Bool → ℤ → Type 0
PriorityFits true z = Within 1 99 z
PriorityFits false z = Unit

-- a configuration that the program runs with
abbrev pub IsUsable : AppConfig → Type 0
IsUsable cfg =
    (cfg.device.interface_name ≢ [])
    × (cfg.device.ip_addr ≢ 0)
    × (cfg.device.ip_addr ≢ 0xFFFFFFFF)
    × (0 < cfg.device.tick_us)
    × (0 < cfg.device.vendor_id)
    × (0 < cfg.device.device_id)
    × Within 0 3 cfg.log_level
    × PriorityFits cfg.realtime_enabled cfg.realtime.rt_priority

is_empty_iff : (s : Bytes) → (is_empty s ≡ false) ↔ (s ≢ [])
is_empty_iff [] = ground arith
is_empty_iff (c ∷ s) = ((λ h e. cc), λ h. refl)

Within-iff : (lo hi : ℕ) (z : ℤ) → ((ltbℤ z (pos lo) || ltbℤ (pos hi) z) ≡ false) ↔ Within lo hi z
Within-iff lo hi (pos n) = ground arith
Within-iff lo hi (negsuc n) = ground arith

PriorityFits-iff :
    (b : Bool) (z : ℤ) → ((b && (ltbℤ z (pos 1) || ltbℤ (pos 99) z)) ≡ false) ↔ PriorityFits b z
PriorityFits-iff true z = Within-iff 1 99 z
PriorityFits-iff false z = ground arith

-- The validation returns 0 for exactly the usable configurations, and -1 for every other.
pub app_config_validate_iff :
    (cfg : AppConfig)
    → ((app_config_validate (some cfg) ≡ pos 0) ↔ IsUsable cfg)
      × ((app_config_validate (some cfg) ≡ pos 0) ⊎ (app_config_validate (some cfg) ≡ negsuc 0))
unfolding app_config_validate
app_config_validate_iff cfg = ground (
  arith,
  is_empty_iff cfg.device.interface_name,
  Within-iff 0 3 cfg.log_level,
  PriorityFits-iff cfg.realtime_enabled cfg.realtime.rt_priority,
)
