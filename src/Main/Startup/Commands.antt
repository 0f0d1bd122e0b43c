-- ===== src/Main/Startup/Commands.antt =====
-- The commands that the program runs for its security policy.
use pnet_driver_test.Prelude.{
  ◌<◌, ◌≡◌, ◌∙◌, refl, ap, ℤ, pos, negsuc, is_zero, Bool, true, false, Option, none, some, List, [],
  ◌∷◌, arith, length, lt→ltb, if◌then◌else◌, ◌==◌, ◌||◌,
}
use pnet_driver_test.Text.Bytes.{Bytes}
use pnet_driver_test.Text.Strip.{strip}
use pnet_driver_test.Security.{Policy, empty_policy, ok, fail, eio}
use pnet_driver_test.Security.Script.Whole.{script}
use pnet_driver_test.Security.Script.Size.{length-script}
use pnet_driver_test.Security.Apply.{sec_policy_apply, flush_command, sec_policy_apply_lem}
use pnet_driver_test.Config.{AppConfig, apply_kv}
use pnet_driver_test.Config.Load.{
  set_pair, apply_pair, apply_trimmed, apply_line, apply_lines, load_text, load_from,
  app_config_load, split_at_eq, line_text, file_lines,
}
use pnet_driver_test.Main.Startup.{main_config, loaded_or_default, apply_security, status_result}

apply_kv-security :
    (cfg : AppConfig) (key val : Bytes) → (apply_kv cfg key val).security ≡ cfg.security
unfolding apply_kv
apply_kv-security cfg key val = ground arith

set_pair-security :
    (cfg : AppConfig) (key val : Bytes) → (set_pair cfg key val).security ≡ cfg.security
unfolding set_pair
set_pair-security cfg [] val = refl
set_pair-security cfg (k ∷ key) [] = refl
set_pair-security cfg (k ∷ key) (v ∷ val) = apply_kv-security cfg (k ∷ key) (v ∷ val)

apply_pair-security :
    (cfg : AppConfig) (p : Option (Bytes × Bytes)) → (apply_pair cfg p).security ≡ cfg.security
unfolding apply_pair
apply_pair-security cfg none = refl
apply_pair-security cfg (some (key, val)) = set_pair-security cfg (strip key) (strip val)

either_policy :
    (b : Bool) (x y : AppConfig) (p : Policy)
    → x.security ≡ p
    → y.security ≡ p
    → (if b then x else y).security ≡ p
either_policy true x y p hx hy = hx
either_policy false x y p hx hy = hy

apply_line-security : (cfg : AppConfig) (s : Bytes) → (apply_line cfg s).security ≡ cfg.security
unfolding apply_line apply_trimmed
apply_line-security cfg s = of_text (strip (line_text s))
  where
    of_text : (t : Bytes) → (apply_trimmed cfg t).security ≡ cfg.security
    of_text [] = refl
    of_text (c ∷ cs) =
        either_policy (c == b'#' || c == b';') cfg (apply_pair cfg (split_at_eq (c ∷ cs)))
          cfg.security refl (apply_pair-security cfg (split_at_eq (c ∷ cs)))

apply_lines-security :
    (cfg : AppConfig) (ls : List Bytes) → (apply_lines cfg ls).security ≡ cfg.security
unfolding apply_lines
apply_lines-security cfg [] = refl
apply_lines-security cfg (l ∷ ls) =
    apply_lines-security (apply_line cfg l) ls ∙ apply_line-security cfg l

load_text-security : (path text : Bytes) → (load_text path text).security ≡ empty_policy
unfolding load_text
load_text-security path text = apply_lines-security _ (file_lines 511 text)

main_config-security :
    (disk : Bytes → Option Bytes) (config : AppConfig) (path : Bytes) (verbose : Bool)
    → (main_config disk config path verbose).security ≡ empty_policy
unfolding main_config loaded_or_default app_config_load load_from
main_config-security disk config path verbose =
    let cfg = loaded_or_default path (app_config_load disk (some config) (some path)) in
    let loaded = from_file (disk path) in
    either_policy verbose (record cfg { log_level = pos 3 }) cfg empty_policy loaded loaded
  where
    from_file :
        (text : Option Bytes)
        → (let (r, c) = load_from disk config path text in
            loaded_or_default path (r, some c)).security
          ≡ empty_policy
    from_file none = refl
    from_file (some text) = load_text-security path text

empty_fits : length (script empty_policy) < 4096
empty_fits = length-script {p = empty_policy} (omega arith) tt (omega arith)

-- Whatever the configuration file holds, the policy that the program applies has no rules: if security
-- is enabled it runs the flush of the firewall and a script without rules, and otherwise nothing.
pub apply_security-main_config :
    (system : Bytes → ℤ) (disk : Bytes → Option Bytes) (config : AppConfig) (path : Bytes)
    (verbose : Bool)
    → let cfg = main_config disk config path verbose in
      apply_security system cfg ≡ (
        if cfg.security_enabled
        then (
          if is_zero (system (script empty_policy)) then pos 0 else negsuc 0,
          flush_command ∷ script empty_policy ∷ [],
        )
        else (pos 0, []))
unfolding apply_security status_result
apply_security-main_config system disk config path verbose =
    let cfg = main_config disk config path verbose in
    ap
      (λ p.
        if cfg.security_enabled
        then status_result (sec_policy_apply system (some p))
        else (pos 0, []))
      (main_config-security disk config path verbose)
    ∙ ap (λ r. if cfg.security_enabled then status_result r else (pos 0, []))
        (sec_policy_apply_lem system {p = empty_policy} (omega arith) tt)
    ∙ rw (lt→ltb _ _ empty_fits)
        (by_result cfg.security_enabled (is_zero (system (script empty_policy))))
  where
    by_result :
        (enabled b : Bool)
        → (if enabled
            then status_result
                (if b then ok else fail eio, flush_command ∷ script empty_policy ∷ [])
            else (pos 0, []))
          ≡ (if enabled
              then (if b then pos 0 else negsuc 0, flush_command ∷ script empty_policy ∷ [])
              else (pos 0, []))
    by_result true true = refl
    by_result true false = refl
    by_result false b = refl
