-- ===== src/Tests/Startup.antt =====
-- The start and the end of the program, with a system whose calls succeed.
use pnet_driver_test.Prelude.{
  ℕ, ◌≡◌, ◌⊎◌, refl, ℤ, pos, negsuc, ltbℤ, ge→ltb, is_zero, Bool, true, false, Option, none, some,
  List, All, [], ◌∷◌, arith, if◌then◌else◌,
}
use pnet_driver_test.Text.Bytes.{Bytes, codes, strncpy}
use pnet_driver_test.Address.{join}
use pnet_driver_test.Security.{empty_policy}
use pnet_driver_test.Security.Script.Whole.{script}
use pnet_driver_test.Security.Apply.{flush_command}
use pnet_driver_test.Net.Validity.{ntohl}
use pnet_driver_test.Realtime.{rt_config_default}
use pnet_driver_test.Realtime.Setup.{Os, Globals, eperm, rt_setup_apply, rt_setup_restore}
use pnet_driver_test.Realtime.Setup.Scheduling.{HasScheduling}
use pnet_driver_test.Realtime.Setup.Restored.{rt_setup_restore_lem}
use pnet_driver_test.Config.{AppConfig, app_config_default}
use pnet_driver_test.Main.Startup.{Exit, Ended, main_config, apply_network, apply_security}
use pnet_driver_test.Main.Startup.Restores.{Ends}
use pnet_driver_test.Main.Program.{Opt, config_opt, verbose_opt, Signal, left, ended, main}
use pnet_driver_test.Main.Program.Ending.{IsSetting, EndsWith, main_lem}
use pnet_driver_test.Main.Startup.Network.{
  Configured, Partly, apply_network_lem, apply_network_reversed,
}
use pnet_driver_test.Main.Startup.Commands.{apply_security-main_config}
use pnet_driver_test.Tests.Device.{busy}
use pnet_driver_test.Tests.Net.{linux, linux-HasSettings, unset}

-- the policy and the priority of the process
abbrev pub Scheduling : Type 0
Scheduling = ℕ × ℤ

abbrev pub set_scheduling : Scheduling → ℤ → ℤ → ℤ × Scheduling
set_scheduling k (pos p) q = (pos 0, (p, q))
set_scheduling k (negsuc p) q = (negsuc 0, k)

abbrev pub process : Os
process = record {
  State = Scheduling;
  sched_getscheduler = λ k. pos k.0;
  sched_getparam = λ k. some k.1;
  sched_setscheduler = set_scheduling;
  mlockall = λ k. (pos 0, k);
  munlockall = λ k. (pos 0, k);
  online_cpus = λ k. 2;
  sched_setaffinity = λ k cpus. (pos 0, k);
  sched_getaffinity = λ k. none;
  system = λ k command. (pos 0, k);
  read_file = λ k path. some (codes "powersave\n");
  write_file = λ k path text. k;
}

abbrev pub scheduling_of : Scheduling → ℤ × ℤ
scheduling_of k = (pos k.0, k.1)

pub policy_not_negative : (k : Scheduling) → ltbℤ (pos k.0) (pos 0) ≡ false
policy_not_negative k = ge→ltb k.0 0 (omega arith)

pub set_done :
    (k : Scheduling) (p q : ℤ)
    → is_zero (set_scheduling k p q).0 ≡ true
    → scheduling_of (set_scheduling k p q).1 ≡ (p, q)
set_done k (pos p) q h = refl
set_done k (negsuc p) q h = cc

pub set_refused :
    (k : Scheduling) (p q : ℤ)
    → is_zero (set_scheduling k p q).0 ≡ false
    → scheduling_of (set_scheduling k p q).1 ≡ scheduling_of k
set_refused k (pos p) q h = cc
set_refused k (negsuc p) q h = refl

abbrev pub process-HasScheduling : HasScheduling process
process-HasScheduling = record {
  sched = scheduling_of;
  policy = λ k. refl;
  policy_pos = policy_not_negative;
  priority = λ k. refl;
  on_set = set_done;
  on_failure = set_refused;
  on_lock = λ k. refl;
  on_unlock = λ k. refl;
  on_affinity = λ k cpus. refl;
  on_system = λ k command. refl;
  on_write = λ k path text. refl;
}

abbrev pub globals : Bool → Globals
globals initialized = record {
  config = rt_config_default;
  initialized = initialized;
  saved_priority = pos 0;
  saved_policy = pos 0;
  saved_governor = [];
}

rt_setup_restore_lem_example :
    let (r, g₁, k₁) = rt_setup_apply process (globals true) (0, pos 0) in
    let (g₂, k₂) = rt_setup_restore process g₁ k₁ in
    ((r ≡ pos 0) ⊎ (r ≡ eperm))
    × (process-HasScheduling.sched k₂ ≡ (pos 0, pos 0))
    × (rt_setup_apply process g₂ k₂ ≡ (eperm, g₂, k₂))
rt_setup_restore_lem_example =
    rt_setup_restore_lem process process-HasScheduling (globals true) (0, pos 0) refl (λ k'. refl)

abbrev succeeds : Bytes → ℤ
succeeds command = pos 0

abbrev cfg : AppConfig
cfg = record app_config_default {
  network = record app_config_default.network { ip_addr = join 192 168 0 100 };
}

apply_network_lem_example :
    let (ret, k') = apply_network linux cfg unset in
    ((ret ≡ pos 0) × Configured linux linux-HasSettings cfg unset k')
    ⊎ ((ret ≡ negsuc 0) × Partly linux linux-HasSettings cfg unset k')
apply_network_lem_example = apply_network_lem linux linux-HasSettings cfg unset

apply_network_reversed_example :
    let (ret, k') = apply_network linux cfg unset in
    ((ret ≡ pos 0)
      × (ntohl (linux-HasSettings.view k' (strncpy 16 (codes "eth0"))).address
          ≡ join 100 0 168 192))
    ⊎ (ret ≡ negsuc 0)
apply_network_reversed_example =
    apply_network_reversed linux linux-HasSettings cfg unset 192 168 0 100 (omega arith)
      (omega arith) (omega arith) (omega arith) refl

abbrev no_file : Bytes → Option Bytes
no_file path = none

apply_security-main_config_example :
    let c = main_config no_file cfg (codes "/etc/c") true in
    apply_security succeeds c ≡ (
      if c.security_enabled then (pos 0, flush_command ∷ script empty_policy ∷ []) else (pos 0, []))
apply_security-main_config_example =
    apply_security-main_config succeeds no_file cfg (codes "/etc/c") true

abbrev options : List Opt
options = config_opt (codes "/etc/c") ∷ verbose_opt ∷ []

abbrev handled : Signal → ℤ
handled signal = pos 0

main_lem_example :
    let e =
      main busy linux process succeeds handled no_file options cfg
        (1 ∷ 20000 ∷ [])
        unset
        (globals false)
        (0, pos 0) in
    ((code : Exit) × EndsWith options code × (e ≡ left code))
    ⊎ ((end : Ended busy linux process succeeds) × All IsSetting options
        × (e ≡ ended end)
        × Ends busy linux process succeeds (main_config no_file cfg (codes "/etc/c") true) end)
main_lem_example =
    main_lem busy linux process succeeds handled no_file options cfg (1 ∷ 20000 ∷ []) unset
      (globals false) (0, pos 0) refl
