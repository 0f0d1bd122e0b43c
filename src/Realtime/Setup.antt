-- ===== src/Realtime/Setup.antt =====
-- `rt_setup_init`, `rt_setup_apply` and `rt_setup_restore` (the branch for PLATFORM_LINUX), over an
-- operating system that is a parameter. Messages are left out.
pub mod Scheduling
pub mod Restored
use pnet_driver_test.Prelude.{
  ℕ, zero, suc, ◌+◌, ◌-◌, ℤ, pos, negsuc, ltbℤ, is_zero, Bool, true, false, not, ◌&&◌, ◌||◌, Option,
  none, some, List, [], ◌∷◌, ◌++◌, ltb, ◌==◌, if◌then◌else◌,
}
use pnet_driver_test.Text.Bytes.{Bytes, codes}
use pnet_driver_test.Text.Numeral.{print_base}
use pnet_driver_test.Config.Load.{read_up_to}
use pnet_driver_test.Realtime.{RtConfig}

-- The system calls, on a state. `priority` is the only field of `struct sched_param`.
pub record Os : Type 1 where
  pub State : Type 0
  pub sched_getscheduler : State → ℤ
  pub sched_getparam : State → Option ℤ
  pub sched_setscheduler : State → ℤ → ℤ → ℤ × State
  pub mlockall : State → ℤ × State
  pub munlockall : State → ℤ × State
  pub online_cpus : State → ℕ
  pub sched_setaffinity : State → List ℕ → ℤ × State
  pub sched_getaffinity : State → Option (List ℕ)
  pub system : State → Bytes → ℤ × State
  pub read_file : State → Bytes → Option Bytes
  pub write_file : State → Bytes → Bytes → State

-- the static variables
pub record Globals : Type 0 where
  pub config : RtConfig
  pub initialized : Bool
  pub saved_priority : ℤ
  pub saved_policy : ℤ
  pub saved_governor : Bytes  -- char[64]

abbrev pub sched_other : ℤ
sched_other = pos 0

abbrev pub sched_fifo : ℤ
sched_fifo = pos 1

-- -EPERM and -EINVAL
abbrev pub eperm : ℤ
eperm = negsuc 0

abbrev pub einval : ℤ
einval = negsuc 21

unfoldable pub rt_setup_init : Globals → Option RtConfig → ℤ × Globals
rt_setup_init g none = (einval, g)
rt_setup_init g (some cfg) =
    if ltbℤ cfg.rt_priority (pos 1) || ltbℤ (pos 99) cfg.rt_priority
    then (einval, g)
    else (pos 0, record g { config = cfg; initialized = true })

abbrev pub governor_path : ℕ → Bytes
governor_path cpu =
    codes "/sys/devices/system/cpu/cpu" ++ print_base 10 cpu ++ codes "/cpufreq/scaling_governor"

-- one newline at the end is taken off
unfoldable pub drop_newline : Bytes → Bytes
drop_newline [] = []
drop_newline (c ∷ []) = if c == b'\n' then [] else c ∷ []
drop_newline (c ∷ d ∷ s) = c ∷ drop_newline (d ∷ s)

-- what `fgets(g_saved_governor, 64, fp)` leaves there: an empty file, or none, leaves what there was
unfoldable pub saved_line : Bytes → Option Bytes → Bytes
unfolding drop_newline
saved_line old none = old
saved_line old (some []) = old
saved_line old (some (c ∷ s)) = let (line, rest) = read_up_to 63 (c ∷ s) in drop_newline line

-- `CPU_SET(cpu, &cpuset)` on an empty set of 1024
abbrev pub one_cpu : ℤ → List ℕ
one_cpu (pos cpu) = if ltb cpu 1024 then cpu ∷ [] else []
one_cpu (negsuc n) = []

abbrev pub cpus_below : ℕ → List ℕ
cpus_below zero = []
cpus_below (suc n) = cpus_below n ++ (if ltb n 1024 then n ∷ [] else [])

abbrev pub stop_irqbalance : Bytes
stop_irqbalance = codes "systemctl stop irqbalance 2>/dev/null"

abbrev pub start_irqbalance : Bytes
start_irqbalance = codes "systemctl start irqbalance 2>/dev/null"

-- `s[0] == '\0'`
abbrev pub is_empty_text : Bytes → Bool
is_empty_text [] = true
is_empty_text (c ∷ s) = false

module _ (os : Os) where
  open os use {
    State, sched_getscheduler, sched_getparam, sched_setscheduler, mlockall, munlockall,
    online_cpus, sched_setaffinity, system, read_file, write_file,
  }

  priority_or_zero : Option ℤ → ℤ
  priority_or_zero none = pos 0
  priority_or_zero (some p) = p

  -- the current policy and priority, saved
  unfoldable pub save_scheduling : Globals → State → Globals
  unfolding priority_or_zero
  save_scheduling g k =
      let policy = sched_getscheduler k in
      record g {
        saved_policy = if ltbℤ policy (pos 0) then sched_other else policy;
        saved_priority = priority_or_zero (sched_getparam k);
      }

  -- `text` written to the governor of each CPU, with the CPUs left and the next one
  unfoldable pub write_governors : ℕ → ℕ → Bytes → State → State
  write_governors zero cpu text k = k
  write_governors (suc n) cpu text k =
      write_governors n (suc cpu) text (write_file k (governor_path cpu) text)

  unfoldable pub lock_step : Globals → State → State
  lock_step g k = if g.config.lock_memory then (mlockall k).1 else k

  -- The governor is saved before the first write, if there is a CPU.
  unfoldable pub governor_step : Globals → State → Globals × State
  unfolding write_governors saved_line
  governor_step g k =
      if g.config.disable_cpu_freq
      then (
        if online_cpus k == 0 then g else record g {
          saved_governor = saved_line g.saved_governor (read_file k (governor_path 0));
        },
        write_governors (online_cpus k) 0 (codes "performance") k,
      )
      else (g, k)

  unfoldable pub affinity_step : Globals → State → State
  affinity_step g k =
      if ltbℤ g.config.isolate_cpu (pos 0)
      then k
      else (sched_setaffinity k (one_cpu g.config.isolate_cpu)).1

  unfoldable pub irq_step : Globals → Bytes → State → State
  irq_step g command k = if g.config.disable_irq_balance then (system k command).1 else k

  -- what follows the scheduling
  unfoldable pub apply_rest : Globals → State → ℤ × Globals × State
  unfolding lock_step governor_step affinity_step irq_step
  apply_rest g k =
      let (g', k') = governor_step g (lock_step g k) in
      (pos 0, g', irq_step g' stop_irqbalance (affinity_step g' k'))

  -- `ret` is the result of switching to SCHED_FIFO: only its failure ends the setup
  unfoldable pub after_fifo : Globals → ℤ × State → ℤ × Globals × State
  after_fifo g (ret, k) = if is_zero ret then apply_rest g k else (eperm, g, k)

  unfoldable pub apply_in : Globals → State → ℤ × Globals × State
  unfolding save_scheduling apply_rest after_fifo
  apply_in g k =
      if g.config.use_rt_scheduling
      then after_fifo (save_scheduling g k) (sched_setscheduler k sched_fifo g.config.rt_priority)
      else apply_rest g k

  unfoldable pub rt_setup_apply : Globals → State → ℤ × Globals × State
  unfolding apply_in
  rt_setup_apply g k = if g.initialized then apply_in g k else (eperm, g, k)

  unfoldable pub restore_scheduling : Globals → State → State
  restore_scheduling g k =
      if g.config.use_rt_scheduling
      then (sched_setscheduler k g.saved_policy g.saved_priority).1
      else k

  unfoldable pub unlock_step : Globals → State → State
  unlock_step g k = if g.config.lock_memory then (munlockall k).1 else k

  unfoldable pub restore_governors : Globals → State → State
  unfolding write_governors
  restore_governors g k =
      if g.config.disable_cpu_freq && not (is_empty_text g.saved_governor)
      then write_governors (online_cpus k) 0 g.saved_governor k
      else k

  unfoldable pub restore_affinity : Globals → State → State
  restore_affinity g k =
      if ltbℤ g.config.isolate_cpu (pos 0)
      then k
      else (sched_setaffinity k (cpus_below (online_cpus k))).1

  unfoldable pub restore_in : Globals → State → State
  unfolding restore_scheduling unlock_step restore_governors restore_affinity irq_step
  restore_in g k =
      let k₁ = unlock_step g (restore_scheduling g k) in
      irq_step g start_irqbalance (restore_affinity g (restore_governors g k₁))

  unfoldable pub rt_setup_restore : Globals → State → Globals × State
  unfolding restore_in
  rt_setup_restore g k =
      if g.initialized then (record g { initialized = false }, restore_in g k) else (g, k)
