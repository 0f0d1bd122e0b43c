-- ===== src/Realtime/Check.antt =====
-- `rt_setup_check` (the branch for PLATFORM_LINUX), over the operating system of Setup. The clock and
-- the arithmetic of Latency, and the text that `%.2f` gives, are parameters too.
pub mod Status
pub mod Report
pub mod Applied
use pnet_driver_test.Prelude.{
  ℕ, zero, suc, ◌+◌, ℤ, pos, negsuc, ltbℤ, is_zero, Bool, true, false, not, ◌&&◌, ◌||◌, Option,
  none, some, List, [], ◌∷◌, ◌++◌, ltb, ◌==◌, if◌then◌else◌, length,
}
use pnet_driver_test.Text.Bytes.{Bytes, codes}
use pnet_driver_test.Text.Scan.{print_int, scan_byte, scan_ulong}
use pnet_driver_test.Text.Buffer.{Cursor, at_start, put}
use pnet_driver_test.Address.{◌>>=◌}
use pnet_driver_test.Config.Load.{read_up_to}
use pnet_driver_test.Realtime.Setup.{Os, Globals, einval}
use pnet_driver_test.Realtime.Latency.{Doubles, Clock, rt_setup_measure_latency}

-- `rt_check_result_t`, with the cursor into its report of 512 bytes
pub record CheckResult (Double : Type 0) : Type 0 where
  pub rt_scheduling_ok : Bool
  pub memory_locked : Bool
  pub cpu_isolated : Bool
  pub irq_balance_disabled : Bool
  pub max_latency_us : Double
  pub report : Cursor

abbrev pub report_size : ℕ
report_size = 512

-- `policy == SCHED_FIFO || policy == SCHED_RR`
unfoldable pub is_realtime : ℤ → Bool
is_realtime (pos p) = p == 1 || p == 2
is_realtime (negsuc p) = false

unfoldable pub scheduling_text : ℤ → ℤ → Bytes
scheduling_text policy priority =
    if is_realtime policy
    then codes "[OK] RT scheduling active: policy="
      ++ (print_int policy ++ (codes ", priority=" ++ (print_int priority ++ codes "\n")))
    else codes "[FAIL] RT scheduling not active (current policy="
      ++ (print_int policy ++ codes ")\n")

unfoldable pub memory_text : Bool → Bytes
memory_text locked =
    if locked then codes "[OK] Memory lock: locked\n" else codes "[FAIL] Memory lock: not locked\n"

unfoldable pub isolation_text : Bool → Bytes
isolation_text isolated =
    if isolated
    then codes "[OK] CPU isolation: isolated\n"
    else codes "[INFO] CPU isolation: not configured\n"

unfoldable pub irq_text : Bool → Bytes
irq_text disabled =
    if disabled
    then codes "[OK] irqbalance: disabled\n"
    else codes "[WARN] irqbalance: still running\n"

abbrev pub proc_status : Bytes
proc_status = codes "/proc/self/status"

abbrev pub ask_irqbalance : Bytes
ask_irqbalance = codes "systemctl is-active --quiet irqbalance 2>/dev/null"

unfoldable pub scan_literal : Bytes → Bytes → Option Bytes
scan_literal [] s = some s
scan_literal (c ∷ cs) s = do t ← scan_byte c s; scan_literal cs t

-- `sscanf(line, "VmLck: %lu kB", &locked_kb)`: what is stored if it returns 1
unfoldable pub locked_kb : Bytes → Option ℕ
unfolding scan_literal
locked_kb line = do t ← scan_literal (codes "VmLck:") line; scan_ulong t

unfoldable pub or_more : Option ℕ → Option Bool → Option Bool
or_more none more = more
or_more (some kb) more = some (ltb 0 kb)

-- `while (fgets(line, 256, fp))` on what is left of the file, with the rounds left; `none` if they
-- are not enough
unfoldable pub scan_status : ℕ → Bytes → Option Bool
unfolding or_more
scan_status zero text = none
scan_status (suc n) [] = some false
scan_status (suc n) (c ∷ cs) =
    let (line, rest) = read_up_to 255 (c ∷ cs) in
    let more = scan_status n rest in or_more (locked_kb line) more

abbrev pub or_false : Option Bool → Bool
or_false none = false
or_false (some b) = b

unfoldable pub locked_in : Option Bytes → Bool
locked_in none = false
locked_in (some text) = or_false (scan_status (suc (length text)) text)

-- `CPU_ISSET(cpu, &cpuset)`
unfoldable pub cpu_isset : ℕ → List ℕ → Bool
cpu_isset cpu [] = false
cpu_isset cpu (c ∷ cs) = (c == cpu && ltb cpu 1024) || cpu_isset cpu cs

-- the loop over the CPUs, with the CPUs left and the next one
unfoldable pub count_cpus : ℕ → ℕ → List ℕ → ℕ → ℕ
count_cpus zero cpu cpuset count = count
count_cpus (suc n) cpu cpuset count =
    count_cpus n (suc cpu) cpuset (if cpu_isset cpu cpuset then suc count else count)

unfoldable pub is_isolated : ℕ → Option (List ℕ) → Bool
unfolding count_cpus
is_isolated ncpus none = false
is_isolated ncpus (some cpuset) = count_cpus ncpus 0 cpuset 0 == 1

-- what `param` holds after `sched_getparam`, and `unset` if that fails
abbrev pub param_or : ℤ → Option ℤ → ℤ
param_or unset none = unset
param_or unset (some p) = p

-- the report's lines, one `snprintf` each
unfoldable pub put_lines : Bytes → Bytes → Bytes → Bytes → Bytes → Cursor
put_lines a b c e f =
    put report_size f
      (put report_size e (put report_size c (put report_size b (put report_size a at_start))))

module _ (os : Os) (d : Doubles) (clock : Clock os.State) (format_2f : d.Double → Bytes) where
  open os use {
    State, sched_getscheduler, sched_getparam, online_cpus, sched_getaffinity, system, read_file,
  }
  open d use {Double, of_int}

  unfoldable pub latency_text : Option Double → Bytes
  latency_text none = codes "[WARN] Latency measurement failed\n"
  latency_text (some x) =
      codes "[INFO] Max loop latency (1000 samples): " ++ (format_2f x ++ codes " us\n")

  unfoldable pub latency_or_zero : Option Double → Double
  latency_or_zero none = of_int (pos 0)
  latency_or_zero (some x) = x

  -- what was measured, if the measurement returned 0
  abbrev pub measured : ℤ → Option Double → Option Double
  measured ret max_lat = if is_zero ret then max_lat else none

  unfoldable pub check_in : Globals → ℤ → State → CheckResult Double × State
  unfolding put_lines
  check_in g unset k =
      let policy = sched_getscheduler k in
      let locked = locked_in (read_file k proc_status) in
      let isolated =
        g.initialized
        && not (ltbℤ g.config.isolate_cpu (pos 0))
        && is_isolated (online_cpus k) (sched_getaffinity k) in
      let (rc, k₁) = system k ask_irqbalance in
      let (ret, max_lat, k₂) = rt_setup_measure_latency d clock true (pos 1000) k₁ in
      (
        record {
          rt_scheduling_ok = is_realtime policy;
          memory_locked = locked;
          cpu_isolated = isolated;
          irq_balance_disabled = not (is_zero rc);
          max_latency_us = latency_or_zero (measured ret max_lat);
          report =
              put_lines (scheduling_text policy (param_or unset (sched_getparam k)))
                (memory_text locked) (isolation_text isolated) (irq_text (not (is_zero rc)))
                (latency_text (measured ret max_lat));
        },
        k₂,
      )

  -- `result` is what stands behind the pointer, which memset clears. `unset` is what `param` holds
  -- before the call.
  unfoldable pub rt_setup_check :
      Globals → ℤ → Option (CheckResult Double) → State → ℤ × Option (CheckResult Double) × State
  unfolding check_in
  rt_setup_check g unset none k = (einval, none, k)
  rt_setup_check g unset (some result) k =
      let (result', k') = check_in g unset k in (pos 0, some result', k')
