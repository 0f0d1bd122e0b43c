-- ===== src/Tests/Realtime.antt =====
-- The check and the measurement of latency, on a process in memory.
use pnet_driver_test.Prelude.{
  ℕ, suc, ◌+◌, ◌*◌, ◌/◌, ◌-◌, ◌≡◌, ◌⊎◌, refl, ℤ, pos, negsuc, ltb, ge→ltb, true, false, Option,
  none, some, List, [], ◌∷◌, ◌++◌, arith, length, All, take,
}
use mathlib.Core.List.{Memᴰ}
use pnet_driver_test.Text.Bytes.{Bytes, codes, unlines}
use pnet_driver_test.Text.Buffer.{at_start}
use pnet_driver_test.Text.Numeral.{print_base}
use pnet_driver_test.Text.Scan.{scan_byte}
use pnet_driver_test.Realtime.Setup.{sched_fifo, rt_setup_apply}
use pnet_driver_test.Realtime.Latency.{Doubles, Clock, eio, deviation_us, rt_setup_measure_latency}
use pnet_driver_test.Realtime.Latency.Largest.{
  HasOrder, Reads, ClockFails, rt_setup_measure_latency_lem,
}
use pnet_driver_test.Realtime.Check.{
  CheckResult, is_realtime, scheduling_text, memory_text, isolation_text, irq_text, latency_text,
  latency_or_zero, locked_in, locked_kb, scan_literal, rt_setup_check,
}
use pnet_driver_test.Realtime.Check.Status.{Other, vm_lck_line, locked_in_lem}
use pnet_driver_test.Realtime.Check.Report.{rt_setup_check_report}
use pnet_driver_test.Realtime.Check.Applied.{rt_setup_check-rt_setup_apply}
use pnet_driver_test.Tests.Startup.{process, process-HasScheduling, globals}

abbrev status : Bytes
status = codes "Name:\tpnet\nVmLck:\t     128 kB\n"

-- the line that the kernel prints
lck_text : vm_lck_line 128 ≡ codes "VmLck:\t     128 kB"
unfolding print_base
lck_text = refl

abbrev name_line : Bytes
name_line = codes "Name:\tpnet"

name_line-Other : Other name_line
unfolding locked_kb scan_literal scan_byte
name_line-Other = ((ground arith), omega arith, refl)

locked_in_lem_example :
    locked_in (some (unlines (name_line ∷ []) ++ (vm_lck_line 128 ++ (b'\n' ∷ [])))) ≡ ltb 0 128
locked_in_lem_example = locked_in_lem (name_line ∷ []) 128 [] (name_line-Other, tt) (omega arith)

-- numbers of nanoseconds that stand for doubles, and stop at 0
abbrev absolute_of : ℤ → ℕ
absolute_of (pos n) = n
absolute_of (negsuc n) = 0

abbrev naturals : Doubles
naturals = record {
  Double = ℕ;
  of_int = absolute_of;
  add = λ a b. a + b;
  sub = λ a b. a - b;
  mul = λ a b. a * b;
  div = λ a b. a / b;
  neg = λ a. a;
  lt = ltb;
}

raised : (x y z : ℕ) → ltb x z ≡ false → ltb x y ≡ true → ltb y z ≡ false
raised x y z h k = ground arith

abbrev naturals-HasOrder : HasOrder naturals
naturals-HasOrder = record { lt_irrefl = λ x. ge→ltb x x (omega arith); lt_raise = raised }

-- a clock that stands still
abbrev still : {State : Type 0} → Clock State
still = record { clock_gettime = λ k. (some (record { tv_sec = 1; tv_nsec = 5 }), k) }

abbrev tick_clock : Clock ℕ
tick_clock = record { clock_gettime = λ k. (some (record { tv_sec = k; tv_nsec = 5 }), suc k) }

rt_setup_measure_latency_lem_example :
    let (r, m, k') = rt_setup_measure_latency naturals tick_clock true (pos 3) 0 in
    ((r ≡ eio) × (m ≡ none) × ClockFails naturals naturals-HasOrder tick_clock)
    ⊎ ((baseline : ℕ) × (times : List ℕ) × (w : ℕ) × Reads naturals naturals-HasOrder tick_clock 0
          (baseline ∷ times)
          k'
        × (length times ≡ 3)
        × (r ≡ pos 0)
        × (m ≡ some w)
        × All (λ t. ltb w (deviation_us naturals (baseline / 1000) t) ≡ false) times
        × ((w ≡ 0) ⊎ ((t : ℕ) × Memᴰ t times × (w ≡ deviation_us naturals (baseline / 1000) t))))
rt_setup_measure_latency_lem_example =
    rt_setup_measure_latency_lem naturals naturals-HasOrder tick_clock 2 0

abbrev two_digits : ℕ → Bytes
two_digits x = codes "0.00"

abbrev blank : CheckResult ℕ
blank = record {
  rt_scheduling_ok = false;
  memory_locked = false;
  cpu_isolated = false;
  irq_balance_disabled = false;
  max_latency_us = 0;
  report = at_start;
}

rt_setup_check_report_example :
    let (r, out, k') =
      rt_setup_check process naturals still two_digits
        (globals true)
        (pos 0)
        (some blank)
        (1, pos 80) in
    (res : CheckResult ℕ) × (latency : Option ℕ) × (r ≡ pos 0)
    × (out ≡ some res)
    × (res.rt_scheduling_ok ≡ is_realtime (pos 1))
    × (res.max_latency_us ≡ latency_or_zero process naturals still two_digits latency)
    × (res.report.content
        ≡ take 511 (
            (((scheduling_text (pos 1) (pos 80) ++ memory_text res.memory_locked)
                ++ isolation_text res.cpu_isolated)
              ++ irq_text res.irq_balance_disabled)
            ++ latency_text process naturals still two_digits latency))
    × (res.report.overrun ≡ false)
rt_setup_check_report_example =
    rt_setup_check_report process naturals still two_digits (globals true) (pos 0) blank (1, pos 80)
      (omega arith) (omega arith)

setup_returns : (rt_setup_apply process (globals true) (0, pos 0)).0 ≡ pos 0
unfolding rt_setup_apply
setup_returns = refl

rt_setup_check-rt_setup_apply_example :
    let (r, g', k') = rt_setup_apply process (globals true) (0, pos 0) in
    let (s, out, k'') =
      rt_setup_check process naturals still two_digits g' (pos 0) (some blank) k' in
    (res : CheckResult ℕ) × (rest : Bytes) × (out ≡ some res)
    × (res.rt_scheduling_ok ≡ true)
    × (res.report.content ≡ take 511 (scheduling_text sched_fifo (pos 80) ++ rest))
rt_setup_check-rt_setup_apply_example =
    rt_setup_check-rt_setup_apply process process-HasScheduling naturals still two_digits
      (globals true) (0, pos 0) (pos 0) blank refl refl (omega arith) setup_returns
