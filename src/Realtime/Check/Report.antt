-- ===== src/Realtime/Check/Report.antt =====
-- The report of the check.
use pnet_driver_test.Prelude.{
  ◌+◌, ◌≤◌, ◌<◌, ◌^◌, ◌≡◌, refl, ℤ, pos, negsuc, IsInt32, Bool, true, false, Option, some, ◌++◌,
  arith, length, length-append, take,
}
use pnet_driver_test.Text.Bytes.{Bytes, codes}
use pnet_driver_test.Text.Numeral.{length-print_decimal}
use pnet_driver_test.Text.Scan.{print_int}
use pnet_driver_test.Text.Buffer.{at_start-Tracks, put-Tracks, put_cut}
use pnet_driver_test.Realtime.Setup.{Os, Globals}
use pnet_driver_test.Realtime.Latency.{Doubles, Clock, rt_setup_measure_latency}
use pnet_driver_test.Realtime.Check.{
  CheckResult, report_size, scheduling_text, memory_text, isolation_text, irq_text, latency_text,
  latency_or_zero, measured, ask_irqbalance, is_realtime, param_or, put_lines, check_in,
  rt_setup_check,
}

length-print_int : (z : ℤ) → IsInt32 z → length (print_int z) ≤ 11
unfolding print_int
length-print_int (pos n) h = omega (arith, length-print_decimal n 9 (omega arith))
length-print_int (negsuc n) h = omega (arith, length-print_decimal (n + 1) 9 (omega arith))

length-scheduling_text :
    (policy priority : ℤ)
    → IsInt32 policy
    → IsInt32 priority
    → length (scheduling_text policy priority) ≤ 68
unfolding scheduling_text
length-scheduling_text policy priority h k = ground (
  arith,
  length-print_int policy h,
  length-print_int priority k,
  length-append (print_int policy) (codes ", priority=" ++ (print_int priority ++ codes "\n")),
  length-append (print_int priority) (codes "\n"),
  length-append (print_int policy) (codes ")\n"),
)

length-memory_text : (b : Bool) → length (memory_text b) ≤ 31
unfolding memory_text
length-memory_text b = ground arith

length-isolation_text : (b : Bool) → length (isolation_text b) ≤ 37
unfolding isolation_text
length-isolation_text b = ground arith

length-irq_text : (b : Bool) → length (irq_text b) ≤ 33
unfolding irq_text
length-irq_text b = ground arith

put_lines_cut :
    (a b c e f : Bytes)
    → length a + length b + length c + length e < report_size
    → ((put_lines a b c e f).content ≡ take 511 ((((a ++ b) ++ c) ++ e) ++ f))
      × ((put_lines a b c e f).overrun ≡ false)
unfolding put_lines
put_lines_cut a b c e f h =
    let big : report_size < 2 ^ 64 = omega arith in
    put_cut f big
      (put-Tracks e big
        (put-Tracks c big (put-Tracks b big (put-Tracks a big (at_start-Tracks report_size)))))
      (omega (arith, length-append ((a ++ b) ++ c) e, length-append (a ++ b) c, length-append a b))

module _ (os : Os) (d : Doubles) (clock : Clock os.State) (format_2f : d.Double → Bytes) where
  -- The report of a check, where the policy and the priority of the process are of type int: the
  -- check returns 0, nothing is written outside of the report's 512 bytes, and these hold the five
  -- lines, the first for the policy and the priority and the others for one field of the result
  -- each, cut off at 511 bytes; the scheduling counts as real-time exactly if the policy does.
  pub rt_setup_check_report :
      (g : Globals) (unset : ℤ) (old : CheckResult d.Double) (k : os.State)
      → IsInt32 (os.sched_getscheduler k)
      → IsInt32 (param_or unset (os.sched_getparam k))
      → let (r, out, k') = rt_setup_check os d clock format_2f g unset (some old) k in
        (res : CheckResult d.Double) × (latency : Option d.Double) × (r ≡ pos 0)
        × (out ≡ some res)
        × (res.rt_scheduling_ok ≡ is_realtime (os.sched_getscheduler k))
        × (res.max_latency_us ≡ latency_or_zero os d clock format_2f latency)
        × (res.report.content
            ≡ take 511 (
                (((scheduling_text (os.sched_getscheduler k) (param_or unset (os.sched_getparam k))
                      ++ memory_text res.memory_locked)
                    ++ isolation_text res.cpu_isolated)
                  ++ irq_text res.irq_balance_disabled)
                ++ latency_text os d clock format_2f latency))
        × (res.report.overrun ≡ false)
  unfolding rt_setup_check check_in
  rt_setup_check_report g unset old k h i =
      let policy = os.sched_getscheduler k in
      let priority = param_or unset (os.sched_getparam k) in
      let (res, k') = check_in os d clock format_2f g unset k in
      let (rc, k₁) = os.system k ask_irqbalance in
      let (ret, max_lat, k₂) = rt_setup_measure_latency d clock true (pos 1000) k₁ in
      let latency = measured os d clock format_2f ret max_lat in
      let (content, safe) =
        put_lines_cut (scheduling_text policy priority) (memory_text res.memory_locked)
          (isolation_text res.cpu_isolated) (irq_text res.irq_balance_disabled)
          (latency_text os d clock format_2f latency)
          (omega (
            arith,
            length-scheduling_text policy priority h i,
            length-memory_text res.memory_locked,
            length-isolation_text res.cpu_isolated,
            length-irq_text res.irq_balance_disabled,
          )) in
      (res, latency, refl, refl, refl, refl, content, safe)
