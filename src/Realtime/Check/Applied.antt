-- ===== src/Realtime/Check/Applied.antt =====
-- The check behind the setup.
use pnet_driver_test.Prelude.{
  ◌≡◌, inl, inr, refl, ap, ap₂, ◌∙◌, ℤ, pos, IsInt32, true, some, ◌++◌, arith, take, append_assoc,
}
use pnet_driver_test.Text.Bytes.{Bytes}
use pnet_driver_test.Realtime.Setup.{Os, Globals, sched_fifo, rt_setup_apply}
use pnet_driver_test.Realtime.Setup.Scheduling.{
  HasScheduling, SetupEnds, apply_in-SetupEnds, apply_ready,
}
use pnet_driver_test.Realtime.Latency.{Doubles, Clock}
use pnet_driver_test.Realtime.Check.{
  CheckResult, scheduling_text, memory_text, isolation_text, irq_text, latency_text, is_realtime,
  param_or, rt_setup_check,
}
use pnet_driver_test.Realtime.Check.Report.{rt_setup_check_report}

fifo_is_realtime : is_realtime sched_fifo ≡ true
unfolding is_realtime
fifo_is_realtime = refl

-- the first of five parts
first_of :
    (a a' b c e f : Bytes) {content : Bytes}
    → content ≡ take 511 ((((a ++ b) ++ c) ++ e) ++ f)
    → a ≡ a'
    → (rest : Bytes) × (content ≡ take 511 (a' ++ rest))
first_of a a' b c e f h same = (
  b ++ (c ++ (e ++ f)),
  h
      ∙ ap (take 511) (
          append_assoc ((a ++ b) ++ c) e f
          ∙ append_assoc (a ++ b) c (e ++ f)
          ∙ append_assoc a b (c ++ (e ++ f))
          ∙ ap (λ t. t ++ (b ++ (c ++ (e ++ f)))) same),
)

module _ (os : Os) (has : HasScheduling os) where
  open has use {sched, policy, priority}

  -- a setup that returned 0
  now_fifo :
      (g : Globals) (k : os.State) (r : ℤ) (g' : Globals) (k' : os.State)
      → g.config.use_rt_scheduling ≡ true
      → r ≡ pos 0
      → SetupEnds os has g k (r, g', k')
      → sched k' ≡ (sched_fifo, g.config.rt_priority)
  now_fifo g k r g' k' on done (config, ready, inl (off, r₀, same)) = absurd (cc (on, off))
  now_fifo g k r g' k' on done (config, ready, inr (on', p, q, inl (r₀, now))) = now
  now_fifo g k r g' k' on done (config, ready, inr (on', p, q, inr (r₀, still))) =
      absurd (cc (done, r₀))

  module _ (d : Doubles) (clock : Clock os.State) (format_2f : d.Double → Bytes) where
    -- On a system whose calls do what sched(7) says: where the setup of an initialized module with
    -- real-time scheduling and an int as its priority returned 0, a check behind it finds the
    -- scheduling active, and its report begins with the line for SCHED_FIFO and the configured
    -- priority.
    pub rt_setup_check-rt_setup_apply :
        (g : Globals) (k : os.State) (unset : ℤ) (old : CheckResult d.Double)
        → g.initialized ≡ true
        → g.config.use_rt_scheduling ≡ true
        → IsInt32 g.config.rt_priority
        → (rt_setup_apply os g k).0 ≡ pos 0
        → let (r, g', k') = rt_setup_apply os g k in
          let (s, out, k'') = rt_setup_check os d clock format_2f g' unset (some old) k' in
          (res : CheckResult d.Double) × (rest : Bytes) × (out ≡ some res)
          × (res.rt_scheduling_ok ≡ true)
          × (res.report.content
              ≡ take 511 (scheduling_text sched_fifo g.config.rt_priority ++ rest))
    rt_setup_check-rt_setup_apply g k unset old ready on int done =
        let (r, g', k') = rt_setup_apply os g k in
        let now : sched k' ≡ (sched_fifo, g.config.rt_priority) =
          now_fifo g k r g' k' on done
            (rw (apply_ready os has g k ready) (apply_in-SetupEnds os has g k)) in
        let p : os.sched_getscheduler k' ≡ sched_fifo = policy k' ∙ ap (λ (x : ℤ × ℤ). x.0) now in
        let q : param_or unset (os.sched_getparam k') ≡ g.config.rt_priority =
          ap (param_or unset) (priority k') ∙ ap (λ (x : ℤ × ℤ). x.1) now in
        let (res, latency, r₀, out, ok, max_us, content, safe) =
          rt_setup_check_report os d clock format_2f g' unset old k' (rw p (omega arith))
            (rw q int) in
        let (rest, begins) =
          first_of
            (scheduling_text (os.sched_getscheduler k') (param_or unset (os.sched_getparam k')))
            (scheduling_text sched_fifo g.config.rt_priority) (memory_text res.memory_locked)
            (isolation_text res.cpu_isolated) (irq_text res.irq_balance_disabled)
            (latency_text os d clock format_2f latency) content (ap₂ scheduling_text p q) in
        (res, rest, out, ok ∙ ap is_realtime p ∙ fifo_is_realtime, begins)
