-- ===== src/Realtime/Setup/Restored.antt =====
-- The scheduling over setup and restoration.
use pnet_driver_test.Prelude.{
  ◌≡◌, ◌∙◌, ◌⊎◌, inl, inr, refl, ap, ℤ, pos, ltbℤ, is_zero, true, false, not, ◌&&◌, if◌then◌else◌,
}
use pnet_driver_test.Realtime.Setup.{
  Os, Globals, eperm, start_irqbalance, apply_in, rt_setup_apply, restore_scheduling, unlock_step,
  restore_governors, restore_affinity, restore_in, rt_setup_restore, is_empty_text,
}
use pnet_driver_test.Realtime.Setup.Scheduling.{
  HasScheduling, sched-if, sched-write_governors, sched-irq_step, SetupEnds, apply_in-SetupEnds,
  apply_ready,
}

module _ (os : Os) (has : HasScheduling os) where
  open os use {State, sched_setscheduler, online_cpus}
  open has use {
    sched, policy, policy_pos, priority, on_set, on_failure, on_lock, on_unlock, on_affinity,
    on_system, on_write,
  }

  restore_in_lem :
      (g : Globals) (k : State) → sched (restore_in os g k) ≡ sched (restore_scheduling os g k)
  unfolding restore_in unlock_step restore_governors restore_affinity
  restore_in_lem g k =
      let k₀ = restore_scheduling os g k in
      let k₁ = unlock_step os g k₀ in
      let k₂ = restore_governors os g k₁ in
      let k₃ = restore_affinity os g k₂ in
      sched-irq_step os has g start_irqbalance k₃
      ∙ sched-if os has (ltbℤ g.config.isolate_cpu (pos 0)) {k = k₂} refl (on_affinity k₂ _)
      ∙ sched-if os has (g.config.disable_cpu_freq && not (is_empty_text g.saved_governor)) {k = k₁}
          (sched-write_governors os has (online_cpus k₁) 0 g.saved_governor k₁) refl
      ∙ sched-if os has g.config.lock_memory {k = k₀} (on_unlock k₀) refl

  restored_to :
      (g g' : Globals) (k k' : State)
      → ((k : State) → is_zero (sched_setscheduler k (sched k').0 (sched k').1).0 ≡ true)
      → g.config ≡ g'.config
      → ((g'.config.use_rt_scheduling ≡ false) × (sched k ≡ sched k'))
        ⊎ ((g'.config.use_rt_scheduling ≡ true)
            × (g.saved_policy ≡ (sched k').0)
            × (g.saved_priority ≡ (sched k').1))
      → sched (restore_scheduling os g k) ≡ sched k'
  unfolding restore_scheduling
  restored_to g g' k k' works e (inl (off, same)) = rw (e, off) same
  restored_to g g' k k' works e (inr (on, p, q)) =
      rw (e, on, p, q) (on_set k (sched k').0 (sched k').1 (works k))

  restore_ready :
      (g : Globals) (k : State)
      → g.initialized ≡ true
      → rt_setup_restore os g k ≡ (record g { initialized = false }, restore_in os g k)
  unfolding rt_setup_restore
  restore_ready g k ready =
      ap
        (λ b.
          if◌then◌else◌ {A = Globals × State} b
            (record g { initialized = false }, restore_in os g k) (g, k))
        ready

  restored_from :
      (g g₁ : Globals) (k k₁ : State) (r : ℤ)
      → ((k' : State) → is_zero (sched_setscheduler k' (sched k).0 (sched k).1).0 ≡ true)
      → SetupEnds os has g k (r, g₁, k₁)
      → ((r ≡ pos 0) ⊎ (r ≡ eperm)) × (sched (restore_in os g₁ k₁) ≡ sched k)
  restored_from g g₁ k k₁ r works (config, initialized, inl (off, r₀, same)) =
      (inl r₀, restore_in_lem g₁ k₁ ∙ restored_to g₁ g k₁ k works config (inl (off, same)))
  restored_from g g₁ k k₁ r works (config, initialized, inr (on, p, q, inl (r₀, now))) =
      (inl r₀, restore_in_lem g₁ k₁ ∙ restored_to g₁ g k₁ k works config (inr (on, p, q)))
  restored_from g g₁ k k₁ r works (config, initialized, inr (on, p, q, inr (r₀, still))) =
      (inr r₀, restore_in_lem g₁ k₁ ∙ restored_to g₁ g k₁ k works config (inr (on, p, q)))

  -- On a system whose calls do what sched(7) says, from an initialized module: whether the setup
  -- succeeds or is refused SCHED_FIFO, the restoration brings back the policy and priority that the
  -- process had, if these can always be set again, and the module is no longer initialized, so that
  -- a further setup is refused with -EPERM and changes nothing.
  pub rt_setup_restore_lem :
      (g : Globals) (k : State)
      → g.initialized ≡ true
      → ((k' : State) → is_zero (sched_setscheduler k' (sched k).0 (sched k).1).0 ≡ true)
      → let (r, g₁, k₁) = rt_setup_apply os g k in
        let (g₂, k₂) = rt_setup_restore os g₁ k₁ in
        ((r ≡ pos 0) ⊎ (r ≡ eperm))
        × (sched k₂ ≡ sched k)
        × (rt_setup_apply os g₂ k₂ ≡ (eperm, g₂, k₂))
  rt_setup_restore_lem g k ready works =
      let (r, g₁, k₁) = apply_in os g k in
      let ends = apply_in-SetupEnds os has g k in
      let (result, back) = restored_from g g₁ k k₁ r works ends in
      rw (apply_ready os has g k ready, restore_ready g₁ k₁ (ends.1 ∙ ready))
        (result, back, unfold rt_setup_apply in refl)
