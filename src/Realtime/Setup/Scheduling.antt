-- ===== src/Realtime/Setup/Scheduling.antt =====
-- The scheduling over the setup.
use pnet_driver_test.Prelude.{
  ℕ, zero, suc, ◌≡◌, ◌∙◌, ◌⊎◌, inl, inr, refl, ap, ℤ, pos, ltbℤ, is_zero, Bool, true, false, some,
  List, ◌==◌, Bool-cases, if◌then◌else◌,
}
use pnet_driver_test.Text.Bytes.{Bytes, codes}
use pnet_driver_test.Realtime.Setup.{
  Os, Globals, sched_fifo, eperm, governor_path, stop_irqbalance, saved_line, save_scheduling,
  write_governors, lock_step, governor_step, affinity_step, irq_step, apply_rest, after_fifo,
  apply_in, rt_setup_apply,
}

-- What sched(7) says: the process has a policy, which is not negative, and a priority; setting them
-- works or changes nothing; and no other call that the program makes touches them.
pub record HasScheduling (os : Os) : Type 0 where
  pub sched : os.State → ℤ × ℤ
  pub policy : (k : os.State) → os.sched_getscheduler k ≡ (sched k).0
  pub policy_pos : (k : os.State) → ltbℤ (sched k).0 (pos 0) ≡ false
  pub priority : (k : os.State) → os.sched_getparam k ≡ some (sched k).1
  pub on_set :
      (k : os.State) (p q : ℤ)
      → is_zero (os.sched_setscheduler k p q).0 ≡ true
      → sched (os.sched_setscheduler k p q).1 ≡ (p, q)
  pub on_failure :
      (k : os.State) (p q : ℤ)
      → is_zero (os.sched_setscheduler k p q).0 ≡ false
      → sched (os.sched_setscheduler k p q).1 ≡ sched k
  pub on_lock : (k : os.State) → sched (os.mlockall k).1 ≡ sched k
  pub on_unlock : (k : os.State) → sched (os.munlockall k).1 ≡ sched k
  pub on_affinity : (k : os.State) (cpus : List ℕ) → sched (os.sched_setaffinity k cpus).1 ≡ sched k
  pub on_system : (k : os.State) (command : Bytes) → sched (os.system k command).1 ≡ sched k
  pub on_write : (k : os.State) (path text : Bytes) → sched (os.write_file k path text) ≡ sched k

module _ (os : Os) (has : HasScheduling os) where
  open os use {State, sched_setscheduler, online_cpus}
  open has use {
    sched, policy, policy_pos, priority, on_set, on_failure, on_lock, on_unlock, on_affinity,
    on_system, on_write,
  }

  -- either branch of a conditional, where both have the same scheduling
  pub sched-if :
      (b : Bool) {x y k : State}
      → sched x ≡ sched k
      → sched y ≡ sched k
      → sched (if b then x else y) ≡ sched k
  sched-if true hx hy = hx
  sched-if false hx hy = hy

  pub sched-write_governors :
      (n cpu : ℕ) (text : Bytes) (k : State) → sched (write_governors os n cpu text k) ≡ sched k
  unfolding write_governors
  sched-write_governors zero cpu text k = refl
  sched-write_governors (suc n) cpu text k =
      sched-write_governors n (suc cpu) text _ ∙ on_write k (governor_path cpu) text

  pub sched-irq_step :
      (g : Globals) (command : Bytes) (k : State) → sched (irq_step os g command k) ≡ sched k
  unfolding irq_step
  sched-irq_step g command k =
      sched-if g.config.disable_irq_balance {k = k} (on_system k command) refl

  sched-affinity_step : (g : Globals) (k : State) → sched (affinity_step os g k) ≡ sched k
  unfolding affinity_step
  sched-affinity_step g k =
      sched-if (ltbℤ g.config.isolate_cpu (pos 0)) {k = k} refl (on_affinity k _)

  sched-lock_step : (g : Globals) (k : State) → sched (lock_step os g k) ≡ sched k
  unfolding lock_step
  sched-lock_step g k = sched-if g.config.lock_memory {k = k} (on_lock k) refl

  -- the globals that the governor's step leaves alone
  abbrev pub Same : Globals → Globals → Type 0
  Same g g' =
      (g'.config ≡ g.config)
      × (g'.initialized ≡ g.initialized)
      × (g'.saved_policy ≡ g.saved_policy)
      × (g'.saved_priority ≡ g.saved_priority)

  Same-if : (b : Bool) (g h : Globals) → Same g h → Same g (if b then g else h)
  Same-if true g h s = (refl, refl, refl, refl)
  Same-if false g h s = s

  Same-either :
      (b : Bool) (g h : Globals) (x k : State)
      → Same g h
      → sched x ≡ sched k
      → let (g', k') = if◌then◌else◌ {A = Globals × State} b (h, x) (g, k) in
        (sched k' ≡ sched k) × Same g g'
  Same-either true g h x k s e = (e, s)
  Same-either false g h x k s e = (refl, (refl, refl, refl, refl))

  sched-governor_step :
      (g : Globals) (k : State)
      → let (g', k') = governor_step os g k in (sched k' ≡ sched k) × Same g g'
  unfolding governor_step
  sched-governor_step g k =
      Same-either g.config.disable_cpu_freq g _ _ k
        (Same-if (online_cpus k == 0) g
          (record g {
            saved_governor = saved_line g.saved_governor (os.read_file k (governor_path 0));
          })
          (refl, refl, refl, refl))
        (sched-write_governors (online_cpus k) 0 (codes "performance") k)

  apply_rest_lem :
      (g : Globals) (k : State)
      → let (r, g', k') = apply_rest os g k in (r ≡ pos 0) × (sched k' ≡ sched k) × Same g g'
  unfolding apply_rest
  apply_rest_lem g k =
      let (g', k') = governor_step os g (lock_step os g k) in
      let (kept, same) = sched-governor_step g (lock_step os g k) in
      (
        refl,
        sched-irq_step g' stop_irqbalance _
            ∙ sched-affinity_step g' k'
            ∙ kept
            ∙ sched-lock_step g k,
        same,
      )

  save_scheduling_lem :
      (g : Globals) (k : State)
      → save_scheduling os g k
        ≡ record g { saved_policy = (sched k).0; saved_priority = (sched k).1 }
  unfolding save_scheduling
  save_scheduling_lem g k = rw (policy k, policy_pos k, priority k) refl

  -- how a setup can end
  abbrev pub SetupEnds : Globals → State → ℤ × Globals × State → Type 0
  SetupEnds g k (r, g', k') =
      (g'.config ≡ g.config)
      × (g'.initialized ≡ g.initialized)
      × (((g.config.use_rt_scheduling ≡ false) × (r ≡ pos 0) × (sched k' ≡ sched k))
          ⊎ ((g.config.use_rt_scheduling ≡ true)
              × (g'.saved_policy ≡ (sched k).0)
              × (g'.saved_priority ≡ (sched k).1)
              × (((r ≡ pos 0) × (sched k' ≡ (sched_fifo, g.config.rt_priority)))
                  ⊎ ((r ≡ eperm) × (sched k' ≡ sched k)))))

  after_fifo_lem :
      (g g₁ : Globals) (k k₁ : State) (ret : ℤ)
      → g.config.use_rt_scheduling ≡ true
      → g₁ ≡ record g { saved_policy = (sched k).0; saved_priority = (sched k).1 }
      → (is_zero ret ≡ true → sched k₁ ≡ (sched_fifo, g.config.rt_priority))
      → (is_zero ret ≡ false → sched k₁ ≡ sched k)
      → SetupEnds g k (after_fifo os g₁ (ret, k₁))
  unfolding after_fifo
  after_fifo_lem g g₁ k k₁ ret fifo e good bad = elim (Bool-cases (is_zero ret)) [
    | inl set ↦
        let (r, kept, (config, initialized, p, q)) = apply_rest_lem g₁ k₁ in
        let now = good set in
        rw set (
          config ∙ ap (λ h. h.config) e,
          initialized ∙ ap (λ h. h.initialized) e,
          inr (
            fifo,
            p ∙ ap (λ h. h.saved_policy) e,
            q ∙ ap (λ h. h.saved_priority) e,
            inl (r, kept ∙ now),
          ),
        )
    | inr refused ↦
        let still = bad refused in
        rw refused (
          ap (λ h. h.config) e,
          ap (λ h. h.initialized) e,
          inr (fifo, ap (λ h. h.saved_policy) e, ap (λ h. h.saved_priority) e, inr (refl, still)),
        )
  ]

  pub apply_in-SetupEnds : (g : Globals) (k : State) → SetupEnds g k (apply_in os g k)
  unfolding apply_in
  apply_in-SetupEnds g k = by_case g.config.use_rt_scheduling refl
    where
      by_case :
          (b : Bool)
          → g.config.use_rt_scheduling ≡ b
          → SetupEnds g k (
              if b
              then after_fifo os
                  (save_scheduling os g k)
                  (sched_setscheduler k sched_fifo g.config.rt_priority)
              else apply_rest os g k)
      by_case true e =
          let (ret, k₁) = sched_setscheduler k sched_fifo g.config.rt_priority in
          after_fifo_lem g (save_scheduling os g k) k k₁ ret e (save_scheduling_lem g k)
            (on_set k sched_fifo g.config.rt_priority)
            (on_failure k sched_fifo g.config.rt_priority)
      by_case false e =
          let (r, kept, (config, initialized, p, q)) = apply_rest_lem g k in
          (config, initialized, inl (e, r, kept))

  pub apply_ready :
      (g : Globals) (k : State) → g.initialized ≡ true → rt_setup_apply os g k ≡ apply_in os g k
  unfolding rt_setup_apply
  apply_ready g k ready =
      ap (λ b. if◌then◌else◌ {A = ℤ × Globals × State} b (apply_in os g k) (eperm, g, k)) ready
