-- ===== src/Realtime/Latency/Largest.antt =====
-- The result of the measurement.
use mathlib.Core.List.{Memᴰ}
use pnet_driver_test.Prelude.{
  ℕ, zero, suc, ◌≡◌, ◌⊎◌, inl, inr, refl, ap, ◌∙◌, ℤ, pos, true, false, Option, none, some, List,
  [], ◌∷◌, length, All, Bool-cases,
}
use pnet_driver_test.Realtime.Latency.{
  Doubles, Clock, Timespec, eio, thousand, deviation_us, larger, read_end, read_start, read_batch,
  or_eio, measure, measure_samples, rt_setup_measure_latency,
}

-- what IEEE 754 says of `<`, NaN included
pub record HasOrder (d : Doubles) : Type 0 where
  pub lt_irrefl : (x : d.Double) → d.lt x x ≡ false
  pub lt_raise : (x y z : d.Double) → d.lt x z ≡ false → d.lt x y ≡ true → d.lt y z ≡ false

module _ (d : Doubles) (order : HasOrder d) {State : Type 0} (clock : Clock State) where
  open d use {Double, of_int, div, lt}
  open clock use {clock_gettime}
  open order use {lt_irrefl, lt_raise}

  -- `times` are read one after the other
  abbrev pub Reads : State → List Double → State → Type 0
  Reads k [] k' = k ≡ k'
  Reads k (t ∷ times) k' = (k₁ : State) × (read_batch d clock k ≡ (some t, k₁)) × Reads k₁ times k'

  -- a reading of the clock that fails
  abbrev pub ClockFails : Type 0
  ClockFails = (k : State) × ((clock_gettime k).0 ≡ none)

  -- what is not above `w₀` is not above `w`
  abbrev Keeps : Double → Double → Type 0
  Keeps w₀ w = (x : Double) → lt w₀ x ≡ false → lt w x ≡ false

  -- `w` is the largest of `w₀` and the deviations of `times`
  abbrev IsLargest : Double → Double → List Double → Double → Type 0
  IsLargest per_iter w₀ times w =
      Keeps w₀ w
      × All (λ t. lt w (deviation_us d per_iter t) ≡ false) times
      × ((w ≡ w₀) ⊎ ((t : Double) × Memᴰ t times × (w ≡ deviation_us d per_iter t)))

  -- how `n` samples can end
  abbrev MeasureEnds : ℕ → Double → Double → State → ℤ × Option Double × State → Type 0
  MeasureEnds n per_iter w₀ k (r, m, k') =
      ((r ≡ eio) × (m ≡ none) × ClockFails)
      ⊎ ((times : List Double) × (w : Double) × Reads k times k'
          × (length times ≡ n)
          × (r ≡ pos 0)
          × (m ≡ some w)
          × IsLargest per_iter w₀ times w)

  larger-Keeps : (w x : Double) → Keeps w (larger d w x) × (lt (larger d w x) x ≡ false)
  unfolding larger
  larger-Keeps w x = elim (Bool-cases (lt w x)) [
    | inl above ↦ rw above (λ y h. lt_raise w x y h above, lt_irrefl x)
    | inr not_above ↦ rw not_above (λ y h. h, not_above)
  ]

  larger-cases : (w x : Double) → (larger d w x ≡ w) ⊎ (larger d w x ≡ x)
  unfolding larger
  larger-cases w x = elim (Bool-cases (lt w x)) [
    | inl above ↦ inr (rw above refl)
    | inr not_above ↦ inl (rw not_above refl)
  ]

  -- one more time in front
  IsLargest-cons :
      (per_iter w₀ w ns : Double) (times : List Double)
      → IsLargest per_iter (larger d w₀ (deviation_us d per_iter ns)) times w
      → IsLargest per_iter w₀ (ns ∷ times) w
  IsLargest-cons per_iter w₀ w ns times (keeps, above, found) =
      let x = deviation_us d per_iter ns in
      let (kept, first) = larger-Keeps w₀ x in
      (
        λ y h. keeps y (kept y h),
        (keeps x first, above),
        elim found [
          | inr (t, there, e) ↦ inr (t, Memᴰ.tail there, e)
          | inl e ↦ elim (larger-cases w₀ x) [
            | inl same ↦ inl (e ∙ same)
            | inr raised ↦ inr (ns, Memᴰ.head refl, e ∙ raised)
          ]
        ],
      )

  read_end-fails :
      (t : Timespec) (k : State) (p : Option Timespec × State)
      → clock_gettime k ≡ p
      → (read_end d clock t p).0 ≡ none
      → ClockFails
  unfolding read_end
  read_end-fails t k (none, k₁) e h = (k, ap (λ (q : Option Timespec × State). q.0) e)
  read_end-fails t k (some u, k₁) e h = absurd (cc h)

  read_start-fails :
      (k : State) (p : Option Timespec × State)
      → clock_gettime k ≡ p
      → (read_start d clock p).0 ≡ none
      → ClockFails
  unfolding read_start
  read_start-fails k (none, k₁) e h = (k, ap (λ (q : Option Timespec × State). q.0) e)
  read_start-fails k (some t, k₁) e h = read_end-fails t k₁ (clock_gettime k₁) refl h

  read_batch-fails : (k k₁ : State) → read_batch d clock k ≡ (none, k₁) → ClockFails
  unfolding read_batch
  read_batch-fails k k₁ e =
      read_start-fails k (clock_gettime k) refl (ap (λ (q : Option Double × State). q.0) e)

  MeasureEnds-cons :
      (n : ℕ) (per_iter w₀ ns : Double) (k k₁ : State) (end : ℤ × Option Double × State)
      → read_batch d clock k ≡ (some ns, k₁)
      → MeasureEnds n per_iter (larger d w₀ (deviation_us d per_iter ns)) k₁ end
      → MeasureEnds (suc n) per_iter w₀ k end
  MeasureEnds-cons n per_iter w₀ ns k k₁ (r, m, k') e (inl failed) = inl failed
  MeasureEnds-cons n per_iter w₀ ns k k₁ (r, m, k') e
        (inr (times, w, reads, len, done, stored, largest)) =
      inr (
        ns ∷ times,
        w,
        (k₁, e, reads),
        ap suc len,
        done,
        stored,
        IsLargest-cons per_iter w₀ w ns times largest,
      )

  measure_step :
      (n : ℕ) (per_iter w₀ : Double) (k : State) (p : Option Double × State)
      → read_batch d clock k ≡ p
      → ((w : Double) (k₁ : State) → MeasureEnds n per_iter w k₁ (measure d clock n per_iter w k₁))
      → MeasureEnds (suc n) per_iter w₀ k (
          or_eio d clock
            (λ ns. measure d clock n per_iter (larger d w₀ (deviation_us d per_iter ns)))
            p)
  unfolding or_eio
  measure_step n per_iter w₀ k (none, k₁) e more = inl (refl, refl, read_batch-fails k k₁ e)
  measure_step n per_iter w₀ k (some ns, k₁) e more =
      MeasureEnds-cons n per_iter w₀ ns k k₁ _ e
        (more (larger d w₀ (deviation_us d per_iter ns)) k₁)

  measure-MeasureEnds :
      (n : ℕ) (per_iter w₀ : Double) (k : State)
      → MeasureEnds n per_iter w₀ k (measure d clock n per_iter w₀ k)
  unfolding measure
  measure-MeasureEnds zero per_iter w₀ k =
      inr ([], w₀, refl, refl, refl, refl, (λ x h. h, tt, inl refl))
  measure-MeasureEnds (suc n) per_iter w₀ k =
      measure_step n per_iter w₀ k (read_batch d clock k) refl (measure-MeasureEnds n per_iter)

  -- how a measurement of `n` samples can end
  abbrev LatencyEnds : ℕ → State → ℤ × Option Double × State → Type 0
  LatencyEnds n k (r, m, k') =
      ((r ≡ eio) × (m ≡ none) × ClockFails)
      ⊎ ((baseline : Double) × (times : List Double) × (w : Double) × Reads k (baseline ∷ times) k'
          × (length times ≡ n)
          × (r ≡ pos 0)
          × (m ≡ some w)
          × All (λ t. lt w (deviation_us d (div baseline (thousand d)) t) ≡ false) times
          × ((w ≡ of_int (pos 0))
              ⊎ ((t : Double) × Memᴰ t times × (w ≡ deviation_us d (div baseline (thousand d)) t))))

  latency_step :
      (n : ℕ) (k : State) (p : Option Double × State)
      → read_batch d clock k ≡ p
      → LatencyEnds n k
          (or_eio d clock (λ ns. measure d clock n (div ns (thousand d)) (of_int (pos 0))) p)
  unfolding or_eio
  latency_step n k (none, k₁) e = inl (refl, refl, read_batch-fails k k₁ e)
  latency_step n k (some ns, k₁) e =
      elim (measure-MeasureEnds n (div ns (thousand d)) (of_int (pos 0)) k₁) [
        | inl failed ↦ inl failed
        | inr (times, w, reads, len, done, stored, (keeps, above, found)) ↦
            inr (ns, times, w, (k₁, e, reads), len, done, stored, above, found)
      ]

  -- If the comparison of doubles is an order as in IEEE 754, a measurement of at least one sample
  -- ends in one of two ways: it returns -EIO and stores nothing, and some reading of the clock
  -- fails; or it returns 0, and the times that were read one after the other are a baseline and one
  -- for each sample, and what it stores is 0 or the deviation of one of the samples from the
  -- baseline, and the deviation of no sample is larger.
  pub rt_setup_measure_latency_lem :
      (n : ℕ) (k : State)
      → let (r, m, k') = rt_setup_measure_latency d clock true (pos (suc n)) k in
        ((r ≡ eio) × (m ≡ none) × ClockFails)
        ⊎ ((baseline : Double) × (times : List Double) × (w : Double) × Reads k
              (baseline ∷ times)
              k'
            × (length times ≡ suc n)
            × (r ≡ pos 0)
            × (m ≡ some w)
            × All (λ t. lt w (deviation_us d (div baseline (thousand d)) t) ≡ false) times
            × ((w ≡ of_int (pos 0))
                ⊎ ((t : Double) × Memᴰ t times
                    × (w ≡ deviation_us d (div baseline (thousand d)) t))))
  unfolding rt_setup_measure_latency measure_samples
  rt_setup_measure_latency_lem n k = latency_step (suc n) k (read_batch d clock k) refl
