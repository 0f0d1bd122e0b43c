-- ===== src/Realtime/Latency.antt =====
-- `rt_setup_measure_latency`. The clock and the arithmetic of `double` are parameters; the loops that
-- only pass time are left out.
pub mod Largest
use pnet_driver_test.Prelude.{
  ℕ, zero, suc, ◌+◌, ◌-◌, ℤ, pos, negsuc, ltbℤ, Bool, true, false, Option, none, some, leb,
  if◌then◌else◌,
}

-- IEEE 754 binary64 as C computes with it
pub record Doubles : Type 1 where
  pub Double : Type 0
  pub of_int : ℤ → Double
  pub add : Double → Double → Double
  pub sub : Double → Double → Double
  pub mul : Double → Double → Double
  pub div : Double → Double → Double
  pub neg : Double → Double
  pub lt : Double → Double → Bool

-- `struct timespec` of CLOCK_MONOTONIC, which is not negative
pub record Timespec : Type 0 where
  pub tv_sec : ℕ
  pub tv_nsec : ℕ

-- `clock_gettime(CLOCK_MONOTONIC, …)`, where `State` tells when it is called: `none` if it fails
pub record Clock (State : Type 0) : Type 0 where
  pub clock_gettime : State → Option Timespec × State

-- `a - b` of two `long`
unfoldable pub difference : ℕ → ℕ → ℤ
difference a b = if leb b a then pos (a - b) else negsuc (b - a - 1)

-- `-EIO`
abbrev pub eio : ℤ
eio = negsuc 4

abbrev pub einval : ℤ
einval = negsuc 21

module _ (d : Doubles) where
  open d use {Double, of_int, add, sub, mul, div, neg, lt}

  abbrev pub thousand : Double
  thousand = of_int (pos 1000)

  unfoldable pub elapsed_ns : Timespec → Timespec → Double
  unfolding difference
  elapsed_ns t_start t_end =
      add (mul (of_int (difference t_end.tv_sec t_start.tv_sec)) (of_int (pos 1000000000)))
        (of_int (difference t_end.tv_nsec t_start.tv_nsec))

  -- `if (deviation_us < 0.0) deviation_us = -deviation_us`
  unfoldable pub absolute : Double → Double
  absolute x = if lt x (of_int (pos 0)) then neg x else x

  unfoldable pub deviation_us : Double → Double → Double
  unfolding absolute
  deviation_us per_iter_ns ns = absolute (div (sub ns (mul per_iter_ns thousand)) thousand)

  -- `if (deviation_us > max_dev_us) max_dev_us = deviation_us`
  unfoldable pub larger : Double → Double → Double
  larger max_dev_us x = if lt max_dev_us x then x else max_dev_us

  module _ {State : Type 0} (clock : Clock State) where
    open clock use {clock_gettime}

    -- the second of two readings
    unfoldable pub read_end : Timespec → Option Timespec × State → Option Double × State
    unfolding elapsed_ns
    read_end t_start (none, k) = (none, k)
    read_end t_start (some t_end, k) = (some (elapsed_ns t_start t_end), k)

    unfoldable pub read_start : Option Timespec × State → Option Double × State
    unfolding read_end
    read_start (none, k) = (none, k)
    read_start (some t_start, k) = read_end t_start (clock_gettime k)

    -- the time between two readings
    unfoldable pub read_batch : State → Option Double × State
    unfolding read_start
    read_batch k = read_start (clock_gettime k)

    -- `return -EIO`, or on with the time that was read
    unfoldable pub or_eio :
        (Double → State → ℤ × Option Double × State)
        → Option Double × State
        → ℤ × Option Double × State
    or_eio next (none, k) = (eio, none, k)
    or_eio next (some ns, k) = next ns k

    -- the loop over the samples, with the samples left; what is left in `*max_latency_us`, if it is
    -- written
    unfoldable pub measure : ℕ → Double → Double → State → ℤ × Option Double × State
    unfolding read_batch or_eio larger deviation_us
    measure zero per_iter_ns max_dev_us k = (pos 0, some max_dev_us, k)
    measure (suc n) per_iter_ns max_dev_us k =
        or_eio (λ ns. measure n per_iter_ns (larger max_dev_us (deviation_us per_iter_ns ns)))
          (read_batch k)

    unfoldable pub measure_samples : ℕ → State → ℤ × Option Double × State
    unfolding measure
    measure_samples n k = or_eio (λ ns. measure n (div ns thousand) (of_int (pos 0))) (read_batch k)

    -- `ptr` is `true` for a pointer that is not NULL
    unfoldable pub rt_setup_measure_latency : Bool → ℤ → State → ℤ × Option Double × State
    unfolding measure_samples
    rt_setup_measure_latency false samples k = (einval, none, k)
    rt_setup_measure_latency true (negsuc n) k = (einval, none, k)
    rt_setup_measure_latency true (pos zero) k = (einval, none, k)
    rt_setup_measure_latency true (pos (suc n)) k = measure_samples (suc n) k
