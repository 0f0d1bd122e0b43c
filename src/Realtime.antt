-- ===== src/Realtime.antt =====
-- src/realtime/rt_setup.c with include/rt_setup.h: the configuration and its defaults. The setup and
-- its restoration are in Setup, the check in Check, and the measurement of latency in Latency.
pub mod Setup
pub mod Latency
pub mod Check
use pnet_driver_test.Prelude.{ℤ, pos, negsuc, Bool, true}

-- `rt_config_t`
pub record RtConfig : Type 0 where
  pub use_rt_scheduling : Bool
  pub rt_priority : ℤ
  pub lock_memory : Bool
  pub disable_cpu_freq : Bool
  pub isolate_cpu : ℤ
  pub disable_irq_balance : Bool

-- What `*cfg` held before does not matter.
abbrev pub rt_config_default : RtConfig
rt_config_default = record {
  use_rt_scheduling = true;
  rt_priority = pos 80;
  lock_memory = true;
  disable_cpu_freq = true;
  isolate_cpu = negsuc 0;
  disable_irq_balance = true;
}
