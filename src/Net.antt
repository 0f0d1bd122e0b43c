-- ===== src/Net.antt =====
-- src/net/network_config.c with include/network_config.h: the shared types. The interface's calls, TCP
-- tuning and the test of addresses are in the children.
pub mod Mac
pub mod Interface
pub mod Tuning
pub mod Validity
use pnet_driver_test.Prelude.{ℕ, Bool, false, List, [], replicate}
use pnet_driver_test.Text.Bytes.{Bytes}

-- `net_if_config_t`
pub record NetIfConfig : Type 0 where
  pub if_name : Bytes  -- char[16]
  pub ip_addr : ℕ  -- uint32_t
  pub netmask : ℕ  -- uint32_t
  pub gateway : ℕ  -- uint32_t
  pub mac_addr : List ℕ  -- uint8_t[6]
  pub configured : Bool

-- min, default and max, each a uint32_t
abbrev pub Triple : Type 0
Triple = ℕ × ℕ × ℕ

-- `tcp_tuning_config_t`
pub record TcpTuningConfig : Type 0 where
  pub tcp_timestamps : Bool
  pub tcp_window_scaling : Bool
  pub tcp_sack : Bool
  pub tcp_rmem : Triple
  pub tcp_wmem : Triple

abbrev pub zero_if_config : NetIfConfig
zero_if_config = record {
  if_name = [];
  ip_addr = 0;
  netmask = 0;
  gateway = 0;
  mac_addr = replicate 6 0;
  configured = false;
}

abbrev pub zero_tuning : TcpTuningConfig
zero_tuning = record {
  tcp_timestamps = false;
  tcp_window_scaling = false;
  tcp_sack = false;
  tcp_rmem = (0, 0, 0);
  tcp_wmem = (0, 0, 0);
}
