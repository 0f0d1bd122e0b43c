-- ===== src/Net/Interface.antt =====
-- The interface's calls (the branch for PLATFORM_LINUX), over a kernel that is a parameter: its state
-- is passed through socket, ioctl and close. Addresses are the numbers that `s_addr` holds.
pub mod Sockets
pub mod Settings
pub mod Shape
use pnet_driver_test.Prelude.{
  ℕ, ◌+◌, ◌-◌, ◌%◌, ℤ, pos, negsuc, ltbℤ, is_zero, Bool, true, false, ◌&&◌, Option, none, some,
  List, [], ◌∷◌, replicate, if◌then◌else◌, take,
}
use pnet_driver_test.Text.Bytes.{Bytes, strncpy}
use pnet_driver_test.Net.{NetIfConfig, zero_if_config}

-- the requests that the program makes
pub data Command : Type 0 where
  siocgifaddr siocgifhwaddr siocsifaddr siocsifnetmask siocgifflags siocsifflags : Command

-- `struct ifreq`: the fields share their place in C, and each request uses one of them only
pub record Ifreq : Type 0 where
  pub ifr_name : Bytes
  pub s_addr : ℕ
  pub ifr_flags : ℕ
  pub ifr_hwaddr : List ℕ

abbrev pub zero_ifreq : Bytes → Ifreq
zero_ifreq if_name = record {
  ifr_name = strncpy 16 if_name;
  s_addr = 0;
  ifr_flags = 0;
  ifr_hwaddr = replicate 6 0;
}

-- The system calls. `State` is the kernel's state; a result below 0 is a failure.
pub record Kernel : Type 1 where
  pub State : Type 0
  pub socket : State → ℤ × State
  pub ioctl : State → ℤ → Command → Ifreq → ℤ × Ifreq × State
  pub close : State → ℤ → State

-- `flags | IFF_UP` and `flags & ~IFF_UP`, where IFF_UP is 1
abbrev pub with_up : ℕ → ℕ
with_up flags = flags - flags % 2 + 1

abbrev pub without_up : ℕ → ℕ
without_up flags = flags - flags % 2

module _ (kernel : Kernel) where
  open kernel use {State, socket, ioctl, close}

  unfoldable pub create_ioctl_socket : State → ℤ × State
  create_ioctl_socket k = socket k

  -- The setting calls: each branch behind the socket has its own close.
  unfoldable pub net_if_set_ip : State → Option Bytes → ℕ → ℤ × State
  unfolding create_ioctl_socket
  net_if_set_ip k none ip = (negsuc 0, k)
  net_if_set_ip k (some if_name) ip =
      let (fd, k₁) = create_ioctl_socket k in
      if ltbℤ fd (pos 0)
      then (negsuc 0, k₁)
      else let (ret, ifr, k₂) =
          ioctl k₁ fd siocsifaddr (record (zero_ifreq if_name) { s_addr = ip }) in
        if ltbℤ ret (pos 0) then (negsuc 0, close k₂ fd) else (pos 0, close k₂ fd)

  unfoldable pub net_if_set_netmask : State → Option Bytes → ℕ → ℤ × State
  unfolding create_ioctl_socket
  net_if_set_netmask k none mask = (negsuc 0, k)
  net_if_set_netmask k (some if_name) mask =
      let (fd, k₁) = create_ioctl_socket k in
      if ltbℤ fd (pos 0)
      then (negsuc 0, k₁)
      else let (ret, ifr, k₂) =
          ioctl k₁ fd siocsifnetmask (record (zero_ifreq if_name) { s_addr = mask }) in
        if ltbℤ ret (pos 0) then (negsuc 0, close k₂ fd) else (pos 0, close k₂ fd)

  -- the flags read are changed and written back, on the same socket
  unfoldable pub net_if_set_up : State → Option Bytes → ℤ × State
  unfolding create_ioctl_socket
  net_if_set_up k none = (negsuc 0, k)
  net_if_set_up k (some if_name) =
      let (fd, k₁) = create_ioctl_socket k in
      if ltbℤ fd (pos 0)
      then (negsuc 0, k₁)
      else let (ret, ifr, k₂) = ioctl k₁ fd siocgifflags (zero_ifreq if_name) in
        if ltbℤ ret (pos 0)
        then (negsuc 0, close k₂ fd)
        else let (ret', ifr', k₃) =
            ioctl k₂ fd siocsifflags (record ifr { ifr_flags = with_up ifr.ifr_flags }) in
          if ltbℤ ret' (pos 0) then (negsuc 0, close k₃ fd) else (pos 0, close k₃ fd)

  unfoldable pub net_if_set_down : State → Option Bytes → ℤ × State
  unfolding create_ioctl_socket
  net_if_set_down k none = (negsuc 0, k)
  net_if_set_down k (some if_name) =
      let (fd, k₁) = create_ioctl_socket k in
      if ltbℤ fd (pos 0)
      then (negsuc 0, k₁)
      else let (ret, ifr, k₂) = ioctl k₁ fd siocgifflags (zero_ifreq if_name) in
        if ltbℤ ret (pos 0)
        then (negsuc 0, close k₂ fd)
        else let (ret', ifr', k₃) =
            ioctl k₂ fd siocsifflags (record ifr { ifr_flags = without_up ifr.ifr_flags }) in
          if ltbℤ ret' (pos 0) then (negsuc 0, close k₃ fd) else (pos 0, close k₃ fd)

  -- The result is `none` for -1; otherwise what the call stores behind its pointer.
  unfoldable pub net_if_get_ip : State → Option Bytes → Option ℕ × State
  unfolding create_ioctl_socket
  net_if_get_ip k none = (none, k)
  net_if_get_ip k (some if_name) =
      let (fd, k₁) = create_ioctl_socket k in
      if ltbℤ fd (pos 0)
      then (none, k₁)
      else let (ret, ifr, k₂) = ioctl k₁ fd siocgifaddr (zero_ifreq if_name) in
        if ltbℤ ret (pos 0) then (none, close k₂ fd) else (some ifr.s_addr, close k₂ fd)

  unfoldable pub net_if_get_mac : State → Option Bytes → Option (List ℕ) × State
  unfolding create_ioctl_socket
  net_if_get_mac k none = (none, k)
  net_if_get_mac k (some if_name) =
      let (fd, k₁) = create_ioctl_socket k in
      if ltbℤ fd (pos 0)
      then (none, k₁)
      else let (ret, ifr, k₂) = ioctl k₁ fd siocgifhwaddr (zero_ifreq if_name) in
        if ltbℤ ret (pos 0)
        then (none, close k₂ fd)
        else (some (take 6 ifr.ifr_hwaddr), close k₂ fd)

  -- the structure filled as far as the two queries succeeded
  unfoldable pub fill_config : NetIfConfig → Option ℕ → Option (List ℕ) → ℤ × NetIfConfig
  fill_config config none none = (negsuc 0, config)
  fill_config config (some ip) none = (negsuc 0, record config { ip_addr = ip })
  fill_config config none (some mac) = (negsuc 0, record config { mac_addr = mac })
  fill_config config (some ip) (some mac) =
      (pos 0, record config { ip_addr = ip; mac_addr = mac; configured = true })

  -- `config` is whether the pointer is not NULL
  unfoldable pub net_if_get_config : State → Option Bytes → Bool → ℤ × Option NetIfConfig × State
  unfolding fill_config
  net_if_get_config k none config = (negsuc 0, none, k)
  net_if_get_config k (some if_name) false = (negsuc 0, none, k)
  net_if_get_config k (some if_name) true =
      let (ip, k₁) = net_if_get_ip k (some if_name) in
      let (mac, k₂) = net_if_get_mac k₁ (some if_name) in
      let (ret, config) =
        fill_config (record zero_if_config { if_name = strncpy 16 if_name }) ip mac in
      (ret, some config, k₂)
