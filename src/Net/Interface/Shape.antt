-- ===== src/Net/Interface/Shape.antt =====
-- The calls on an interface, each as a body on a socket that is closed behind it: what they have in
-- common, for the proofs. The calls themselves close the socket on each of their branches.
use mathlib.Core.Option
use pnet_driver_test.Prelude.{
  ℕ, ◌≡◌, ℤ, pos, negsuc, ltbℤ, Option, none, some, arith, if◌then◌else◌, take,
}
use pnet_driver_test.Text.Bytes.{Bytes}
use pnet_driver_test.Net.Interface.{
  Command, Ifreq, zero_ifreq, Kernel, siocgifaddr, siocgifhwaddr, siocsifaddr, siocsifnetmask,
  siocgifflags, siocsifflags, with_up, without_up, create_ioctl_socket, net_if_set_ip,
  net_if_set_netmask, net_if_set_up, net_if_set_down, net_if_get_ip, net_if_get_mac,
}

module _ (kernel : Kernel) where
  open kernel use {State, socket, ioctl, close}

  unfoldable pub with_socket : {A : Type 0} → State → A → (State → ℤ → A × State) → A × State
  unfolding create_ioctl_socket
  with_socket k failed body =
      let (fd, k₁) = create_ioctl_socket kernel k in
      if ltbℤ fd (pos 0)
      then (failed, k₁)
      else let (result, k₂) = body k₁ fd in (result, close k₂ fd)

  -- a request that sets a value
  unfoldable pub set_request : Command → Ifreq → State → ℤ → ℤ × State
  set_request command ifr k fd =
      let (ret, ifr', k') = ioctl k fd command ifr in
      if ltbℤ ret (pos 0) then (negsuc 0, k') else (pos 0, k')

  -- a request that reads a value: what the kernel put into the structure
  unfoldable pub get_request : Command → Ifreq → State → ℤ → Option Ifreq × State
  get_request command ifr k fd =
      let (ret, ifr', k') = ioctl k fd command ifr in
      if ltbℤ ret (pos 0) then (none, k') else (some ifr', k')

  unfoldable pub write_flags : (ℕ → ℕ) → Option Ifreq × State → ℤ → ℤ × State
  unfolding set_request
  write_flags change (none, k) fd = (negsuc 0, k)
  write_flags change (some ifr, k) fd =
      set_request siocsifflags (record ifr { ifr_flags = change ifr.ifr_flags }) k fd

  unfoldable pub change_flags : (ℕ → ℕ) → Bytes → State → ℤ → ℤ × State
  unfolding write_flags get_request
  change_flags change if_name k fd =
      write_flags change (get_request siocgifflags (zero_ifreq if_name) k fd) fd

  pub net_if_set_ip-with_socket :
      (k : State) (if_name : Bytes) (ip : ℕ)
      → net_if_set_ip kernel k (some if_name) ip
        ≡ with_socket k
            (negsuc 0)
            (set_request siocsifaddr (record (zero_ifreq if_name) { s_addr = ip }))
  unfolding net_if_set_ip with_socket create_ioctl_socket set_request
  net_if_set_ip-with_socket k if_name ip = ground arith

  pub net_if_set_netmask-with_socket :
      (k : State) (if_name : Bytes) (mask : ℕ)
      → net_if_set_netmask kernel k (some if_name) mask
        ≡ with_socket k
            (negsuc 0)
            (set_request siocsifnetmask (record (zero_ifreq if_name) { s_addr = mask }))
  unfolding net_if_set_netmask with_socket create_ioctl_socket set_request
  net_if_set_netmask-with_socket k if_name mask = ground arith

  pub net_if_set_up-with_socket :
      (k : State) (if_name : Bytes)
      → net_if_set_up kernel k (some if_name)
        ≡ with_socket k (negsuc 0) (change_flags with_up if_name)
  unfolding net_if_set_up with_socket create_ioctl_socket change_flags write_flags get_request
      set_request
  net_if_set_up-with_socket k if_name = ground arith

  pub net_if_set_down-with_socket :
      (k : State) (if_name : Bytes)
      → net_if_set_down kernel k (some if_name)
        ≡ with_socket k (negsuc 0) (change_flags without_up if_name)
  unfolding net_if_set_down with_socket create_ioctl_socket change_flags write_flags get_request
      set_request
  net_if_set_down-with_socket k if_name = ground arith

  pub net_if_get_ip-with_socket :
      (k : State) (if_name : Bytes)
      → net_if_get_ip kernel k (some if_name) ≡ (
          let (ifr, k') = with_socket k none (get_request siocgifaddr (zero_ifreq if_name)) in
          (Option.map (λ r. r.s_addr) ifr, k'))
  unfolding net_if_get_ip with_socket create_ioctl_socket get_request
  net_if_get_ip-with_socket k if_name = ground arith

  pub net_if_get_mac-with_socket :
      (k : State) (if_name : Bytes)
      → net_if_get_mac kernel k (some if_name) ≡ (
          let (ifr, k') = with_socket k none (get_request siocgifhwaddr (zero_ifreq if_name)) in
          (Option.map (λ r. take 6 r.ifr_hwaddr) ifr, k'))
  unfolding net_if_get_mac with_socket create_ioctl_socket get_request
  net_if_get_mac-with_socket k if_name = ground arith
