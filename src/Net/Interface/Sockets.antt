-- ===== src/Net/Interface/Sockets.antt =====
-- Every call on an interface closes the socket that it opened.
use pnet_driver_test.Prelude.{
  ℕ, ◌+◌, ◌-◌, ◌≡◌, ℤ, pos, ltbℤ, Bool, true, false, Option, List, [], ◌∷◌,
}
use pnet_driver_test.Text.Bytes.{Bytes}
use pnet_driver_test.Net.Interface.{
  Command, Ifreq, Kernel, net_if_set_ip, net_if_set_netmask, net_if_set_up, net_if_set_down,
  net_if_get_ip, net_if_get_mac, net_if_get_config,
}

-- one call, with what its caller passes
pub data NetCall : Type 0 where
  set_ip set_netmask : Option Bytes → ℕ → NetCall
  set_up set_down get_ip get_mac : Option Bytes → NetCall
  get_config : Option Bytes → Bool → NetCall

-- What the manual pages say of the descriptors: socket opens one if it succeeds, ioctl none, and
-- close closes one.
pub record CountsSockets (kernel : Kernel) : Type 0 where
  pub opened : kernel.State → ℕ
  pub on_success :
      (k : kernel.State)
      → ltbℤ (kernel.socket k).0 (pos 0) ≡ false
      → opened (kernel.socket k).1 ≡ opened k + 1
  pub on_failure :
      (k : kernel.State)
      → ltbℤ (kernel.socket k).0 (pos 0) ≡ true
      → opened (kernel.socket k).1 ≡ opened k
  pub on_ioctl :
      (k : kernel.State) (fd : ℤ) (command : Command) (ifr : Ifreq)
      → opened (kernel.ioctl k fd command ifr).2 ≡ opened k
  pub on_close : (k : kernel.State) (fd : ℤ) → opened (kernel.close k fd) ≡ opened k - 1

module _ (kernel : Kernel) where
  open kernel use {State, socket, ioctl, close}

  unfoldable pub perform_call : State → NetCall → State
  perform_call k (set_ip if_name ip) = (net_if_set_ip kernel k if_name ip).1
  perform_call k (set_netmask if_name mask) = (net_if_set_netmask kernel k if_name mask).1
  perform_call k (set_up if_name) = (net_if_set_up kernel k if_name).1
  perform_call k (set_down if_name) = (net_if_set_down kernel k if_name).1
  perform_call k (get_ip if_name) = (net_if_get_ip kernel k if_name).1
  perform_call k (get_mac if_name) = (net_if_get_mac kernel k if_name).1
  perform_call k (get_config if_name config) = (net_if_get_config kernel k if_name config).2

  unfoldable pub perform_calls : State → List NetCall → State
  perform_calls k [] = k
  perform_calls k (c ∷ cs) = perform_calls (perform_call k c) cs

  module _ (count : CountsSockets kernel) where
    open count use {opened, on_success, on_failure, on_ioctl, on_close}

    -- a step that opens and closes nothing
    Keeps : {A : Type 0} → (State → ℤ → A × State) → Type 0
    Keeps body = (k : State) (fd : ℤ) → opened (body k fd).1 ≡ opened k
