-- ===== src/Tests/Net.antt =====
-- The network: a kernel with interfaces and open sockets, files that can be written, and inet_ntop
-- and inet_pton as the program's own conversions.
use pnet_driver_test.Prelude.{
  ℕ, ◌+◌, ◌-◌, ◌^◌, ◌<◌, ◌≤◌, ◌≡◌, refl, ℤ, pos, negsuc, ltbℤ, Bool, true, false, not, none, some,
  List, [], ◌∷◌, arith, leb, le→leb, ltb, length, if◌then◌else◌,
}
use pnet_driver_test.Text.Bytes.{Bytes, codes, same, strncpy}
use pnet_driver_test.Text.Numeral.{print_base}
use pnet_driver_test.Address.{format_ip, parse_ip}
use pnet_driver_test.Address.RoundTrip.{parse_ip-format_ip}
use pnet_driver_test.Net.{TcpTuningConfig, zero_tuning}
use pnet_driver_test.Net.Interface.{
  Kernel, Command, Ifreq, siocgifaddr, siocgifhwaddr, siocsifaddr, siocsifnetmask, siocgifflags,
  siocsifflags, with_up, net_if_set_up,
}
use pnet_driver_test.Net.Interface.Sockets.{
  NetCall, set_ip, set_up, get_mac, get_config, CountsSockets,
}
use pnet_driver_test.Net.Interface.Settings.{
  View, update, put_address, put_netmask, put_flags, HasSettings, SetEnds, flags_changed,
  net_if_set_up_lem,
}
use pnet_driver_test.Net.Validity.{
  Inet, net_ip_from_string, net_ip_to_string, net_ip_from_string-net_ip_to_string,
}
use pnet_driver_test.Net.Tuning.{
  Files, net_tcp_tuning_apply, net_tcp_tuning_read_current, proc_tcp_sack,
}
use pnet_driver_test.Net.Tuning.Applied.{
  Written, net_tcp_tuning_apply_lem, net_tcp_tuning_read_current-net_tcp_tuning_apply,
}

-- the open sockets, and the settings; an address comes with the netmask 255.0.0.0
abbrev pub State : Type 0
State = ℕ × View

abbrev answer : State → ℤ → Command → Ifreq → ℤ × Ifreq × State
answer (n, v) fd siocsifaddr ifr =
    (pos 0, ifr, (n, update ifr.ifr_name (put_address ifr.s_addr 255) v))
answer (n, v) fd siocsifnetmask ifr =
    (pos 0, ifr, (n, update ifr.ifr_name (put_netmask ifr.s_addr) v))
answer (n, v) fd siocsifflags ifr =
    (pos 0, ifr, (n, update ifr.ifr_name (put_flags ifr.ifr_flags) v))
answer (n, v) fd siocgifflags ifr =
    (pos 0, record ifr { ifr_flags = (v ifr.ifr_name).flags }, (n, v))
answer k fd siocgifaddr ifr = (negsuc 0, ifr, k)
answer k fd siocgifhwaddr ifr = (negsuc 0, ifr, k)

abbrev pub linux : Kernel
linux = record {
  State = State;
  socket = λ k. (pos 3, (k.0 + 1, k.1));
  ioctl = answer;
  close = λ k fd. (k.0 - 1, k.1);
}

abbrev counts : CountsSockets linux
counts = record {
  opened = λ k. k.0;
  on_success = λ k h. refl;
  on_failure = λ k h. cc;
  on_ioctl = same_count;
  on_close = λ k fd. refl;
}
  where
    same_count :
        (k : State) (fd : ℤ) (command : Command) (ifr : Ifreq) → (answer k fd command ifr).2.0 ≡ k.0
    same_count k fd siocgifaddr ifr = refl
    same_count k fd siocgifhwaddr ifr = refl
    same_count k fd siocsifaddr ifr = refl
    same_count k fd siocsifnetmask ifr = refl
    same_count k fd siocgifflags ifr = refl
    same_count k fd siocsifflags ifr = refl

abbrev pub linux-HasSettings : HasSettings linux
linux-HasSettings = record {
  view = λ k. k.1;
  on_socket = λ k. refl;
  on_close = λ k fd. refl;
  on_failure = unanswered;
  mask_after = λ k fd ifr. 255;
  on_set_address = λ k fd ifr h. refl;
  on_set_netmask = λ k fd ifr h. refl;
  on_set_flags = λ k fd ifr h. refl;
  on_get_flags = λ k fd ifr h. (refl, refl, refl);
}
  where
    unanswered :
        (k : State) (fd : ℤ) (command : Command) (ifr : Ifreq)
        → ltbℤ (answer k fd command ifr).0 (pos 0) ≡ true
        → (answer k fd command ifr).2.1 ≡ k.1
    unanswered k fd siocgifaddr ifr h = refl
    unanswered k fd siocgifhwaddr ifr h = refl
    unanswered k fd siocsifaddr ifr h = cc
    unanswered k fd siocsifnetmask ifr h = cc
    unanswered k fd siocgifflags ifr h = refl
    unanswered k fd siocsifflags ifr h = cc

abbrev pub unset : State
unset = (0, λ name. record { address = 0; netmask = 0; flags = 2 })

abbrev eth0 : Bytes
eth0 = codes "eth0"

abbrev calls : List NetCall
calls = set_ip (some eth0) 5 ∷ set_up (some eth0) ∷ get_mac none ∷ get_config (some eth0) true ∷ []

net_if_set_up_lem_example :
    SetEnds linux linux-HasSettings
      (flags_changed with_up (strncpy 16 eth0) (linux-HasSettings.view unset))
      (linux-HasSettings.view unset)
      (net_if_set_up linux unset (some eth0))
net_if_set_up_lem_example = net_if_set_up_lem linux linux-HasSettings unset eth0

printed :
    (ip : ℕ) (s : Bytes)
    → ip < 2 ^ 32
    → (b : Bool) → (if b then some (format_ip ip) else none) ≡ some s
    → some (parse_ip s) ≡ some ip
printed ip s bound true e = ground (arith, parse_ip-format_ip ip bound)
printed ip s bound false e = cc

long_enough :
    (ip size : ℕ)
    → 16 ≤ size
    → (if leb 16 size then some (format_ip ip) else none) ≡ some (format_ip ip)
long_enough ip size h = rw (le→leb 16 size h) refl

abbrev inet : Inet
inet = record {
  inet_pton = λ s. some (parse_ip s);
  inet_ntop = λ ip size. if leb 16 size then some (format_ip ip) else none;
  fits = λ ip size bound h. (format_ip ip, long_enough ip size h);
  read_back = λ ip size s bound e. printed ip s bound (leb 16 size) e;
}

net_ip_from_string-net_ip_to_string_example :
    net_ip_from_string inet (net_ip_to_string inet 0xC0A80064 true 16) ≡ 0xC0A80064
net_ip_from_string-net_ip_to_string_example =
    net_ip_from_string-net_ip_to_string inet 0xC0A80064 16 (omega arith) (omega arith)

abbrev empty_files : Files
empty_files path = none

abbrev tuned : TcpTuningConfig
tuned = record zero_tuning { tcp_sack = true; tcp_rmem = (4096, 87380, 6291456) }

-- all files but one
abbrev mostly : Bytes → Bool
mostly path = not (same path proc_tcp_sack)

-- the kernel takes texts of less than 30 bytes
abbrev below : Bytes → Bytes → Bool
below path text = ltb (length text) 30

net_tcp_tuning_apply_lem_example :
    ((net_tcp_tuning_apply mostly below empty_files (some tuned)).0 ≡ negsuc 0)
    × Written mostly below tuned empty_files
        (net_tcp_tuning_apply mostly below empty_files (some tuned)).1
unfolding same
net_tcp_tuning_apply_lem_example = net_tcp_tuning_apply_lem mostly below empty_files tuned

net_tcp_tuning_read_current-net_tcp_tuning_apply_example :
    let (ret, new) = net_tcp_tuning_apply (λ path. true) below empty_files (some tuned) in
    (ret ≡ pos 0) × (net_tcp_tuning_read_current new true ≡ (pos 0, some tuned))
unfolding print_base
net_tcp_tuning_read_current-net_tcp_tuning_apply_example =
    net_tcp_tuning_read_current-net_tcp_tuning_apply (λ path. true) below empty_files tuned
      (λ path. refl) (refl, refl, refl, refl, refl) (omega arith) (omega arith)
