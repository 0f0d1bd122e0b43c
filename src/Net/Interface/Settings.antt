-- ===== src/Net/Interface/Settings.antt =====
-- What the setting calls make of an interface's address, netmask and flags.
use pnet_driver_test.Prelude.{
  ℕ, ◌≡◌, ◌∙◌, ◌⊎◌, inl, inr, refl, ap, ap₂, ℤ, pos, negsuc, ltbℤ, true, false, some, Bool-cases,
  if◌then◌else◌,
}
use pnet_driver_test.Text.Bytes.{Bytes, same, strncpy}
use pnet_driver_test.Net.Interface.{
  Command, Ifreq, zero_ifreq, Kernel, siocsifaddr, siocsifnetmask, siocgifflags, siocsifflags,
  with_up, without_up, create_ioctl_socket, net_if_set_ip, net_if_set_netmask, net_if_set_up,
  net_if_set_down,
}
use pnet_driver_test.Net.Interface.Shape.{
  with_socket, set_request, get_request, write_flags, change_flags, net_if_set_ip-with_socket,
  net_if_set_netmask-with_socket, net_if_set_up-with_socket, net_if_set_down-with_socket,
}

-- an interface as netdevice(7) has it
pub record Settings : Type 0 where
  pub address : ℕ
  pub netmask : ℕ
  pub flags : ℕ

-- the settings of all interfaces, by name
abbrev pub View : Type 0
View = Bytes → Settings

abbrev pub update : Bytes → (Settings → Settings) → View → View
update if_name change view name = if same name if_name then change (view name) else view name

abbrev pub put_address : ℕ → ℕ → Settings → Settings
put_address ip mask s = record s { address = ip; netmask = mask }

abbrev pub put_netmask : ℕ → Settings → Settings
put_netmask mask s = record s { netmask = mask }

abbrev pub put_flags : ℕ → Settings → Settings
put_flags flags s = record s { flags = flags }

-- the flags that the interface of this name has, changed
abbrev pub flags_changed : (ℕ → ℕ) → Bytes → View → View
flags_changed change name old = update name (put_flags (change (old name).flags)) old

-- What netdevice(7) says of the requests: a failed one changes nothing, and neither do socket and
-- close.
pub record HasSettings (kernel : Kernel) : Type 0 where
  pub view : kernel.State → View
  pub on_socket : (k : kernel.State) → view (kernel.socket k).1 ≡ view k
  pub on_close : (k : kernel.State) (fd : ℤ) → view (kernel.close k fd) ≡ view k
  pub on_failure :
      (k : kernel.State) (fd : ℤ) (command : Command) (ifr : Ifreq)
      → ltbℤ (kernel.ioctl k fd command ifr).0 (pos 0) ≡ true
      → view (kernel.ioctl k fd command ifr).2 ≡ view k
  -- a new address may come with another netmask
  pub mask_after : kernel.State → ℤ → Ifreq → ℕ
  pub on_set_address :
      (k : kernel.State) (fd : ℤ) (ifr : Ifreq)
      → ltbℤ (kernel.ioctl k fd siocsifaddr ifr).0 (pos 0) ≡ false
      → view (kernel.ioctl k fd siocsifaddr ifr).2
        ≡ update ifr.ifr_name (put_address ifr.s_addr (mask_after k fd ifr)) (view k)
  pub on_set_netmask :
      (k : kernel.State) (fd : ℤ) (ifr : Ifreq)
      → ltbℤ (kernel.ioctl k fd siocsifnetmask ifr).0 (pos 0) ≡ false
      → view (kernel.ioctl k fd siocsifnetmask ifr).2
        ≡ update ifr.ifr_name (put_netmask ifr.s_addr) (view k)
  pub on_set_flags :
      (k : kernel.State) (fd : ℤ) (ifr : Ifreq)
      → ltbℤ (kernel.ioctl k fd siocsifflags ifr).0 (pos 0) ≡ false
      → view (kernel.ioctl k fd siocsifflags ifr).2
        ≡ update ifr.ifr_name (put_flags ifr.ifr_flags) (view k)
  pub on_get_flags :
      (k : kernel.State) (fd : ℤ) (ifr : Ifreq)
      → ltbℤ (kernel.ioctl k fd siocgifflags ifr).0 (pos 0) ≡ false
      → let (ret, ifr', k') = kernel.ioctl k fd siocgifflags ifr in
        (ifr'.ifr_flags ≡ (view k ifr.ifr_name).flags)
        × (ifr'.ifr_name ≡ ifr.ifr_name)
        × (view k' ≡ view k)

module _ (kernel : Kernel) (settings : HasSettings kernel) where
  open kernel use {State, socket, ioctl, close}
  open settings use {
    view, on_socket, on_close, on_failure, mask_after, on_set_address, on_set_netmask, on_set_flags,
    on_get_flags,
  }

  -- how a setting call can end: with `new`, or with what there was
  abbrev pub SetEnds : View → View → ℤ × State → Type 0
  SetEnds new old (ret, k') =
      ((ret ≡ pos 0) × (view k' ≡ new)) ⊎ ((ret ≡ negsuc 0) × (view k' ≡ old))

  with_socket-SetEnds :
      (new : View) (k : State) (body : State → ℤ → ℤ × State)
      → SetEnds new (view k) (body (socket k).1 (socket k).0)
      → SetEnds new (view k) (with_socket kernel k (negsuc 0) body)
  unfolding with_socket create_ioctl_socket
  with_socket-SetEnds new k body ends =
      let (fd, k₁) = socket k in
      elim (Bool-cases (ltbℤ fd (pos 0))) [
        | inl none_left ↦ rw none_left (inr (refl, on_socket k))
        | inr got ↦ rw got (elim ends [
          | inl (r, v) ↦ inl (r, on_close (body k₁ fd).1 fd ∙ v)
          | inr (r, v) ↦ inr (r, on_close (body k₁ fd).1 fd ∙ v)
        ])
      ]

  set_request-SetEnds :
      (command : Command) (ifr : Ifreq) (new old : View) (k : State) (fd : ℤ)
      → view k ≡ old
      → (ltbℤ (ioctl k fd command ifr).0 (pos 0) ≡ false → view (ioctl k fd command ifr).2 ≡ new)
      → SetEnds new old (set_request kernel command ifr k fd)
  unfolding set_request
  set_request-SetEnds command ifr new old k fd e good =
      elim (Bool-cases (ltbℤ (ioctl k fd command ifr).0 (pos 0))) [
        | inl failed ↦ rw failed (inr (refl, on_failure k fd command ifr failed ∙ e))
        | inr done ↦ let set = good done in rw done (inl (refl, set))
      ]

  -- the netmask that the kernel gives to an interface whose address is set by the call
  abbrev pub netmask_given : State → Bytes → ℕ → ℕ
  netmask_given k if_name ip =
      mask_after (socket k).1 (socket k).0 (record (zero_ifreq if_name) { s_addr = ip })

  pub net_if_set_ip_lem :
      (k : State) (if_name : Bytes) (ip : ℕ)
      → SetEnds
          (update (strncpy 16 if_name) (put_address ip (netmask_given k if_name ip)) (view k))
          (view k)
          (net_if_set_ip kernel k (some if_name) ip)
  net_if_set_ip_lem k if_name ip =
      let ifr = record (zero_ifreq if_name) { s_addr = ip } in
      let (fd, k₁) = socket k in
      let new = update (strncpy 16 if_name) (put_address ip (mask_after k₁ fd ifr)) in
      rw (net_if_set_ip-with_socket kernel k if_name ip) (
        with_socket-SetEnds (new (view k)) k (set_request kernel siocsifaddr ifr) (
          set_request-SetEnds siocsifaddr ifr (new (view k)) (view k) k₁ fd (on_socket k)
            (λ h. on_set_address k₁ fd ifr h ∙ ap new (on_socket k))))

  pub net_if_set_netmask_lem :
      (k : State) (if_name : Bytes) (mask : ℕ)
      → SetEnds
          (update (strncpy 16 if_name) (put_netmask mask) (view k))
          (view k)
          (net_if_set_netmask kernel k (some if_name) mask)
  net_if_set_netmask_lem k if_name mask =
      let ifr = record (zero_ifreq if_name) { s_addr = mask } in
      let (fd, k₁) = socket k in
      let new = update (strncpy 16 if_name) (put_netmask mask) in
      rw (net_if_set_netmask-with_socket kernel k if_name mask) (
        with_socket-SetEnds (new (view k)) k (set_request kernel siocsifnetmask ifr) (
          set_request-SetEnds siocsifnetmask ifr (new (view k)) (view k) k₁ fd (on_socket k)
            (λ h. on_set_netmask k₁ fd ifr h ∙ ap new (on_socket k))))

  write_flags-SetEnds :
      (change : ℕ → ℕ) (name : Bytes) (old : View) (ifr : Ifreq) (k : State) (fd : ℤ)
      → view k ≡ old
      → ifr.ifr_name ≡ name
      → ifr.ifr_flags ≡ (old name).flags
      → SetEnds (flags_changed change name old) old (write_flags kernel change (some ifr, k) fd)
  unfolding write_flags
  write_flags-SetEnds change name old ifr k fd e n f =
      let new = record ifr { ifr_flags = change ifr.ifr_flags } in
      set_request-SetEnds siocsifflags new (flags_changed change name old) old k fd e λ h.
        on_set_flags k fd new h
        ∙ ap₂ (λ m fl. update m (put_flags (change fl)) (view k)) n f
        ∙ ap (update name (put_flags (change (old name).flags))) e

  change_flags-SetEnds :
      (change : ℕ → ℕ) (if_name : Bytes) (old : View) (k : State) (fd : ℤ)
      → view k ≡ old
      → SetEnds
          (flags_changed change (strncpy 16 if_name) old)
          old
          (change_flags kernel change if_name k fd)
  unfolding change_flags get_request
  change_flags-SetEnds change if_name old k fd e =
      let ask = zero_ifreq if_name in
      let (ret, ifr, k') = ioctl k fd siocgifflags ask in
      elim (Bool-cases (ltbℤ (ioctl k fd siocgifflags ask).0 (pos 0))) [
        | inl failed ↦
            let kept = on_failure k fd siocgifflags ask failed ∙ e in
            rw failed (unfold write_flags in inr (refl, kept))
        | inr read ↦
            let (flags, name, kept) = on_get_flags k fd ask read in
            let old_flags = flags ∙ ap (λ (v : View). (v (strncpy 16 if_name)).flags) e in
            rw read (
              write_flags-SetEnds change (strncpy 16 if_name) old ifr k' fd (kept ∙ e) name
                old_flags)
      ]

  -- On a kernel whose requests do what netdevice(7) says: bringing an interface up sets the lowest
  -- bit of the flags of the interface whose name is the first 15 bytes of the name given, changes
  -- nothing else, and returns 0; or it returns -1 and changes nothing.
  pub net_if_set_up_lem :
      (k : State) (if_name : Bytes)
      → SetEnds
          (flags_changed with_up (strncpy 16 if_name) (view k))
          (view k)
          (net_if_set_up kernel k (some if_name))
  net_if_set_up_lem k if_name = rw (net_if_set_up-with_socket kernel k if_name) (
      with_socket-SetEnds (flags_changed with_up (strncpy 16 if_name) (view k)) k
        (change_flags kernel with_up if_name)
        (change_flags-SetEnds with_up if_name (view k) (socket k).1 (socket k).0 (on_socket k)))

  -- Bringing it down clears that bit.
  pub net_if_set_down_lem :
      (k : State) (if_name : Bytes)
      → SetEnds
          (flags_changed without_up (strncpy 16 if_name) (view k))
          (view k)
          (net_if_set_down kernel k (some if_name))
  net_if_set_down_lem k if_name = rw (net_if_set_down-with_socket kernel k if_name) (
      with_socket-SetEnds (flags_changed without_up (strncpy 16 if_name) (view k)) k
        (change_flags kernel without_up if_name)
        (change_flags-SetEnds without_up if_name (view k) (socket k).1 (socket k).0 (on_socket k)))
