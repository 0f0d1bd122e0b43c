-- ===== src/Main/Startup/Network.antt =====
-- What `apply_network` makes of the interface.
use pnet_driver_test.Prelude.{
  ℕ, ◌<◌, ◌≡◌, ◌∙◌, ◌⊎◌, inl, inr, refl, ap, ℤ, pos, negsuc, false, some,
}
use pnet_driver_test.Text.Bytes.{Bytes, same, same_iff, strncpy}
use pnet_driver_test.Address.{join}
use pnet_driver_test.Net.Interface.{
  Kernel, with_up, net_if_set_ip, net_if_set_netmask, net_if_set_up,
}
use pnet_driver_test.Net.Interface.Settings.{
  Settings, View, update, put_address, put_netmask, put_flags, flags_changed, netmask_given,
  HasSettings, SetEnds, net_if_set_ip_lem, net_if_set_netmask_lem, net_if_set_up_lem,
}
use pnet_driver_test.Net.Validity.{ntohl, ntohl-join}
use pnet_driver_test.Config.{AppConfig}
use pnet_driver_test.Main.Startup.{and_then, apply_network}

module _ (kernel : Kernel) (settings : HasSettings kernel) where
  open kernel use {State}
  open settings use {view}

  -- 0 and then `P`, or -1 and then `Q`
  abbrev Either : (State → Type 0) → (State → Type 0) → ℤ × State → Type 0
  Either P Q (ret, k) = ((ret ≡ pos 0) × P k) ⊎ ((ret ≡ negsuc 0) × Q k)

  and_then-Either :
      (new old : View) (P Q : State → Type 0) (out : ℤ × State) (next : State → ℤ × State)
      → SetEnds kernel settings new old out
      → ((k : State) → view k ≡ new → Either P Q (next k))
      → ((k : State) → view k ≡ old → Q k)
      → Either P Q (and_then out next)
  unfolding and_then
  and_then-Either new old P Q (ret, k) next (inl (r, v)) on off = rw r (on k v)
  and_then-Either new old P Q (ret, k) next (inr (r, v)) on off = rw r (inr (refl, off k v))

  -- the interface of the configuration with these settings, and all others as they were
  abbrev pub Leaves : AppConfig → State → State → Settings → Type 0
  Leaves cfg k k' s =
      let name = strncpy 16 cfg.device.interface_name in
      (view k' name ≡ s)
      × ((other : Bytes) → same other name ≡ false → view k' other ≡ view k other)

  -- the interface's settings before the call
  abbrev pub before : AppConfig → State → Settings
  before cfg k = view k (strncpy 16 cfg.device.interface_name)

  abbrev pub Configured : AppConfig → State → State → Type 0
  Configured cfg k k' = Leaves cfg k k' (record {
    address = cfg.network.ip_addr;
    netmask = cfg.network.netmask;
    flags = with_up (before cfg k).flags;
  })

  -- as it was, or with the new address, or with the new address and netmask
  abbrev pub Partly : AppConfig → State → State → Type 0
  Partly cfg k k' =
      Leaves cfg k k' (before cfg k)
      ⊎ ((m : ℕ) × Leaves cfg k k' (put_address cfg.network.ip_addr m (before cfg k)))
      ⊎ Leaves cfg k k' (put_address cfg.network.ip_addr cfg.network.netmask (before cfg k))

  -- what an update of the interface leaves, on a state where other interfaces are as before
  update-Leaves :
      (cfg : AppConfig) (k k₁ k₂ : State) (s : Settings) (change : Settings → Settings)
      → Leaves cfg k k₁ s
      → view k₂ ≡ update (strncpy 16 cfg.device.interface_name) change (view k₁)
      → Leaves cfg k k₂ (change s)
  update-Leaves cfg k k₁ k₂ s change (now, others) e =
      let name = strncpy 16 cfg.device.interface_name in
      (
        ap (λ (v : View). v name) e ∙ rw ((same_iff name name).1 refl) (ap change now),
        λ other h. ap (λ (v : View). v other) e ∙ rw h (others other h),
      )

  same-Leaves :
      (cfg : AppConfig) (k k₁ k₂ : State) (s : Settings)
      → Leaves cfg k k₁ s
      → view k₂ ≡ view k₁
      → Leaves cfg k k₂ s
  same-Leaves cfg k k₁ k₂ s (now, others) e = (
    ap (λ (v : View). v (strncpy 16 cfg.device.interface_name)) e ∙ now,
    λ other h. ap (λ (v : View). v other) e ∙ others other h,
  )

  brought_up :
      (cfg : AppConfig) (k k₂ k₃ : State)
      → Leaves cfg k k₂ (put_address cfg.network.ip_addr cfg.network.netmask (before cfg k))
      → view k₃ ≡ flags_changed with_up (strncpy 16 cfg.device.interface_name) (view k₂)
      → Configured cfg k k₃
  brought_up cfg k k₂ k₃ masked e =
      let name = strncpy 16 cfg.device.interface_name in
      let (now, others) =
        update-Leaves cfg k k₂ k₃
          (put_address cfg.network.ip_addr cfg.network.netmask (before cfg k))
          (put_flags (with_up (view k₂ name).flags)) masked e in
      (
        now
            ∙ ap
                (λ s.
                  put_flags (with_up s.flags)
                    (put_address cfg.network.ip_addr cfg.network.netmask (before cfg k)))
                masked.0,
        others,
      )

  -- On a kernel whose requests do what netdevice(7) says, and that may choose another netmask when
  -- it is given an address: applying the network settings returns 0 and leaves the interface with
  -- the address and the netmask of the configuration, as `s_addr` holds them, brought up; or it
  -- returns -1 and leaves the interface as it was, or with the address, or with the address and the
  -- netmask. Every other interface is as it was.
  pub apply_network_lem :
      (cfg : AppConfig) (k : State)
      → let (ret, k') = apply_network kernel cfg k in
        ((ret ≡ pos 0) × Configured cfg k k') ⊎ ((ret ≡ negsuc 0) × Partly cfg k k')
  unfolding apply_network
  apply_network_lem cfg k =
      let iface = cfg.device.interface_name in
      let name = strncpy 16 iface in
      let ip = cfg.network.ip_addr in
      let given = netmask_given kernel settings k iface ip in
      let start : Leaves cfg k k (before cfg k) = (refl, λ other h. refl) in
      and_then-Either (update name (put_address ip given) (view k)) (view k) (Configured cfg k)
        (Partly cfg k) (net_if_set_ip kernel k (some iface) ip) _
        (net_if_set_ip_lem kernel settings k iface ip)
        (λ k₁ e₁.
          let addressed = update-Leaves cfg k k k₁ (before cfg k) (put_address ip given) start e₁ in
          and_then-Either (update name (put_netmask cfg.network.netmask) (view k₁)) (view k₁)
            (Configured cfg k) (Partly cfg k)
            (net_if_set_netmask kernel k₁ (some iface) cfg.network.netmask) _
            (net_if_set_netmask_lem kernel settings k₁ iface cfg.network.netmask)
            (λ k₂ e₂.
              let masked =
                update-Leaves cfg k k₁ k₂ (put_address ip given (before cfg k))
                  (put_netmask cfg.network.netmask) addressed e₂ in
              and_then-Either (flags_changed with_up name (view k₂)) (view k₂) (Configured cfg k)
                (Partly cfg k) (net_if_set_up kernel k₂ (some iface)) _
                (net_if_set_up_lem kernel settings k₂ iface)
                (λ k₃ e₃. inl (refl, brought_up cfg k k₂ k₃ masked e₃))
                (λ k₃ e₃. inr (inr (same-Leaves cfg k k₂ k₃ _ masked e₃))))
            (λ k₂ e₂. inr (inl (given, same-Leaves cfg k k₁ k₂ _ addressed e₂))))
        (λ k₁ e₁. inl (same-Leaves cfg k k k₁ _ start e₁))

  -- On a kernel whose requests do what netdevice(7) says, and a little-endian machine: a configured
  -- address whose octets from the highest byte down are a, b, c and d, as `parse_ip` reads a.b.c.d,
  -- is the address d.c.b.a of the interface afterwards, if the call returns 0; or it returns -1.
  pub apply_network_reversed :
      (cfg : AppConfig) (k : State) (a b c d : ℕ)
      → a < 256
      → b < 256
      → c < 256
      → d < 256
      → cfg.network.ip_addr ≡ join a b c d
      → let (ret, k') = apply_network kernel cfg k in
        ((ret ≡ pos 0)
          × (ntohl (view k' (strncpy 16 cfg.device.interface_name)).address ≡ join d c b a))
        ⊎ (ret ≡ negsuc 0)
  apply_network_reversed cfg k a b c d ha hb hc hd e = elim (apply_network_lem cfg k) [
    | inl (r, (now, others)) ↦
        inl (r, ap ntohl (ap (λ s. s.address) now ∙ e) ∙ ntohl-join a b c d ha hb hc hd)
    | inr (r, partly) ↦ inr r
  ]
