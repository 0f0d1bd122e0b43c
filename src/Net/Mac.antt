-- ===== src/Net/Mac.antt =====
-- The branches for macOS of `net_if_get_ip` and `net_if_get_mac` in src/net/network_config.c.
-- getifaddrs is a parameter: the list that it makes, or `none` if it fails.
use pnet_driver_test.Prelude.{
  ℕ, ◌≡◌, ◌⊎◌, inl, inr, refl, ap, ◌∙◌, ℤ, pos, negsuc, Bool, true, false, Option, none, some, List,
  [], ◌∷◌, ◌++◌, ◌==◌, if◌then◌else◌, All, length, Option-cases,
}
use pnet_driver_test.Text.Bytes.{Bytes, same}

-- what `ifa_addr` points to, by its family: `sin_addr.s_addr`, or the bytes at LLADDR, of which
-- `sdl_alen` says the number
pub data SockAddr : Type 0 where
  af_inet : ℕ → SockAddr
  af_link : List ℕ → SockAddr
  other_family : SockAddr

-- `struct ifaddrs`
pub record Ifaddr : Type 0 where
  pub ifa_name : Bytes
  pub ifa_addr : Option SockAddr  -- none for NULL

-- the address of an AF_INET entry
unfoldable pub inet_addr : Option SockAddr → Option ℕ
inet_addr (some (af_inet ip)) = some ip
inet_addr _ = none

-- the six bytes of an AF_LINK entry that has six
unfoldable pub link_addr : Option SockAddr → Option (List ℕ)
link_addr (some (af_link bytes)) = if length bytes == 6 then some bytes else none
link_addr _ = none

module _ {A : Type 0} (addr_of : Option SockAddr → Option A) where
  -- what the body of the loop finds in one entry
  unfoldable pub match_entry : Bytes → Ifaddr → Option A
  match_entry name ifa = if same ifa.ifa_name name then addr_of ifa.ifa_addr else none

  unfoldable pub or_next : Option A → Option A → Option A
  or_next none more = more
  or_next (some a) more = some a

  -- the loop over the list, up to the `break`
  unfoldable pub first_match : Bytes → List Ifaddr → Option A
  unfolding match_entry or_next
  first_match name [] = none
  first_match name (ifa ∷ ifas) =
      let more = first_match name ifas in or_next (match_entry name ifa) more

  -- `*ip` or `mac` is written if the result is 0
  unfoldable pub found : Option A → ℤ × Option A
  found none = (negsuc 0, none)
  found (some a) = (pos 0, some a)

  unfoldable pub search_ifaddrs : Option (List Ifaddr) → Bytes → ℤ × Option A
  unfolding first_match found
  search_ifaddrs none name = (negsuc 0, none)
  search_ifaddrs (some ifas) name = found (first_match name ifas)

  -- the entry that is found is the first one that matches
  abbrev pub IsFirst : Bytes → List Ifaddr → A → Type 0
  IsFirst name ifas a =
      (before : List Ifaddr) × (ifa : Ifaddr) × (after : List Ifaddr) × (ifas
        ≡ before ++ (ifa ∷ after))
      × All (λ i. match_entry name i ≡ none) before
      × (match_entry name ifa ≡ some a)

  abbrev FindEnds : Bytes → List Ifaddr → Option A → Type 0
  FindEnds name ifas o =
      (All (λ i. match_entry name i ≡ none) ifas × (o ≡ none))
      ⊎ ((a : A) × IsFirst name ifas a × (o ≡ some a))

  IsFirst-cons :
      (name : Bytes) (ifa : Ifaddr) (ifas : List Ifaddr) (a : A)
      → match_entry name ifa ≡ none
      → IsFirst name ifas a
      → IsFirst name (ifa ∷ ifas) a
  IsFirst-cons name ifa ifas a e (before, i, after, same_list, all, m) =
      (ifa ∷ before, i, after, ap (λ t. ifa ∷ t) same_list, (e, all), m)

  first_match_next :
      (name : Bytes) (ifa : Ifaddr) (ifas : List Ifaddr)
      → match_entry name ifa ≡ none
      → first_match name (ifa ∷ ifas) ≡ first_match name ifas
  unfolding first_match or_next
  first_match_next name ifa ifas e = rw e refl

  first_match_here :
      (name : Bytes) (ifa : Ifaddr) (ifas : List Ifaddr) (a : A)
      → match_entry name ifa ≡ some a
      → first_match name (ifa ∷ ifas) ≡ some a
  unfolding first_match or_next
  first_match_here name ifa ifas a e = rw e refl

  first_match-FindEnds :
      (name : Bytes) (ifas : List Ifaddr) → FindEnds name ifas (first_match name ifas)
  first_match-FindEnds name [] = inl (tt, unfold first_match in refl)
  first_match-FindEnds name (ifa ∷ ifas) = elim (Option-cases (match_entry name ifa)) [
    | inr (a, e) ↦ inr (a, ([], ifa, ifas, refl, tt, e), first_match_here name ifa ifas a e)
    | inl e ↦
        let step = first_match_next name ifa ifas e in
        elim (first_match-FindEnds name ifas) [
          | inl (all, o) ↦ inl ((e, all), step ∙ o)
          | inr (a, first, o) ↦ inr (a, IsFirst-cons name ifa ifas a e first, step ∙ o)
        ]
  ]

-- A pointer argument is `none`, or `false`, for NULL.
unfoldable pub mac_if_get_ip : Option (List Ifaddr) → Option Bytes → Bool → ℤ × Option ℕ
mac_if_get_ip ifaddrs none ptr = (negsuc 0, none)
mac_if_get_ip ifaddrs (some name) false = (negsuc 0, none)
mac_if_get_ip ifaddrs (some name) true = search_ifaddrs inet_addr ifaddrs name

unfoldable pub mac_if_get_mac : Option (List Ifaddr) → Option Bytes → Bool → ℤ × Option (List ℕ)
mac_if_get_mac ifaddrs none ptr = (negsuc 0, none)
mac_if_get_mac ifaddrs (some name) false = (negsuc 0, none)
mac_if_get_mac ifaddrs (some name) true = search_ifaddrs link_addr ifaddrs name

-- The address found on macOS is that of the first AF_INET entry with the interface's name, with the
-- result 0; with no such entry the result is -1 and nothing is stored.
pub mac_if_get_ip_lem :
    (name : Bytes) (ifas : List Ifaddr)
    → let (ret, ip) = mac_if_get_ip (some ifas) (some name) true in
      (All (λ i. match_entry inet_addr name i ≡ none) ifas × (ret ≡ negsuc 0) × (ip ≡ none))
      ⊎ ((a : ℕ) × IsFirst inet_addr name ifas a × (ret ≡ pos 0) × (ip ≡ some a))
unfolding mac_if_get_ip search_ifaddrs found
mac_if_get_ip_lem name ifas = elim (first_match-FindEnds inet_addr name ifas) [
  | inl (all, o) ↦ inl (all, rw o refl, rw o refl)
  | inr (a, first, o) ↦ inr (a, first, rw o refl, rw o refl)
]
