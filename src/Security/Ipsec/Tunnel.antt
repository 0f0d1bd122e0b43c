-- ===== src/Security/Ipsec/Tunnel.antt =====
-- What the calls on files do, and what creating a tunnel does to them.
use pnet_driver_test.Prelude.{
  ℕ, ◌≤◌, ◌≡◌, ◌≢◌, ◌⊎◌, inl, inr, refl, ◌∙◌, true, false, Option, none, some, [], ◌++◌, length,
  take, Bool-cases, is_zero,
}
use pnet_driver_test.Text.Bytes.{Bytes}
use pnet_driver_test.Address.{format_ip}
use pnet_driver_test.Security.{Status, ok, fail, eio}
use pnet_driver_test.Security.Ipsec.{
  Files, enoent, owner_only, conf_path, secrets_path, conf_text, secrets_text, finish_secrets,
  finish_conf, sec_ipsec_create_tunnel,
}
use pnet_driver_test.Security.Ipsec.Paths.{paths_apart}

-- What the manual pages say of the calls, where no other process touches the files and no link leads
-- from one path to another. A write may come up short, and chmod may fail.
pub record HasFiles (files : Files) : Type 0 where
  pub read : files.State → Bytes → Option Bytes
  pub mode : files.State → Bytes → ℕ
  pub on_open :
      (k k' : files.State) (p : Bytes) → files.fopen_write k p ≡ some k' → read k' p ≡ some []
  pub open_others :
      (k k' : files.State) (p q : Bytes)
      → files.fopen_write k p ≡ some k'
      → q ≢ p
      → read k' q ≡ read k q
  pub on_append :
      (k : files.State) (p s t : Bytes)
      → read k p ≡ some s
      → (files.append k p t).0 ≡ true
      → read (files.append k p t).1 p ≡ some (s ++ t)
  pub on_short :
      (k : files.State) (p s t : Bytes)
      → read k p ≡ some s
      → (files.append k p t).0 ≡ false
      → (n : ℕ) × (read (files.append k p t).1 p ≡ some (s ++ take n t))
  pub append_others :
      (k : files.State) (p q t : Bytes) → q ≢ p → read (files.append k p t).1 q ≡ read k q
  pub on_chmod :
      (k : files.State) (p : Bytes) (m : ℕ)
      → is_zero (files.chmod k p m).0 ≡ true
      → mode (files.chmod k p m).1 p ≡ m
  pub chmod_read : (k : files.State) (p q : Bytes) (m : ℕ) → read (files.chmod k p m).1 q ≡ read k q
  pub on_remove :
      (k : files.State) (p : Bytes)
      → is_zero (files.remove k p).0 ≡ true
      → read (files.remove k p).1 p ≡ none
  pub remove_others :
      (k : files.State) (p q : Bytes) → q ≢ p → read (files.remove k p).1 q ≡ read k q
  pub remove_failed :
      (k : files.State) (p : Bytes)
      → is_zero (files.remove k p).0 ≡ false
      → read (files.remove k p).1 p ≡ read k p
  pub remove_missing :
      (k : files.State) (p : Bytes)
      → read k p ≡ none
      → (is_zero (files.remove k p).0 ≡ false) × (files.errno (files.remove k p).1 ≡ enoent)

module _ (files : Files) (has : HasFiles files) where
  open files use {State, errno, fopen_write, append, chmod, remove}
  open has use {
    read, mode, on_open, open_others, on_append, on_short, append_others, on_chmod, chmod_read,
    on_remove, remove_others, remove_failed, remove_missing,
  }

  -- the text, or a beginning of it if its write to the file, open in the state `o`, came up short
  abbrev pub HoldsText : State → Bytes → Bytes → Option Bytes → Type 0
  HoldsText o p text content =
      (((append o p text).0 ≡ true) × (content ≡ some text))
      ⊎ ((n : ℕ) × ((append o p text).0 ≡ false) × (content ≡ some (take n text)))

  append-HoldsText :
      (k o : State) (p text : Bytes)
      → fopen_write k p ≡ some o
      → HoldsText o p text (read (append o p text).1 p)
  append-HoldsText k o p text e = elim (Bool-cases (append o p text).0) [
    | inl whole ↦ inl (whole, on_append o p [] text (on_open k o p e) whole)
    | inr short ↦
        let (n, held) = on_short o p [] text (on_open k o p e) short in inr (n, short, held)
  ]

  HoldsText-same :
      (o : State) (p text : Bytes) (a b : Option Bytes)
      → a ≡ b
      → HoldsText o p text b
      → HoldsText o p text a
  HoldsText-same o p text a b e (inl (whole, held)) = inl (whole, e ∙ held)
  HoldsText-same o p text a b e (inr (n, short, held)) = inr (n, short, e ∙ held)

  append_rest :
      (k o : State) (p text q : Bytes)
      → fopen_write k p ≡ some o
      → q ≢ p
      → read (append o p text).1 q ≡ read k q
  append_rest k o p text q e h = append_others o p q text h ∙ open_others k o p q e h

  -- the state behind the call of chmod on the path, for the owner only if the call succeeded
  abbrev pub Restricted : State → Bytes → State → Type 0
  Restricted k p k' =
      (k' ≡ (chmod k p owner_only).1)
      × (is_zero (chmod k p owner_only).0 ≡ true → mode k' p ≡ owner_only)

  -- the states with the files of a tunnel open: the configuration, and behind its text the secrets
  abbrev pub Opens : State → State → Bytes → Bytes → Option State → Type 0
  Opens k o₁ name conf o =
      (fopen_write k (conf_path name) ≡ some o₁)
      × (fopen_write (append o₁ (conf_path name) conf).1 (secrets_path name) ≡ o)

  -- a tunnel written over the state `k`
  abbrev pub HasTunnel : State → State → Bytes → ℕ → ℕ → Bytes → Type 0
  HasTunnel k k' name local_ip remote_ip psk =
      let conf = conf_text name (format_ip local_ip) (format_ip remote_ip) in
      let secrets = secrets_text (format_ip local_ip) (format_ip remote_ip) psk in
      (o₁ : State) × (o₂ : State) × Opens k o₁ name conf (some o₂)
      × HoldsText o₁ (conf_path name) conf (read k' (conf_path name))
      × HoldsText o₂ (secrets_path name) secrets (read k' (secrets_path name))
      × Restricted (append o₂ (secrets_path name) secrets).1 (secrets_path name) k'
      × ((q : Bytes) → q ≢ conf_path name → q ≢ secrets_path name → read k' q ≡ read k q)

  -- a configuration written over the state `k`, whose secrets could not be opened
  abbrev pub HasConf : State → State → Bytes → ℕ → ℕ → Type 0
  HasConf k k' name local_ip remote_ip =
      let conf = conf_text name (format_ip local_ip) (format_ip remote_ip) in
      (o : State) × Opens k o name conf none
      × HoldsText o (conf_path name) conf (read k' (conf_path name))
      × ((q : Bytes) → q ≢ conf_path name → read k' q ≡ read k q)

  -- how a creation can end
  abbrev pub CreateEnds : State → Bytes → ℕ → ℕ → Bytes → Status → State → Type 0
  CreateEnds k name local_ip remote_ip psk s k' =
      ((s ≡ ok) × HasTunnel k k' name local_ip remote_ip psk)
      ⊎ ((s ≡ fail eio) × (fopen_write k (conf_path name) ≡ none) × (k' ≡ k))
      ⊎ ((s ≡ fail eio) × HasConf k k' name local_ip remote_ip)

  finish_secrets_lem :
      (name psk : Bytes) (local_ip remote_ip : ℕ) (k o₁ : State) (o : Option State)
      → conf_path name ≢ secrets_path name
      → let conf = conf_text name (format_ip local_ip) (format_ip remote_ip) in
        Opens k o₁ name conf o
        → let (s, k') =
            finish_secrets files
              (secrets_path name)
              (secrets_text (format_ip local_ip) (format_ip remote_ip) psk)
              (append o₁ (conf_path name) conf).1
              o in
          CreateEnds k name local_ip remote_ip psk s k'
  unfolding finish_secrets
  finish_secrets_lem name psk local_ip remote_ip k o₁ none apart (e₁, e₂) = inr (
      inr (
        refl,
        (
          o₁,
          (e₁, e₂),
          append-HoldsText k o₁ (conf_path name) _ e₁,
          λ q h. append_rest k o₁ (conf_path name) _ q e₁ h,
        ),
      ))
  finish_secrets_lem name psk local_ip remote_ip k o₁ (some o₂) apart (e₁, e₂) =
      let conf = conf_text name (format_ip local_ip) (format_ip remote_ip) in
      let text = secrets_text (format_ip local_ip) (format_ip remote_ip) psk in
      let k₁ = (append o₁ (conf_path name) conf).1 in
      let k₃ = (append o₂ (secrets_path name) text).1 in
      let same = λ (q : Bytes). chmod_read k₃ (secrets_path name) q owner_only in
      let rest = λ (q : Bytes) (h : q ≢ secrets_path name).
        append_rest k₁ o₂ (secrets_path name) text q e₂ h in
      inl (
        refl,
        (
          o₁,
          o₂,
          (e₁, e₂),
          HoldsText-same o₁ (conf_path name) conf _ _
              (same (conf_path name) ∙ rest (conf_path name) apart)
              (append-HoldsText k o₁ (conf_path name) conf e₁),
          HoldsText-same o₂ (secrets_path name) text _ _ (same (secrets_path name))
              (append-HoldsText k₁ o₂ (secrets_path name) text e₂),
          (refl, on_chmod k₃ (secrets_path name) owner_only),
          λ q hc hs. same q ∙ rest q hs ∙ append_rest k o₁ (conf_path name) conf q e₁ hc,
        ),
      )

  finish_conf_lem :
      (name psk : Bytes) (local_ip remote_ip : ℕ) (k : State) (o : Option State)
      → length name ≤ 240
      → fopen_write k (conf_path name) ≡ o
      → let (s, k') = finish_conf files name (format_ip local_ip) (format_ip remote_ip) psk k o in
        CreateEnds k name local_ip remote_ip psk s k'
  unfolding finish_conf
  finish_conf_lem name psk local_ip remote_ip k none h e = inr (inl (refl, e, refl))
  finish_conf_lem name psk local_ip remote_ip k (some o₁) h e =
      finish_secrets_lem name psk local_ip remote_ip k o₁ _ (paths_apart name h) (e, refl)

  -- On files that behave as the manual pages say, the creation of a tunnel with a name of at most
  -- 240 bytes ends in one of three ways. It returns 0: both files could be opened, each holds its
  -- text of the tunnel, or a beginning of it if the write came up short, the last call was chmod on
  -- the secrets, which are for their owner only if it succeeded, and every other file is as before.
  -- It returns -EIO, the configuration could not be opened, and nothing has changed. Or it returns
  -- -EIO, the secrets could not be opened, and the configuration is written in the same way, with
  -- every other file as before.
  pub sec_ipsec_create_tunnel_lem :
      (name psk : Bytes) (local_ip remote_ip : ℕ) (k : State)
      → length name ≤ 240
      → let (s, k') = sec_ipsec_create_tunnel files (some name) local_ip remote_ip (some psk) k in
        ((s ≡ ok) × HasTunnel k k' name local_ip remote_ip psk)
        ⊎ ((s ≡ fail eio) × (fopen_write k (conf_path name) ≡ none) × (k' ≡ k))
        ⊎ ((s ≡ fail eio) × HasConf k k' name local_ip remote_ip)
  unfolding sec_ipsec_create_tunnel
  sec_ipsec_create_tunnel_lem name psk local_ip remote_ip k h =
      finish_conf_lem name psk local_ip remote_ip k (fopen_write k (conf_path name)) h refl
