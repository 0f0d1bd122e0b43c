-- ===== src/Security/Ipsec/Removal.antt =====
-- What removing a tunnel does to the files, also behind its creation.
use pnet_driver_test.Prelude.{
  ℕ, ◌≤◌, ◌≡◌, ◌≢◌, ◌⊎◌, inl, inr, refl, sym, ap, ◌∙◌, ℤ, true, false, Option, none, some, length,
  arith, is_zero, Option-cases, Bool-cases,
}
use pnet_driver_test.Text.Bytes.{Bytes, same, same_iff}
use pnet_driver_test.Security.{Status, ok}
use pnet_driver_test.Security.Ipsec.{
  Files, enoent, conf_path, secrets_path, sec_ipsec_create_tunnel, remove_result,
  sec_ipsec_remove_tunnel,
}
use pnet_driver_test.Security.Ipsec.Paths.{paths_apart}
use pnet_driver_test.Security.Ipsec.Tunnel.{
  HasFiles, HoldsText, CreateEnds, sec_ipsec_create_tunnel_lem,
}

module _ (files : Files) (has : HasFiles files) where
  open files use {State, errno, fopen_write, append, chmod, remove}
  open has use {
    read, mode, on_open, open_others, on_append, on_short, append_others, on_chmod, chmod_read,
    on_remove, remove_others, remove_failed, remove_missing,
  }

  remove_result_ok :
      (ret_conf ret_secret : ℤ) (k : State)
      → (is_zero ret_conf ≡ true) ⊎ (errno k ≡ enoent)
      → (is_zero ret_secret ≡ true) ⊎ (errno k ≡ enoent)
      → remove_result files ret_conf ret_secret k ≡ ok
  unfolding remove_result
  remove_result_ok ret_conf ret_secret k (inl a) (inl b) = rw (a, b) refl
  remove_result_ok ret_conf ret_secret k (inl a) (inr b) = ground (arith, a, b)
  remove_result_ok ret_conf ret_secret k (inr a) b = ground (arith, a)

  -- both files gone, and every other as before
  abbrev Removed : State → State → Bytes → Type 0
  Removed k k' name =
      (read k' (conf_path name) ≡ none)
      × (read k' (secrets_path name) ≡ none)
      × ((q : Bytes) → q ≢ conf_path name → q ≢ secrets_path name → read k' q ≡ read k q)

  -- what the process may remove
  abbrev pub MayRemove : Type 0
  MayRemove = (k : State) (p text : Bytes) → read k p ≡ some text → is_zero (remove k p).0 ≡ true

  read-remove : MayRemove → (k : State) (p : Bytes) → read (remove k p).1 p ≡ none
  read-remove may k p = elim (Option-cases (read k p)) [
    | inl gone ↦ remove_failed k p (remove_missing k p gone).0 ∙ gone
    | inr (text, there) ↦ on_remove k p (may k p text there)
  ]

  -- a removal where there are no secrets without a configuration
  remove_both :
      (name : Bytes) (k : State)
      → conf_path name ≢ secrets_path name
      → MayRemove
      → (read k (conf_path name) ≡ none → read k (secrets_path name) ≡ none)
      → let (s, k') = sec_ipsec_remove_tunnel files (some name) k in (s ≡ ok) × Removed k k' name
  unfolding sec_ipsec_remove_tunnel
  remove_both name k apart may needed =
      let c = conf_path name in
      let s = secrets_path name in
      let (r₁, k₁) = remove k c in
      let (r₂, k₂) = remove k₁ s in
      let kept : read k₁ s ≡ read k s = remove_others k c s (λ e. apart (sym e)) in
      (
        elim (Option-cases (read k s)) [
          | inl none_there ↦
              let missing = (remove_missing k₁ s (kept ∙ none_there)).1 in
              remove_result_ok r₁ r₂ k₂ (inr missing) (inr missing)
          | inr (text, there) ↦ elim (Option-cases (read k c)) [
            | inl no_conf ↦ cc (needed no_conf)
            | inr (conf, conf_there) ↦
                remove_result_ok r₁ r₂ k₂ (inl (may k c conf conf_there))
                  (inl (may k₁ s text (kept ∙ there)))
          ]
        ],
        (
          remove_others k₁ s c apart ∙ read-remove may k c,
          read-remove may k₁ s,
          λ q hc hs. remove_others k₁ s q hs ∙ remove_others k c q hc,
        ),
      )

  -- a file that holds a text is there
  written :
      {o : State} {p text : Bytes} {content : Option Bytes}
      → content ≡ none
      → HoldsText files has o p text content
      → ⊥
  written e (inl (whole, held)) = cc
  written e (inr (n, short, held)) = cc

  -- what every ending of a creation has in common
  CreateEnds-lemma :
      (name psk : Bytes) (local_ip remote_ip : ℕ) (k k' : State) (s : Status)
      → conf_path name ≢ secrets_path name
      → read k (secrets_path name) ≡ none
      → CreateEnds files has k name local_ip remote_ip psk s k'
      → (read k' (conf_path name) ≡ none → read k' (secrets_path name) ≡ none)
        × ((q : Bytes) → q ≢ conf_path name → q ≢ secrets_path name → read k' q ≡ read k q)
  CreateEnds-lemma name psk local_ip remote_ip k k' s apart no_secrets
        (inl (done, (o₁, o₂, opens, conf, secrets, mine, others))) =
      (λ e. absurd (written e conf), others)
  CreateEnds-lemma name psk local_ip remote_ip k k' s apart no_secrets
        (inr (inl (failed, closed, e))) =
      (
        λ none_there. ap (λ j. read j (secrets_path name)) e ∙ no_secrets,
        λ q hc hs. ap (λ j. read j q) e,
      )
  CreateEnds-lemma name psk local_ip remote_ip k k' s apart no_secrets
        (inr (inr (failed, (o, opens, conf, others)))) =
      (
        λ none_there. others (secrets_path name) (λ e. apart (sym e)) ∙ no_secrets,
        λ q hc hs. others q hc,
      )

  path-cases : (p q : Bytes) → (q ≡ p) ⊎ (q ≢ p)
  path-cases p q = elim (Bool-cases (same q p)) [
    | inl yes_same ↦ inl ((same_iff q p).0 yes_same)
    | inr differ ↦ inr (λ e. cc ((same_iff q p).1 e))
  ]

  -- a file that is gone in both states
  both_gone :
      {k k' : State} {p q : Bytes}
      → q ≡ p
      → read k p ≡ none
      → read k' p ≡ none
      → read k' q ≡ read k q
  both_gone {k} {k'} e a b = ap (read k') e ∙ b ∙ sym a ∙ ap (read k) (sym e)

  -- On files that behave as the manual pages say, with a name of at most 240 bytes, files that the
  -- process may remove, and no files of the tunnel before its creation: however the creation ends,
  -- a removal behind it returns 0 and every file is again as it was before the creation.
  pub sec_ipsec_remove_tunnel-sec_ipsec_create_tunnel :
      (name psk : Bytes) (local_ip remote_ip : ℕ) (k : State)
      → length name ≤ 240
      → MayRemove
      → read k (conf_path name) ≡ none
      → read k (secrets_path name) ≡ none
      → let (r, k') = sec_ipsec_create_tunnel files (some name) local_ip remote_ip (some psk) k in
        let (s, k'') = sec_ipsec_remove_tunnel files (some name) k' in
        (s ≡ ok) × ((q : Bytes) → read k'' q ≡ read k q)
  sec_ipsec_remove_tunnel-sec_ipsec_create_tunnel name psk local_ip remote_ip k h may no_conf
        no_secrets =
      let (r, k') = sec_ipsec_create_tunnel files (some name) local_ip remote_ip (some psk) k in
      let apart = paths_apart name h in
      let ends = sec_ipsec_create_tunnel_lem files has name psk local_ip remote_ip k h in
      let (needed, others) =
        CreateEnds-lemma name psk local_ip remote_ip k k' r apart no_secrets ends in
      let (done, (conf_gone, secrets_gone, same_rest)) = remove_both name k' apart may needed in
      (
        done,
        λ q. elim (path-cases (conf_path name) q) [
          | inl e ↦ both_gone e no_conf conf_gone
          | inr hc ↦ elim (path-cases (secrets_path name) q) [
            | inl e ↦ both_gone e no_secrets secrets_gone
            | inr hs ↦ same_rest q hc hs ∙ others q hc hs
          ]
        ],
      )

  -- On files that behave as the manual pages say, for a name of at most 240 bytes: if the
  -- configuration of a tunnel cannot be removed, for whatever reason, and there is no secrets file,
  -- the removal returns 0 all the same, and the configuration is as it was.
  pub sec_ipsec_remove_tunnel_masked :
      (name : Bytes) (k : State)
      → length name ≤ 240
      → is_zero (remove k (conf_path name)).0 ≡ false
      → read k (secrets_path name) ≡ none
      → let (s, k') = sec_ipsec_remove_tunnel files (some name) k in
        (s ≡ ok) × (read k' (conf_path name) ≡ read k (conf_path name))
  unfolding sec_ipsec_remove_tunnel
  sec_ipsec_remove_tunnel_masked name k h failed no_secrets =
      let c = conf_path name in
      let s = secrets_path name in
      let (r₁, k₁) = remove k c in
      let (r₂, k₂) = remove k₁ s in
      let apart = paths_apart name h in
      let missing =
        (remove_missing k₁ s (remove_others k c s (λ e. apart (sym e)) ∙ no_secrets)).1 in
      (
        remove_result_ok r₁ r₂ k₂ (inr missing) (inr missing),
        remove_others k₁ s c apart ∙ remove_failed k c failed,
      )
