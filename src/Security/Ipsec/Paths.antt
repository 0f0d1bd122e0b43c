-- ===== src/Security/Ipsec/Paths.antt =====
-- The two paths of a tunnel, which are built in buffers of 256 bytes.
use pnet_driver_test.Prelude.{
  ℕ, ◌+◌, ◌≤◌, ◌<◌, ◌≡◌, ◌≢◌, ◌↔◌, sym, ap, ◌∙◌, [], ◌∷◌, ◌++◌, arith, length, length-append, take,
  get_or, get_or-take, get_or-append, take-append_short, append_assoc, Bool-cases, inl, inr, ltb,
  ltb→lt, ltb→ge,
}
use pnet_driver_test.Text.Bytes.{Bytes, codes}
use pnet_driver_test.Security.Ipsec.{ipsec_conf_dir, tunnel_path, conf_path, secrets_path}

-- the path before the dot of its extension, and with it
abbrev stem : Bytes → Bytes
stem name = ipsec_conf_dir ++ codes "/" ++ name

tunnel_path-stem :
    (extension name : Bytes) → tunnel_path extension name ≡ take 255 (stem name ++ extension)
unfolding tunnel_path
tunnel_path-stem extension name =
    ap (take 255) (sym (append_assoc (ipsec_conf_dir ++ codes "/") name extension))

length-stem : (name : Bytes) → length (stem name) ≡ 13 + length name
length-stem name = length-append (ipsec_conf_dir ++ codes "/") name

-- the byte behind the dot, where the path is not cut off before it
letter :
    (c : ℕ) (extension name : Bytes)
    → length name ≤ 240
    → get_or (tunnel_path (b'.' ∷ c ∷ extension) name) (length (stem name) + 1) 0 ≡ c
letter c extension name h =
    ap (λ p. get_or p (length (stem name) + 1) 0) (tunnel_path-stem _ name)
    ∙ get_or-take 255 (length (stem name) + 1) (stem name ++ (b'.' ∷ c ∷ extension)) 0
        (omega (arith, length-stem name))
    ∙ get_or-append (stem name) (b'.' ∷ c ∷ extension) 1 0

cut_off :
    (extension name : Bytes)
    → 241 < length name + 1
    → tunnel_path (b'.' ∷ extension) name ≡ take 255 (stem name ++ (b'.' ∷ []))
cut_off extension name h =
    tunnel_path-stem _ name
    ∙ ap (take 255) (sym (append_assoc (stem name) (b'.' ∷ []) extension))
    ∙ take-append_short 255 (stem name ++ (b'.' ∷ [])) extension
        (omega (arith, length-stem name, length-append (stem name) (b'.' ∷ [])))

pub paths_apart : (name : Bytes) → length name ≤ 240 → conf_path name ≢ secrets_path name
paths_apart name h e =
    let same : b'c' ≡ b's' =
      sym (letter b'c' (codes "onf") name h)
      ∙ ap (λ p. get_or p (length (stem name) + 1) 0) e
      ∙ letter b's' (codes "ecrets") name h in
    omega (arith, same)

paths_meet : (name : Bytes) → 240 < length name → conf_path name ≡ secrets_path name
paths_meet name h =
    cut_off (codes "conf") name (omega arith) ∙ sym (cut_off (codes "secrets") name (omega arith))

-- The two paths of a tunnel are the same path exactly if its name has more than 240 bytes.
pub conf_path-secrets_path_iff :
    (name : Bytes) → (conf_path name ≡ secrets_path name) ↔ (240 < length name)
conf_path-secrets_path_iff name = (
  λ same. elim (Bool-cases (ltb 240 (length name))) [
    | inl long ↦ ltb→lt 240 _ long
    | inr short ↦ absurd (paths_apart name (ltb→ge 240 _ short) same)
  ],
  paths_meet name,
)
