-- ===== src/Tests/Ipsec.antt =====
-- IPSec tunnels on a disk in memory.
use pnet_driver_test.Prelude.{
  ℕ, ◌<◌, ◌≡◌, ◌≢◌, ◌↔◌, ◌⊎◌, refl, sym, ap, ◌∙◌, ℤ, pos, negsuc, Bool, true, false, Option, none,
  some, [], ◌++◌, arith, is_zero, Bool-cases, inl, inr, length, if◌then◌else◌, replicate,
}
use pnet_driver_test.Text.Bytes.{Bytes, codes, same, same_iff}
use pnet_driver_test.Address.{join}
use pnet_driver_test.Security.{ok, fail, eio}
use pnet_driver_test.Security.Ipsec.{
  Files, enoent, conf_path, secrets_path, tunnel_path, sec_ipsec_create_tunnel,
  sec_ipsec_remove_tunnel,
}
use pnet_driver_test.Security.Ipsec.Paths.{conf_path-secrets_path_iff}
use pnet_driver_test.Security.Ipsec.Tunnel.{
  HasFiles, HasTunnel, HasConf, sec_ipsec_create_tunnel_lem,
}
use pnet_driver_test.Security.Ipsec.Removal.{
  MayRemove, sec_ipsec_remove_tunnel-sec_ipsec_create_tunnel, sec_ipsec_remove_tunnel_masked,
}

record Memory : Type 0 where
  texts : Bytes → Option Bytes
  modes : Bytes → ℕ
  last_error : ℕ

update : {A : Type 0} → (Bytes → A) → Bytes → A → Bytes → A
update f p v q = if same q p then v else f q

same_refl : (p : Bytes) → same p p ≡ true
same_refl p = (same_iff p p).1 refl

same_other : (p q : Bytes) → q ≢ p → same q p ≡ false
same_other p q h = elim (Bool-cases (same q p)) [
  | inl e ↦ absurd (h ((same_iff q p).0 e))
  | inr e ↦ e
]

update_at : {A : Type 0} (f : Bytes → A) (p : Bytes) (v : A) → update f p v p ≡ v
unfolding update
update_at f p v = rw (same_refl p) refl

update_beside :
    {A : Type 0} (f : Bytes → A) (p : Bytes) (v : A) (q : Bytes) → q ≢ p → update f p v q ≡ f q
unfolding update
update_beside f p v q h = rw (same_other p q h) refl

abbrev with_text : Memory → Bytes → Option Bytes → Memory
with_text k p t = record k { texts = update k.texts p t }

abbrev extend : Option Bytes → Bytes → Option Bytes
extend none t = none
extend (some s) t = some (s ++ t)

abbrev unlink : Bool → Memory → Bytes → Option Bytes → ℤ × Memory
unlink true k p (some s) = (negsuc 0, record k { last_error = 1 })
unlink false k p (some s) = (pos 0, with_text k p none)
unlink fixed k p none = (negsuc 0, record k { last_error = enoent })

-- a disk in which no file can be removed, or every file
abbrev disk : Bool → Files
disk fixed = record {
  State = Memory;
  errno = λ k. k.last_error;
  fopen_write = λ k p. some (with_text k p (some []));
  append = λ k p t. (true, with_text k p (extend (k.texts p) t));
  chmod = λ k p m. (pos 0, record k { modes = update k.modes p m });
  remove = λ k p. unlink fixed k p (k.texts p);
}

abbrev read_memory : Memory → Bytes → Option Bytes
read_memory k p = k.texts p

opened : {A : Type 0} {a b : A} → some a ≡ some b → a ≡ b
opened {A} {a} {b} e = cc e

disk_open :
    (k k' : Memory) (p : Bytes) → some (with_text k p (some [])) ≡ some k' → k'.texts p ≡ some []
disk_open k k' p e = sym (ap (λ (j : Memory). j.texts p) (opened e)) ∙ update_at k.texts p (some [])

disk_open_others :
    (k k' : Memory) (p q : Bytes)
    → some (with_text k p (some [])) ≡ some k'
    → q ≢ p
    → k'.texts q ≡ k.texts q
disk_open_others k k' p q e h =
    sym (ap (λ (j : Memory). j.texts q) (opened e)) ∙ update_beside k.texts p (some []) q h

disk_append :
    (k : Memory) (p s t : Bytes)
    → k.texts p ≡ some s
    → update k.texts p (extend (k.texts p) t) p ≡ some (s ++ t)
disk_append k p s t e = update_at k.texts p (extend (k.texts p) t) ∙ ap (λ o. extend o t) e

removed :
    (fixed : Bool) (k : Memory) (p : Bytes) (o : Option Bytes)
    → is_zero (unlink fixed k p o).0 ≡ true
    → (unlink fixed k p o).1.texts p ≡ none
removed true k p (some s) h = cc h
removed false k p (some s) h = update_at k.texts p none
removed true k p none h = cc h
removed false k p none h = cc h

removed_others :
    (fixed : Bool) (k : Memory) (p q : Bytes) (o : Option Bytes)
    → q ≢ p
    → (unlink fixed k p o).1.texts q ≡ k.texts q
removed_others true k p q (some s) h = refl
removed_others false k p q (some s) h = update_beside k.texts p none q h
removed_others true k p q none h = refl
removed_others false k p q none h = refl

not_removed :
    (fixed : Bool) (k : Memory) (p : Bytes) (o : Option Bytes)
    → is_zero (unlink fixed k p o).0 ≡ false
    → (unlink fixed k p o).1.texts p ≡ k.texts p
not_removed true k p (some s) h = refl
not_removed false k p (some s) h = cc h
not_removed true k p none h = refl
not_removed false k p none h = refl

missing :
    (fixed : Bool) (k : Memory) (p : Bytes) (o : Option Bytes)
    → o ≡ none
    → (is_zero (unlink fixed k p o).0 ≡ false) × ((unlink fixed k p o).1.last_error ≡ enoent)
missing fixed k p (some s) e = absurd (cc e)
missing true k p none e = (refl, refl)
missing false k p none e = (refl, refl)

abbrev disk-HasFiles : (fixed : Bool) → HasFiles (disk fixed)
disk-HasFiles fixed = record {
  read = read_memory;
  mode = λ k p. k.modes p;
  on_open = disk_open;
  open_others = disk_open_others;
  on_append = λ k p s t e h. disk_append k p s t e;
  on_short = λ k p s t e h. absurd (cc h);
  append_others = λ k p q t h. update_beside k.texts p (extend (k.texts p) t) q h;
  on_chmod = λ k p m h. update_at k.modes p m;
  chmod_read = λ k p q m. refl;
  on_remove = λ k p h. removed fixed k p (k.texts p) h;
  remove_others = λ k p q h. removed_others fixed k p q (k.texts p) h;
  remove_failed = λ k p h. not_removed fixed k p (k.texts p) h;
  remove_missing = λ k p e. missing fixed k p (k.texts p) e;
}

may_remove : MayRemove (disk false) (disk-HasFiles false)
may_remove k p text e = rw e refl

abbrev no_files : Memory
no_files = record { texts = λ p. none; modes = λ p. 0; last_error = 0 }

abbrev site : Bytes
site = codes "site-b"

abbrev psk : Bytes
psk = codes "secret"

sec_ipsec_create_tunnel_lem_example :
    let ip = join 10 0 0 1 in
    let (s, k') =
      sec_ipsec_create_tunnel (disk false) (some site) ip (join 10 0 0 2) (some psk) no_files in
    ((s ≡ ok)
      × HasTunnel (disk false) (disk-HasFiles false) no_files k' site ip (join 10 0 0 2) psk)
    ⊎ ((s ≡ fail eio)
        × ((disk false).fopen_write no_files (conf_path site) ≡ none)
        × (k' ≡ no_files))
    ⊎ ((s ≡ fail eio)
        × HasConf (disk false) (disk-HasFiles false) no_files k' site ip (join 10 0 0 2))
sec_ipsec_create_tunnel_lem_example =
    sec_ipsec_create_tunnel_lem (disk false) (disk-HasFiles false) site psk (join 10 0 0 1)
      (join 10 0 0 2) no_files (omega arith)

sec_ipsec_remove_tunnel-sec_ipsec_create_tunnel_example :
    let (r, k') = sec_ipsec_create_tunnel (disk false) (some site) 1 2 (some psk) no_files in
    let (s, k'') = sec_ipsec_remove_tunnel (disk false) (some site) k' in
    (s ≡ ok) × ((q : Bytes) → k''.texts q ≡ none)
sec_ipsec_remove_tunnel-sec_ipsec_create_tunnel_example =
    sec_ipsec_remove_tunnel-sec_ipsec_create_tunnel (disk false) (disk-HasFiles false) site psk 1 2
      no_files (omega arith) may_remove refl refl

abbrev left_conf : Memory
left_conf = with_text no_files (conf_path site) (some (codes "conn site-b\n"))

refused : is_zero ((disk true).remove left_conf (conf_path site)).0 ≡ false
unfolding tunnel_path update same
refused = refl

no_secrets : left_conf.texts (secrets_path site) ≡ none
unfolding tunnel_path update same
no_secrets = refl

sec_ipsec_remove_tunnel_masked_example :
    let (s, k') = sec_ipsec_remove_tunnel (disk true) (some site) left_conf in
    (s ≡ ok) × (k'.texts (conf_path site) ≡ left_conf.texts (conf_path site))
sec_ipsec_remove_tunnel_masked_example =
    sec_ipsec_remove_tunnel_masked (disk true) (disk-HasFiles true) site left_conf (omega arith)
      refused no_secrets

abbrev long_name : Bytes
long_name = replicate 250 b'x'

conf_path-secrets_path_iff_example :
    (conf_path long_name ≡ secrets_path long_name) ↔ (240 < length long_name)
conf_path-secrets_path_iff_example = conf_path-secrets_path_iff long_name
