-- ===== src/Security/Ipsec.antt =====
-- `sec_ipsec_create_tunnel` and `sec_ipsec_remove_tunnel`, over a file system that is a parameter.
-- What is printed to stdout and stderr is left out.
pub mod Paths
pub mod Tunnel
pub mod Removal
use pnet_driver_test.Prelude.{
  ℕ, ℤ, Bool, not, ◌&&◌, Option, none, some, ◌++◌, ◌==◌, is_zero, if◌then◌else◌, take,
}
use pnet_driver_test.Text.Bytes.{Bytes, codes}
use pnet_driver_test.Address.{format_ip}
use pnet_driver_test.Security.{Status, ok, fail, einval, eio}

-- The calls on files. `append` is fprintf on the open file with fclose, with whether they wrote the
-- whole text, which the program does not look at; `errno` is what the last call left there.
pub record Files : Type 1 where
  pub State : Type 0
  pub errno : State → ℕ
  pub fopen_write : State → Bytes → Option State
  pub append : State → Bytes → Bytes → Bool × State
  pub chmod : State → Bytes → ℕ → ℤ × State
  pub remove : State → Bytes → ℤ × State

abbrev pub enoent : ℕ
enoent = 2

-- 0600
abbrev pub owner_only : ℕ
owner_only = 384

abbrev pub ipsec_conf_dir : Bytes
ipsec_conf_dir = codes "/etc/ipsec.d"

-- `snprintf(path, 256, "%s/%s" …, IPSEC_CONF_DIR, name)`
unfoldable pub tunnel_path : Bytes → Bytes → Bytes
tunnel_path extension name = take 255 (ipsec_conf_dir ++ codes "/" ++ (name ++ extension))

abbrev pub conf_path : Bytes → Bytes
conf_path name = tunnel_path (codes ".conf") name

abbrev pub secrets_path : Bytes → Bytes
secrets_path name = tunnel_path (codes ".secrets") name

unfoldable pub conf_text : Bytes → Bytes → Bytes → Bytes
conf_text name local_str remote_str =
    codes "conn "
    ++ (name
        ++ (codes "\n    authby=secret\n    left=%defaultroute\n    leftid="
            ++ (local_str
                ++ (codes "\n    leftsubnet="
                    ++ (local_str
                        ++ (codes "/32\n    right="
                            ++ (remote_str
                                ++ (codes "\n    rightsubnet="
                                    ++ (remote_str
                                        ++ (codes "/32\n    ike=aes256-sha256-modp2048\n"
                                            ++ (codes "    esp=aes256-sha256\n"
                                                ++ (codes "    keyexchange=ikev2\n"
                                                    ++ (codes "    auto=start\n"
                                                        ++ codes
                                                            "    type=transport\n\n")))))))))))))

unfoldable pub secrets_text : Bytes → Bytes → Bytes → Bytes
secrets_text local_str remote_str psk =
    local_str ++ (codes " " ++ (remote_str ++ (codes " : PSK \"" ++ (psk ++ codes "\"\n"))))

module _ (files : Files) where
  open files use {State, errno, fopen_write, append, chmod, remove}

  -- the secrets file open, or not
  unfoldable pub finish_secrets : Bytes → Bytes → State → Option State → Status × State
  finish_secrets path text k none = (fail eio, k)
  finish_secrets path text k (some k') = (ok, (chmod (append k' path text).1 path owner_only).1)

  -- the configuration file open, or not
  unfoldable pub finish_conf : Bytes → Bytes → Bytes → Bytes → State → Option State → Status × State
  unfolding finish_secrets
  finish_conf name local_str remote_str psk k none = (fail eio, k)
  finish_conf name local_str remote_str psk k (some k') =
      let k₁ = (append k' (conf_path name) (conf_text name local_str remote_str)).1 in
      finish_secrets (secrets_path name) (secrets_text local_str remote_str psk) k₁
        (fopen_write k₁ (secrets_path name))

  unfoldable pub sec_ipsec_create_tunnel :
      Option Bytes → ℕ → ℕ → Option Bytes → State → Status × State
  unfolding finish_conf
  sec_ipsec_create_tunnel none local_ip remote_ip psk k = (fail einval, k)
  sec_ipsec_create_tunnel (some name) local_ip remote_ip none k = (fail einval, k)
  sec_ipsec_create_tunnel (some name) local_ip remote_ip (some psk) k =
      finish_conf name (format_ip local_ip) (format_ip remote_ip) psk k
        (fopen_write k (conf_path name))

  -- `ret != 0 && errno != ENOENT`
  abbrev pub is_failure : ℤ → State → Bool
  is_failure ret k = not (is_zero ret) && not (errno k == enoent)

  -- both results are judged by the `errno` that the second call left
  unfoldable pub remove_result : ℤ → ℤ → State → Status
  remove_result ret_conf ret_secret k =
      if is_failure ret_conf k then fail eio else if is_failure ret_secret k then fail eio else ok

  unfoldable pub sec_ipsec_remove_tunnel : Option Bytes → State → Status × State
  unfolding remove_result
  sec_ipsec_remove_tunnel none k = (fail einval, k)
  sec_ipsec_remove_tunnel (some name) k =
      let (ret_conf, k₁) = remove k (conf_path name) in
      let (ret_secret, k₂) = remove k₁ (secrets_path name) in
      (remove_result ret_conf ret_secret k₂, k₂)
