-- ===== src/Security/Apply.antt =====
-- `sec_policy_apply`, as built for Linux (PLATFORM_LINUX). `system` is the C library's: a parameter,
-- from a command line to its result. What is printed to stdout and stderr is left out.
use pnet_driver_test.Prelude.{
  ltb, Bool-cases, inl, inr, ltb→lt, ltb→ge, ◌≡◌, ℤ, true, Option, none, some, List, [], ◌∷◌, arith,
  length, is_zero, All, if◌then◌else◌,
}
use pnet_driver_test.Text.Bytes.{Bytes, codes}
use pnet_driver_test.Text.Buffer.{Cursor}
use pnet_driver_test.Security.{Status, ok, fail, einval, enospc, eio, Policy}
use pnet_driver_test.Security.Table.{IsValid, live}
use pnet_driver_test.Security.Script.{sec_policy_generate_script}
use pnet_driver_test.Security.Script.Lines.{IsStored}
use pnet_driver_test.Security.Script.Whole.{
  script, sec_policy_generate_script_fits, sec_policy_generate_script_full,
}

abbrev pub flush_command : Bytes
flush_command = codes "iptables -F PNET_CHAIN 2>/dev/null"

module _ (system : Bytes → ℤ) where
  -- what follows the generation of the script: the result, and the commands run, in order
  unfoldable pub run_script : Status × Cursor → Status × List Bytes
  run_script (fail e, c) = (fail e, [])
  run_script (ok, c) =
      (if is_zero (system c.content) then ok else fail eio, flush_command ∷ c.content ∷ [])

  unfoldable pub sec_policy_apply : Option Policy → Status × List Bytes
  unfolding run_script
  sec_policy_apply none = (fail einval, [])
  sec_policy_apply (some p) = run_script (sec_policy_generate_script (some p) true 4096)

  -- A valid policy whose script fits 4096 bytes with its NUL has exactly two commands run, the
  -- flush and its script, and the result is that of the script; one whose script does not fit has
  -- none run and fails with -ENOSPC. Whether the policy is enabled makes no difference.
  pub sec_policy_apply_lem :
      {p : Policy}
      → IsValid p
      → All IsStored (live p)
      → sec_policy_apply (some p) ≡ (
          if ltb (length (script p)) 4096
          then (if is_zero (system (script p)) then ok else fail eio, flush_command ∷ script p ∷ [])
          else (fail enospc, []))
  unfolding sec_policy_apply
  sec_policy_apply_lem {p} v stored = elim (Bool-cases (ltb (length (script p)) 4096)) [
    | inl fits ↦
        let (done, same, safe) =
          sec_policy_generate_script_fits (omega arith) v stored (ltb→lt _ _ fits) in
        rw fits (rw (done, same))
    | inr full ↦
        let (failed, safe) =
          sec_policy_generate_script_full (omega arith) v stored (omega arith) (ltb→ge _ _ full) in
        rw full (rw failed)
  ]
