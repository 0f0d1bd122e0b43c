-- ===== src/Net/Tuning/Applied.antt =====
-- What `net_tcp_tuning_apply` leaves in the files, and reading it back.
use pnet_driver_test.Prelude.{
  ◌≡◌, ◌∙◌, refl, ap, ap₂, ℤ, pos, negsuc, is_zero, Bool, true, false, ◌&&◌, Option, some, [], ◌∷◌,
  ◌++◌, arith, if◌then◌else◌, Bool-cases, inl, inr,
}
use pnet_driver_test.Text.Bytes.{Bytes, same}
use pnet_driver_test.Text.Numeral.{print_base}
use pnet_driver_test.Text.Scan.{print_int}
use pnet_driver_test.Net.{TcpTuningConfig}
use pnet_driver_test.Net.Tuning.{
  proc_tcp_timestamps, proc_tcp_win_scale, proc_tcp_sack, proc_tcp_rmem, proc_tcp_wmem, Files,
  triple_text, or_result, as_int, net_tcp_tuning_read_current, proc_write, proc_write_int,
  proc_write_u32_triple, net_tcp_tuning_apply,
}
use pnet_driver_test.Net.Tuning.Reading.{
  flag_text, TripleFits, proc_read_triple_lem, proc_read_flag, as_int_back,
}

-- the text that a file has if it could be written, and the old one if not
abbrev pub chosen : Bool → Bytes → Option Bytes → Option Bytes
chosen written text old = if written then some text else old

int_text-flag_text : (b : Bool) → print_int (as_int b) ++ (b'\n' ∷ []) ≡ flag_text b
unfolding print_int print_base
int_text-flag_text true = refl
int_text-flag_text false = refl

abbrev result_of : Bool → ℤ
result_of written = if written then pos 0 else negsuc 0

module _ (can_write : Bytes → Bool) (takes : Bytes → Bytes → Bool) where
  -- whether a text gets into a file
  abbrev pub gets_in : Bytes → Bytes → Bool
  gets_in path text = can_write path && takes path text

  proc_write_lem :
      (files : Files) (path text : Bytes)
      → ((proc_write can_write takes files path text).0 ≡ result_of (can_write path))
        × ((p : Bytes)
            → (proc_write can_write takes files path text).1 p
              ≡ (if same p path then chosen (gets_in path text) text (files p) else files p))
  unfolding proc_write
  proc_write_lem files path text = elim (Bool-cases (can_write path)) [
    | inl open_ok ↦ elim (Bool-cases (takes path text)) [
      | inl taken ↦ rw (open_ok, taken) (refl, λ p. refl)
      | inr lost ↦ rw (open_ok, lost) (refl, λ p. unchanged (same p path) (files p))
    ]
    | inr refused ↦ rw refused (refl, λ p. unchanged (same p path) (files p))
  ]
    where
      unchanged : {A : Type 0} (b : Bool) (x : A) → x ≡ (if b then x else x)
      unchanged true x = refl
      unchanged false x = refl

  all_of :
      (a b c d e : Bool)
      → (is_zero (
            or_result
              (or_result
                (or_result (or_result (result_of a) (result_of b)) (result_of c))
                (result_of d))
              (result_of e))
          ≡ (a && b && c && d && e))
  all_of a b c d e = ground arith

  -- each file as the writes leave it
  abbrev pub Written : TcpTuningConfig → Files → Files → Type 0
  Written t old new =
      (new proc_tcp_timestamps
        ≡ chosen (gets_in proc_tcp_timestamps (flag_text t.tcp_timestamps))
            (flag_text t.tcp_timestamps) (old proc_tcp_timestamps))
      × (new proc_tcp_win_scale
          ≡ chosen (gets_in proc_tcp_win_scale (flag_text t.tcp_window_scaling))
              (flag_text t.tcp_window_scaling) (old proc_tcp_win_scale))
      × (new proc_tcp_sack
          ≡ chosen (gets_in proc_tcp_sack (flag_text t.tcp_sack)) (flag_text t.tcp_sack)
              (old proc_tcp_sack))
      × (new proc_tcp_rmem
          ≡ chosen (gets_in proc_tcp_rmem (triple_text t.tcp_rmem)) (triple_text t.tcp_rmem)
              (old proc_tcp_rmem))
      × (new proc_tcp_wmem
          ≡ chosen (gets_in proc_tcp_wmem (triple_text t.tcp_wmem)) (triple_text t.tcp_wmem)
              (old proc_tcp_wmem))

  -- Applying the tuning returns 0 if the five files can be opened for writing and -1 if not. Each
  -- file, also behind one that cannot be opened, has the tuning's text if it can be opened and the
  -- kernel takes that text, and is as it was if not; whether the kernel takes a text makes no
  -- difference to the result.
  pub net_tcp_tuning_apply_lem :
      (files : Files) (t : TcpTuningConfig)
      → let (ret, new) = net_tcp_tuning_apply can_write takes files (some t) in
        (ret ≡ (
          if can_write proc_tcp_timestamps
            && can_write proc_tcp_win_scale
            && can_write proc_tcp_sack
            && can_write proc_tcp_rmem
            && can_write proc_tcp_wmem
          then pos 0
          else negsuc 0))
        × Written t files new
  unfolding net_tcp_tuning_apply proc_write_int proc_write_u32_triple same
  net_tcp_tuning_apply_lem files t =
      let text : Bool → Bytes = λ b. print_int (as_int b) ++ (b'\n' ∷ []) in
      let f₁ = (proc_write can_write takes files proc_tcp_timestamps (text t.tcp_timestamps)).1 in
      let f₂ = (proc_write can_write takes f₁ proc_tcp_win_scale (text t.tcp_window_scaling)).1 in
      let f₃ = (proc_write can_write takes f₂ proc_tcp_sack (text t.tcp_sack)).1 in
      let f₄ = (proc_write can_write takes f₃ proc_tcp_rmem (triple_text t.tcp_rmem)).1 in
      let (r₁, w₁) = proc_write_lem files proc_tcp_timestamps (text t.tcp_timestamps) in
      let (r₂, w₂) = proc_write_lem f₁ proc_tcp_win_scale (text t.tcp_window_scaling) in
      let (r₃, w₃) = proc_write_lem f₂ proc_tcp_sack (text t.tcp_sack) in
      let (r₄, w₄) = proc_write_lem f₃ proc_tcp_rmem (triple_text t.tcp_rmem) in
      let (r₅, w₅) = proc_write_lem f₄ proc_tcp_wmem (triple_text t.tcp_wmem) in
      let a = proc_tcp_timestamps in
      let b = proc_tcp_win_scale in
      let c = proc_tcp_sack in
      let d = proc_tcp_rmem in
      let e = proc_tcp_wmem in
      (
        rw (r₁, r₂, r₃, r₄, r₅)
            (rw (all_of (can_write a) (can_write b) (can_write c) (can_write d) (can_write e))
              refl),
        (
          w₅ a
              ∙ w₄ a
              ∙ w₃ a
              ∙ w₂ a
              ∙ w₁ a
              ∙ ap (λ s. chosen (gets_in a s) s (files a)) (int_text-flag_text t.tcp_timestamps),
          w₅ b
              ∙ w₄ b
              ∙ w₃ b
              ∙ w₂ b
              ∙ ap₂ (λ s. chosen (gets_in b s) s) (int_text-flag_text t.tcp_window_scaling) (w₁ b),
          w₅ c
              ∙ w₄ c
              ∙ w₃ c
              ∙ ap₂ (λ s. chosen (gets_in c s) s) (int_text-flag_text t.tcp_sack) (w₂ c ∙ w₁ c),
          w₅ d
              ∙ w₄ d
              ∙ ap (chosen (gets_in d (triple_text t.tcp_rmem)) (triple_text t.tcp_rmem))
                  (w₃ d ∙ w₂ d ∙ w₁ d),
          w₅ e
              ∙ ap (chosen (gets_in e (triple_text t.tcp_wmem)) (triple_text t.tcp_wmem))
                  (w₄ e ∙ w₃ e ∙ w₂ e ∙ w₁ e),
        ),
      )

  -- the kernel takes the texts of this tuning
  abbrev pub Takes : TcpTuningConfig → Type 0
  Takes t =
      (takes proc_tcp_timestamps (flag_text t.tcp_timestamps) ≡ true)
      × (takes proc_tcp_win_scale (flag_text t.tcp_window_scaling) ≡ true)
      × (takes proc_tcp_sack (flag_text t.tcp_sack) ≡ true)
      × (takes proc_tcp_rmem (triple_text t.tcp_rmem) ≡ true)
      × (takes proc_tcp_wmem (triple_text t.tcp_wmem) ≡ true)

  -- If every file can be opened for writing, the kernel takes the five texts of the tuning, and the
  -- six numbers fit 32 bits, applying the tuning returns 0,
  -- and reading the current tuning then returns 0 and the tuning applied.
  pub net_tcp_tuning_read_current-net_tcp_tuning_apply :
      (files : Files) (t : TcpTuningConfig)
      → ((path : Bytes) → can_write path ≡ true)
      → Takes t
      → TripleFits t.tcp_rmem
      → TripleFits t.tcp_wmem
      → let (ret, new) = net_tcp_tuning_apply can_write takes files (some t) in
        (ret ≡ pos 0) × (net_tcp_tuning_read_current new true ≡ (pos 0, some t))
  unfolding net_tcp_tuning_read_current
  net_tcp_tuning_read_current-net_tcp_tuning_apply files t writes taken rmem wmem =
      let new = (net_tcp_tuning_apply can_write takes files (some t)).1 in
      let (ret, (a, b, c, d, e)) = net_tcp_tuning_apply_lem files t in
      let chosen_new : (path text : Bytes)
          → takes path text ≡ true
          → chosen (gets_in path text) text (files path) ≡ some text =
        λ path text h. rw (writes path, h) refl in
      let (ta, tb, tc, td, te) = taken in
      (
        ret
            ∙ rw
                (
                  writes proc_tcp_timestamps,
                  writes proc_tcp_win_scale,
                  writes proc_tcp_sack,
                  writes proc_tcp_rmem,
                  writes proc_tcp_wmem,
                )
                refl,
        rw
            (
              proc_read_flag new proc_tcp_timestamps t.tcp_timestamps (a ∙ chosen_new _ _ ta),
              proc_read_flag new proc_tcp_win_scale t.tcp_window_scaling (b ∙ chosen_new _ _ tb),
              proc_read_flag new proc_tcp_sack t.tcp_sack (c ∙ chosen_new _ _ tc),
              proc_read_triple_lem new proc_tcp_rmem t.tcp_rmem (d ∙ chosen_new _ _ td) rmem,
              proc_read_triple_lem new proc_tcp_wmem t.tcp_wmem (e ∙ chosen_new _ _ te) wmem,
            )
            (rw
              (
                as_int_back t.tcp_timestamps,
                as_int_back t.tcp_window_scaling,
                as_int_back t.tcp_sack,
              )
              refl),
      )
