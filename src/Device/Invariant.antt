-- ===== src/Device/Invariant.antt =====
-- The device's invariant over any sequence of calls.
use pnet_driver_test.Prelude.{
  ℕ, ◌≤◌, ◌≡◌, ◌∙◌, ◌⊎◌, inl, inr, refl, true, Option, none, some, List, [], ◌∷◌, arith, is_zero,
  ltb, take, drop, length, length-append, length-take, length-drop, Bool-cases, ltb→ge, All,
}
use pnet_driver_test.Pnet.{Stack}
use pnet_driver_test.Device.{State, idle, initialized, connected, running, error, Device, held}
use pnet_driver_test.Device.Start.{io_device_init}
use pnet_driver_test.Device.Calls.{
  memcpy, io_device_tick, io_device_stop, io_device_cleanup, io_device_update_input,
  io_device_read_output, cache_output, tick_handle, stop_handle, update_handle, read_handle,
}
use pnet_driver_test.Device.Lifecycle.{
  HandleFits, IsWell, IsLive, IsLive-IsWell, zero_device-IsWell, io_device_start_lem,
  io_device_tick-IsLive,
}
use pnet_driver_test.Device.Run.{
  Call, init, start, tick, stop, cleanup, update_input, read_output, perform, perform_all,
}

-- Copying at most as many bytes as there are, into a buffer that holds them, keeps its size.
length-memcpy :
    (dst src : List ℕ) (n : ℕ)
    → n ≤ length src
    → n ≤ length dst
    → length (memcpy dst src n) ≡ length dst
length-memcpy dst src n h k =
    omega (arith, length-append (take n src) (drop n dst), length-take n src, length-drop n dst)

-- what the caller owes: `len` readable bytes at `data`, and an output buffer of at most 256
abbrev pub IsFair : Call → Type 0
IsFair (update_input bytes len) = len ≤ length bytes
IsFair (read_output len) = len ≤ 256
IsFair _ = Unit

HandleFits-error : {Net : Type 0} (h : Option Net) → HandleFits error h
HandleFits-error none = tt
HandleFits-error (some net) = tt

HandleFits-some :
    {Net : Type 0} (s : State) (net net' : Net) → HandleFits s (some net) → HandleFits s (some net')
HandleFits-some idle net net' h = h
HandleFits-some _ net net' h = h

-- a device is live, or has no handle, or is in the error state
IsWell-cases :
    {Net : Type 0} {dev : Device Net}
    → IsWell dev
    → IsLive dev ⊎ (dev.pnet_handle ≡ none) ⊎ (dev.state ≡ error)
IsWell-cases {Net} {dev} v = go dev.state dev.pnet_handle refl refl v.handle
  where
    go :
        (s : State) (h : Option Net)
        → dev.state ≡ s
        → dev.pnet_handle ≡ h
        → HandleFits s h
        → IsLive dev ⊎ (dev.pnet_handle ≡ none) ⊎ (dev.state ≡ error)
    go connected (some net) e d f =
        inl (record { buffers = v.buffers; held = (net, d); state = inl e })
    go running (some net) e d f =
        inl (record { buffers = v.buffers; held = (net, d); state = inr e })
    go error h e d f = inr (inr e)
    go idle none e d f = inr (inl d)
    go initialized none e d f = inr (inl d)
    go connected none e d f = inr (inl d)
    go running none e d f = inr (inl d)
    go idle (some net) e d f = elim f [ ]
    go initialized (some net) e d f = elim f [ ]

module _ (stack : Stack) where
  open stack use {Net, output_get}

  -- What the documentation of p-net says of `pnet_output_get_data_and_iops`: `*data_len` goes in as
  -- the size of the buffer, and where the call succeeds it comes out as the number of bytes put there.
  abbrev pub RespectsBuffer : Type 0
  RespectsBuffer =
      (net : Net) (len : ℕ)
      → is_zero (output_get net 0 1 2 len).1.ret ≡ true
      → let out = (output_get net 0 1 2 len).1 in
        (out.data_len ≤ len) × (length out.bytes ≡ out.data_len)

  -- A tick with no handle, or in the error state, changes nothing.
  tick_refused :
      (dev : Device Net)
      → (dev.pnet_handle ≡ none) ⊎ (dev.state ≡ error)
      → (io_device_tick stack (some dev)).1 ≡ some dev
  unfolding io_device_tick tick_handle
  tick_refused dev h = ground arith

  tick-IsWell : {dev : Device Net} → IsWell dev → IsWell (perform stack dev tick).1
  unfolding perform
  tick-IsWell {dev} v = elim (IsWell-cases v) [
    | inl live ↦
        let (dev', e, live', n, c, k) = io_device_tick-IsLive stack live in
        rw e (IsLive-IsWell live')
    | inr idle_or_failed ↦ rw (tick_refused dev idle_or_failed) v
  ]

  start-IsWell : {dev : Device Net} → IsWell dev → IsWell (perform stack dev start).1
  unfolding perform
  start-IsWell {dev} v =
      let (out, e, how) = io_device_start_lem stack {dev = dev} v.buffers in
      rw e (elim how [
        | inl (r, i, live, s, c) ↦ IsLive-IsWell live
        | inr (inl (r, i, failed, kept)) ↦ record {
          buffers = kept;
          handle = rw failed (HandleFits-error out.1.pnet_handle);
        }
        | inr (inr (r, i, same)) ↦ rw same v
      ])

  stop_handle-IsWell :
      {dev : Device Net} (h : Option Net)
      → IsWell dev
      → IsWell (held dev (stop_handle stack dev h).1)
  unfolding stop_handle io_device_cleanup
  stop_handle-IsWell none v = v
  stop_handle-IsWell (some net) v = zero_device-IsWell Net

  update_handle-IsWell :
      {dev : Device Net} (h : Option Net) (bytes : List ℕ) (len : ℕ)
      → dev.pnet_handle ≡ h
      → len ≤ length bytes
      → IsWell dev
      → IsWell (update_handle stack dev h bytes len).1
  unfolding update_handle
  update_handle-IsWell none bytes len e h v = v
  update_handle-IsWell {dev} (some net) bytes len e h v = elim (Bool-cases (ltb 256 len)) [
    | inl long ↦ rw long v
    | inr fits ↦
        let (input, output, in_size, out_size) = v.buffers in
        let room : len ≤ 256 = ltb→ge 256 len fits in
        rw fits (record {
          buffers = (
            length-memcpy dev.input_data bytes len h (omega arith) ∙ input,
            output,
            room,
            out_size,
          );
          handle = HandleFits-some dev.state net _ (rw e at v.handle);
        })
  ]

  read_handle-IsWell :
      {dev : Device Net} (h : Option Net) (len : ℕ)
      → dev.pnet_handle ≡ h
      → RespectsBuffer
      → len ≤ 256
      → IsWell dev
      → IsWell (read_handle stack dev h len).1
  unfolding read_handle cache_output
  read_handle-IsWell none len e obeys h v = v
  read_handle-IsWell {dev} (some net) len e obeys h v =
      let kept = HandleFits-some dev.state net (output_get net 0 1 2 len).0 (rw e at v.handle) in
      elim (Bool-cases (is_zero (output_get net 0 1 2 len).1.ret)) [
        | inl read ↦
            let (input, output, in_size, out_size) = v.buffers in
            let out = (output_get net 0 1 2 len).1 in
            let (short, all) = obeys net len read in
            rw read (record {
              buffers = (
                input,
                length-memcpy dev.output_data out.bytes out.data_len (omega arith) (omega arith)
                    ∙ output,
                in_size,
                omega arith,
              );
              handle = kept;
            })
        | inr failed ↦ rw failed (record { buffers = v.buffers; handle = kept })
      ]

  -- Whatever call is made on a well-formed device, it is well-formed afterwards, if the caller owes
  -- nothing and the stack respects the buffer that it is given.
  pub perform-IsWell :
      {dev : Device Net} (c : Call)
      → RespectsBuffer
      → IsFair c
      → IsWell dev
      → IsWell (perform stack dev c).1
  unfolding perform io_device_init io_device_stop io_device_cleanup io_device_update_input
      io_device_read_output
  perform-IsWell (init cfg) obeys f v = record {
    buffers = (refl, refl, omega arith, omega arith);
    handle = tt;
  }
  perform-IsWell start obeys f v = start-IsWell v
  perform-IsWell tick obeys f v = tick-IsWell v
  perform-IsWell {dev} stop obeys f v = stop_handle-IsWell dev.pnet_handle v
  perform-IsWell cleanup obeys f v = zero_device-IsWell Net
  perform-IsWell {dev} (update_input bytes len) obeys f v =
      update_handle-IsWell dev.pnet_handle bytes len refl f v
  perform-IsWell {dev} (read_output len) obeys f v =
      read_handle-IsWell dev.pnet_handle len refl obeys f v

  -- A well-formed device, such as a zeroed one, is well-formed after any sequence of fair calls, if
  -- the stack puts no more bytes into a buffer than it is told to: it has a handle while it is
  -- connected or running, has none while idle or initialized, and its buffers keep their 256 bytes.
  pub perform_all-IsWell :
      {dev : Device Net} (cs : List Call)
      → RespectsBuffer
      → All IsFair cs
      → IsWell dev
      → IsWell (perform_all stack dev cs)
  unfolding perform_all
  perform_all-IsWell {dev = dev} [] obeys f v = v
  perform_all-IsWell {dev = dev} (c ∷ cs) obeys (f, fs) v =
      perform_all-IsWell {dev = (perform stack dev c).1} cs obeys fs
        (perform-IsWell {dev = dev} c obeys f v)
