-- ===== src/Control/Dispatch.antt =====
-- VbmDispatchCreate, VbmDispatchCleanup and VbmDispatchWrite on every branch.
use reai_board_sdk.Prelude.{
  ℕ, ◌+◌, ◌≡◌, ◌⊎◌, inl, inr, refl, ◌++◌, true, false, Bool-cases, arith, min, length, take,
}
use reai_board_sdk.Status.{Status, success, invalid_user_buffer}
use reai_board_sdk.PcmFeed.Positions.{contents, room}
use reai_board_sdk.PcmFeed.Write.{write_lem}
use reai_board_sdk.Control.{
  Control, Irp, PortDispatch, is_control, lacks_buffer, buffer_bytes, dispatch_create,
  dispatch_cleanup, dispatch_write,
}
use reai_board_sdk.Control.Lifetime.{IsPresent}

-- IRPs for any other device object go to PortCls as they are, and their answer comes back as it is.
pub dispatch_forwards :
    (port : PortDispatch) (c : Control) (object : ℕ) (irp : Irp)
    → is_control c object ≡ false
    → (dispatch_create port c object irp ≡ port object irp)
      × (dispatch_cleanup port c object irp ≡ port object irp)
      × (dispatch_write port c object irp ≡ ((port object irp).0, (port object irp).1, c))
unfolding dispatch_create dispatch_cleanup dispatch_write
dispatch_forwards port c object irp h = rw h (refl, refl, refl)

-- What completing an IRP once with a status and a count amounts to.
abbrev pub CompletedOnce : Irp → Irp → Status → ℕ → Type 0
CompletedOnce irp irp' status n =
    (irp'.status ≡ status) × (irp'.information ≡ n) × (irp'.completions ≡ irp.completions + 1)

-- A write to the control device, where it is present, is completed once, with the status that it returns. One that has a
-- length but no buffer is refused and changes nothing. Any other succeeds, reports the number of its
-- bytes that the feed had room for, and queues those.
pub dispatch_write_lem :
    (port : PortDispatch) (c : Control) (p : IsPresent c) (irp : Irp)
    → let (status, irp', c') = dispatch_write port c p.device.object irp in
      let bytes = buffer_bytes irp.system_buffer irp.write_length in
      ((lacks_buffer irp ≡ true)
        × (status ≡ invalid_user_buffer)
        × CompletedOnce irp irp' invalid_user_buffer 0
        × (c' ≡ c))
      ⊎ ((lacks_buffer irp ≡ false)
          × (status ≡ success)
          × CompletedOnce irp irp' success (min (room c.feed) (length bytes))
          × (contents c'.feed ≡ contents c.feed ++ take (room c.feed) bytes)
          × IsPresent c')
unfolding dispatch_write
dispatch_write_lem port c p irp = elim (Bool-cases (lacks_buffer irp)) [
  | inl lacks ↦ rw (own, lacks) (inl (refl, refl, (refl, refl, refl), refl))
  | inr has ↦
      let (n, queued, (b, v)) =
        write_lem (buffer_bytes irp.system_buffer irp.write_length) p.loaded in
      rw (own, has)
        (inr (
          refl,
          refl,
          (refl, n, refl),
          queued,
          record {
            device = p.device;
            there = p.there;
            ready = p.ready;
            k = p.k;
            ring = b;
            loaded = v;
          },
        ))
]
  where
    own : is_control c p.device.object ≡ true
    own = ground arith
