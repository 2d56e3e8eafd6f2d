-- ===== src/Control/Tests.antt =====
-- The control device of vbmcontrol.cpp at concrete states.
use reai_board_sdk.Prelude.{
  ℕ, ◌≡◌, ◌⊎◌, refl, ap, ◌∙◌, List, [], ◌∷◌, none, some, true, false, arith, length, replicate,
  length-replicate,
}
use reai_board_sdk.Status.{success, unsuccessful, invalid_user_buffer}
use reai_board_sdk.PcmFeed.{unloaded}
use reai_board_sdk.PcmFeed.Load.{IsPool}
use reai_board_sdk.PcmFeed.Positions.{contents}
use reai_board_sdk.Control.{
  Control, Answers, Irp, PortDispatch, lacks_buffer, buffer_bytes, create_control_device,
  delete_control_device, dispatch_write,
}
use reai_board_sdk.Control.Lifetime.{IsAbsent, IsPresent, Outcome, objects, create_lem, delete_lem}
use reai_board_sdk.Control.Dispatch.{CompletedOnce, dispatch_write_lem}

abbrev answers : Answers
answers = record {
  allocate = λ n. some (replicate n 0);
  device_status = success;
  new_device = record { object = 7; buffered_io = false; initializing = true };
  link_status = unsuccessful;
}

abbrev absent : Control
absent = record { device = none; feed = unloaded }

answers-IsPool : IsPool answers.allocate
answers-IsPool n b e = ap length (same e) ∙ length-replicate {A = ℕ} n 0
  where
    same : some (replicate n 0) ≡ some b → b ≡ replicate n 0
    same e = cc

create_lem_example : Outcome answers (create_control_device answers absent)
create_lem_example = create_lem answers absent answers-IsPool (refl, refl)

abbrev ring : List ℕ
ring = 0 ∷ 0 ∷ []

abbrev present : Control
present = record {
  device = some (record { object = 7; buffered_io = true; initializing = false });
  feed = record { buffer = some ring; size = 2; mask = 1; total_written = 0; total_read = 0 };
}

present-IsPresent : IsPresent present
present-IsPresent = record {
  device = record { object = 7; buffered_io = true; initializing = false };
  there = refl;
  ready = (refl, refl);
  k = 1;
  ring = ring;
  loaded = record {
    stored = refl;
    small = omega arith;
    sized = refl;
    whole = refl;
    masked = refl;
    written_in = omega arith;
    read_in = omega arith;
    fill = omega arith;
  };
}

delete_lem_example :
    IsAbsent (delete_control_device present).0
    × (objects (some 7, true) (delete_control_device present).1 ≡ (none, false))
unfolding present-IsPresent
delete_lem_example = delete_lem present present-IsPresent

-- A PortCls that refuses everything.
abbrev port : PortDispatch
port object irp = (unsuccessful, irp)

abbrev irp : Irp
irp = record {
  status = unsuccessful;
  information = 0;
  write_length = 3;
  system_buffer = some (4 ∷ 5 ∷ 6 ∷ []);
  completions = 0;
}

dispatch_write_lem_example :
    let (status, irp', c') = dispatch_write port present 7 irp in
    ((lacks_buffer irp ≡ true)
      × (status ≡ invalid_user_buffer)
      × CompletedOnce irp irp' invalid_user_buffer 0
      × (c' ≡ present))
    ⊎ ((lacks_buffer irp ≡ false)
        × (status ≡ success)
        × CompletedOnce irp irp' success 2
        × (contents c'.feed ≡ 4 ∷ 5 ∷ [])
        × IsPresent c')
unfolding present-IsPresent buffer_bytes
dispatch_write_lem_example = dispatch_write_lem port present present-IsPresent irp
