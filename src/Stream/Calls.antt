-- ===== src/Stream/Calls.antt =====
-- The calls on a stream of minwavertstream.cpp whose buffer stays, and any sequence of them.
use reai_board_sdk.Prelude.{ℕ, Bool, List, [], ◌∷◌}
use reai_board_sdk.Stream.{Stream, KsState}
use reai_board_sdk.Stream.Position.{Convert}
use reai_board_sdk.Stream.Query.{
  get_position, get_positions, get_presentation_position, get_output_stream_presentation_position,
  get_packet_count,
}
use reai_board_sdk.Stream.Packets.{get_read_packet, set_write_packet}
use reai_board_sdk.Stream.Events.{register_notification_event, unregister_notification_event}
use reai_board_sdk.Stream.State.{Counter, set_state}
use reai_board_sdk.Stream.Timer.{timer_notify}

-- The calls, with what they are given: the counter's value where they read it.
pub data Call : Type 0 where
  ask_position ask_positions ask_presentation ask_output_presentation ask_packets : ℕ → Call
  read_packet : Call
  write_packet : ℕ → Bool → Call
  register_event : Bool → ℕ → Call
  unregister_event : ℕ → Call
  change_state : KsState → Counter → Call
  timer_fires : ℕ → Call

module _ (convert : Convert) (data_files : Bool) where
  -- The stream after a call.
  unfoldable pub step : Call → Stream → Stream
  step (ask_position q) s = (get_position convert data_files s q).3
  step (ask_positions q) s = (get_positions convert data_files s q).4
  step (ask_presentation q) s = (get_presentation_position convert data_files s q).3
  step (ask_output_presentation q) s =
      (get_output_stream_presentation_position convert data_files s q).2
  step (ask_packets q) s = (get_packet_count convert data_files s q).2
  step read_packet s = (get_read_packet s).2
  step (write_packet n ends) s = (set_write_packet s n ends).1
  step (register_event has_memory e) s = (register_notification_event has_memory s e).1
  step (unregister_event e) s = (unregister_notification_event s e).1
  step (change_state k c) s = (set_state convert data_files k s c).1
  step (timer_fires q) s = timer_notify convert data_files s q

  unfoldable pub steps : List Call → Stream → Stream
  steps [] s = s
  steps (c ∷ cs) s = steps cs (step c s)
