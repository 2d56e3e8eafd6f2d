-- ===== src/Stream/Session.antt =====
-- Any sequence of calls on a stream of minwavertstream.cpp whose buffer stays.
use reai_board_sdk.Prelude.{
  ℕ, suc, ◌+◌, ◌^◌, ◌<◌, ◌≤◌, ◌≡◌, inl, inr, refl, sym, subst, ◌∙◌, Bool, true, false, List, [],
  ◌∷◌, arith, Bool-cases, ltb, ◌==◌, if◌then◌else◌, length, zero-mod,
}
use reai_board_sdk.Stream.{Stream, KsState, stop, acquire, pause, run, rank}
use reai_board_sdk.Stream.Position.{Convert, update_position, update_position_at}
use reai_board_sdk.Stream.Query.{
  brought_up_to_date, get_position, get_positions, get_presentation_position,
  get_output_stream_presentation_position, get_packet_count,
}
use reai_board_sdk.Stream.Packets.{get_read_packet, set_write_packet}
use reai_board_sdk.Stream.Events.{register_notification_event, unregister_notification_event}
use reai_board_sdk.Stream.State.{Counter, enter, set_state, reset_positions, pause_dma, start_dma}
use reai_board_sdk.Stream.Timer.{timer_notify, keep_time, signal, is_completed, count_packet}
use reai_board_sdk.Stream.TimerLaws.{timer_early, timer_late}
use reai_board_sdk.Stream.Clock.{update-Moved}
use reai_board_sdk.Stream.Calls.{
  Call, ask_position, ask_positions, ask_presentation, ask_output_presentation, ask_packets,
  read_packet, write_packet, register_event, unregister_event, change_state, timer_fires, step,
  steps,
}
use reai_board_sdk.Stream.Effect.{
  IsSynced, Still, Effect, Effect-IsSynced, Still-Effect, Effect-Still, new_state, still,
  Still-Effect_same, Moved-Effect,
}

module _ (convert : Convert) (data_files : Bool) where
  brought_up_to_date-Effect :
      (s : Stream) (q : ℕ)
      → s.eos_received ≡ false
      → Effect s (brought_up_to_date convert data_files s q)
  unfolding update_position
  brought_up_to_date-Effect s q e = elim (Bool-cases (rank s.ks_state == rank run)) [
    | inl r ↦ rw r (
        Moved-Effect s _ (convert s.performance_counter_frequency q)
          (update-Moved data_files s (convert s.performance_counter_frequency q) e))
    | inr r ↦ rw r (Still-Effect_same (still s))
  ]

  ask_output-Effect :
      (s : Stream) (q : ℕ)
      → s.eos_received ≡ false
      → Effect s (get_output_stream_presentation_position convert data_files s q).2
  unfolding get_output_stream_presentation_position
  ask_output-Effect s q e = elim (Bool-cases (s.notifications_per_buffer == 0)) [
    | inl r ↦ rw r (Still-Effect_same (still s))
    | inr r ↦ rw r (brought_up_to_date-Effect s q e)
  ]

  ask_packets-Effect :
      (s : Stream) (q : ℕ)
      → s.eos_received ≡ false
      → Effect s (get_packet_count convert data_files s q).2
  unfolding get_packet_count
  ask_packets-Effect s q e = elim (Bool-cases (s.notifications_per_buffer == 0)) [
    | inl r ↦ rw r (Still-Effect_same (still s))
    | inr r ↦ rw r (brought_up_to_date-Effect s q e)
  ]

  read_packet-Effect : (s : Stream) → Effect s (get_read_packet s).2
  unfolding get_read_packet
  read_packet-Effect s = Still-Effect_same (ground arith)

  write_packet-Effect : (s : Stream) (n : ℕ) (ends : Bool) → Effect s (set_write_packet s n ends).1
  unfolding set_write_packet
  write_packet-Effect s n ends = Still-Effect_same (ground arith)

  register_event-Effect :
      (s : Stream) (has_memory : Bool) (e : ℕ)
      → Effect s (register_notification_event has_memory s e).1
  unfolding register_notification_event
  register_event-Effect s has_memory e = Still-Effect_same (ground arith)

  unregister_event-Effect : (s : Stream) (e : ℕ) → Effect s (unregister_notification_event s e).1
  unfolding unregister_notification_event
  unregister_event-Effect s e = Still-Effect_same (ground arith)

  signal-Still : (s : Stream) (completed : Bool) → Still s (signal completed (count_packet s))
  unfolding signal
  signal-Still s completed = ground arith

  keep_time-Still : (s : Stream) (now : ℕ) → Still s (keep_time s now)
  unfolding keep_time
  keep_time-Still s now = ground arith

  pause_dma-Still : (s : Stream) (q : ℕ) → Still s (pause_dma convert data_files s q)
  unfolding pause_dma
  pause_dma-Still s q = ground arith

  start_dma-Still : (s : Stream) (c : Counter) → Still s (start_dma convert data_files s c)
  unfolding start_dma
  start_dma-Still s c = ground arith

  timer-Effect :
      (s : Stream) (q : ℕ) → s.eos_received ≡ false → Effect s (timer_notify convert data_files s q)
  timer-Effect s q e =
      let now : ℕ = convert s.performance_counter_frequency q in
      let s' : Stream = keep_time s now in
      let s'' : Stream = update_position_at data_files s' now in
      let kept : Still s s' = keep_time-Still s now in
      elim (Bool-cases (is_completed s now)) [
        | inr early ↦
            subst (Effect s) (sym (timer_early convert data_files s q e early))
              (Still-Effect_same (still s))
        | inl late ↦ subst (Effect s) (sym (timer_late convert data_files s q late)) (
            Effect-Still s s'' (signal true (count_packet s''))
              (Still-Effect s s' s'' kept
                (Moved-Effect s' s'' now (update-Moved data_files s' now (kept.eos ∙ e))))
              (signal-Still s'' true))
      ]

  pause-Effect :
      (s : Stream) (c : Counter)
      → s.eos_received ≡ false
      → Effect s (record (enter convert data_files pause s c) { ks_state = pause })
  unfolding enter
  pause-Effect s c e =
      let s' : Stream =
        if ltb (rank pause) (rank s.ks_state) then pause_dma convert data_files s c.first else s in
      let s'' : Stream = brought_up_to_date convert data_files s' c.second in
      let kept : Still s s' = ground (arith, pause_dma-Still s c.first) in
      Effect-Still s s'' (record s'' { ks_state = pause })
        (Still-Effect s s' s'' kept (brought_up_to_date-Effect s' c.second (kept.eos ∙ e)))
        (new_state s'' pause)

  -- SetState moves the positions on, or to 0.
  change_state-IsSynced :
      (k : KsState) (s : Stream) (c : Counter) (n : ℕ)
      → n < 2 ^ 31
      → IsSynced s n
      → IsSynced (set_state convert data_files k s c).1 (suc n)
  unfolding set_state reset_positions
  change_state-IsSynced stop s c n few i = record {
    room = i.room;
    small = i.small;
    no_eos = refl;
    not_rendered = refl;
    together = refl;
    agree = sym (zero-mod s.dma_buffer_size);
    bound = omega arith;
  }
  change_state-IsSynced acquire s c n few i =
      Effect-IsSynced s _ n few i (Still-Effect_same (ground arith))
  change_state-IsSynced pause s c n few i = Effect-IsSynced s _ n few i (pause-Effect s c i.no_eos)
  change_state-IsSynced run s c n few i =
      Effect-IsSynced s _ n few i (Still-Effect_same (ground arith))

  step-IsSynced :
      (c : Call) (s : Stream) (n : ℕ)
      → n < 2 ^ 31
      → IsSynced s n
      → IsSynced (step convert data_files c s) (suc n)
  unfolding step get_position get_positions get_presentation_position
      get_output_stream_presentation_position get_packet_count
  step-IsSynced (ask_position q) s n few i =
      Effect-IsSynced s _ n few i (brought_up_to_date-Effect s q i.no_eos)
  step-IsSynced (ask_positions q) s n few i =
      Effect-IsSynced s _ n few i (brought_up_to_date-Effect s q i.no_eos)
  step-IsSynced (ask_presentation q) s n few i =
      Effect-IsSynced s _ n few i (brought_up_to_date-Effect s q i.no_eos)
  step-IsSynced (ask_output_presentation q) s n few i =
      Effect-IsSynced s _ n few i (ask_output-Effect s q i.no_eos)
  step-IsSynced (ask_packets q) s n few i =
      Effect-IsSynced s _ n few i (ask_packets-Effect s q i.no_eos)
  step-IsSynced read_packet s n few i = Effect-IsSynced s _ n few i (read_packet-Effect s)
  step-IsSynced (write_packet m ends) s n few i =
      Effect-IsSynced s _ n few i (write_packet-Effect s m ends)
  step-IsSynced (register_event has_memory e) s n few i =
      Effect-IsSynced s _ n few i (register_event-Effect s has_memory e)
  step-IsSynced (unregister_event e) s n few i =
      Effect-IsSynced s _ n few i (unregister_event-Effect s e)
  step-IsSynced (change_state k c) s n few i = change_state-IsSynced k s c n few i
  step-IsSynced (timer_fires q) s n few i = Effect-IsSynced s _ n few i (timer-Effect s q i.no_eos)

  -- Whatever is called on a stream that is synced and whose buffer stays, in whatever order, the position in the buffer is
  -- the linear position modulo the buffer's size, the play position is the write position, and the
  -- stream is never at an end of stream. (2 ^ 31 calls are too few for the linear position to wrap.)
  pub steps-IsSynced :
      (cs : List Call) (s : Stream) (n : ℕ)
      → n + length cs ≤ 2 ^ 31
      → IsSynced s n
      → IsSynced (steps convert data_files cs s) (n + length cs)
  unfolding steps
  steps-IsSynced [] s n few i = subst (IsSynced s) (omega arith) i
  steps-IsSynced (c ∷ cs) s n few i = subst (IsSynced _) (omega arith) (
      steps-IsSynced cs (step convert data_files c s) (suc n) (omega arith)
        (step-IsSynced c s n (omega arith) i))
