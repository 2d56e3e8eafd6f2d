-- ===== src/Stream/TimerLaws.antt =====
-- TimerNotifyRT of minwavertstream.cpp: when a packet is counted and the registered events are set.
use reai_board_sdk.Prelude.{
  ℕ, ◌+◌, ◌-◌, ◌*◌, ◌/◌, ◌%◌, ◌^◌, ◌<◌, ◌≤◌, leb→le, leb→lt, ◌≡◌, ◌⊎◌, inl, inr, refl, ap, ◌∙◌,
  Bool, true, false, List, ◌++◌, arith, ◌==◌, Bool-cases, if◌then◌else◌,
}
use reai_board_sdk.Stream.Words.{add64, sub64, mul32, low32}
use reai_board_sdk.Stream.{Stream, KsState, run, rank}
use reai_board_sdk.Stream.Position.{Convert, displacement, update_position, update_position_at}
use reai_board_sdk.Stream.Clock.{update-Moved}
use reai_board_sdk.Stream.Timer.{
  timer_notify, keep_time, count_packet, signal, is_completed, dpc_elapsed,
}

-- The events set once those of the list are, in a running state.
unfoldable pub events_after : KsState → List ℕ → List ℕ → List ℕ
events_after k set list = if rank k == rank run then set ++ list else set

events_after_congr :
    {k k' : KsState} {set set' list list' : List ℕ}
    → k ≡ k'
    → set ≡ set'
    → list ≡ list'
    → events_after k set list ≡ events_after k' set' list'
events_after_congr p q r = cc

-- What a stream that is not at its end shows after the interrupt.
signal-count_packet :
    (s : Stream)
    → s.eos_received ≡ false
    → s.last_buffer_rendered ≡ false
    → let s' = signal true (count_packet s) in
      (s'.packet_counter ≡ add64 s.packet_counter 1)
      × (s'.events_set ≡ events_after s.ks_state s.events_set s.notification_list)
      × (s'.timer_running ≡ s.timer_running)
      × (s'.linear_position ≡ s.linear_position)
      × (s'.last_dpc_time_stamp ≡ s.last_dpc_time_stamp)
      × (s'.dpc_time_carry_forward ≡ s.dpc_time_carry_forward)
unfolding signal events_after
signal-count_packet s e r = ground arith

-- The two ways through the interrupt.
pub timer_early :
    (convert : Convert) (data_files : Bool) (s : Stream) (qpc : ℕ)
    → s.eos_received ≡ false
    → is_completed s (convert s.performance_counter_frequency qpc) ≡ false
    → timer_notify convert data_files s qpc ≡ s
unfolding timer_notify keep_time
timer_early convert data_files s qpc e h = rw (h, e) refl

pub timer_late :
    (convert : Convert) (data_files : Bool) (s : Stream) (qpc : ℕ)
    → let now = convert s.performance_counter_frequency qpc in
      is_completed s now ≡ true
      → timer_notify convert data_files s qpc
        ≡ signal true (count_packet (update_position_at data_files (keep_time s now) now))
unfolding timer_notify keep_time update_position
timer_late convert data_files s qpc h = rw h refl

-- The time since the last interval ended, with what was carried forward from it, in 100 ns.
abbrev pub waited : Stream → ℕ → ℕ
waited s now = now - s.last_dpc_time_stamp + s.dpc_time_carry_forward

-- The test of the code, for times in order: the interval, in 100 ns, against the low 32 bits of the wait.
completed_after :
    (s : Stream) (now : ℕ)
    → s.last_dpc_time_stamp ≤ now
    → waited s now < 2 ^ 64
    → is_completed s now ≡ true
    → s.notification_interval_ms * 10000 ≤ waited s now % 2 ^ 32
completed_after s now order small h =
    omega (arith, leb→le s.notification_interval_ms (low32 (dpc_elapsed s now) / 10000) h)

not_completed_before :
    (s : Stream) (now : ℕ)
    → s.last_dpc_time_stamp ≤ now
    → waited s now < 2 ^ 64
    → is_completed s now ≡ false
    → waited s now % 2 ^ 32 < s.notification_interval_ms * 10000
not_completed_before s now order small h =
    omega (arith, leb→lt s.notification_interval_ms (low32 (dpc_elapsed s now) / 10000) h)

-- While a stream is not at its end and has not rendered its last buffer, and for times in order that fit
-- 64 bits: TimerNotifyRT compares the low 32 bits of the time waited, in 100 ns, with the notification
-- interval. Where they are less it changes nothing. Else it counts one packet, moves the position by the
-- bytes that fell due, leaves the timer as it is, sets each registered event, if the stream runs, and
-- starts the next interval now, with the time waited beyond this one carried forward in full.
pub timer_lem :
    (convert : Convert) (data_files : Bool) (s : Stream) (qpc : ℕ)
    → let now = convert s.performance_counter_frequency qpc in
      s.eos_received ≡ false
      → s.last_buffer_rendered ≡ false
      → s.last_dpc_time_stamp ≤ now
      → waited s now < 2 ^ 64
      → let s' = timer_notify convert data_files s qpc in
        ((waited s now % 2 ^ 32 < s.notification_interval_ms * 10000) × (s' ≡ s))
        ⊎ ((s.notification_interval_ms * 10000 ≤ waited s now % 2 ^ 32)
            × (s'.packet_counter ≡ add64 s.packet_counter 1)
            × (s'.events_set ≡ events_after s.ks_state s.events_set s.notification_list)
            × (s'.timer_running ≡ s.timer_running)
            × (s'.linear_position ≡ add64 s.linear_position (displacement s now))
            × (s'.last_dpc_time_stamp ≡ now)
            × (s'.dpc_time_carry_forward + s.notification_interval_ms * 10000 ≡ waited s now))
unfolding keep_time
timer_lem convert data_files s qpc e r order small = elim (Bool-cases (is_completed s now)) [
  | inr early ↦
      inl
        (not_completed_before s now order small early, timer_early convert data_files s qpc e early)
  | inl late ↦
      let v = update-Moved data_files completed now e in
      let (packets, events, timer, linear, stamp, carry) =
        signal-count_packet (update_position_at data_files completed now) v.eos (v.rendered ∙ r) in
      let over = completed_after s now order small late in
      inr (
        over,
        ap (λ u. u.packet_counter) (after late) ∙ packets ∙ ap (λ n. add64 n 1) v.packets,
        ap (λ u. u.events_set) (after late) ∙ events ∙ events_after_congr v.state v.events v.list,
        ap (λ u. u.timer_running) (after late) ∙ timer ∙ v.timer,
        ap (λ u. u.linear_position) (after late) ∙ linear ∙ v.linear,
        ap (λ u. u.last_dpc_time_stamp) (after late) ∙ stamp ∙ v.dpc_stamp,
        ap (λ n. n + s.notification_interval_ms * 10000)
              (ap (λ u. u.dpc_time_carry_forward) (after late) ∙ carry ∙ v.dpc_carry)
            ∙ left_over over,
      )
]
  where
    now : ℕ
    now = convert s.performance_counter_frequency qpc

    completed : Stream
    completed = record s {
      dpc_time_carry_forward = sub64 (dpc_elapsed s now) (mul32 s.notification_interval_ms 10000);
      last_dpc_time_stamp = now;
    }

    after :
        is_completed s now ≡ true
        → timer_notify convert data_files s qpc
          ≡ signal true (count_packet (update_position_at data_files completed now))
    after late =
        timer_late convert data_files s qpc late
        ∙ ap (λ u. signal true (count_packet (update_position_at data_files u now))) kept
      where
        kept : keep_time s now ≡ completed
        kept = rw late refl

    left_over :
        s.notification_interval_ms * 10000 ≤ waited s now % 2 ^ 32
        → completed.dpc_time_carry_forward + s.notification_interval_ms * 10000 ≡ waited s now
    left_over over = omega arith
