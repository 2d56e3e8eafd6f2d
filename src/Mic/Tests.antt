-- ===== src/Mic/Tests.antt =====
-- Runs of the microphone of Driver.cpp, and the theorems about it at concrete sessions.
use reai_board_sdk.Prelude.{◌≤◌, ◌≡◌, refl, List, [], ◌∷◌, ◌++◌, Bool, true, length}
use reai_board_sdk.SampleRing.{high_water, init}
use reai_board_sdk.SampleRing.Queue
use reai_board_sdk.SampleRing.Contents.{IsValid, init-IsValid, contents}
use reai_board_sdk.Mic.{Received, datagram, samples, run, on_read_client_input}
use reai_board_sdk.Mic.Session.{
  Event, receive, read, session, queue_session, queue_all, heard, session_refines, read_bounds,
  run_refines,
}

samples_run : samples (1 ∷ 2 ∷ 3 ∷ []) ≡ 513 ∷ []
unfolding samples
samples_run = refl

abbrev script : List Event
script = receive 1 (0 ∷ 2 ∷ 0 ∷ []) ∷ read 6 ∷ read 2 ∷ []

session_refines_example : session init script ≡ (1 ∷ 2 ∷ 0 ∷ []) ∷ (0 ∷ []) ∷ []
unfolding init queue_session samples Queue.push
session_refines_example = session_refines init script init-IsValid

read_bounds_example :
    (length (on_read_client_input init 7).0 ≡ 3)
    × (length (contents (on_read_client_input init 7).1) ≤ high_water)
    × IsValid (on_read_client_input init 7).1
read_bounds_example = read_bounds 7 init-IsValid

abbrev rounds : List (Bool × Received)
rounds = (true, datagram (5 ∷ 0 ∷ [])) ∷ []

-- Two datagrams with an empty one between them: the second is not heard.
run_refines_example :
    (contents (run true init rounds) ≡ 5 ∷ [])
    × (run true init (rounds ++ (true, datagram []) ∷ (true, datagram (6 ∷ 0 ∷ [])) ∷ [])
        ≡ run true init rounds)
unfolding init heard queue_all Queue.push samples
run_refines_example = run_refines true init rounds ((true, datagram (6 ∷ 0 ∷ [])) ∷ []) init-IsValid
