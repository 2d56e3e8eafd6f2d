-- ===== src/Mic.antt =====
-- virtual-mic/driver/Driver.cpp: the receiver thread's loop, which feeds the ring from datagrams, and
-- the handler that serves microphone reads from it.
pub mod Session
mod Tests
use reai_board_sdk.Prelude.{
  ℕ, zero, suc, ◌+◌, ◌-◌, ◌*◌, ◌/◌, List, [], ◌∷◌, ◌++◌, Bool, true, false, if◌then◌else◌, length,
  replicate,
}
use reai_board_sdk.SampleRing.{SampleRing, push, pop}

-- The `SInt16`s of a datagram, as bit patterns, least byte first. An odd last byte is not looked at.
unfoldable pub samples : List ℕ → List ℕ
samples [] = []
samples (lo ∷ []) = []
samples (lo ∷ hi ∷ rest) = (lo + 256 * hi) ∷ samples rest

-- `for (i = 0; i < received / 2; ++i) ring_->Push(samples[i])`
unfoldable pub push_all : SampleRing → List ℕ → SampleRing
push_all r [] = r
push_all r (x ∷ xs) = push_all (push r x) xs

-- What `recvfrom` gives: the bytes of a datagram, of which there may be none, or an error (-1).
pub data Received : Type 0 where
  datagram : List ℕ → Received
  failed : Received

-- The loop of `Run` after `bind`, on what `running_` and `recvfrom` give in each round. It also ends
-- where no byte is received.
unfoldable pub receive_loop : SampleRing → List (Bool × Received) → SampleRing
unfolding samples push_all
receive_loop r [] = r
receive_loop r ((false, _) ∷ rest) = r
receive_loop r ((true, failed) ∷ rest) = r
receive_loop r ((true, datagram []) ∷ rest) = r
receive_loop r ((true, datagram (b ∷ bytes)) ∷ rest) =
    receive_loop (push_all r (samples (b ∷ bytes))) rest

-- `Run`: nothing is received unless `bind` succeeds.
unfoldable pub run : Bool → SampleRing → List (Bool × Received) → SampleRing
unfolding receive_loop
run bound r rounds = if bound then receive_loop r rounds else r

-- `OnReadClientInput`: what `Pop` gives, then silence. The list is `samples[0 .. bytesCount / 2)`.
unfoldable pub on_read_client_input : SampleRing → ℕ → List ℕ × SampleRing
on_read_client_input r bytes_count =
    let (out, r') = pop r (bytes_count / 2) in
    (out ++ replicate (bytes_count / 2 - length out) 0, r')
