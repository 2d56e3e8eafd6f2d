-- ===== src/Mic/Session.antt =====
-- The ring behind the microphone, against the queue of samples: what every read hears.
use reai_board_sdk.Prelude.{
  ℕ, ◌-◌, ◌/◌, ◌≤◌, ◌≡◌, refl, sym, ap, ap₂, ◌∙◌, List, [], ◌∷◌, ◌++◌, arith, length, replicate,
  inl, inr, length-append, length-replicate, length-take, length-drop, if◌then◌else◌, ltb, ltb→lt,
  ltb→le, Bool-cases, Bool, true, false,
}
use reai_board_sdk.SampleRing.{SampleRing, high_water, low_water, push, pop}
use reai_board_sdk.SampleRing.Contents.{IsValid, contents, length-contents}
use reai_board_sdk.SampleRing.Push.{push-IsValid, push_refines}
use reai_board_sdk.SampleRing.Pop.{kept, pop-IsValid, pop_refines}
use reai_board_sdk.SampleRing.Queue
use reai_board_sdk.Mic.{
  Received, datagram, failed, samples, push_all, receive_loop, run, on_read_client_input,
}

-- What happens at the ring, in order: a datagram is received, or a client reads.
pub data Event : Type 0 where
  receive : ℕ → List ℕ → Event
  read : ℕ → Event

-- The reads' results of a session.
unfoldable pub session : SampleRing → List Event → List (List ℕ)
unfolding receive_loop
session r [] = []
session r (receive b bytes ∷ rest) = session (push_all r (samples (b ∷ bytes))) rest
session r (read bytes_count ∷ rest) =
    let (out, r') = on_read_client_input r bytes_count in out ∷ session r' rest

unfoldable pub queue_all : List ℕ → List ℕ → List ℕ
queue_all q [] = q
queue_all q (x ∷ xs) = queue_all (Queue.push q x) xs

-- The same on a queue of samples.
unfoldable pub queue_session : List ℕ → List Event → List (List ℕ)
unfolding queue_all Queue.pop
queue_session q [] = []
queue_session q (receive b bytes ∷ rest) = queue_session (queue_all q (samples (b ∷ bytes))) rest
queue_session q (read bytes_count ∷ rest) =
    let (out, q') = Queue.pop q (bytes_count / 2) in
    (out ++ replicate (bytes_count / 2 - length out) 0) ∷ queue_session q' rest

push-eq : {r : SampleRing} (x : ℕ) → IsValid r → contents (push r x) ≡ Queue.push (contents r) x
unfolding Queue.push
push-eq {r} x v = rw (length-contents r) (push_refines x v)

push_all-IsValid : (r : SampleRing) (xs : List ℕ) → IsValid r → IsValid (push_all r xs)
unfolding push_all
push_all-IsValid r [] v = v
push_all-IsValid r (x ∷ xs) v = push_all-IsValid (push r x) xs (push-IsValid x v)

contents-push_all :
    (r : SampleRing) (xs : List ℕ)
    → IsValid r
    → contents (push_all r xs) ≡ queue_all (contents r) xs
unfolding push_all queue_all
contents-push_all r [] v = refl
contents-push_all r (x ∷ xs) v =
    contents-push_all (push r x) xs (push-IsValid x v) ∙ ap (λ q. queue_all q xs) (push-eq x v)

-- From a valid ring, in a session of datagrams of a byte or more and reads, every read hears what the
-- queue of samples gives, padded with silence to the samples that it asked for.
pub session_refines :
    (r : SampleRing) (es : List Event) → IsValid r → session r es ≡ queue_session (contents r) es
unfolding session queue_session on_read_client_input Queue.pop
session_refines r [] v = refl
session_refines r (receive b bytes ∷ rest) v =
    session_refines (push_all r (samples (b ∷ bytes))) rest
      (push_all-IsValid r (samples (b ∷ bytes)) v)
    ∙ ap (λ q. queue_session q rest) (contents-push_all r (samples (b ∷ bytes)) v)
session_refines r (read n ∷ rest) v =
    let p = pop_refines (n / 2) v in
    ap₂ (λ out later. (out ++ replicate (n / 2 - length out) 0) ∷ later) p.0
      (session_refines (pop r (n / 2)).1 rest (pop-IsValid (n / 2) v)
        ∙ ap (λ q. queue_session q rest) p.1)

length-kept : (q : List ℕ) → length (kept q) ≤ high_water
length-kept q = elim (Bool-cases (ltb high_water (length q))) [
  | inl more ↦
      rw more
        (omega (arith, length-drop (length q - low_water) q, ltb→lt high_water (length q) more))
  | inr less ↦ rw less (ltb→le high_water (length q) less)
]

-- On a valid ring, a read returns exactly the samples asked for, leaves at most `high_water` samples
-- waiting, and keeps the ring valid.
pub read_bounds :
    {r : SampleRing} (bytes_count : ℕ)
    → IsValid r
    → let (out, r') = on_read_client_input r bytes_count in
      (length out ≡ bytes_count / 2) × (length (contents r') ≤ high_water) × IsValid r'
unfolding on_read_client_input
read_bounds {r} n v = (
  omega (
    arith,
    length-append (pop r (n / 2)).0 (replicate (n / 2 - length (pop r (n / 2)).0) 0),
    length-replicate {A = ℕ} (n / 2 - length (pop r (n / 2)).0) 0,
    ap length (pop_refines (n / 2) v).0,
    length-take (n / 2) (kept (contents r)),
  ),
  omega (
    arith,
    ap length (pop_refines (n / 2) v).1,
    length-drop (n / 2) (kept (contents r)),
    length-kept (contents r),
  ),
  pop-IsValid (n / 2) v,
)

-- The samples that the receiver takes: of the datagrams up to the first round in which `running_` is
-- off, `recvfrom` fails, or a datagram has no bytes.
unfoldable pub heard : List (Bool × Received) → List ℕ
heard [] = []
heard ((false, _) ∷ rest) = []
heard ((true, failed) ∷ rest) = []
heard ((true, datagram []) ∷ rest) = []
heard ((true, datagram (b ∷ bytes)) ∷ rest) = samples (b ∷ bytes) ++ heard rest

queue_all-append : (q xs ys : List ℕ) → queue_all q (xs ++ ys) ≡ queue_all (queue_all q xs) ys
unfolding queue_all
queue_all-append q [] ys = refl
queue_all-append q (x ∷ xs) ys = queue_all-append (Queue.push q x) xs ys

contents-receive_loop :
    (r : SampleRing) (rounds : List (Bool × Received))
    → IsValid r
    → contents (receive_loop r rounds) ≡ queue_all (contents r) (heard rounds)
unfolding receive_loop heard queue_all
contents-receive_loop r [] v = refl
contents-receive_loop r ((false, _) ∷ rest) v = refl
contents-receive_loop r ((true, failed) ∷ rest) v = refl
contents-receive_loop r ((true, datagram []) ∷ rest) v = refl
contents-receive_loop r ((true, datagram (b ∷ bytes)) ∷ rest) v =
    contents-receive_loop (push_all r (samples (b ∷ bytes))) rest
      (push_all-IsValid r (samples (b ∷ bytes)) v)
    ∙ ap (λ q. queue_all q (heard rest)) (contents-push_all r (samples (b ∷ bytes)) v)
    ∙ sym (queue_all-append (contents r) (samples (b ∷ bytes)) (heard rest))

-- Nothing is received behind an empty datagram.
receive_loop-empty :
    (r : SampleRing) (before after : List (Bool × Received))
    → receive_loop r (before ++ (true, datagram []) ∷ after) ≡ receive_loop r before
unfolding receive_loop
receive_loop-empty r [] after = refl
receive_loop-empty r ((false, _) ∷ rest) after = refl
receive_loop-empty r ((true, failed) ∷ rest) after = refl
receive_loop-empty r ((true, datagram []) ∷ rest) after = refl
receive_loop-empty r ((true, datagram (b ∷ bytes)) ∷ rest) after =
    receive_loop-empty (push_all r (samples (b ∷ bytes))) rest after

-- On a valid ring, the receiver thread queues, in order, the samples of the datagrams that arrive before
-- the first round in which it is stopped, its socket fails, or a datagram without bytes arrives, and
-- none at all if it cannot bind its port. Whatever arrives after a datagram without bytes is lost, for
-- the thread has ended.
pub run_refines :
    (bound : Bool) (r : SampleRing) (before after : List (Bool × Received))
    → IsValid r
    → (contents (run bound r before)
        ≡ (if bound then queue_all (contents r) (heard before) else contents r))
      × (run bound r (before ++ (true, datagram []) ∷ after) ≡ run bound r before)
unfolding run
run_refines true r before after v =
    (contents-receive_loop r before v, receive_loop-empty r before after)
run_refines false r before after v = (refl, refl)
