-- ===== src/Miniport/Streams.antt =====
-- The miniport's count of streams against its table, over any sequence of creations and closings.
use reai_board_sdk.Prelude.{
  ℕ, zero, suc, inl, inr, none, replicate, length-replicate, ◌==◌, [], ◌+◌, ◌^◌, ◌<◌, ◌≡◌, refl,
  sym, ap, ◌∙◌, subst, arith, Bool, true, false, eq→eqb, if◌then◌else◌, length,
}
use reai_board_sdk.Status.{Status, invalid_device_state, success, insufficient_resources}
use reai_board_sdk.Miniport.{
  Miniport, Slot, init_miniport, system_render_pin, system_capture_pin, pin_type_of,
  validate_stream_create, stream_created, free_stream,
}
use reai_board_sdk.Miniport.Table.{
  taken, occurrences, taken-cache_stream, length-cache_stream, length-clear_stream,
  occurrences-cache_stream, taken-clear_stream, occurrences-clear_stream,
}
use reai_board_sdk.Miniport.Accounts.{
  HasTable, OnlyCaptures, IsAccounted, available, created_as, closed_as, created_lem, closed_lem,
  rendering-HasTable, slots-kept,
}

-- A creation that ValidateStreamCreate admits, and the closing of a stream. The pins are the filter's.
pub data StreamStep (m : Miniport) (captures : ℕ) : Miniport → ℕ → Type 0 where
  create_capture :
      (pin stream : ℕ)
      → pin_type_of m pin ≡ system_capture_pin
      → validate_stream_create m pin true ≡ success
      → StreamStep m captures (stream_created m pin stream) (suc captures)
  create_render :
      (pin stream : ℕ)
      → pin < length m.pins
      → pin_type_of m pin ≡ system_render_pin
      → validate_stream_create m pin false ≡ success
      → StreamStep m captures (stream_created m pin stream) captures
  close_capture :
      (pin stream before : ℕ)
      → pin_type_of m pin ≡ system_capture_pin
      → captures ≡ suc before
      → StreamStep m captures (free_stream m pin stream) before
  close_render :
      (pin stream : ℕ)
      → pin_type_of m pin ≡ system_render_pin
      → 0 < occurrences m.system_streams stream
      → StreamStep m captures (free_stream m pin stream) captures

step-IsAccounted :
    {m m' : Miniport} {captures captures' : ℕ}
    → IsAccounted m captures
    → StreamStep m captures m' captures'
    → IsAccounted m' captures'
unfolding created_as closed_as HasTable
step-IsAccounted {m} {captures = c} v (create_capture pin stream e h) =
    subst (λ x. IsAccounted x (suc c)) (sym (created_lem m pin stream system_capture_pin e))
      (record {
        slots = slots-kept m _ m.system_streams refl v.slots;
        counted = omega (arith, v.counted, v.bounded, v.small, available m pin true h);
        bounded = omega (arith, v.small, available m pin true h);
        small = v.small;
      })
step-IsAccounted {m} {captures = c} v (create_render pin stream inside e h) =
    subst (λ x. IsAccounted x c) (sym (created_lem m pin stream system_render_pin e))
      (record {
        slots = slots-kept m _ _ (length-cache_stream m.system_streams stream) v.slots;
        counted = omega (
          arith,
          v.counted,
          v.small,
          available m pin false h,
          taken-cache_stream m.system_streams stream (
              omega (
                arith,
                rendering-HasTable m pin v.slots inside e,
                v.counted,
                available m pin false h,
              )),
        );
        bounded = omega (arith, v.small, available m pin false h);
        small = v.small;
      })
step-IsAccounted {m} v (close_capture pin stream before e h) =
    subst (λ x. IsAccounted x before) (sym (closed_lem m pin stream system_capture_pin e))
      (record {
        slots = slots-kept m _ m.system_streams refl v.slots;
        counted = omega (arith, v.counted, v.bounded, v.small, h);
        bounded = omega (arith, v.bounded, v.small, v.counted, h);
        small = v.small;
      })
step-IsAccounted {m} {captures = c} v (close_render pin stream e h) =
    subst (λ x. IsAccounted x c) (sym (closed_lem m pin stream system_render_pin e))
      (record {
        slots = slots-kept m _ _ (length-clear_stream m.system_streams stream) v.slots;
        counted =
            omega
              (arith, v.counted, v.bounded, v.small, taken-clear_stream m.system_streams stream h);
        bounded =
            omega
              (arith, v.bounded, v.small, v.counted, taken-clear_stream m.system_streams stream h);
        small = v.small;
      })

-- Any number of steps.
pub data StreamSteps (m : Miniport) (captures : ℕ) : Miniport → ℕ → Type 0 where
  done : StreamSteps m captures m captures
  then_step :
      {m' m'' : Miniport} {c' c'' : ℕ}
      → StreamSteps m captures m' c'
      → StreamStep m' c' m'' c''
      → StreamSteps m captures m'' c''

steps-IsAccounted :
    {m : Miniport} {captures : ℕ} {m' : Miniport} {captures' : ℕ}
    → IsAccounted m captures
    → StreamSteps m captures m' captures'
    → IsAccounted m' captures'
steps-IsAccounted v done = v
steps-IsAccounted v (then_step before step) = step-IsAccounted (steps-IsAccounted v before) step

taken-replicate : (n : ℕ) → taken (replicate n none) ≡ 0
taken-replicate zero = refl
taken-replicate (suc n) = taken-replicate n

module _ (m : Miniport) where
  -- Init, by its three tests.
  initialized : Bool → Bool → Bool → Status × Miniport
  initialized render no_streams got_memory =
      let cleared : Miniport = record m { system_allocated = 0; system_streams = [] } in
      if render
      then (if no_streams
          then (invalid_device_state, cleared)
          else (if got_memory
              then (
                success,
                record cleared { system_streams = replicate m.max_system_streams none },
              )
              else (insufficient_resources, cleared)))
      else (success, cleared)

  initialized-IsAccounted :
      (render no_streams got_memory : Bool)
      → m.max_system_streams < 2 ^ 32
      → (render ≡ false → OnlyCaptures m)
      → (initialized render no_streams got_memory).0 ≡ success
      → IsAccounted (initialized render no_streams got_memory).1 0
  unfolding initialized HasTable OnlyCaptures
  initialized-IsAccounted false no_streams got_memory small only h = record {
    slots = inr (only refl);
    counted = refl;
    bounded = omega arith;
    small = small;
  }
  initialized-IsAccounted true false true small only h = record {
    slots = inl (length-replicate {A = Slot} m.max_system_streams none);
    counted = omega (arith, taken-replicate m.max_system_streams);
    bounded = omega arith;
    small = small;
  }
  initialized-IsAccounted true true got_memory small only h = absurd (ground (arith, h))
  initialized-IsAccounted true false false small only h = absurd (ground (arith, h))

  -- Init makes an accounted miniport.
  init_miniport-IsAccounted :
      (got_memory : Bool)
      → m.max_system_streams < 2 ^ 32
      → (m.is_render_device ≡ false → OnlyCaptures m)
      → (init_miniport m got_memory).0 ≡ success
      → IsAccounted (init_miniport m got_memory).1 0
  unfolding init_miniport initialized
  init_miniport-IsAccounted got_memory small only h =
      initialized-IsAccounted m.is_render_device (m.max_system_streams == 0) got_memory small only h

-- From Init on, which succeeds, of a miniport whose limit of streams is a ULONG and that has pins to
-- render through only if it is a render device: after any sequence of creations that ValidateStreamCreate admits and of closings of streams
-- that are open, the count is that of the streams in the table and on capture pins, and at most as large
-- as is allowed; and the table has a slot for each stream that is allowed, or the filter has no pin to
-- render through.
pub init-IsAccounted :
    (m : Miniport) (got_memory : Bool) {m' : Miniport} {captures : ℕ}
    → m.max_system_streams < 2 ^ 32
    → (m.is_render_device ≡ false → OnlyCaptures m)
    → (init_miniport m got_memory).0 ≡ success
    → StreamSteps (init_miniport m got_memory).1 0 m' captures
    → IsAccounted m' captures
init-IsAccounted m got_memory small only h steps =
    steps-IsAccounted (init_miniport-IsAccounted m got_memory small only h) steps

-- On an accounted miniport that has its table, a render stream that ValidateStreamCreate admits is found
-- in the table once more than before, and StreamClosed takes it out again: every stream is there as often as before, and
-- the count is as before.
pub created-closed :
    {m : Miniport} {captures : ℕ} (pin stream other : ℕ)
    → IsAccounted m captures
    → HasTable m
    → pin_type_of m pin ≡ system_render_pin
    → validate_stream_create m pin false ≡ success
    → let created = stream_created m pin stream in
      let closed = free_stream created pin stream in
      (occurrences created.system_streams stream ≡ suc (occurrences m.system_streams stream))
      × (occurrences closed.system_streams other ≡ occurrences m.system_streams other)
      × (closed.system_allocated ≡ m.system_allocated)
unfolding created_as closed_as HasTable
created-closed {m} {captures} pin stream other v table e h =
    subst Result (sym (created_lem m pin stream system_render_pin e)) (
      own,
      ap (λ (x : Miniport). occurrences x.system_streams other)
            (closed_lem w pin stream system_render_pin e)
          ∙ omega (
            arith,
            occurrences-cache_stream m.system_streams stream other free,
            occurrences-clear_stream w.system_streams stream other (omega (arith, own)),
          ),
      ap (λ (x : Miniport). x.system_allocated) (closed_lem w pin stream system_render_pin e)
          ∙ omega (arith, available m pin false h, v.small),
    )
  where
    w : Miniport
    w = created_as m pin stream system_render_pin

    free : taken m.system_streams < length m.system_streams
    free = omega (arith, table, v.counted, available m pin false h)

    own : occurrences w.system_streams stream ≡ suc (occurrences m.system_streams stream)
    own =
        occurrences-cache_stream m.system_streams stream stream free
        ∙ ap (λ b. (if b then 1 else 0) + occurrences m.system_streams stream)
            (eq→eqb stream stream refl)
        ∙ omega arith

    Result : Miniport → Type 0
    Result created =
        let closed = free_stream created pin stream in
        (occurrences created.system_streams stream ≡ suc (occurrences m.system_streams stream))
        × (occurrences closed.system_streams other ≡ occurrences m.system_streams other)
        × (closed.system_allocated ≡ m.system_allocated)
