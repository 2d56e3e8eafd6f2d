-- ===== src/Miniport/Accounts.antt =====
-- The miniport's count of streams against its table: what the two say of the streams, and how
-- StreamCreated and StreamClosed change them.
use reai_board_sdk.Prelude.{
  ℕ, ◌⊎◌, inl, inr, List, ◌+◌, ◌^◌, ◌≤◌, ◌<◌, ◌≡◌, ◌≢◌, refl, sym, ap, ◌∙◌, arith, Bool, true,
  false, ltb, ltb→lt, if◌then◌else◌, length,
}
use reai_board_sdk.Status.{nt_success, success, insufficient_resources, not_supported}
use reai_board_sdk.Stream.Words.{add32, sub32}
use reai_board_sdk.Miniport.{
  Miniport, Slot, PinType, system_render_pin, pin_type_of, is_capture, is_render,
  validate_stream_create, cache_stream, clear_stream, stream_created, free_stream,
}
use reai_board_sdk.Miniport.Table.{taken}

-- The table has one slot for each stream that is allowed.
unfoldable pub HasTable : Miniport → Type 0
HasTable m = length m.system_streams ≡ m.max_system_streams

-- The filter has no pin to render through.
unfoldable pub OnlyCaptures : Miniport → Type 0
OnlyCaptures m = (pin : ℕ) → pin < length m.pins → pin_type_of m pin ≢ system_render_pin

-- What the count and the table say of `captures` streams on capture pins: the count is that of all
-- streams, and the table is there if there is something to enter in it.
pub record IsAccounted (m : Miniport) (captures : ℕ) : Type 0 where
  pub slots : HasTable m ⊎ OnlyCaptures m
  pub counted : m.system_allocated ≡ taken m.system_streams + captures
  pub bounded : m.system_allocated ≤ m.max_system_streams
  pub small : m.max_system_streams < 2 ^ 32

admitted :
    (b c : Bool)
    → (if b then (if c then success else insufficient_resources) else not_supported) ≡ success
    → c ≡ true
admitted true true h = refl
admitted true false h = ap nt_success h
admitted false c h = absurd (true-ne_false (sym (ap nt_success h)))
  where
    true-ne_false : true ≢ false
    true-ne_false e = ground (arith, e)

-- Where ValidateStreamCreate succeeds, there is room for a stream.
pub available :
    (m : Miniport) (pin : ℕ) (capture : Bool)
    → validate_stream_create m pin capture ≡ success
    → m.system_allocated < m.max_system_streams
unfolding validate_stream_create
available m pin true h =
    ltb→lt m.system_allocated m.max_system_streams
      (admitted (is_capture (pin_type_of m pin)) (ltb m.system_allocated m.max_system_streams) h)
available m pin false h =
    ltb→lt m.system_allocated m.max_system_streams
      (admitted (is_render (pin_type_of m pin)) (ltb m.system_allocated m.max_system_streams) h)

module _ (m : Miniport) (pin stream : ℕ) where
  -- StreamCreated and StreamClosed, by the type of the pin.
  unfoldable pub created_as : PinType → Miniport
  created_as t =
      let allocated : Miniport = record m { system_allocated = add32 m.system_allocated 1 } in
      if is_capture t
      then allocated
      else (if is_render t
          then record allocated { system_streams = cache_stream m.system_streams stream }
          else m)

  unfoldable pub closed_as : PinType → Miniport
  closed_as t =
      let freed : Miniport = record m { system_allocated = sub32 m.system_allocated 1 } in
      if is_capture t
      then freed
      else (if is_render t
          then record freed { system_streams = clear_stream m.system_streams stream }
          else m)

  pub created_lem :
      (t : PinType) → pin_type_of m pin ≡ t → stream_created m pin stream ≡ created_as t
  unfolding stream_created created_as
  created_lem t e = ap created_as e

  pub closed_lem : (t : PinType) → pin_type_of m pin ≡ t → free_stream m pin stream ≡ closed_as t
  unfolding free_stream closed_as
  closed_lem t e = ap closed_as e

-- A stream that renders has a table to be entered in.
pub rendering-HasTable :
    (m : Miniport) (pin : ℕ)
    → HasTable m ⊎ OnlyCaptures m
    → pin < length m.pins
    → pin_type_of m pin ≡ system_render_pin
    → HasTable m
unfolding OnlyCaptures
rendering-HasTable m pin (inl t) inside e = t
rendering-HasTable m pin (inr only) inside e = absurd (only pin inside e)

-- Both stay where only the slots change, and not their number.
pub slots-kept :
    (m : Miniport) (allocated : ℕ) (slots : List Slot)
    → length slots ≡ length m.system_streams
    → HasTable m ⊎ OnlyCaptures m
    → let m' = record m { system_allocated = allocated; system_streams = slots } in
      HasTable m' ⊎ OnlyCaptures m'
unfolding HasTable OnlyCaptures
slots-kept m allocated slots e (inl t) = inl (e ∙ t)
slots-kept m allocated slots e (inr only) = inr only
