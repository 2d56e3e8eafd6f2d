-- ===== src/Miniport/NewStream.antt =====
-- NewStream of minwavert.cpp on an accounted miniport and a loaded feed: what a new stream finds.
use reai_board_sdk.Prelude.{
  ℕ, suc, ◌+◌, ◌<◌, ◌≡◌, ◌≢◌, ◌⊎◌, inl, inr, refl, sym, ap, ◌∙◌, arith, List, length, [], Bool,
  true, false, if◌then◌else◌, Option, eq→eqb, ne→eqb, subst,
}
use reai_board_sdk.Status.{Status, success, not_supported, nt_success}
use reai_board_sdk.PcmFeed.{Feed}
use reai_board_sdk.PcmFeed
use reai_board_sdk.PcmFeed.Invariant.{IsLoaded}
use reai_board_sdk.PcmFeed.Positions.{contents}
use reai_board_sdk.PcmFeed.Read.{reset_lem}
use reai_board_sdk.Miniport.{
  Miniport, Format, PinType, no_pin, bridge_pin, system_render_pin, system_capture_pin, pin_type_of,
  is_capture, is_render, validate_stream_create, stream_created,
}
use reai_board_sdk.Miniport.Formats.{is_format_supported, supported_formats}
use reai_board_sdk.Miniport.FormatLaws.{SomeAgrees, is_format_supported_lem}
use reai_board_sdk.Miniport.Table.{taken, occurrences, occurrences-cache_stream}
use reai_board_sdk.Miniport.Accounts.{
  IsAccounted, HasTable, available, created_as, created_lem, rendering-HasTable,
}
use reai_board_sdk.Miniport.Create.{StreamAnswers, Streams, new_stream}
use reai_board_sdk.Miniport.CreateLaws.{Outcome, new_stream-Outcome}

-- A capture stream is counted, and finds an empty feed in working order.
record Captures (s s' : Streams) (pin k : ℕ) (b : List ℕ) : Type 0 where
  pub through : pin_type_of s.miniport pin ≡ system_capture_pin
  pub counted : s'.miniport.system_allocated ≡ s.miniport.system_allocated + 1
  pub table : s'.miniport.system_streams ≡ s.miniport.system_streams
  pub empty : contents s'.feed ≡ []
  pub working : IsLoaded s'.feed k b

-- A render stream is counted and in the table once more than before, every other as often as before,
-- and the feed is as before.
record Renders (s s' : Streams) (pin stream : ℕ) : Type 0 where
  pub through : pin_type_of s.miniport pin ≡ system_render_pin
  pub counted : s'.miniport.system_allocated ≡ s.miniport.system_allocated + 1
  pub entered :
      occurrences s'.miniport.system_streams stream
      ≡ suc (occurrences s.miniport.system_streams stream)
  pub others :
      (other : ℕ)
      → stream ≢ other
      → occurrences s'.miniport.system_streams other ≡ occurrences s.miniport.system_streams other
  pub feed : s'.feed ≡ s.feed

-- What NewStream may do to an accounted miniport, with a loaded feed of 2 ^ k bytes.
pub Created : Streams → ℕ → Bool → Format → ℕ → ℕ → List ℕ → Status × Streams → Type 0
Created s pin capture format stream k b (status, s') =
    ((nt_success status ≡ false) × (s' ≡ s))
    ⊎ ((status ≡ success)
        × (pin < s.miniport.pin_count)
        × SomeAgrees format (supported_formats s.miniport pin)
        × (s.miniport.system_allocated < s.miniport.max_system_streams)
        × (((capture ≡ true) × Captures s s' pin k b)
            ⊎ ((capture ≡ false) × Renders s s' pin stream)))

only_capture :
    (t : PinType) (status : Status)
    → (if is_capture t then status else not_supported) ≡ success
    → t ≡ system_capture_pin
only_capture system_capture_pin status h = refl
only_capture no_pin status h = absurd (ground (arith, h))
only_capture bridge_pin status h = absurd (ground (arith, h))
only_capture system_render_pin status h = absurd (ground (arith, h))

only_render :
    (t : PinType) (status : Status)
    → (if is_render t then status else not_supported) ≡ success
    → t ≡ system_render_pin
only_render system_render_pin status h = refl
only_render no_pin status h = absurd (ground (arith, h))
only_render bridge_pin status h = absurd (ground (arith, h))
only_render system_capture_pin status h = absurd (ground (arith, h))

admitted_capture :
    (m : Miniport) (pin : ℕ)
    → validate_stream_create m pin true ≡ success
    → pin_type_of m pin ≡ system_capture_pin
unfolding validate_stream_create
admitted_capture m pin h = only_capture (pin_type_of m pin) _ h

admitted_render :
    (m : Miniport) (pin : ℕ)
    → validate_stream_create m pin false ≡ success
    → pin_type_of m pin ≡ system_render_pin
unfolding validate_stream_create
admitted_render m pin h = only_render (pin_type_of m pin) _ h

supported-SomeAgrees :
    (m : Miniport) (pin : ℕ) (format : Format)
    → is_format_supported m pin format ≡ success
    → (pin < m.pin_count) × SomeAgrees format (supported_formats m pin)
supported-SomeAgrees m pin format h = elim (is_format_supported_lem m pin format) [
  | inl (in_range, e, found) ↦ (in_range, found)
  | inr (inl (in_range, e, missing)) ↦ absurd (ground (arith, h, e))
  | inr (inr (out, e)) ↦ absurd (ground (arith, h, e))
]

module _ {s s' : Streams} {captures : ℕ} (pin stream : ℕ) (v : IsAccounted s.miniport captures)
    (registered : s'.miniport ≡ stream_created s.miniport pin stream) where
  capture-Captures :
      {k : ℕ} {b : List ℕ}
      → IsLoaded s.feed k b
      → validate_stream_create s.miniport pin true ≡ success
      → s'.feed ≡ PcmFeed.reset s.feed
      → Captures s s' pin k b
  unfolding created_as
  capture-Captures {k} {b} loaded h fed =
      let through = admitted_capture s.miniport pin h in
      let e = registered ∙ created_lem s.miniport pin stream system_capture_pin through in
      record {
        through = through;
        counted =
            ap (λ (m : Miniport). m.system_allocated) e
            ∙ omega (arith, available s.miniport pin true h, v.small);
        table = ap (λ (m : Miniport). m.system_streams) e;
        empty = ap contents fed ∙ (reset_lem loaded).0;
        working = subst (λ f. IsLoaded f k b) (sym fed) (reset_lem loaded).1;
      }

  render-Renders :
      pin < length s.miniport.pins
      → validate_stream_create s.miniport pin false ≡ success
      → s'.feed ≡ s.feed
      → Renders s s' pin stream
  unfolding created_as HasTable
  render-Renders inside h fed =
      let through = admitted_render s.miniport pin h in
      let e = registered ∙ created_lem s.miniport pin stream system_render_pin through in
      let table : HasTable s.miniport = rendering-HasTable s.miniport pin v.slots inside through in
      let free : taken s.miniport.system_streams < length s.miniport.system_streams =
        omega (arith, table, v.counted, available s.miniport pin false h) in
      record {
        through = through;
        counted =
            ap (λ (m : Miniport). m.system_allocated) e
            ∙ omega (arith, available s.miniport pin false h, v.small);
        entered =
            ap (λ (m : Miniport). occurrences m.system_streams stream) e
            ∙ occurrences-cache_stream s.miniport.system_streams stream stream free
            ∙ ap (λ c. (if c then 1 else 0) + occurrences s.miniport.system_streams stream)
                (eq→eqb stream stream refl)
            ∙ omega arith;
        others = λ other differs.
            ap (λ (m : Miniport). occurrences m.system_streams other) e
            ∙ occurrences-cache_stream s.miniport.system_streams stream other free
            ∙ ap (λ c. (if c then 1 else 0) + occurrences s.miniport.system_streams other)
                (ne→eqb stream other differs)
            ∙ omega arith;
        feed = fed;
      }

-- On an accounted miniport and a loaded feed, and for one of the filter's pins, NewStream fails and
-- leaves the miniport and the feed as they are, or it succeeds: then one of the pin's formats agrees with
-- that of the stream, there was room for a stream, and the count is one more. A capture stream is on a
-- capture pin and finds the feed empty and in working order; a render stream is on a render pin, is in
-- the table once more than before, and nothing else changes in the table or the feed.
pub new_stream-Created :
    (a : StreamAnswers) (s : Streams) (pin : ℕ) (capture : Bool) (format : Format)
    (attributes : Option (Status × List ℕ)) (stream : ℕ) {captures k : ℕ} {b : List ℕ}
    → IsAccounted s.miniport captures
    → IsLoaded s.feed k b
    → pin < length s.miniport.pins
    → Created s pin capture format stream k b (new_stream a s pin capture format attributes stream)
unfolding Created Outcome
new_stream-Created a s pin true format attributes stream v loaded inside =
    elim (new_stream-Outcome a s pin true format attributes stream) [
      | inl refused ↦ inl refused
      | inr (done, valid, supported, registered, fed) ↦
          let (in_range, found) = supported-SomeAgrees s.miniport pin format supported in
          inr (
            done,
            in_range,
            found,
            available s.miniport pin true valid,
            inl (refl, capture-Captures pin stream v registered loaded valid fed),
          )
    ]
new_stream-Created a s pin false format attributes stream v loaded inside =
    elim (new_stream-Outcome a s pin false format attributes stream) [
      | inl refused ↦ inl refused
      | inr (done, valid, supported, registered, fed) ↦
          let (in_range, found) = supported-SomeAgrees s.miniport pin format supported in
          inr (
            done,
            in_range,
            found,
            available s.miniport pin false valid,
            inr (refl, render-Renders pin stream v registered inside valid fed),
          )
    ]
