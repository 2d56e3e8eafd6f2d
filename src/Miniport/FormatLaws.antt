-- ===== src/Miniport/FormatLaws.antt =====
-- IsFormatSupported and GetModes of minwavert.cpp against what they are for.
use reai_board_sdk.Prelude.{
  ℕ, ◌≡◌, ◌≢◌, ◌≤◌, ◌<◌, ◌⊎◌, inl, inr, refl, sym, ◌∙◌, arith, List, [], ◌∷◌, Bool, true, false,
  ◌&&◌, leb, leb→le, leb→lt, ltb→lt, ltb→le, ltb, ◌==◌, Bool-cases, none, some, length,
}
use reai_board_sdk.Status.{success, no_match, invalid_parameter, buffer_too_small}
use reai_board_sdk.Miniport.{Miniport, Format}
use reai_board_sdk.Miniport.Formats.{
  format_extensible, waveformatex_bytes, extension_bytes, extract_waveformatex_id,
  extension_matches, format_matches, any_matches, supported_formats, supported_modes,
  is_format_supported, give_modes, get_modes,
}

-- The two formats agree in all that a stream is created with: `c` is either plain, with the tag of the
-- pin's sub-format, or extensible, with the pin's extension.
pub record Agrees (p c : Format) : Type 0 where
  pub major : p.major_format ≡ c.major_format
  pub sub : p.sub_format ≡ c.sub_format
  pub same_specifier : p.specifier ≡ c.specifier
  pub large : waveformatex_bytes ≤ p.format_size
  pub same_channels : c.channels ≡ p.channels
  pub same_rate : c.samples_per_sec ≡ p.samples_per_sec
  pub same_align : c.block_align ≡ p.block_align
  pub same_bits : c.bits_per_sample ≡ p.bits_per_sample
  pub wave :
      ((c.format_tag ≢ format_extensible)
        × (c.format_tag ≡ extract_waveformatex_id p.wave_sub_format))
      ⊎ ((c.format_tag ≡ format_extensible)
          × (extension_bytes ≤ c.cb_size)
          × (c.valid_bits_per_sample ≡ p.valid_bits_per_sample)
          × (c.channel_mask ≡ p.channel_mask)
          × (c.wave_sub_format ≡ p.wave_sub_format))

and-true : (a b : Bool) → (a && b) ≡ true → (a ≡ true) × (b ≡ true)
and-true true b e = (refl, e)
and-true false b e = absurd (ground (arith, e))

matches-Agrees : (p c : Format) → format_matches p c ≡ true → Agrees p c
unfolding format_matches extension_matches
matches-Agrees p c h = record {
  major = ground arith;
  sub = ground arith;
  same_specifier = ground arith;
  large = ground arith;
  same_channels = ground arith;
  same_rate = ground arith;
  same_align = ground arith;
  same_bits = ground arith;
  wave = ground arith;
}

Agrees-matches : (p c : Format) → Agrees p c → format_matches p c ≡ true
unfolding format_matches extension_matches
Agrees-matches p c a = ground (arith, a)

-- A format of the list agrees, or none does.
pub data SomeAgrees (c : Format) : List Format → Type 0 where
  this_one : (p : Format) (formats : List Format) → Agrees p c → SomeAgrees c (p ∷ formats)
  later_one :
      (p : Format) (formats : List Format) → SomeAgrees c formats → SomeAgrees c (p ∷ formats)

pub data NoneAgrees (c : Format) : List Format → Type 0 where
  no_formats : NoneAgrees c []
  not_this_one :
      (p : Format) (formats : List Format)
      → ¬ (Agrees p c)
      → NoneAgrees c formats
      → NoneAgrees c (p ∷ formats)

any_matches_lem :
    (formats : List Format) (c : Format)
    → ((any_matches formats c ≡ success) × SomeAgrees c formats)
      ⊎ ((any_matches formats c ≡ no_match) × NoneAgrees c formats)
unfolding any_matches
any_matches_lem [] c = inr (refl, no_formats)
any_matches_lem (p ∷ formats) c = elim (Bool-cases (format_matches p c)) [
  | inl yes_ ↦ rw yes_ (inl (refl, this_one p formats (matches-Agrees p c yes_)))
  | inr no_ ↦ elim (any_matches_lem formats c) [
    | inl (e, some_) ↦ rw no_ (inl (e, later_one p formats some_))
    | inr (e, none_) ↦ rw no_ (
        inr
          (e, not_this_one p formats (λ a. true-ne_false (sym (Agrees-matches p c a) ∙ no_)) none_))
  ]
]
  where
    true-ne_false : true ≢ false
    true-ne_false e = ground (arith, e)

-- IsFormatSupported succeeds exactly for a pin of the filter with a format that agrees with the one in
-- question; it refuses a pin outside of the filter as a parameter, and answers STATUS_NO_MATCH
-- where no format of the pin agrees.
pub is_format_supported_lem :
    (m : Miniport) (pin : ℕ) (c : Format)
    → ((pin < m.pin_count)
        × (is_format_supported m pin c ≡ success)
        × SomeAgrees c (supported_formats m pin))
      ⊎ ((pin < m.pin_count)
          × (is_format_supported m pin c ≡ no_match)
          × NoneAgrees c (supported_formats m pin))
      ⊎ ((m.pin_count ≤ pin) × (is_format_supported m pin c ≡ invalid_parameter))
unfolding is_format_supported
is_format_supported_lem m pin c = elim (Bool-cases (leb m.pin_count pin)) [
  | inl out ↦ rw out (inr (inr (leb→le m.pin_count pin out, refl)))
  | inr in_range ↦ elim (any_matches_lem (supported_formats m pin) c) [
    | inl (e, found) ↦ rw in_range (inl (leb→lt m.pin_count pin in_range, e, found))
    | inr (e, missing) ↦ rw in_range (inr (inl (leb→lt m.pin_count pin in_range, e, missing)))
  ]
]

-- GetModes in two calls: on a pin of the filter that has modes, a call without a buffer gives their
-- number, a call with a buffer for that number or more gives all of them, and one with a smaller buffer
-- fails, writes nothing and gives the number.
pub get_modes_lem :
    (m : Miniport) (pin room num : ℕ)
    → pin < m.pin_count
    → 0 < length (supported_modes m pin)
    → (get_modes m pin none num ≡ (success, length (supported_modes m pin), []))
      × (((length (supported_modes m pin) ≤ room)
            × (get_modes m pin (some room) room
                ≡ (success, length (supported_modes m pin), supported_modes m pin)))
          ⊎ ((room < length (supported_modes m pin))
              × (get_modes m pin (some room) room
                  ≡ (buffer_too_small, length (supported_modes m pin), []))))
unfolding get_modes give_modes
get_modes_lem m pin room num in_range some_modes =
    rw (out, ne)
      (
        refl,
        elim (Bool-cases (ltb room (length (supported_modes m pin)))) [
          | inl few ↦ rw few (inr (ltb→lt room (length (supported_modes m pin)) few, refl))
          | inr fits ↦ rw fits (inl (ltb→le room (length (supported_modes m pin)) fits, refl))
        ],
      )
  where
    out : leb m.pin_count pin ≡ false
    out = ground (arith, in_range)

    ne : (length (supported_modes m pin) == 0) ≡ false
    ne = ground (arith, some_modes)
