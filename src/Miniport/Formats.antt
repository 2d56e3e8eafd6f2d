-- ===== src/Miniport/Formats.antt =====
-- Main/minwavert.cpp: the formats and modes of a pin, and the property for proposed formats.
use reai_board_sdk.Prelude.{
  ℕ, ◌%◌, List, [], ◌∷◌, Bool, true, not, ◌&&◌, ◌||◌, Option, none, some, ltb, leb, ◌==◌,
  if◌then◌else◌, length,
}
use reai_board_sdk.Status.{
  Status, success, invalid_parameter, no_match, not_supported, buffer_too_small, buffer_overflow,
  invalid_device_request, nt_success,
}
use reai_board_sdk.Property.{
  nothing, Handler, asks, with_size, basic_support, vt_illegal, type_get, type_set,
  type_basic_support,
}
use reai_board_sdk.Miniport.{
  Miniport, Format, pin_at, is_system_capture_pin, is_system_render_pin, is_bridge_pin,
}

-- WAVE_FORMAT_EXTENSIBLE
abbrev pub format_extensible : ℕ
format_extensible = 0xFFFE

-- sizeof(KSDATAFORMAT_WAVEFORMATEX) and of its extensible form, of ksmedia.h, and what WAVEFORMATEXTENSIBLE adds to WAVEFORMATEX.
abbrev pub waveformatex_bytes : ℕ
waveformatex_bytes = 88

abbrev pub extensible_bytes : ℕ
extensible_bytes = 104

abbrev pub extension_bytes : ℕ
extension_bytes = 22

-- EXTRACT_WAVEFORMATEX_ID: the low half of Data1, which a GUID's number begins with.
abbrev pub extract_waveformatex_id : ℕ → ℕ
extract_waveformatex_id guid = guid % 65536

-- The checks of WAVEFORMATEXTENSIBLE.
unfoldable pub extension_matches : Format → Format → Bool
extension_matches p c =
    leb extension_bytes c.cb_size
    && c.valid_bits_per_sample == p.valid_bits_per_sample
    && c.channel_mask == p.channel_mask
    && c.wave_sub_format == p.wave_sub_format

-- The body of IsFormatSupported's loop: false where it continues, true where it breaks. `p` is the
-- pin's format, `c` the one in question.
unfoldable pub format_matches : Format → Format → Bool
format_matches p c =
    p.major_format == c.major_format
    && p.sub_format == c.sub_format
    && p.specifier == c.specifier
    && leb waveformatex_bytes p.format_size
    && (c.format_tag == format_extensible
        || c.format_tag == extract_waveformatex_id p.wave_sub_format)
    && c.channels == p.channels
    && c.samples_per_sec == p.samples_per_sec
    && c.block_align == p.block_align
    && c.bits_per_sample == p.bits_per_sample
    && (if c.format_tag == format_extensible then extension_matches p c else true)

-- The loop of IsFormatSupported.
unfoldable pub any_matches : List Format → Format → Status
any_matches [] c = no_match
any_matches (p ∷ formats) c =
    let rest = any_matches formats c in if format_matches p c then success else rest

-- GetPinSupportedDeviceFormats, GetPinSupportedDeviceModes
abbrev pub supported_formats : Miniport → ℕ → List Format
supported_formats m pin = (pin_at m pin).wave_formats

abbrev pub supported_modes : Miniport → ℕ → List ℕ
supported_modes m pin = (pin_at m pin).modes

-- IsFormatSupported
unfoldable pub is_format_supported : Miniport → ℕ → Format → Status
is_format_supported m pin c =
    if leb m.pin_count pin then invalid_parameter else any_matches (supported_formats m pin) c

-- GetModes: the status, the number of modes and what is written to the buffer for `room` modes, if
-- there is one.
unfoldable pub give_modes : List ℕ → Option ℕ → ℕ → Status × ℕ × List ℕ
give_modes modes none num = (success, length modes, [])
give_modes modes (some _) num =
    if ltb num (length modes)
    then (buffer_too_small, length modes, [])
    else (success, length modes, modes)

unfoldable pub get_modes : Miniport → ℕ → Option ℕ → ℕ → Status × ℕ × List ℕ
get_modes m pin buffer num =
    if leb m.pin_count pin
    then (invalid_parameter, num, [])
    else (if length (supported_modes m pin) == 0
        then (not_supported, num, [])
        else give_modes (supported_modes m pin) buffer num)

-- The status of a pin for PropertyHandlerProposedFormat.
abbrev pub streaming_status : Miniport → ℕ → Status
streaming_status m pin =
    if is_system_render_pin m pin || is_system_capture_pin m pin
    then success
    else (if is_bridge_pin m pin then not_supported else invalid_parameter)

-- PropertyHandlerProposedFormat of the pin `pin` and the format `c` at Value; `flags` are the item's, and
-- `pin_bytes` is what an instance needs to hold a KSP_PIN.
unfoldable pub proposed_format : Miniport → ℕ → ℕ → ℕ → Format → Handler
proposed_format m pin_bytes item_flags pin c r =
    if ltb r.instance_size pin_bytes
    then (invalid_parameter, r, nothing)
    else (if not (nt_success (streaming_status m pin))
        then (streaming_status m pin, r, nothing)
        else (if asks r type_basic_support
            then basic_support item_flags vt_illegal r
            else (if r.value_size == 0
                then (buffer_overflow, with_size r extensible_bytes, nothing)
                else (if ltb r.value_size extensible_bytes
                    then (buffer_too_small, r, nothing)
                    else (if asks r type_get
                        then (invalid_device_request, r, nothing)
                        else (if asks r type_set
                            then (is_format_supported m pin c, r, nothing)
                            else (success, r, nothing)))))))
