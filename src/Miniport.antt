-- ===== src/Miniport.antt =====
-- virtual-mic/driver-windows/Source/Main/minwavert.{h,cpp}: the miniport's pins, the count of its
-- streams and their table. The spin lock of the tables is taken and released inside each operation.
pub mod Formats
pub mod Attributes
pub mod Drm
pub mod Create
pub mod Table
pub mod Accounts
pub mod Streams
pub mod FormatLaws
pub mod AttributeLaws
pub mod AttributeRoundtrip
pub mod DrmLaws
pub mod CreateLaws
pub mod NewStream
mod Tests
use reai_board_sdk.Prelude.{
  ℕ, ◌^◌, ◌%◌, ◌+◌, List, [], ◌∷◌, Bool, true, false, Option, none, some, ltb, ◌==◌, if◌then◌else◌,
  get_or, replicate,
}
use reai_board_sdk.Status.{
  Status, success, insufficient_resources, invalid_device_state, not_supported,
}
use reai_board_sdk.Stream.Words.{add32, sub32}

-- PINTYPE
pub data PinType : Type 0 where
  no_pin : PinType
  bridge_pin : PinType
  system_render_pin : PinType
  system_capture_pin : PinType

-- The KSDATAFORMAT_WAVEFORMATEXTENSIBLE fields that are read here. GUIDs are numbers.
pub record Format : Type 0 where
  pub format_size : ℕ
  pub major_format : ℕ
  pub sub_format : ℕ
  pub specifier : ℕ
  pub format_tag : ℕ
  pub channels : ℕ
  pub samples_per_sec : ℕ
  pub block_align : ℕ
  pub bits_per_sample : ℕ
  pub cb_size : ℕ
  pub valid_bits_per_sample : ℕ
  pub channel_mask : ℕ
  pub wave_sub_format : ℕ

-- PIN_DEVICE_FORMATS_AND_MODES, with the modes less their default formats.
pub record Pin : Type 0 where
  pub pin_type : PinType
  pub wave_formats : List Format
  pub modes : List ℕ

-- A slot of m_SystemStreams: NULL, or a stream.
abbrev pub Slot : Type 0
Slot = Option ℕ

-- The members of CMiniportWaveRT for the streams and the pins. `pin_count` is of the descriptor;
-- m_SystemStreams that is NULL is the empty list. `beyond` is what lies in memory where a pin's index is
-- behind the table, which the code reads without a check: anything.
pub record Miniport : Type 0 where
  pub pins : List Pin
  pub beyond : ℕ → Pin
  pub pin_count : ℕ
  pub is_render_device : Bool
  pub system_allocated : ℕ
  pub max_system_streams : ℕ
  pub system_streams : List Slot

-- `m_DeviceFormatsAndModes[nPinId]`
abbrev pub pin_at : Miniport → ℕ → Pin
pin_at m pin = get_or m.pins pin (m.beyond pin)

-- IsSystemCapturePin, IsSystemRenderPin, IsBridgePin
abbrev pub pin_type_of : Miniport → ℕ → PinType
pin_type_of m pin = (pin_at m pin).pin_type

abbrev pub is_capture : PinType → Bool
is_capture system_capture_pin = true
is_capture _ = false

abbrev pub is_render : PinType → Bool
is_render system_render_pin = true
is_render _ = false

abbrev pub is_bridge : PinType → Bool
is_bridge bridge_pin = true
is_bridge _ = false

abbrev pub is_system_capture_pin : Miniport → ℕ → Bool
is_system_capture_pin m pin = is_capture (pin_type_of m pin)

abbrev pub is_system_render_pin : Miniport → ℕ → Bool
is_system_render_pin m pin = is_render (pin_type_of m pin)

abbrev pub is_bridge_pin : Miniport → ℕ → Bool
is_bridge_pin m pin = is_bridge (pin_type_of m pin)

-- VERIFY_PIN_INSTANCE_RESOURCES_AVAILABLE
abbrev pub verify_resources : Miniport → Status
verify_resources m =
    if ltb m.system_allocated m.max_system_streams then success else insufficient_resources

-- ValidateStreamCreate
unfoldable pub validate_stream_create : Miniport → ℕ → Bool → Status
validate_stream_create m pin capture =
    if capture
    then (if is_system_capture_pin m pin then verify_resources m else not_supported)
    else (if is_system_render_pin m pin then verify_resources m else not_supported)

-- `if (streams[i] == NULL) { streams[i] = _Stream; break; }`
unfoldable pub cache_stream : List Slot → ℕ → List Slot
cache_stream [] stream = []
cache_stream (none ∷ slots) stream = some stream ∷ slots
cache_stream (some s ∷ slots) stream = some s ∷ cache_stream slots stream

-- `if (streams[i] == _Stream) { streams[i] = NULL; break; }`
unfoldable pub clear_stream : List Slot → ℕ → List Slot
clear_stream [] stream = []
clear_stream (none ∷ slots) stream = none ∷ clear_stream slots stream
clear_stream (some s ∷ slots) stream =
    let rest = some s ∷ clear_stream slots stream in if s == stream then none ∷ slots else rest

-- StreamCreated
unfoldable pub stream_created : Miniport → ℕ → ℕ → Miniport
stream_created m pin stream =
    let allocated = record m { system_allocated = add32 m.system_allocated 1 } in
    if is_system_capture_pin m pin
    then allocated
    else (if is_system_render_pin m pin
        then record allocated { system_streams = cache_stream m.system_streams stream }
        else m)

-- StreamClosed up to UpdateDrmRights, which follows for a render stream (Drm.stream_closed).
unfoldable pub free_stream : Miniport → ℕ → ℕ → Miniport
free_stream m pin stream =
    let freed = record m { system_allocated = sub32 m.system_allocated 1 } in
    if is_system_capture_pin m pin
    then freed
    else (if is_system_render_pin m pin
        then record freed { system_streams = clear_stream m.system_streams stream }
        else m)

-- Init; `got_memory` if the pool has the table.
unfoldable pub init_miniport : Miniport → Bool → Status × Miniport
init_miniport m got_memory =
    let cleared : Miniport = record m { system_allocated = 0; system_streams = [] } in
    if m.is_render_device
    then (if m.max_system_streams == 0
        then (invalid_device_state, cleared)
        else (if got_memory
            then (success, record cleared { system_streams = replicate m.max_system_streams none })
            else (insufficient_resources, cleared)))
    else (success, cleared)
