-- ===== src/Property/Level.antt =====
-- virtual-mic/driver-windows/Source/Utilities/kshelper.cpp: the handlers of the volume, mute, peak meter
-- and CPU resources properties, on the mixer behind the adapter, and the
-- normalisation of Inc/definitions.h. A LONG is its bit pattern.
use reai_board_sdk.Prelude.{
  ℕ, zero, suc, ◌+◌, ◌-◌, ◌*◌, ◌/◌, ◌%◌, ◌^◌, Bool, ltb, leb, ◌==◌, ◌&&◌, not, if◌then◌else◌,
}
use reai_board_sdk.Status.{Status, success, invalid_parameter, invalid_device_request, nt_success}
use reai_board_sdk.Adapter.{
  Adapter, mixer_mute_read, mixer_volume_read, mixer_peak_meter_read, mixer_mute_write,
  mixer_volume_write,
}
use reai_board_sdk.Property.{
  Request, Answer, Handler, nothing, level, type_get, type_set, type_basic_support, asks, with_size,
  validate_property_params, ulong_bytes, basic_support, basic_support_volume, basic_support_mute,
  basic_support_peak_meter2,
}

-- `v > 0` and `a < b` of LONGs, and `-v`.
abbrev pub is_positive : ℕ → Bool
is_positive v = ltb 0 v && ltb v (2 ^ 31)

abbrev pub less_long : ℕ → ℕ → Bool
less_long a b = ltb ((a + 2 ^ 31) % 2 ^ 32) ((b + 2 ^ 31) % 2 ^ 32)

abbrev pub negate : ℕ → ℕ
negate v = (2 ^ 32 - v % 2 ^ 32) % 2 ^ 32

-- `v / step` of a LONG, towards 0.
abbrev pub divide_long : ℕ → ℕ → ℕ
divide_long v step = if ltb v (2 ^ 31) then v / step else negate (negate v / step)

-- VALUE_NORMALIZE_P, VALUE_NORMALIZE and VALUE_NORMALIZE_IN_RANGE_EX, wrapping at 32 bits.
unfoldable pub value_normalize_p : ℕ → ℕ → ℕ
value_normalize_p v step = divide_long ((v + step / 2) % 2 ^ 32) step * step % 2 ^ 32

unfoldable pub value_normalize : ℕ → ℕ → ℕ
unfolding value_normalize_p
value_normalize v step =
    if is_positive v then value_normalize_p v step else negate (value_normalize_p (negate v) step)

unfoldable pub value_normalize_in_range : ℕ → ℕ → ℕ → ℕ → ℕ
unfolding value_normalize
value_normalize_in_range v low high step =
    if less_long high v then high else (if less_long v low then low else value_normalize v step)

-- VOLUME_NORMALIZE_IN_RANGE
abbrev pub volume_normalize_in_range : ℕ → ℕ
volume_normalize_in_range v = value_normalize_in_range v 0xFFA00000 0 0x8000

-- PEAKMETER_NORMALIZE_IN_RANGE
abbrev pub peak_meter_normalize_in_range : ℕ → ℕ
peak_meter_normalize_in_range v = value_normalize_in_range v 0x80000000 0x7FFFFFFF 0x1000

-- ALL_CHANNELS_ID
abbrev pub all_channels_id : ℕ
all_channels_id = 0xFFFFFFFF

-- A request with its node, the channel at `Instance`, and what `Value` points to.
pub record LevelRequest : Type 0 where
  pub request : Request
  pub node : ℕ
  pub channel : ℕ
  pub value : ℕ

-- `ulChannel == ALL_CHANNELS_ID ? 0 : ulChannel`
abbrev pub channel_read : LevelRequest → ℕ
channel_read c = if c.channel == all_channels_id then 0 else c.channel

-- `for (i = 0; i < ulChannel; ++i)`, from channel `i` with `count` rounds to go.
unfoldable pub write_channels : (ℕ → Adapter → Adapter) → ℕ → ℕ → Adapter → Adapter
write_channels write zero i a = a
write_channels write (suc count) i a = write_channels write count (i + 1) (write i a)

-- The branch for SET.
unfoldable pub set_level : (ℕ → ℕ → ℕ → Adapter → Adapter) → LevelRequest → ℕ → Adapter → Adapter
unfolding write_channels
set_level write c value a =
    if c.channel == all_channels_id
    then write_channels (λ i. write c.node i value) c.channel 0 a
    else write c.node c.channel value a

-- GET and SET of the volume, of the mute, where TRUE is 1, and of the peak meter, which is never set.
abbrev pub volume_level : LevelRequest → Adapter → ℕ
volume_level c a = mixer_volume_read a c.node (channel_read c)

abbrev pub set_volume : LevelRequest → Adapter → Adapter
set_volume c = set_level mixer_volume_write c (volume_normalize_in_range c.value)

abbrev pub mute_level : LevelRequest → Adapter → ℕ
mute_level c a = mixer_mute_read a c.node (channel_read c)

abbrev pub set_mute : LevelRequest → Adapter → Adapter
set_mute c = set_level mixer_mute_write c (if c.value == 0 then 0 else 1)

abbrev pub peak_level : LevelRequest → Adapter → ℕ
peak_level c a = peak_meter_normalize_in_range (mixer_peak_meter_read a c.node (channel_read c))

abbrev pub keep_level : LevelRequest → Adapter → Adapter
keep_level c a = a

-- What the handlers do with the status and the request of ValidatePropertyParams: `read` is the value
-- for GET, and `set` what SET does.
unfoldable pub on_level :
    ℕ
    → (LevelRequest → Adapter → ℕ)
    → (LevelRequest → Adapter → Adapter)
    → LevelRequest
    → Adapter
    → Status × Request
    → Status × Request × Answer × Adapter
on_level max_channels read set c a (status, r) =
    if nt_success status
    then (if leb max_channels c.channel && not (c.channel == all_channels_id)
        then (invalid_parameter, r, nothing, a)
        else (if asks r type_get
            then (success, with_size r ulong_bytes, level (read c a), a)
            else (if asks r type_set
                then (success, r, nothing, set c a)
                else (success, r, nothing, a))))
    else (status, r, nothing, a)

-- The answer to a request for basic support.
unfoldable pub support_level :
    Handler → LevelRequest → Adapter → Status × Request × Answer × Adapter
support_level support c a = let answer = support c.request in (answer.0, answer.1, answer.2, a)

-- PropertyHandler_Volume
unfoldable pub volume : ℕ → LevelRequest → Adapter → Status × Request × Answer × Adapter
unfolding support_level basic_support_volume on_level validate_property_params set_level
    mixer_volume_write mixer_volume_read value_normalize_in_range
volume max_channels c a =
    if asks c.request type_basic_support
    then support_level (basic_support_volume max_channels) c a
    else on_level max_channels volume_level set_volume c a (validate_property_params c.request 4 4)

-- PropertyHandler_Mute
unfoldable pub mute : ℕ → LevelRequest → Adapter → Status × Request × Answer × Adapter
unfolding support_level basic_support_mute on_level validate_property_params set_level
    mixer_mute_write mixer_mute_read
mute max_channels c a =
    if asks c.request type_basic_support
    then support_level (basic_support_mute max_channels) c a
    else on_level max_channels mute_level set_mute c a (validate_property_params c.request 4 4)

-- PropertyHandler_PeakMeter2, which has no branch for SET.
unfoldable pub peak_meter2 : ℕ → LevelRequest → Adapter → Status × Request × Answer × Adapter
unfolding support_level basic_support_peak_meter2 on_level validate_property_params
    mixer_peak_meter_read value_normalize_in_range
peak_meter2 max_channels c a =
    if asks c.request type_basic_support
    then support_level (basic_support_peak_meter2 max_channels) c a
    else on_level max_channels peak_level keep_level c a (validate_property_params c.request 4 4)

-- The answer of PropertyHandler_CpuResources to GET; KSAUDIO_CPU_RESOURCES_NOT_HOST_CPU is 0.
unfoldable pub cpu_get : Status × Request → Status × Request × Answer
cpu_get (status, r) =
    if nt_success status then (status, with_size r ulong_bytes, level 0) else (status, r, nothing)

-- PropertyHandler_CpuResources; VT_UI4 is 19.
unfoldable pub cpu_resources : Handler
unfolding cpu_get validate_property_params basic_support
cpu_resources r =
    if asks r type_get
    then cpu_get (validate_property_params r ulong_bytes 0)
    else (if asks r type_basic_support
        then basic_support 0x201 19 r
        else (invalid_device_request, r, nothing))
