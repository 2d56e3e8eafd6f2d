-- ===== src/Property/Tests.antt =====
-- Runs of the property helpers of kshelper.cpp, and the theorems about them there.
use reai_board_sdk.Prelude.{
  ◌<◌, ◌≤◌, ◌≡◌, ◌⊎◌, refl, true, arith, some, none, [], inl, inr, ◌+◌, ◌^◌,
}
use reai_board_sdk.Status.{success, buffer_overflow}
use reai_board_sdk.Property.{
  Request, Item, Handler, nothing, flags, level, with_size, basic_support_volume,
  basic_support_mute, basic_support_peak_meter2, property_dispatch,
}
use reai_board_sdk.Mixer.{Mixer, mixer_reset, get_mixer_volume}
use reai_board_sdk.Mixer.Laws.{mixer_reset-IsWhole, updated}
use reai_board_sdk.Property.Level.{
  LevelRequest, volume, mute, peak_meter2, volume_normalize_in_range, value_normalize_in_range,
  value_normalize, value_normalize_p,
}
use reai_board_sdk.Property.LevelLaws.{Harmless, volume-set_get, levels-Harmless}
use reai_board_sdk.Property.Normalize.{IsLevel, volume_normalize_lem}
use reai_board_sdk.Property.Laws.{Fits, basic_support_lem, two_calls}

-- KSPROPERTY_TYPE_GET without a buffer
abbrev request : Request
request = record { verb = 1; instance_size = 8; value_size = 0; has_value = true }

abbrev with_flags : Handler
with_flags r = (success, r, flags 1)

abbrev item : Item
item = record {
  item_flags = 1;
  min_property = 8;
  min_data = 4;
  get_handler = some with_flags;
  set_handler = none;
  support_handler = none;
}

basic_support_lem_example :
    Fits (with_size request 88) (basic_support_volume 2 (with_size request 88))
    × Fits (with_size request 88) (basic_support_mute 2 (with_size request 88))
    × Fits (with_size request 88) (basic_support_peak_meter2 2 (with_size request 88))
basic_support_lem_example = basic_support_lem 2 (with_size request 88) (omega arith)

two_calls_example :
    let (status, r', answer) = property_dispatch item request in
    (status ≡ buffer_overflow)
    × (answer ≡ nothing)
    × (r'.value_size ≡ 4)
    × (property_dispatch item r' ≡ (success, r', flags 1))
two_calls_example =
    two_calls item with_flags request refl (omega arith) refl refl (omega arith) refl

abbrev fresh : Mixer
fresh = record {
  mute_controls = [];
  volume_controls = [];
  peak_meter_controls = [];
  mux = 0;
  b_dev_specific = 0;
  i_dev_specific = 0;
  ui_dev_specific = 0;
}

-- Channel 1 of two, at node 3: the volume is set to -10 dB and a bit.
abbrev set_request : LevelRequest
set_request = record {
  request = record { verb = 2; instance_size = 4; value_size = 4; has_value = true };
  node = 3;
  channel = 1;
  value = 0xFFF5FF00;
}

-- The same, for all channels.
abbrev get_request : LevelRequest
get_request = record {
  request = record { verb = 1; instance_size = 4; value_size = 4; has_value = true };
  node = 3;
  channel = 0xFFFFFFFF;
  value = 0;
}

normalize_run : volume_normalize_in_range 0xFFF5FF00 ≡ 0xFFF60000
unfolding value_normalize_in_range value_normalize value_normalize_p
normalize_run = refl

volume_normalize_lem_example :
    let n = volume_normalize_in_range 0xFFF5FF00 in
    IsLevel n
    × (volume_normalize_in_range n ≡ n)
    × (0xFFF5FF00 < 2 ^ 31 → n ≡ 0)
    × (2 ^ 31 ≤ 0xFFF5FF00 → 0xFFF5FF00 < 0xFFA00000 → n ≡ 0xFFA00000)
    × (0xFFA00000 ≤ 0xFFF5FF00
        → (n ≤ 0xFFF5FF00 + 0x4000) × (0xFFF5FF00 ≤ n + 0x4000)
          ⊎ (n ≡ 0) × (2 ^ 32 ≤ 0xFFF5FF00 + 0x4000))
volume_normalize_lem_example = volume_normalize_lem 0xFFF5FF00 (omega arith)

volume-set_get_example :
    let m = mixer_reset fresh in
    let after = volume 2 set_request (some m) in
    let reply = volume 2 get_request after.3 in
    (after.0 ≡ success)
    × (reply.0 ≡ success)
    × (reply.2 ≡ level (updated 3 (volume_normalize_in_range 0xFFF5FF00) 3 (get_mixer_volume m)))
volume-set_get_example =
    volume-set_get {max_channels = 2} {c = set_request} {g = get_request} (mixer_reset fresh)
      (mixer_reset-IsWhole fresh)
      (record {
        verb = refl;
        has_value = refl;
        has_room = omega arith;
        has_instance = omega arith;
        has_channel = inl (omega arith);
      })
      (record {
        verb = refl;
        has_value = refl;
        has_room = omega arith;
        has_instance = omega arith;
        has_channel = inr refl;
      })

levels-Harmless_example :
    Harmless (some fresh) (volume 1 set_request (some fresh))
    × Harmless (some fresh) (mute 1 set_request (some fresh))
    × Harmless (some fresh) (peak_meter2 1 set_request (some fresh))
levels-Harmless_example = levels-Harmless 1 set_request (some fresh)
