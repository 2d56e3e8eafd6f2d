-- ===== src/Property.antt =====
-- virtual-mic/driver-windows/Source/Utilities/kshelper.cpp: the checks and the dispatch of property
-- requests, and the answers to requests for basic support. What is written through `Value` is returned.
pub mod Laws
pub mod Level
pub mod SetLevel
pub mod LevelLaws
pub mod Normalize
mod Tests
use reai_board_sdk.Prelude.{
  ℕ, ◌+◌, ◌*◌, ◌%◌, ◌^◌, bit_and, Bool, true, false, not, ltb, leb, ◌==◌, if◌then◌else◌, Option,
  none, some, List, replicate,
}
use reai_board_sdk.Status.{
  Status, success, unsuccessful, invalid_parameter, buffer_overflow, buffer_too_small,
  not_supported, invalid_device_request,
}

-- The flags of `Verb`, of ks.h.
abbrev pub type_get : ℕ
type_get = 1

abbrev pub type_set : ℕ
type_set = 2

abbrev pub type_basic_support : ℕ
type_basic_support = 0x200

-- KSPROPERTY_TYPE_ALL
abbrev pub type_all : ℕ
type_all = 0x203

-- The fields of PCPROPERTY_REQUEST that are read or written here; `has_value` if `Value` is not NULL.
pub record Request : Type 0 where
  pub verb : ℕ
  pub instance_size : ℕ
  pub value_size : ℕ
  pub has_value : Bool

-- KSPROPERTY_DESCRIPTION, less what is always 0: the type's set is KSPROPTYPESETID_General or GUID_NULL.
pub record Description : Type 0 where
  pub access_flags : ℕ
  pub description_size : ℕ
  pub is_general : Bool
  pub type_id : ℕ
  pub members_list_count : ℕ

-- KSPROPERTY_STEPPING_LONG, with LONGs as bit patterns.
pub record Range : Type 0 where
  pub signed_maximum : ℕ
  pub signed_minimum : ℕ
  pub stepping_delta : ℕ

-- What is written: nothing, the access flags, a level (a LONG, a ULONG or a BOOL), a description, or a
-- description with the ranges that follow its header.
pub data Answer : Type 0 where
  nothing : Answer
  flags : ℕ → Answer
  level : ℕ → Answer
  described : Description → Answer
  ranged : Description → List Range → Answer

abbrev pub Handler : Type 0
Handler = Request → Status × Request × Answer

-- REAIVBMIC_PROPERTY_ITEM; a handler that is NULL is `none`.
pub record Item : Type 0 where
  pub item_flags : ℕ
  pub min_property : ℕ
  pub min_data : ℕ
  pub get_handler : Option Handler
  pub set_handler : Option Handler
  pub support_handler : Option Handler

-- `Verb & flag`
abbrev pub asks : Request → ℕ → Bool
asks r flag = not (bit_and r.verb flag == 0)

-- The end of ValidatePropertyParams: the size is cleared.
abbrev pub with_size : Request → ℕ → Request
with_size r n = record r { value_size = n }

-- ValidatePropertyParams, of a request that is not NULL.
unfoldable pub validate_property_params : Request → ℕ → ℕ → Status × Request
validate_property_params r value_size instance_size =
    if value_size == 0
    then (invalid_parameter, with_size r 0)
    else (if r.value_size == 0
        then (buffer_overflow, with_size r value_size)
        else (if ltb r.value_size value_size
            then (buffer_too_small, with_size r 0)
            else (if ltb r.instance_size instance_size
                then (buffer_too_small, with_size r 0)
                else (if r.has_value then (success, r) else (unsuccessful, with_size r 0)))))

-- sizeof(KSPROPERTY_DESCRIPTION) and of the other structures of ks.h.
abbrev pub description_bytes : ℕ
description_bytes = 40

abbrev pub members_header_bytes : ℕ
members_header_bytes = 16

abbrev pub stepping_long_bytes : ℕ
stepping_long_bytes = 16

abbrev pub ulong_bytes : ℕ
ulong_bytes = 4

-- VT_ILLEGAL, VT_I4 and VT_BOOL of wtypes.h
abbrev pub vt_illegal : ℕ
vt_illegal = 0xFFFF

abbrev pub vt_i4 : ℕ
vt_i4 = 3

abbrev pub vt_bool : ℕ
vt_bool = 11

-- PropertyHandler_BasicSupport
unfoldable pub basic_support : ℕ → ℕ → Handler
basic_support support_flags type_id r =
    if leb description_bytes r.value_size
    then (
      success,
      with_size r description_bytes,
      described (record {
        access_flags = support_flags;
        description_size = description_bytes;
        is_general = not (type_id == vt_illegal);
        type_id = if type_id == vt_illegal then 0 else type_id;
        members_list_count = 0;
      }),
    )
    else (if leb ulong_bytes r.value_size
        then (success, with_size r ulong_bytes, flags support_flags)
        else (buffer_too_small, with_size r 0, nothing))

-- `cbFullProperty`, a ULONG.
abbrev pub full_bytes : ℕ → ℕ
full_bytes channels =
    (description_bytes + members_header_bytes + stepping_long_bytes * channels) % 2 ^ 32

-- PropertyHandler_BasicSupportVolume, -Mute and -PeakMeter2 differ in the flags and type of the
-- description and in the range, which is the same for each channel.
unfoldable pub basic_support_ranged : ℕ → ℕ → Range → ℕ → Handler
basic_support_ranged access type_id range channels r =
    let description : Description = record {
      access_flags = access;
      description_size = full_bytes channels;
      is_general = true;
      type_id = type_id;
      members_list_count = 1;
    } in
    if leb description_bytes r.value_size
    then (if leb (full_bytes channels) r.value_size
        then (
          success,
          with_size r (full_bytes channels),
          ranged description (replicate channels range),
        )
        else (success, with_size r description_bytes, described description))
    else (if leb ulong_bytes r.value_size
        then (success, with_size r ulong_bytes, flags type_all)
        else (buffer_too_small, with_size r 0, nothing))

-- PropertyHandler_BasicSupportVolume: from -96 dB to 0 dB, in steps of half a dB.
unfoldable pub basic_support_volume : ℕ → Handler
unfolding basic_support_ranged
basic_support_volume =
    basic_support_ranged type_all vt_i4
      (record { signed_maximum = 0; signed_minimum = 0xFFA00000; stepping_delta = 0x8000 })

-- PropertyHandler_BasicSupportMute
unfoldable pub basic_support_mute : ℕ → Handler
unfolding basic_support_ranged
basic_support_mute =
    basic_support_ranged type_all vt_bool
      (record { signed_maximum = 1; signed_minimum = 0; stepping_delta = 1 })

-- PropertyHandler_BasicSupportPeakMeter2: from LONG_MIN to LONG_MAX.
unfoldable pub basic_support_peak_meter2 : ℕ → Handler
unfolding basic_support_ranged
basic_support_peak_meter2 =
    basic_support_ranged 0x201 vt_i4
      (record { signed_maximum = 0x7FFFFFFF; signed_minimum = 0x80000000; stepping_delta = 0x1000 })

-- A handler that the item may lack.
unfoldable pub handle : Option Handler → Handler → Handler
handle none otherwise r = otherwise r
handle (some h) otherwise r = h r

-- The answer where GET or SET is not supported.
abbrev pub refuse : Status → Handler
refuse status r = (status, r, nothing)

-- ReAIVibeBoardVirtualMicPropertyDispatch
unfoldable pub property_dispatch : Item → Handler
unfolding handle basic_support
property_dispatch item r =
    if asks r type_basic_support
    then handle item.support_handler (basic_support item.item_flags vt_illegal) r
    else (if ltb r.instance_size item.min_property
        then (invalid_parameter, r, nothing)
        else (if r.value_size == 0
            then (buffer_overflow, with_size r item.min_data, nothing)
            else (if ltb r.value_size item.min_data
                then (buffer_too_small, with_size r 0, nothing)
                else (if asks r type_get
                    then handle item.get_handler (refuse not_supported) r
                    else (if asks r type_set
                        then handle item.set_handler (refuse not_supported) r
                        else (invalid_device_request, r, nothing))))))
