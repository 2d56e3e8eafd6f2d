-- ===== src/Miniport/Attributes.antt =====
-- Main/minwavert.cpp: the attributes that follow a data format in memory. A pointer is the bytes from it
-- to the end of the memory that may be read; a read behind the end is `none`.
use reai_board_sdk.Prelude.{
  ℕ, zero, suc, ◌+◌, ◌-◌, ◌*◌, ◌/◌, ◌%◌, ◌^◌, List, [], ◌∷◌, Bool, true, false, Option, none, some,
  ltb, leb, ◌==◌, if◌then◌else◌, length, take, drop,
}
use reai_board_sdk.Status.{Status, success, invalid_parameter, not_supported}
use reai_board_sdk.Memory.{dword}

-- sizeof(KSMULTIPLE_ITEM), sizeof(KSATTRIBUTE), sizeof(KSATTRIBUTE_AUDIOSIGNALPROCESSING_MODE), of ks.h
-- and ksmedia.h, and the bytes of a GUID.
abbrev pub multiple_item_bytes : ℕ
multiple_item_bytes = 8

abbrev pub attribute_bytes : ℕ
attribute_bytes = 24

abbrev pub mode_attribute_bytes : ℕ
mode_attribute_bytes = 40

abbrev pub guid_bytes : ℕ
guid_bytes = 16

-- IsEqualGUID
unfoldable pub same_bytes : List ℕ → List ℕ → Bool
same_bytes [] [] = true
same_bytes [] (y ∷ ys) = false
same_bytes (x ∷ xs) [] = false
same_bytes (x ∷ xs) (y ∷ ys) = let rest = same_bytes xs ys in if x == y then rest else false

-- `(Size + FILE_QUAD_ALIGNMENT) & ~FILE_QUAD_ALIGNMENT`, a ULONG.
abbrev pub quad_aligned : ℕ → ℕ
quad_aligned size = (size + 7) % 2 ^ 32 / 8 * 8

-- The reads of a DWORD and of a GUID at an offset from a pointer.
abbrev pub read_dword : List ℕ → ℕ → Option ℕ
read_dword at offset = if leb (offset + 4) (length at) then some (dword (drop offset at)) else none

abbrev pub read_guid : List ℕ → ℕ → Option (List ℕ)
read_guid at offset =
    if leb (offset + guid_bytes) (length at) then some (take guid_bytes (drop offset at)) else none

-- What the loop has, and what the function returns: the status and the mode.
abbrev pub Found : Type 0
Found = Option (Status × List ℕ)

-- GetAttributesFromAttributeList with KSATTRIBUTEID_AUDIOSIGNALPROCESSING_MODE as `id` and
-- AUDIO_SIGNALPROCESSINGMODE_DEFAULT as `default_mode`, in the loop's order from the end.
module _ (id : List ℕ) where
  -- The mode of an attribute whose size has been read.
  unfoldable pub take_mode : Option ℕ → Option (List ℕ) → (List ℕ → Found) → List ℕ → Found
  take_mode none mode next before = none
  take_mode (some size) none next before =
      if size == mode_attribute_bytes then none else some (invalid_parameter, before)
  take_mode (some size) (some mode) next before =
      let rest = next mode in
      if size == mode_attribute_bytes then rest else some (invalid_parameter, before)

  -- An attribute whose GUID has been read.
  unfoldable pub on_attribute : Option (List ℕ) → List ℕ → ℕ → (List ℕ → Found) → List ℕ → Found
  on_attribute none at remaining next before = none
  on_attribute (some attribute) at remaining next before =
      let found = take_mode (read_dword at 0) (read_guid at attribute_bytes) next before in
      if same_bytes attribute id
      then (if ltb remaining mode_attribute_bytes then some (invalid_parameter, before) else found)
      else some (not_supported, before)

  -- The loop over `count` attributes from `at`, with `cbRemaining` bytes left.
  unfoldable pub attributes_loop : ℕ → List ℕ → ℕ → List ℕ → Found
  attributes_loop zero at remaining before = some (success, before)
  attributes_loop (suc count) at remaining before =
      let advance = quad_aligned (dword at) in
      let next =
        attributes_loop count (drop advance at) ((remaining + 2 ^ 64 - advance) % 2 ^ 64) in
      let found = on_attribute (read_guid at 8) at remaining next before in
      if ltb remaining attribute_bytes then some (invalid_parameter, before) else found

  -- The count at the head of the list has been read.
  unfoldable pub on_count : Option ℕ → List ℕ → ℕ → List ℕ → Found
  on_count none at size default_mode = none
  on_count (some count) at size default_mode =
      attributes_loop count (drop multiple_item_bytes at) (size - multiple_item_bytes) default_mode

  unfoldable pub get_attributes : List ℕ → List ℕ → ℕ → Found
  get_attributes default_mode at size =
      let found = on_count (read_dword at 4) at size default_mode in
      if ltb size multiple_item_bytes then some (invalid_parameter, default_mode) else found
