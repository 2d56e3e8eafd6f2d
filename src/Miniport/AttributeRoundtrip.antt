-- ===== src/Miniport/AttributeRoundtrip.antt =====
-- An attribute list that is written as ks.h lays it out is read as it was written.
use reai_board_sdk.Prelude.{
  ℕ, zero, suc, ◌+◌, ◌-◌, ◌*◌, ◌%◌, ◌^◌, ◌≤◌, ◌<◌, ◌≡◌, refl, sym, ap, ap₂, ◌∙◌, arith, List, [],
  ◌∷◌, ◌++◌, true, false, none, some, ltb, leb, eq→eqb, if◌then◌else◌, length, take, drop,
  length-append, drop_all, append_assoc,
}
use reai_board_sdk.Status.{success, invalid_parameter}
use reai_board_sdk.Memory.{le32, dword, dword-le32}
use reai_board_sdk.SaveData.DiskLaws.{take-append, drop-append}
use reai_board_sdk.Miniport.Attributes.{
  multiple_item_bytes, attribute_bytes, mode_attribute_bytes, guid_bytes, same_bytes, quad_aligned,
  read_dword, read_guid, Found, take_mode, on_attribute, attributes_loop, on_count, get_attributes,
}

-- The list as it is written: its size and count, and then the attributes, one after the other.
abbrev pub mode_attribute : List ℕ → List ℕ → List ℕ
mode_attribute id mode = le32 40 ++ le32 0 ++ id ++ mode

abbrev pub mode_attributes : List ℕ → List (List ℕ) → List ℕ
mode_attributes id [] = []
mode_attributes id (mode ∷ modes) = mode_attribute id mode ++ mode_attributes id modes

abbrev pub last_mode : List ℕ → List (List ℕ) → List ℕ
last_mode default_mode [] = default_mode
last_mode default_mode (mode ∷ modes) = last_mode mode modes

abbrev pub AllGuids : List (List ℕ) → Type 0
AllGuids [] = length {A = ℕ} [] ≡ 0
AllGuids (mode ∷ modes) = (length mode ≡ guid_bytes) × AllGuids modes

abbrev pub attribute_list : List ℕ → List (List ℕ) → List ℕ
attribute_list id modes =
    le32 (8 + 40 * length modes) ++ le32 (length modes) ++ mode_attributes id modes

same_bytes_self : (xs : List ℕ) → same_bytes xs xs ≡ true
unfolding same_bytes
same_bytes_self [] = refl
same_bytes_self (x ∷ xs) = rw (eq→eqb x x refl) (same_bytes_self xs)

drop-drop : (m n k : ℕ) (xs : List ℕ) → k ≡ m + n → drop k xs ≡ drop n (drop m xs)
drop-drop zero n k xs e = let same : k ≡ n = omega arith in ap (λ j. drop j xs) same
drop-drop (suc m) n zero xs e = absurd (omega arith)
drop-drop (suc m) n (suc k) [] e = sym (drop_all n [] (omega arith))
drop-drop (suc m) n (suc k) (x ∷ xs) e = drop-drop m n k xs (omega arith)

read_dword_lem :
    (at : List ℕ) (offset : ℕ)
    → offset + 4 ≤ length at
    → read_dword at offset ≡ some (dword (drop offset at))
read_dword_lem at offset h = ap (λ b. if b then some (dword (drop offset at)) else none) in_memory
  where
    in_memory : leb (offset + 4) (length at) ≡ true
    in_memory = ground (arith, h)

read_guid_lem :
    (at : List ℕ) (offset : ℕ)
    → offset + guid_bytes ≤ length at
    → read_guid at offset ≡ some (take guid_bytes (drop offset at))
read_guid_lem at offset h =
    ap (λ b. if b then some (take guid_bytes (drop offset at)) else none) in_memory
  where
    in_memory : leb (offset + 16) (length at) ≡ true
    in_memory = ground (arith, h)

module _ (id : List ℕ) (modes : List (List ℕ)) where
  drop-header : drop 8 (attribute_list id modes) ≡ mode_attributes id modes
  unfolding le32
  drop-header = refl

  header_length : 8 ≤ length (attribute_list id modes)
  unfolding le32
  header_length = omega arith

  counted : length modes < 2 ^ 32 → dword (drop 4 (attribute_list id modes)) ≡ length modes
  unfolding le32
  counted h = dword-le32 (length modes) [] h

module _ (id : List ℕ) where
  on_attribute_lem :
      (at : List ℕ) (remaining : ℕ) (next : List ℕ → Found) (before mode : List ℕ)
      → read_dword at 0 ≡ some mode_attribute_bytes
      → read_guid at attribute_bytes ≡ some mode
      → mode_attribute_bytes ≤ remaining
      → on_attribute id (some id) at remaining next before ≡ next mode
  unfolding on_attribute take_mode
  on_attribute_lem at remaining next before mode d g h =
      rw (same_bytes_self id) (rw enough (ap₂ (λ x y. take_mode id x y next before) d g))
    where
      enough : ltb remaining mode_attribute_bytes ≡ false
      enough = ground (arith, h)

  -- The parts of an attribute in front of others.
  module _ (mode rest : List ℕ) (id_guid : length id ≡ guid_bytes)
      (mode_guid : length mode ≡ guid_bytes) where
    at_front : List ℕ
    at_front = mode_attribute id mode ++ rest

    length-at_front : length at_front ≡ 40 + length rest
    unfolding at_front le32
    length-at_front = omega (arith, length-append (id ++ mode) rest, length-append id mode)

    forty : dword at_front ≡ 40
    unfolding at_front le32
    forty = refl

    take-front : (xs ys : List ℕ) → length xs ≡ 16 → take 16 (xs ++ ys) ≡ xs
    take-front xs ys e = ap (λ n. take n (xs ++ ys)) (sym e) ∙ take-append xs ys

    first : take 16 (drop 8 at_front) ≡ id
    unfolding at_front le32
    first = ap (take 16) (append_assoc id mode rest) ∙ take-front id (mode ++ rest) id_guid

    behind_id : drop 24 at_front ≡ mode ++ rest
    unfolding at_front le32
    behind_id = ap (drop 16) (append_assoc id mode rest) ∙ drop-append id (mode ++ rest) 16 id_guid

    second : take 16 (drop 24 at_front) ≡ mode
    second = ap (take 16) behind_id ∙ take-front mode rest mode_guid

    size-at_front : read_dword at_front 0 ≡ some mode_attribute_bytes
    size-at_front = read_dword_lem at_front 0 (omega (arith, length-at_front)) ∙ ap some forty

    id-at_front : read_guid at_front 8 ≡ some id
    id-at_front = read_guid_lem at_front 8 (omega (arith, length-at_front)) ∙ ap some first

    mode-at_front : read_guid at_front attribute_bytes ≡ some mode
    mode-at_front = read_guid_lem at_front 24 (omega (arith, length-at_front)) ∙ ap some second

    rest-at_front : drop 40 at_front ≡ rest
    rest-at_front =
        drop-drop 24 16 40 at_front refl
        ∙ ap (drop 16) behind_id
        ∙ drop-append mode rest 16 mode_guid

  attributes_loop_lem :
      (modes : List (List ℕ)) (remaining : ℕ) (before : List ℕ)
      → length id ≡ guid_bytes
      → AllGuids modes
      → remaining ≡ 40 * length modes
      → remaining < 2 ^ 64
      → attributes_loop id (length modes) (mode_attributes id modes) remaining before
        ≡ some (success, last_mode before modes)
  unfolding attributes_loop at_front
  attributes_loop_lem [] remaining before i g e small = refl
  attributes_loop_lem (mode ∷ modes) remaining before i g e small =
      ap (λ b. if b then some (invalid_parameter, before) else found) enough
      ∙ ap (λ x. on_attribute id x at remaining next before)
          (id-at_front mode (mode_attributes id modes) i g.0)
      ∙ on_attribute_lem at remaining next before mode
          (size-at_front mode (mode_attributes id modes) i g.0)
          (mode-at_front mode (mode_attributes id modes) i g.0) (omega (arith, e))
      ∙ ap
          (λ a.
            attributes_loop id (length modes) (drop a at) ((remaining + 2 ^ 64 - a) % 2 ^ 64) mode)
          advance
      ∙ ap₂ (λ x r. attributes_loop id (length modes) x r mode)
          (rest-at_front mode (mode_attributes id modes) i g.0) left
      ∙ attributes_loop_lem modes (remaining - 40) mode i g.1 (omega (arith, e))
          (omega (arith, small))
    where
      at : List ℕ
      at = mode_attribute id mode ++ mode_attributes id modes

      next : List ℕ → Found
      next =
          attributes_loop id (length modes) (drop (quad_aligned (dword at)) at)
            ((remaining + 2 ^ 64 - quad_aligned (dword at)) % 2 ^ 64)

      found : Found
      found = on_attribute id (read_guid at 8) at remaining next before

      enough : ltb remaining attribute_bytes ≡ false
      enough = ground (arith, e)

      advance : quad_aligned (dword at) ≡ 40
      advance = ap quad_aligned (forty mode (mode_attributes id modes) i g.0)

      left : (remaining + 2 ^ 64 - 40) % 2 ^ 64 ≡ remaining - 40
      left = omega (arith, e, small)

  -- GetAttributesFromAttributeList gives the mode of the last attribute of a list of fewer than 2 ^ 26
  -- mode attributes that is laid out as ks.h has it, and the default mode of an empty one.
  pub attributes-roundtrip :
      (default_mode : List ℕ) (modes : List (List ℕ))
      → length id ≡ guid_bytes
      → AllGuids modes
      → length modes < 2 ^ 26
      → get_attributes id default_mode (attribute_list id modes) (8 + 40 * length modes)
        ≡ some (success, last_mode default_mode modes)
  unfolding get_attributes on_count
  attributes-roundtrip default_mode modes i g few =
      ap (λ b. if b then some (invalid_parameter, default_mode) else found) enough
      ∙ ap (λ c. on_count id c at (8 + 40 * length modes) default_mode) count
      ∙ ap₂ (λ x r. attributes_loop id (length modes) x r default_mode) behind (omega arith)
      ∙ attributes_loop_lem modes (40 * length modes) default_mode i g refl (omega (arith, few))
    where
      at : List ℕ
      at = attribute_list id modes

      found : Found
      found = on_count id (read_dword at 4) at (8 + 40 * length modes) default_mode

      enough : ltb (8 + 40 * length modes) multiple_item_bytes ≡ false
      enough = ground arith

      behind : drop 8 at ≡ mode_attributes id modes
      behind = drop-header id modes

      count : read_dword at 4 ≡ some (length modes)
      count =
          read_dword_lem at 4 (header_length id modes)
          ∙ ap some (counted id modes (omega (arith, few)))
