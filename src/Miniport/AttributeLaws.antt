-- ===== src/Miniport/AttributeLaws.antt =====
-- The attribute list: it is read within its size, and what has been written is read.
use reai_board_sdk.Prelude.{
  ℕ, zero, suc, ◌+◌, ◌-◌, ◌%◌, ◌^◌, ◌≤◌, ◌<◌, ◌≡◌, inl, inr, refl, sym, ap, ap₂, subst, arith, List,
  true, none, some, ltb, leb, ltb→le, ◌==◌, eqb→eq, if◌then◌else◌, length, take, drop, length-drop,
  Bool-cases,
}
use reai_board_sdk.Status.{Status, success}
use reai_board_sdk.Memory.{dword}
use reai_board_sdk.Miniport.Attributes.{
  multiple_item_bytes, attribute_bytes, mode_attribute_bytes, guid_bytes, same_bytes, quad_aligned,
  read_dword, read_guid, Found, take_mode, on_attribute, attributes_loop, on_count, get_attributes,
}

-- Every read was in the memory.
abbrev pub IsRead : Found → Type 0
IsRead found = (result : Status × List ℕ) × (found ≡ some result)

module _ (id : List ℕ) where
  take_mode-IsRead :
      (size : ℕ) (mode : List ℕ) (next : List ℕ → Found) (before : List ℕ)
      → (size ≡ mode_attribute_bytes → IsRead (next mode))
      → IsRead (take_mode id (some size) (some mode) next before)
  unfolding take_mode
  take_mode-IsRead size mode next before h = elim (Bool-cases (size == mode_attribute_bytes)) [
    | inl e ↦ rw e (h (eqb→eq size mode_attribute_bytes e))
    | inr e ↦ rw e (_, refl)
  ]

  -- The reads of an attribute, where there is memory for it.
  on_attribute-IsRead :
      (g at : List ℕ) (remaining : ℕ) (next : List ℕ → Found) (before : List ℕ)
      → remaining ≤ length at
      → (mode_attribute_bytes ≤ remaining
          → dword at ≡ mode_attribute_bytes
          → (mode : List ℕ) → IsRead (next mode))
      → IsRead (on_attribute id (some g) at remaining next before)
  unfolding on_attribute
  on_attribute-IsRead g at remaining next before h rest = elim (Bool-cases (same_bytes g id)) [
    | inr other ↦ rw other (_, refl)
    | inl same ↦ elim (Bool-cases (ltb remaining mode_attribute_bytes)) [
      | inl few ↦ rw same (rw few (_, refl))
      | inr whole ↦ rw same (
          rw whole (
            subst IsRead (sym (reads (ltb→le remaining mode_attribute_bytes whole))) (
              take_mode-IsRead (dword at) (take guid_bytes (drop attribute_bytes at)) next before
                (λ e.
                  rest (ltb→le remaining mode_attribute_bytes whole) e
                    (take guid_bytes (drop attribute_bytes at))))))
    ]
  ]
    where
      reads :
          mode_attribute_bytes ≤ remaining
          → take_mode id (read_dword at 0) (read_guid at attribute_bytes) next before
            ≡ take_mode id
                (some (dword at))
                (some (take guid_bytes (drop attribute_bytes at)))
                next
                before
      reads k =
          ap₂ (λ d m. take_mode id d m next before)
            (ap (λ b. if b then some (dword at) else none) (in_memory 4 (omega arith)))
            (ap (λ b. if b then some (take guid_bytes (drop attribute_bytes at)) else none)
              (in_memory 40 (omega arith)))
        where
          in_memory : (n : ℕ) → n ≤ length at → leb n (length at) ≡ true
          in_memory n k = ground arith

  attributes_loop-IsRead :
      (count : ℕ) (at : List ℕ) (remaining : ℕ) (before : List ℕ)
      → remaining ≤ length at
      → remaining < 2 ^ 64
      → IsRead (attributes_loop id count at remaining before)
  unfolding attributes_loop
  attributes_loop-IsRead zero at remaining before h small = ((success, before), refl)
  attributes_loop-IsRead (suc count) at remaining before h small =
      elim (Bool-cases (ltb remaining attribute_bytes)) [
        | inl few ↦ rw few (_, refl)
        | inr enough ↦ rw enough (
            subst (λ g. IsRead (on_attribute id g at remaining next before))
              (sym (guid (ltb→le remaining attribute_bytes enough)))
              (on_attribute-IsRead (take guid_bytes (drop 8 at)) at remaining next before h
                (λ whole size mode.
                  attributes_loop-IsRead count (drop advance at)
                    ((remaining + 2 ^ 64 - advance) % 2 ^ 64) mode
                    (after whole size (length-drop advance at)) (omega arith))))
      ]
    where
      advance : ℕ
      advance = quad_aligned (dword at)

      next : List ℕ → Found
      next = attributes_loop id count (drop advance at) ((remaining + 2 ^ 64 - advance) % 2 ^ 64)

      guid : attribute_bytes ≤ remaining → read_guid at 8 ≡ some (take guid_bytes (drop 8 at))
      guid k =
          ap (λ b. if b then some (take guid_bytes (drop 8 at)) else none) (in_memory (omega arith))
        where
          in_memory : 24 ≤ length at → leb 24 (length at) ≡ true
          in_memory k = ground arith

      after :
          mode_attribute_bytes ≤ remaining
          → dword at ≡ mode_attribute_bytes
          → length (drop advance at) ≡ length at - advance
          → (remaining + 2 ^ 64 - advance) % 2 ^ 64 ≤ length (drop advance at)
      after whole size l = omega (arith, forty)
        where
          forty : advance ≡ 40
          forty = ap quad_aligned size

  -- On a list of `size` bytes or more in memory, GetAttributesFromAttributeList reads nothing outside
  -- of it, whatever its bytes are.
  pub get_attributes-IsRead :
      (default_mode at : List ℕ) (size : ℕ)
      → size ≤ length at
      → size < 2 ^ 64
      → IsRead (get_attributes id default_mode at size)
  unfolding get_attributes on_count
  get_attributes-IsRead default_mode at size h small =
      elim (Bool-cases (ltb size multiple_item_bytes)) [
        | inl few ↦ rw few (_, refl)
        | inr enough ↦ rw enough (
            subst (λ c. IsRead (on_count id c at size default_mode))
              (sym (counted (ltb→le size multiple_item_bytes enough)))
              (attributes_loop-IsRead (dword (drop 4 at)) (drop 8 at) (size - 8) default_mode
                (omega (arith, length-drop 8 at)) (omega arith)))
      ]
    where
      counted : multiple_item_bytes ≤ size → read_dword at 4 ≡ some (dword (drop 4 at))
      counted k = ap (λ b. if b then some (dword (drop 4 at)) else none) (in_memory (omega arith))
        where
          in_memory : 8 ≤ length at → leb 8 (length at) ≡ true
          in_memory k = ground arith
