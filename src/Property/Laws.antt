-- ===== src/Property/Laws.antt =====
-- The property requests of kshelper.cpp: sizes that are checked, and buffers that are not overrun.
use reai_board_sdk.Prelude.{
  ℕ, ◌+◌, ◌*◌, ◌^◌, ◌<◌, ◌≤◌, ◌≡◌, ◌≢◌, ◌⊎◌, inl, inr, refl, arith, true, false, Bool-cases, ltb,
  leb, ◌==◌, some, length, length-replicate, ltb→le, le→ltb, leb→le, eqb→ne, eqb→eq, eq→eqb,
}
use reai_board_sdk.Status.{Status, success, buffer_overflow, nt_success}
use reai_board_sdk.Property.{
  Request, Item, Handler, Range, Answer, nothing, flags, level, described, ranged, type_get,
  type_basic_support, asks, with_size, validate_property_params, description_bytes,
  members_header_bytes, stepping_long_bytes, ulong_bytes, full_bytes, basic_support,
  basic_support_ranged, basic_support_volume, basic_support_mute, basic_support_peak_meter2,
  property_dispatch,
}

-- The bytes that are written through `Value`.
unfoldable pub written : Answer → ℕ
written nothing = 0
written (flags f) = ulong_bytes
written (level v) = ulong_bytes
written (described d) = description_bytes
written (ranged d ranges) =
    description_bytes + members_header_bytes + stepping_long_bytes * length ranges

-- What a reply to a request with a buffer keeps: the bytes written are those that are reported, and no
-- more than there was room for; it succeeds exactly if there was room for the access flags.
pub Fits : Request → Status × Request × Answer → Type 0
Fits r (status, r', answer) =
    (written answer ≡ r'.value_size)
    × (r'.value_size ≤ r.value_size)
    × (nt_success status ≡ leb ulong_bytes r.value_size)

basic_support-Fits :
    (support_flags type_id : ℕ) (r : Request) → Fits r (basic_support support_flags type_id r)
unfolding basic_support Fits written
basic_support-Fits support_flags type_id r = ground arith

basic_support_ranged-Fits :
    (access type_id : ℕ) (range : Range) (channels : ℕ) (r : Request)
    → channels < 2 ^ 24
    → Fits r (basic_support_ranged access type_id range channels r)
unfolding basic_support_ranged Fits written
basic_support_ranged-Fits access type_id range channels r few =
    elim (Bool-cases (leb description_bytes r.value_size)) [
      | inl big ↦ elim (Bool-cases (leb (full_bytes channels) r.value_size)) [
        | inl full ↦
            rw (big, full)
              (
                omega (arith, length-replicate channels range),
                leb→le (full_bytes channels) r.value_size full,
                holds_flags (omega (arith, leb→le description_bytes r.value_size big)),
              )
        | inr part ↦
            rw (big, part)
              (
                refl,
                leb→le description_bytes r.value_size big,
                holds_flags (omega (arith, leb→le description_bytes r.value_size big)),
              )
      ]
      | inr small ↦ rw small (ground arith)
    ]
  where
    holds_flags : ulong_bytes ≤ r.value_size → true ≡ leb ulong_bytes r.value_size
    holds_flags h = ground arith

-- ValidatePropertyParams succeeds exactly for a value size that is not 0, a buffer that holds it, and
-- enough instance data; the request is then unchanged. It answers a request without a buffer by the
-- size that is needed, and clears the size on every other failure.
pub validate_lem :
    (r : Request) (n i : ℕ)
    → let (status, r') = validate_property_params r n i in
      ((status ≡ success)
        × (0 < n)
        × (n ≤ r.value_size)
        × (i ≤ r.instance_size)
        × (r.has_value ≡ true)
        × (r' ≡ r))
      ⊎ ((status ≡ buffer_overflow) × (r.value_size ≡ 0) × (r'.value_size ≡ n))
      ⊎ ((nt_success status ≡ false) × (r'.value_size ≡ 0))
unfolding validate_property_params
validate_lem r n i = elim (Bool-cases (n == 0)) [
  | inl a ↦ rw a (inr (inr (refl, refl)))
  | inr a ↦ elim (Bool-cases (r.value_size == 0)) [
    | inl b ↦ rw (a, b) (inr (inl (refl, eqb→eq r.value_size 0 b, refl)))
    | inr b ↦ elim (Bool-cases (ltb r.value_size n)) [
      | inl c ↦ rw (a, b, c) (inr (inr (refl, refl)))
      | inr c ↦ elim (Bool-cases (ltb r.instance_size i)) [
        | inl d ↦ rw (a, b, c, d) (inr (inr (refl, refl)))
        | inr d ↦ elim (Bool-cases r.has_value) [
          | inl e ↦
              rw (a, b, c, d, e)
                (inl (
                  refl,
                  positive (eqb→ne n 0 a),
                  ltb→le r.value_size n c,
                  ltb→le r.instance_size i d,
                  refl,
                  refl,
                ))
          | inr e ↦ rw (a, b, c, d, e) (inr (inr (refl, refl)))
        ]
      ]
    ]
  ]
]
  where
    positive : n ≢ 0 → 0 < n
    positive h = omega (arith, h)

-- The three handlers for ranges do not overrun the buffer of a request, whatever its size: what they
-- write is what they report, and no more than there is room for; they succeed exactly if there is room
-- for the access flags. (Up to 2 ^ 24 channels the full size is not cut to 32 bits.)
pub basic_support_lem :
    (channels : ℕ) (r : Request)
    → channels < 2 ^ 24
    → Fits r (basic_support_volume channels r)
      × Fits r (basic_support_mute channels r)
      × Fits r (basic_support_peak_meter2 channels r)
unfolding basic_support_volume basic_support_mute basic_support_peak_meter2
basic_support_lem channels r few = (
  basic_support_ranged-Fits _ _ _ channels r few,
  basic_support_ranged-Fits _ _ _ channels r few,
  basic_support_ranged-Fits _ _ _ channels r few,
)

-- A GET request without a buffer is answered by the size that the item needs, and when it is repeated
-- with the size that came back, the item's handler for GET runs on it.
pub two_calls :
    (item : Item) (h : Handler) (r : Request)
    → item.get_handler ≡ some h
    → 0 < item.min_data
    → asks r type_basic_support ≡ false
    → asks r type_get ≡ true
    → item.min_property ≤ r.instance_size
    → r.value_size ≡ 0
    → let (status, r', answer) = property_dispatch item r in
      (status ≡ buffer_overflow)
      × (answer ≡ nothing)
      × (r'.value_size ≡ item.min_data)
      × (property_dispatch item r' ≡ h r')
unfolding property_dispatch
two_calls item h r get some_data no_support gets instance no_buffer =
    rw starts (refl, refl, refl, second)
  where
    first : ltb r.instance_size item.min_property ≡ false
    first = le→ltb r.instance_size item.min_property instance

    starts : property_dispatch item r ≡ (buffer_overflow, with_size r item.min_data, nothing)
    starts = rw (no_support, first, eq→eqb r.value_size 0 no_buffer) refl

    second : property_dispatch item (with_size r item.min_data) ≡ h (with_size r item.min_data)
    second = rw (no_support, first, gets, get) (ground arith)
