-- ===== src/Property/LevelLaws.antt =====
-- The level properties of kshelper.cpp: what is set is read back.
use reai_board_sdk.Prelude.{
  ℕ, ◌≤◌, ◌<◌, ◌≡◌, ◌⊎◌, inl, inr, refl, arith, some, true, false, bit_and, ◌==◌, ap, ◌∙◌,
  Bool-cases, if◌then◌else◌,
}
use reai_board_sdk.Status.{Status, success, nt_success}
use reai_board_sdk.Mixer.{Mixer, set_mixer_mute, set_mixer_volume, get_mixer_mute, get_mixer_volume}
use reai_board_sdk.Mixer.Laws.{IsWhole, updated, set_mixer_mute_lem, set_mixer_volume_lem}
use reai_board_sdk.Property.{
  Request, Answer, Range, basic_support_ranged, basic_support_volume, basic_support_mute,
  basic_support_peak_meter2, nothing, level, type_get, type_set, type_basic_support, asks,
  validate_property_params, ulong_bytes, with_size,
}
use reai_board_sdk.Property.SetLevel.{set_level-volume, set_level-mute}
use reai_board_sdk.Adapter.{Adapter, mixer_volume_read, mixer_mute_read}
use reai_board_sdk.Property.Level.{
  LevelRequest, volume_level, set_volume, mute_level, set_mute, peak_level, keep_level,
  support_level, peak_meter2, volume, mute, all_channels_id, on_level, volume_normalize_in_range,
}

-- A request with the verb `flag`, with room for a level and a channel, for one of the channels or all.
pub record Asks (max_channels flag : ℕ) (c : LevelRequest) : Type 0 where
  pub verb : c.request.verb ≡ flag
  pub has_value : c.request.has_value ≡ true
  pub has_room : ulong_bytes ≤ c.request.value_size
  pub has_instance : ulong_bytes ≤ c.request.instance_size
  pub has_channel : (c.channel < max_channels) ⊎ (c.channel ≡ all_channels_id)

-- Such a request is valid.
Asks-valid :
    {max_channels flag : ℕ} {c : LevelRequest}
    → Asks max_channels flag c
    → validate_property_params c.request 4 4 ≡ (success, c.request)
unfolding validate_property_params
Asks-valid h = ground (arith, h.has_value, h.has_room, h.has_instance)

-- A GET answers what `read` gives.
on_level_get :
    {max_channels : ℕ} {c : LevelRequest}
    → (read : LevelRequest → Adapter → ℕ) (write : LevelRequest → Adapter → Adapter) (a : Adapter)
    → Asks max_channels type_get c
    → on_level max_channels read write c a (success, c.request)
      ≡ (success, with_size c.request ulong_bytes, level (read c a), a)
unfolding on_level
on_level_get read write a h = ground (arith, h.verb, h.has_channel)

-- A SET does what `write` does.
on_level_set :
    {max_channels : ℕ} {c : LevelRequest}
    → (read : LevelRequest → Adapter → ℕ) (write : LevelRequest → Adapter → Adapter) (a : Adapter)
    → Asks max_channels type_set c
    → on_level max_channels read write c a (success, c.request)
      ≡ (success, c.request, nothing, write c a)
unfolding on_level
on_level_set read write a h = ground (arith, h.verb, h.has_channel)

-- It is no request for basic support.
Asks-not_support :
    {max_channels flag : ℕ} {c : LevelRequest}
    → bit_and flag type_basic_support ≡ 0
    → Asks max_channels flag c
    → asks c.request type_basic_support ≡ false
Asks-not_support other h = ground (arith, h.verb, other)

volume_set :
    {max_channels : ℕ} {c : LevelRequest} (m : Mixer)
    → Asks max_channels type_set c
    → volume max_channels c (some m) ≡ (
      success,
      c.request,
      nothing,
      some (set_mixer_volume m c.node (volume_normalize_in_range c.value)),
    )
unfolding volume
volume_set {max_channels} {c} m h =
    rw (Asks-not_support refl h, Asks-valid h)
      (on_level_set volume_level set_volume (some m) h
        ∙ ap (λ a. (success, c.request, nothing, a))
            (set_level-volume c (volume_normalize_in_range c.value) m))

volume_get :
    {max_channels : ℕ} {c : LevelRequest} (m : Mixer)
    → Asks max_channels type_get c
    → volume max_channels c (some m)
      ≡ (success, with_size c.request ulong_bytes, level (get_mixer_volume m c.node), some m)
unfolding volume mixer_volume_read
volume_get m h =
    rw (Asks-not_support refl h, Asks-valid h) (on_level_get volume_level set_volume (some m) h)

mute_set :
    {max_channels : ℕ} {c : LevelRequest} (m : Mixer)
    → Asks max_channels type_set c
    → mute max_channels c (some m) ≡ (
      success,
      c.request,
      nothing,
      some (set_mixer_mute m c.node (if c.value == 0 then 0 else 1)),
    )
unfolding mute
mute_set {max_channels} {c} m h =
    rw (Asks-not_support refl h, Asks-valid h)
      (on_level_set mute_level set_mute (some m) h
        ∙ ap (λ a. (success, c.request, nothing, a))
            (set_level-mute c (if c.value == 0 then 0 else 1) m))

mute_get :
    {max_channels : ℕ} {c : LevelRequest} (m : Mixer)
    → Asks max_channels type_get c
    → mute max_channels c (some m)
      ≡ (success, with_size c.request ulong_bytes, level (get_mixer_mute m c.node), some m)
unfolding mute mixer_mute_read
mute_get m h =
    rw (Asks-not_support refl h, Asks-valid h) (on_level_get mute_level set_mute (some m) h)

-- After a SET of the volume of a node, for a channel or all of them, on a whole mixer, a GET of the
-- volume, for any channel, answers the normalized level at that node, if it is one of the 20, and the
-- level from before at any other; both requests succeed.
pub volume-set_get :
    {max_channels : ℕ} {c g : LevelRequest} (m : Mixer)
    → IsWhole m
    → Asks max_channels type_set c
    → Asks max_channels type_get g
    → let after = volume max_channels c (some m) in
      let reply = volume max_channels g after.3 in
      (after.0 ≡ success)
      × (reply.0 ≡ success)
      × (reply.2
          ≡ level (updated c.node (volume_normalize_in_range c.value) g.node (get_mixer_volume m)))
volume-set_get {max_channels} {c} {g} m whole h k = rw (volume_set m h) (
    rw (volume_get {c = g} (set_mixer_volume m c.node (volume_normalize_in_range c.value)) k) (
      refl,
      refl,
      ap level (set_mixer_volume_lem c.node (volume_normalize_in_range c.value) g.node whole).0,
    ))

-- After a SET of the mute of a node, for a channel or all of them, on a whole mixer, a GET of the mute,
-- for any channel, answers TRUE at that node, if it is one of the 20 and the value set was not 0, FALSE
-- if it was 0, and the mute from before at any other node; both requests succeed.
pub mute-set_get :
    {max_channels : ℕ} {c g : LevelRequest} (m : Mixer)
    → IsWhole m
    → Asks max_channels type_set c
    → Asks max_channels type_get g
    → let after = mute max_channels c (some m) in
      let reply = mute max_channels g after.3 in
      (after.0 ≡ success)
      × (reply.0 ≡ success)
      × (reply.2 ≡ level (updated c.node (if c.value == 0 then 0 else 1) g.node (get_mixer_mute m)))
mute-set_get {max_channels} {c} {g} m whole h k = rw (mute_set m h) (
    rw (mute_get {c = g} (set_mixer_mute m c.node (if c.value == 0 then 0 else 1)) k) (
      refl,
      refl,
      ap level (set_mixer_mute_lem c.node (if c.value == 0 then 0 else 1) g.node whole).0,
    ))

-- A reply that fails leaves the adapter as it is and writes nothing.
abbrev pub Harmless : Adapter → Status × Request × Answer × Adapter → Type 0
Harmless a (status, r, answer, a') = (nt_success status ≡ true) ⊎ (answer ≡ nothing) × (a' ≡ a)

on_level-Harmless :
    (max_channels : ℕ) (read : LevelRequest → Adapter → ℕ)
    (write : LevelRequest → Adapter → Adapter) (c : LevelRequest) (a : Adapter)
    (v : Status × Request)
    → Harmless a (on_level max_channels read write c a v)
unfolding on_level
on_level-Harmless max_channels read write c a (status, r) = ground arith

support_level-Harmless :
    (access type_id : ℕ) (range : Range) (channels : ℕ) (c : LevelRequest) (a : Adapter)
    → Harmless a (support_level (basic_support_ranged access type_id range channels) c a)
unfolding support_level basic_support_ranged
support_level-Harmless access type_id range channels c a = ground arith

-- Whatever the request, the handlers of the volume, the mute and the peak meter succeed, or they write
-- nothing through its buffer and leave the mixer as it is.
pub levels-Harmless :
    (max_channels : ℕ) (c : LevelRequest) (a : Adapter)
    → Harmless a (volume max_channels c a)
      × Harmless a (mute max_channels c a)
      × Harmless a (peak_meter2 max_channels c a)
unfolding volume mute peak_meter2 basic_support_volume basic_support_mute basic_support_peak_meter2
levels-Harmless max_channels c a = elim (Bool-cases (asks c.request type_basic_support)) [
  | inl support ↦ rw support (
    support_level-Harmless _ _ _ max_channels c a,
    support_level-Harmless _ _ _ max_channels c a,
    support_level-Harmless _ _ _ max_channels c a,
  )
  | inr other ↦ rw other (
    on_level-Harmless max_channels volume_level set_volume c a
        (validate_property_params c.request 4 4),
    on_level-Harmless max_channels mute_level set_mute c a (validate_property_params c.request 4 4),
    on_level-Harmless max_channels peak_level keep_level c a
        (validate_property_params c.request 4 4),
  )
]
