-- ===== src/Miniport/CreateLaws.antt =====
-- NewStream registers a stream, or changes nothing.
use reai_board_sdk.Prelude.{
  ℕ, ◌≡◌, ◌≢◌, ap₂, subst, ◌⊎◌, inl, inr, refl, sym, ap, ◌∙◌, arith, List, Bool, true, false, not,
  ◌&&◌, Option, if◌then◌else◌, Bool-cases,
}
use reai_board_sdk.Status.{Status, success, insufficient_resources, nt_success}
use reai_board_sdk.PcmFeed.{Feed}
use reai_board_sdk.PcmFeed
use reai_board_sdk.Miniport.{Format, validate_stream_create, stream_created}
use reai_board_sdk.Miniport.Formats.{is_format_supported}
use reai_board_sdk.Miniport.Create.{
  StreamAnswers, Streams, prepare_data, init_stream, destroy_stream, keep_or_release,
  attributes_status, check_stream, new_stream,
}

succeeds : (status : Status) → nt_success status ≡ true → status ≡ success
succeeds status h = ground (arith, h)

-- What Init leaves: a registered stream, whose feed is reset if it captures, or nothing.
Registered : Streams → ℕ → Bool → ℕ → Status × Streams × Bool → Type 0
Registered s pin capture stream (status, s', unregister) =
    ((nt_success status ≡ false) × (s' ≡ s) × (unregister ≡ false))
    ⊎ ((status ≡ success)
        × (s'.miniport ≡ stream_created s.miniport pin stream)
        × (s'.feed ≡ (if capture then PcmFeed.reset s.feed else s.feed)))

prepare_data-Registered :
    (a : StreamAnswers) (s : Streams) (pin : ℕ) (capture : Bool) (stream : ℕ)
    → Registered s pin capture stream (prepare_data a s pin capture stream)
unfolding prepare_data Registered
prepare_data-Registered a s pin true stream = inr (refl, refl, refl)
prepare_data-Registered a s pin false stream = elim (Bool-cases a.no_data_files) [
  | inl x ↦ rw x (inr (refl, refl, refl))
  | inr x ↦ elim (Bool-cases (nt_success a.data_format)) [
    | inr y ↦ rw x (rw y (inl (y, refl, refl)))
    | inl y ↦ elim (Bool-cases (nt_success a.data_file)) [
      | inr z ↦ rw x (rw y (rw z (inl (z, refl, refl))))
      | inl z ↦ rw x (rw y (rw z (inr (refl, refl, refl))))
    ]
  ]
]

init_stream-Registered :
    (a : StreamAnswers) (s : Streams) (pin : ℕ) (capture : Bool) (stream : ℕ)
    → Registered s pin capture stream (init_stream a s pin capture stream)
unfolding init_stream Registered prepare_data
init_stream-Registered a s pin capture stream = elim (Bool-cases a.timer) [
  | inr x ↦ rw x (inl (refl, refl, refl))
  | inl x ↦ elim (Bool-cases a.has_waveformatex) [
    | inr y ↦ rw x (rw y (inl (refl, refl, refl)))
    | inl y ↦
        elim (Bool-cases
          (a.dpc && a.format_memory && a.muted_memory && a.volume_memory && a.meter_memory)) [
            | inr z ↦ rw x (rw y (rw z (inl (refl, refl, refl))))
            | inl z ↦ rw x (rw y (rw z (prepare_data-Registered a s pin capture stream)))
          ]
  ]
]

-- What NewStream may do.
unfoldable pub Outcome : Streams → ℕ → Bool → Format → ℕ → Status × Streams → Type 0
Outcome s pin capture format stream (status, s') =
    ((nt_success status ≡ false) × (s' ≡ s))
    ⊎ ((status ≡ success)
        × (validate_stream_create s.miniport pin capture ≡ success)
        × (is_format_supported s.miniport pin format ≡ success)
        × (s'.miniport ≡ stream_created s.miniport pin stream)
        × (s'.feed ≡ (if capture then PcmFeed.reset s.feed else s.feed)))

Outcome-none :
    (s : Streams) (pin : ℕ) (capture : Bool) (format : Format) (stream : ℕ) (status : Status)
    → nt_success status ≡ false
    → Outcome s pin capture format stream (status, s)
unfolding Outcome
Outcome-none s pin capture format stream status h = inl (h, refl)

all_succeed :
    (b c : Bool) (x y z : Status)
    → b ≡ nt_success x
    → c ≡ nt_success y
    → nt_success (if not b then x else (if not c then y else z)) ≡ true
    → (y ≡ success) × (z ≡ success)
all_succeed true true x y z e f h = (succeeds y (sym f), succeeds z h)
all_succeed true false x y z e f h = absurd (false-ne_true (f ∙ h))
  where
    false-ne_true : false ≢ true
    false-ne_true e = ground (arith, e)
all_succeed false c x y z e f h = absurd (false-ne_true (e ∙ h))
  where
    false-ne_true : false ≢ true
    false-ne_true e = ground (arith, e)

check_stream_lem :
    (s : Streams) (pin : ℕ) (capture : Bool) (format : Format)
    (attributes : Option (Status × List ℕ))
    → nt_success (check_stream s pin capture format attributes) ≡ true
    → (validate_stream_create s.miniport pin capture ≡ success)
      × (is_format_supported s.miniport pin format ≡ success)
unfolding check_stream
check_stream_lem s pin capture format attributes h =
    all_succeed (nt_success (attributes_status attributes))
      (nt_success (validate_stream_create s.miniport pin capture)) (attributes_status attributes)
      (validate_stream_create s.miniport pin capture) (is_format_supported s.miniport pin format)
      refl refl h

keep_or_release-Outcome :
    (s : Streams) (pin : ℕ) (capture : Bool) (format : Format) (stream : ℕ)
    (r : Status × Streams × Bool)
    → Registered s pin capture stream r
    → validate_stream_create s.miniport pin capture ≡ success
    → is_format_supported s.miniport pin format ≡ success
    → Outcome s pin capture format stream (keep_or_release pin stream r)
unfolding keep_or_release destroy_stream Outcome Registered
keep_or_release-Outcome s pin capture format stream (status, s', unregister)
      (inl (failed, same, kept)) valid supported =
    rw (failed, kept) (inl (refl, same))
keep_or_release-Outcome s pin capture format stream (status, s', unregister)
      (inr (done, registered, fed)) valid supported =
    rw done (inr (refl, valid, supported, registered, fed))

-- In terms of the operations that it is made of.
pub new_stream-Outcome :
    (a : StreamAnswers) (s : Streams) (pin : ℕ) (capture : Bool) (format : Format)
    (attributes : Option (Status × List ℕ)) (stream : ℕ)
    → Outcome s pin capture format stream (new_stream a s pin capture format attributes stream)
unfolding new_stream
new_stream-Outcome a s pin capture format attributes stream =
    elim (Bool-cases (nt_success (check_stream s pin capture format attributes))) [
      | inr x ↦
          subst (Outcome s pin capture format stream) (sym (ap (λ p. choice p a.stream_memory) x))
            (refused x)
      | inl x ↦ elim (Bool-cases a.stream_memory) [
        | inr y ↦ subst (Outcome s pin capture format stream) (sym (ap₂ choice x y)) no_memory
        | inl y ↦
            let (valid, supported) = check_stream_lem s pin capture format attributes x in
            subst (Outcome s pin capture format stream) (sym (ap₂ choice x y)) (
              keep_or_release-Outcome s pin capture format stream
                (init_stream a s pin capture stream) (init_stream-Registered a s pin capture stream)
                valid supported)
      ]
    ]
  where
    choice : Bool → Bool → Status × Streams
    choice p q =
        if not p
        then (check_stream s pin capture format attributes, s)
        else (if q
            then keep_or_release pin stream (init_stream a s pin capture stream)
            else (insufficient_resources, s))

    refused :
        nt_success (check_stream s pin capture format attributes) ≡ false
        → Outcome s pin capture format stream (check_stream s pin capture format attributes, s)
    refused x =
        Outcome-none s pin capture format stream (check_stream s pin capture format attributes) x

    no_memory : Outcome s pin capture format stream (insufficient_resources, s)
    no_memory = Outcome-none s pin capture format stream insufficient_resources refl
