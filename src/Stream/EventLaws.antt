-- ===== src/Stream/EventLaws.antt =====
-- The notification events of minwavertstream.cpp: the list of registered events, and when they are set.
use reai_board_sdk.Prelude.{
  ℕ, ◌≡◌, ◌⊎◌, inl, inr, refl, Bool, true, false, List, [], ◌∷◌, ◌++◌, not, ◌&&◌, ◌||◌, arith, ◌==◌,
  Bool-cases, eq→eqb,
}
use reai_board_sdk.Status.{success, nt_success}
use reai_board_sdk.Stream.{Stream}
use reai_board_sdk.Stream.Events.{
  is_registered, register_notification_event, remove_event, unregister_notification_event,
}

-- No event stands in the list twice.
unfoldable pub is_distinct : List ℕ → Bool
is_distinct [] = true
is_distinct (x ∷ xs) = not (is_registered x xs) && is_distinct xs

-- What is appended is found at the end,
is_registered-append :
    (x e : ℕ) (l : List ℕ) → is_registered x (l ++ e ∷ []) ≡ (is_registered x l || e == x)
unfolding is_registered
is_registered-append x e [] = ground arith
is_registered-append x e (y ∷ l) = ground (arith, is_registered-append x e l)

is_registered-appended : (e : ℕ) (l : List ℕ) → is_registered e (l ++ e ∷ []) ≡ true
is_registered-appended e l = ground (arith, is_registered-append e e l)

is_distinct-append :
    (e : ℕ) (l : List ℕ)
    → is_distinct l ≡ true
    → is_registered e l ≡ false
    → is_distinct (l ++ e ∷ []) ≡ true
unfolding is_distinct is_registered
is_distinct-append e [] d h = refl
is_distinct-append e (x ∷ l) d h =
    ground (arith, is_registered-append x e l, is_distinct-append e l)

remove_event-append :
    (e : ℕ) (l : List ℕ) → is_registered e l ≡ false → remove_event e (l ++ e ∷ []) ≡ l
unfolding remove_event is_registered
remove_event-append e [] h = rw (eq→eqb e e refl) refl
remove_event-append e (x ∷ l) h = ground (arith, remove_event-append e l)

-- The events that are removed are removed for good.
is_registered-remove_event_same :
    (e : ℕ) (l : List ℕ) → is_distinct l ≡ true → is_registered e (remove_event e l) ≡ false
unfolding remove_event is_registered is_distinct
is_registered-remove_event_same e [] d = refl
is_registered-remove_event_same e (x ∷ l) d = ground (arith, is_registered-remove_event_same e l)

is_registered-remove_event :
    (x e : ℕ) (l : List ℕ) → is_registered x l ≡ false → is_registered x (remove_event e l) ≡ false
unfolding remove_event is_registered
is_registered-remove_event x e [] h = refl
is_registered-remove_event x e (y ∷ l) h = ground (arith, is_registered-remove_event x e l)

is_distinct-remove_event :
    (e : ℕ) (l : List ℕ) → is_distinct l ≡ true → is_distinct (remove_event e l) ≡ true
unfolding remove_event is_distinct
is_distinct-remove_event e [] d = refl
is_distinct-remove_event e (x ∷ l) d =
    ground (arith, is_distinct-remove_event e l, is_registered-remove_event x e l)

-- An event that was just registered can be unregistered.
unregister-registered :
    (s : Stream) (e : ℕ)
    → is_registered e s.notification_list ≡ false
    → unregister_notification_event
        (record s { notification_list = s.notification_list ++ e ∷ [] })
        e
      ≡ (success, s)
unfolding unregister_notification_event
unregister-registered s e new =
    rw (is_registered-appended e s.notification_list, remove_event-append e s.notification_list new)
      refl

-- RegisterNotificationEvent keeps a list without duplicates so. It adds an event that it has memory for
-- and that is not registered, and UnregisterNotificationEvent then gives back the stream as it was;
-- otherwise it fails and changes nothing.
pub register_lem :
    (has_memory : Bool) (s : Stream) (e : ℕ)
    → is_distinct s.notification_list ≡ true
    → let (status, s') = register_notification_event has_memory s e in
      (is_distinct s'.notification_list ≡ true)
      × (((has_memory ≡ true)
            × (is_registered e s.notification_list ≡ false)
            × (status ≡ success)
            × (is_registered e s'.notification_list ≡ true)
            × (unregister_notification_event s' e ≡ (success, s)))
          ⊎ (((has_memory ≡ false) ⊎ (is_registered e s.notification_list ≡ true))
              × (nt_success status ≡ false)
              × (s' ≡ s)))
unfolding register_notification_event
register_lem false s e d = (d, inr (inl refl, refl, refl))
register_lem true s e d = elim (Bool-cases (is_registered e s.notification_list)) [
  | inl known ↦ rw known (d, inr (inr refl, refl, refl))
  | inr new ↦ rw new (
    is_distinct-append e s.notification_list d new,
    inl (
      refl,
      refl,
      refl,
      is_registered-appended e s.notification_list,
      unregister-registered s e new,
    ),
  )
]

-- On a list without duplicates, UnregisterNotificationEvent succeeds exactly for a registered event. The event is then registered no
-- more, and the list stays free of duplicates; otherwise nothing changes.
pub unregister_lem :
    (s : Stream) (e : ℕ)
    → is_distinct s.notification_list ≡ true
    → let (status, s') = unregister_notification_event s e in
      (is_distinct s'.notification_list ≡ true)
      × (is_registered e s'.notification_list ≡ false)
      × (nt_success status ≡ is_registered e s.notification_list)
unfolding unregister_notification_event
unregister_lem s e d = elim (Bool-cases (is_registered e s.notification_list)) [
  | inl known ↦ rw known (
    is_distinct-remove_event e s.notification_list d,
    is_registered-remove_event_same e s.notification_list d,
    refl,
  )
  | inr unknown ↦ rw unknown (d, unknown, refl)
]
