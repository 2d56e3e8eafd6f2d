-- ===== src/Stream/Events.antt =====
-- RegisterNotificationEvent and UnregisterNotificationEvent of minwavertstream.cpp. The list holds the
-- events' addresses; ExAllocatePool2 succeeds or not as `has_memory` says.
use reai_board_sdk.Prelude.{ℕ, List, [], ◌∷◌, ◌++◌, Bool, false, ◌||◌, ◌==◌, if◌then◌else◌}
use reai_board_sdk.Status.{Status, success, unsuccessful, insufficient_resources, not_found}
use reai_board_sdk.Stream.{Stream}

-- The search of both loops.
unfoldable pub is_registered : ℕ → List ℕ → Bool
is_registered e [] = false
is_registered e (x ∷ xs) = x == e || is_registered e xs

-- RegisterNotificationEvent
unfoldable pub register_notification_event : Bool → Stream → ℕ → Status × Stream
unfolding is_registered
register_notification_event has_memory s e =
    if has_memory
    then (if is_registered e s.notification_list
        then (unsuccessful, s)
        else (success, record s { notification_list = s.notification_list ++ e ∷ [] }))
    else (insufficient_resources, s)

-- RemoveEntryList, of the first entry with the event
unfoldable pub remove_event : ℕ → List ℕ → List ℕ
remove_event e [] = []
remove_event e (x ∷ xs) = if x == e then xs else x ∷ remove_event e xs

-- UnregisterNotificationEvent
unfoldable pub unregister_notification_event : Stream → ℕ → Status × Stream
unfolding is_registered remove_event
unregister_notification_event s e =
    if is_registered e s.notification_list
    then (success, record s { notification_list = remove_event e s.notification_list })
    else (not_found, s)
