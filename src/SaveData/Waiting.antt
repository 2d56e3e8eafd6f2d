-- ===== src/SaveData/Waiting.antt =====
-- The wait for the workers: every event that is waited for is signalled in the end.
use reai_board_sdk.Prelude.{
  ℕ, zero, suc, ◌≡◌, ◌⊎◌, inl, inr, refl, sym, ap, ◌∙◌, subst, arith, List, [], ◌∷◌, ◌++◌, true,
  none, some, get_or, set, Option-cases,
}
use reai_board_sdk.SaveData.{WorkItem, Job, idle}
use reai_board_sdk.SaveData.Disk.{Files}
use reai_board_sdk.SaveData.Worker.{Saver, run_item, save_frame_worker_callback, run_workers}

set_cases :
    (items : List WorkItem) (i : ℕ) (w : WorkItem) (k : ℕ)
    → (get_or (set items i w) k idle ≡ w) ⊎ (get_or (set items i w) k idle ≡ get_or items k idle)
set_cases [] i w k = inr refl
set_cases (x ∷ items) zero w zero = inl refl
set_cases (x ∷ items) zero w (suc k) = inr refl
set_cases (x ∷ items) (suc i) w zero = inr refl
set_cases (x ∷ items) (suc i) w (suc k) = set_cases items i w k

set_self :
    (items : List WorkItem) (k : ℕ) (w : WorkItem)
    → (get_or (set items k w) k idle ≡ w) ⊎ (get_or (set items k w) k idle ≡ idle)
set_self [] k w = inr refl
set_self (x ∷ items) zero w = inl refl
set_self (x ∷ items) (suc k) w = set_self items k w

-- An item whose event is signalled, or for which a worker is queued that will signal it.
abbrev pub IsSound : WorkItem → Type 0
IsSound w = (w.event_done ≡ true) ⊎ ((j : Job) × (w.job ≡ some j))

module _ {F : Type 0} (files : Files F) where
  -- The item `k`.
  abbrev item : Saver F → ℕ → WorkItem
  item s k = get_or s.items k idle

  -- A worker changes only its own item, which is signalled then.
  callback_cases :
      (s : Saver F) (i k : ℕ)
      → ((item (save_frame_worker_callback files s i) k).event_done ≡ true)
        ⊎ (item (save_frame_worker_callback files s i) k ≡ item s k)
  unfolding save_frame_worker_callback run_item
  callback_cases s i k = elim (Option-cases (item s i).job) [
    | inl e ↦ inr (ap (λ j. item (run_item files s i (item s i) j) k) e)
    | inr (j, e) ↦
        elim (set_cases s.items i (record (item s i) { event_done = true; job = none }) k) [
          | inl f ↦ inl (
              ap (λ o. (item (run_item files s i (item s i) o) k).event_done) e
              ∙ ap (λ (w : WorkItem). w.event_done) f)
          | inr f ↦ inr (ap (λ o. item (run_item files s i (item s i) o) k) e ∙ f)
        ]
  ]

  callback_self :
      (s : Saver F) (k : ℕ)
      → IsSound (item s k)
      → (item (save_frame_worker_callback files s k) k).event_done ≡ true
  unfolding save_frame_worker_callback run_item
  callback_self s k sound = elim (Option-cases (item s k).job) [
    | inl e ↦ ap (λ o. (item (run_item files s k (item s k) o) k).event_done) e ∙ signalled sound e
    | inr (j, e) ↦ ap (λ o. (item (run_item files s k (item s k) o) k).event_done) e ∙ own
  ]
    where
      signalled : IsSound (item s k) → (item s k).job ≡ none → (item s k).event_done ≡ true
      signalled (inl h) e = h
      signalled (inr (j, h)) e = absurd (ground (arith, sym h ∙ e))

      own :
          (get_or
            (set s.items k (record (item s k) { event_done = true; job = none }))
            k
            idle).event_done
          ≡ true
      own = elim (set_self s.items k (record (item s k) { event_done = true; job = none })) [
        | inl f ↦ ap (λ (w : WorkItem). w.event_done) f
        | inr f ↦ ap (λ (w : WorkItem). w.event_done) f
      ]

  callback-IsSound :
      (s : Saver F) (i k : ℕ)
      → IsSound (item s k)
      → IsSound (item (save_frame_worker_callback files s i) k)
  callback-IsSound s i k sound = elim (callback_cases s i k) [
    | inl h ↦ inl h
    | inr e ↦ subst IsSound (sym e) sound
  ]

  run_workers_keep :
      (s : Saver F) (order : List ℕ) (k : ℕ)
      → (item s k).event_done ≡ true
      → (item (run_workers files s order) k).event_done ≡ true
  unfolding run_workers
  run_workers_keep s [] k h = h
  run_workers_keep s (i ∷ order) k h =
      run_workers_keep (save_frame_worker_callback files s i) order k (elim (callback_cases s i k) [
        | inl e ↦ e
        | inr e ↦ ap (λ (w : WorkItem). w.event_done) e ∙ h
      ])

  -- In whatever order the workers run, the event of an item that is signalled or queued is signalled
  -- when its worker has had its turn.
  pub run_workers-signals :
      (s : Saver F) (before : List ℕ) (k : ℕ) (after : List ℕ)
      → IsSound (get_or s.items k idle)
      → (get_or (run_workers files s (before ++ (k ∷ after))).items k idle).event_done ≡ true
  unfolding run_workers
  run_workers-signals s [] k after sound =
      run_workers_keep (save_frame_worker_callback files s k) after k (callback_self s k sound)
  run_workers-signals s (i ∷ before) k after sound =
      run_workers-signals (save_frame_worker_callback files s i) before k after
        (callback-IsSound s i k sound)
