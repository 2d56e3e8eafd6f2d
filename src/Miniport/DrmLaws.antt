-- ===== src/Miniport/DrmLaws.antt =====
-- Contents that UpdateDrmRights creates are kept or destroyed.
use reai_board_sdk.Prelude.{
  ℕ, ◌≡◌, ◌⊎◌, inl, inr, refl, List, ◌∷◌, Bool, true, false, Option, none, some, ◌==◌, length,
  Bool-cases,
}
use reai_board_sdk.Status.{Status, nt_success}
use reai_board_sdk.Miniport.{Slot}
use reai_board_sdk.Miniport.Drm.{DrmPort, Mix, content_ids, take_rights, update_drm_rights}

-- What an update may do: it creates no content and changes nothing, it destroys the content that it has
-- created and changes nothing else, or it keeps that content in place of the old one, which it
-- destroys; it succeeds exactly in the last case.
pub Balanced : Mix → Status × Mix × Option ℕ → Type 0
Balanced mix (status, mix', created) =
    ((nt_success status ≡ false) × (created ≡ none) × (mix' ≡ mix))
    ⊎ ((id : ℕ) × (nt_success status ≡ false)
        × (created ≡ some id)
        × (mix' ≡ record mix { destroyed = id ∷ mix.destroyed }))
    ⊎ ((id : ℕ) × (nt_success status ≡ true)
        × (created ≡ some id)
        × (mix'.mix_content_id ≡ id)
        × (mix'.destroyed ≡ mix.mix_content_id ∷ mix.destroyed))

take_rights-Balanced :
    (port : DrmPort) (mix : Mix) (answer : Status × ℕ) → Balanced mix (take_rights port mix answer)
unfolding Balanced take_rights
take_rights-Balanced port mix (status, id) = elim (Bool-cases (nt_success status)) [
  | inr failed ↦ rw failed (inl (failed, refl, refl))
  | inl done ↦ elim (Bool-cases (nt_success (port.get_content_rights id).0)) [
    | inr failed ↦ rw (done, failed) (inr (inl (id, failed, refl, refl)))
    | inl granted ↦ rw (done, granted) (inr (inr (id, granted, refl, refl, refl)))
  ]
]

-- UpdateDrmRights leaks no content and destroys none twice: each content that the port creates is kept
-- in place of the old one, which is destroyed, or is destroyed itself; on every failure the mix and
-- its rights are as before.
pub update_drm_rights-Balanced :
    (port : Option DrmPort) (got_memory : Bool) (content_of : ℕ → ℕ) (slots : List Slot) (mix : Mix)
    → Balanced mix (update_drm_rights port got_memory content_of slots mix)
unfolding update_drm_rights Balanced
update_drm_rights-Balanced none got_memory content_of slots mix = inl (refl, refl, refl)
update_drm_rights-Balanced (some port) false content_of slots mix = inl (refl, refl, refl)
update_drm_rights-Balanced (some port) true content_of slots mix =
    elim (Bool-cases (length (content_ids content_of slots) == 0)) [
      | inl empty ↦ rw empty (inl (refl, refl, refl))
      | inr some_ids ↦
          rw some_ids (
            take_rights-Balanced port mix
              (port.create_content_mixed (content_ids content_of slots)))
    ]
