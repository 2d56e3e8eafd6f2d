-- ===== src/Miniport/Drm.antt =====
-- Main/minwavert.cpp: UpdateDrmRights, and SetContentId of Main/minwavertstream.cpp, with the DRM port of
-- the system as a parameter.
use reai_board_sdk.Prelude.{
  ℕ, List, [], ◌∷◌, Bool, not, ◌&&◌, Option, none, some, ◌==◌, if◌then◌else◌, length,
}
use reai_board_sdk.Status.{Status, unsuccessful, insufficient_resources, nt_success}
use reai_board_sdk.SaveData.{Frames}
use reai_board_sdk.SaveData.Write.{disable}
use reai_board_sdk.Miniport.{
  Miniport, Slot, is_system_capture_pin, is_system_render_pin, free_stream,
}

-- CreateContentMixed with the id that it stores, and GetContentRights with the rights.
pub record DrmPort : Type 0 where
  pub create_content_mixed : List ℕ → Status × ℕ
  pub get_content_rights : ℕ → Status × ℕ

-- m_ulMixDrmContentId, m_MixDrmRights, and the contents that the port has been told to destroy, the
-- last first.
pub record Mix : Type 0 where
  pub mix_content_id : ℕ
  pub mix_rights : ℕ
  pub destroyed : List ℕ

-- The content ids of the streams in the table, with m_ulContentId of a stream as `content_of`.
unfoldable pub content_ids : (ℕ → ℕ) → List Slot → List ℕ
content_ids content_of [] = []
content_ids content_of (none ∷ slots) = content_ids content_of slots
content_ids content_of (some s ∷ slots) = content_of s ∷ content_ids content_of slots

-- DestroyContent
abbrev pub destroy_content : Mix → ℕ → Mix
destroy_content mix id = record mix { destroyed = id ∷ mix.destroyed }

-- The part that follows CreateContentMixed, with its answer: the status, the mix, and the content that
-- was created.
unfoldable pub take_rights : DrmPort → Mix → Status × ℕ → Status × Mix × Option ℕ
take_rights port mix (status, id) =
    let (rights_status, rights) = port.get_content_rights id in
    if nt_success status
    then (if nt_success rights_status
        then (
          rights_status,
          record (destroy_content mix mix.mix_content_id) {
            mix_content_id = id;
            mix_rights = rights;
          },
          some id,
        )
        else (rights_status, destroy_content mix id, some id))
    else (status, mix, none)

-- UpdateDrmRights; no port is `none`.
unfoldable pub update_drm_rights :
    Option DrmPort → Bool → (ℕ → ℕ) → List Slot → Mix → Status × Mix × Option ℕ
update_drm_rights none got_memory content_of slots mix = (unsuccessful, mix, none)
update_drm_rights (some port) got_memory content_of slots mix =
    let ids = content_ids content_of slots in
    if got_memory
    then (if length ids == 0
        then (unsuccessful, mix, none)
        else take_rights port mix (port.create_content_mixed ids))
    else (insufficient_resources, mix, none)

-- StreamClosed
unfoldable pub stream_closed :
    Option DrmPort → Bool → (ℕ → ℕ) → Miniport → Mix → ℕ → ℕ → Miniport × Mix
stream_closed port got_memory content_of m mix pin stream =
    let closed = free_stream m pin stream in
    let (_, mix', _) = update_drm_rights port got_memory content_of closed.system_streams mix in
    let updates = not (is_system_capture_pin m pin) && is_system_render_pin m pin in
    (closed, (if updates then mix' else mix))

-- SetContentId of a stream with the frames `f` of its data saving: the status, its m_ulContentId, the
-- mix and the frames. The id that is put back on a failure is the new one.
unfoldable pub set_content_id :
    Option DrmPort
    → Bool
    → (ℕ → ℕ)
    → List Slot
    → Mix
    → Frames
    → ℕ
    → Bool
    → Status × ℕ × Mix × Frames
set_content_id port got_memory content_of slots mix f content_id copy_protect =
    let old_content_id = content_id in
    let (status, mix', _) = update_drm_rights port got_memory content_of slots mix in
    (
      status,
      (if nt_success status then content_id else old_content_id),
      mix',
      disable f copy_protect,
    )
