-- ===== src/Adapter/Laws.antt =====
-- The calls of CAdapterCommon that write, and the mixer behind them.
use reai_board_sdk.Prelude.{ℕ, some, none}
use reai_board_sdk.Mixer.{
  Mixer, set_mixer_mux, b_set_dev_specific, i_set_dev_specific, ui_set_dev_specific,
}
use reai_board_sdk.Mixer.Laws.{
  IsWhole, set_mixer_mute_lem, set_mixer_volume_lem, mixer_reset-IsWhole,
}
use reai_board_sdk.Adapter.{
  Adapter, mixer_mute_write, mixer_volume_write, mixer_mux_write, reset_mixer, b_dev_specific_write,
  i_dev_specific_write, ui_dev_specific_write,
}

-- A call that writes.
data Written : Adapter → Adapter → Type 0 where
  mute_written :
      (node channel value : ℕ) {a : Adapter} → Written a (mixer_mute_write node channel value a)
  volume_written :
      (node channel value : ℕ) {a : Adapter} → Written a (mixer_volume_write node channel value a)
  mux_written : (node : ℕ) {a : Adapter} → Written a (mixer_mux_write node a)
  mixer_was_reset : {a : Adapter} → Written a (reset_mixer a)
  b_written : (value : ℕ) {a : Adapter} → Written a (b_dev_specific_write value a)
  i_written : (value : ℕ) {a : Adapter} → Written a (i_dev_specific_write value a)
  ui_written : (value : ℕ) {a : Adapter} → Written a (ui_dev_specific_write value a)

-- The mixer, if there is one, is whole.
data HasWhole : Adapter → Type 0 where
  no_mixer : HasWhole none
  whole_mixer : {m : Mixer} → IsWhole m → HasWhole (some m)

-- A call that writes leaves the mixer whole.
Written-HasWhole : {a a' : Adapter} → Written a a' → HasWhole a → HasWhole a'
unfolding mixer_mute_write mixer_volume_write mixer_mux_write reset_mixer b_dev_specific_write
    i_dev_specific_write ui_dev_specific_write set_mixer_mux b_set_dev_specific i_set_dev_specific
    ui_set_dev_specific
Written-HasWhole (mute_written node channel value) no_mixer = no_mixer
Written-HasWhole (mute_written node channel value) (whole_mixer w) =
    whole_mixer (set_mixer_mute_lem node value node w).4
Written-HasWhole (volume_written node channel value) no_mixer = no_mixer
Written-HasWhole (volume_written node channel value) (whole_mixer w) =
    whole_mixer (set_mixer_volume_lem node value node w).4
Written-HasWhole (mux_written node) no_mixer = no_mixer
Written-HasWhole (mux_written node) (whole_mixer w) =
    whole_mixer (record { mutes = w.mutes; volumes = w.volumes; peaks = w.peaks })
Written-HasWhole mixer_was_reset no_mixer = no_mixer
Written-HasWhole mixer_was_reset (whole_mixer {m} w) = whole_mixer (mixer_reset-IsWhole m)
Written-HasWhole (b_written value) no_mixer = no_mixer
Written-HasWhole (b_written value) (whole_mixer w) =
    whole_mixer (record { mutes = w.mutes; volumes = w.volumes; peaks = w.peaks })
Written-HasWhole (i_written value) no_mixer = no_mixer
Written-HasWhole (i_written value) (whole_mixer w) =
    whole_mixer (record { mutes = w.mutes; volumes = w.volumes; peaks = w.peaks })
Written-HasWhole (ui_written value) no_mixer = no_mixer
Written-HasWhole (ui_written value) (whole_mixer w) =
    whole_mixer (record { mutes = w.mutes; volumes = w.volumes; peaks = w.peaks })
