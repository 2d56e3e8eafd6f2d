-- ===== src/Adapter.antt =====
-- virtual-mic/driver-windows/Source/Main/common.cpp: the calls of CAdapterCommon that pass on to the
-- mixer of hw.cpp. Where there is none, a read answers 0 and a write does nothing.
pub mod Laws
use reai_board_sdk.Prelude.{ℕ, Option, none, some}
use reai_board_sdk.Mixer.{
  Mixer, get_mixer_mute, get_mixer_volume, get_mixer_peak_meter, get_mixer_mux, set_mixer_mute,
  set_mixer_volume, set_mixer_mux, mixer_reset, b_get_dev_specific, b_set_dev_specific,
  i_get_dev_specific, i_set_dev_specific, ui_get_dev_specific, ui_set_dev_specific,
}

-- CAdapterCommon's m_pHW; `none` for NULL.
abbrev pub Adapter : Type 0
Adapter = Option Mixer

-- MixerMuteRead, MixerVolumeRead, MixerPeakMeterRead: the adapter, the node, and the channel.
unfoldable pub mixer_mute_read : Adapter → ℕ → ℕ → ℕ
unfolding get_mixer_mute
mixer_mute_read none node channel = 0
mixer_mute_read (some m) node channel = get_mixer_mute m node

unfoldable pub mixer_volume_read : Adapter → ℕ → ℕ → ℕ
unfolding get_mixer_volume
mixer_volume_read none node channel = 0
mixer_volume_read (some m) node channel = get_mixer_volume m node

unfoldable pub mixer_peak_meter_read : Adapter → ℕ → ℕ → ℕ
unfolding get_mixer_peak_meter
mixer_peak_meter_read none node channel = 0
mixer_peak_meter_read (some m) node channel = get_mixer_peak_meter m node

-- MixerMuteWrite, MixerVolumeWrite: the node, the channel, the value, and the adapter.
unfoldable pub mixer_mute_write : ℕ → ℕ → ℕ → Adapter → Adapter
unfolding set_mixer_mute
mixer_mute_write node channel value none = none
mixer_mute_write node channel value (some m) = some (set_mixer_mute m node value)

unfoldable pub mixer_volume_write : ℕ → ℕ → ℕ → Adapter → Adapter
unfolding set_mixer_volume
mixer_volume_write node channel value none = none
mixer_volume_write node channel value (some m) = some (set_mixer_volume m node value)

-- MixerMuxRead, MixerMuxWrite, MixerReset
unfoldable pub mixer_mux_read : Adapter → ℕ
unfolding get_mixer_mux
mixer_mux_read none = 0
mixer_mux_read (some m) = get_mixer_mux m

unfoldable pub mixer_mux_write : ℕ → Adapter → Adapter
unfolding set_mixer_mux
mixer_mux_write node none = none
mixer_mux_write node (some m) = some (set_mixer_mux m node)

unfoldable pub reset_mixer : Adapter → Adapter
unfolding mixer_reset
reset_mixer none = none
reset_mixer (some m) = some (mixer_reset m)

-- bDevSpecificRead and -Write, and those of the i and ui values.
unfoldable pub b_dev_specific_read : Adapter → ℕ
unfolding b_get_dev_specific
b_dev_specific_read none = 0
b_dev_specific_read (some m) = b_get_dev_specific m

unfoldable pub b_dev_specific_write : ℕ → Adapter → Adapter
unfolding b_set_dev_specific
b_dev_specific_write value none = none
b_dev_specific_write value (some m) = some (b_set_dev_specific m value)

unfoldable pub i_dev_specific_read : Adapter → ℕ
unfolding i_get_dev_specific
i_dev_specific_read none = 0
i_dev_specific_read (some m) = i_get_dev_specific m

unfoldable pub i_dev_specific_write : ℕ → Adapter → Adapter
unfolding i_set_dev_specific
i_dev_specific_write value none = none
i_dev_specific_write value (some m) = some (i_set_dev_specific m value)

unfoldable pub ui_dev_specific_read : Adapter → ℕ
unfolding ui_get_dev_specific
ui_dev_specific_read none = 0
ui_dev_specific_read (some m) = ui_get_dev_specific m

unfoldable pub ui_dev_specific_write : ℕ → Adapter → Adapter
unfolding ui_set_dev_specific
ui_dev_specific_write value none = none
ui_dev_specific_write value (some m) = some (ui_set_dev_specific m value)
