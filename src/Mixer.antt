-- ===== src/Mixer.antt =====
-- virtual-mic/driver-windows/Source/Utilities/hw.{h,cpp}: the mixer's registers. A node that is out of
-- range reads as 0, and a write to it is dropped; the channel is ignored.
pub mod Laws
mod Tests
use reai_board_sdk.Prelude.{ℕ, ◌-◌, ◌/◌, ◌^◌, List, ltb, if◌then◌else◌, get_or, set, replicate}

-- MAX_TOPOLOGY_NODES
abbrev pub max_topology_nodes : ℕ
max_topology_nodes = 20

-- A LONG is its bit pattern; a BOOL is any number.
pub record Mixer : Type 0 where
  pub mute_controls : List ℕ
  pub volume_controls : List ℕ
  pub peak_meter_controls : List ℕ
  pub mux : ℕ
  pub b_dev_specific : ℕ
  pub i_dev_specific : ℕ
  pub ui_dev_specific : ℕ

-- The read that the three getters share.
abbrev pub read_control : List ℕ → ℕ → ℕ
read_control controls node = if ltb node max_topology_nodes then get_or controls node 0 else 0

-- The write that the setters share.
abbrev pub write_control : List ℕ → ℕ → ℕ → List ℕ
write_control controls node value =
    if ltb node max_topology_nodes then set controls node value else controls

-- GetMixerMute, GetMixerVolume, GetMixerPeakMeter, GetMixerMux
unfoldable pub get_mixer_mute : Mixer → ℕ → ℕ
get_mixer_mute m node = read_control m.mute_controls node

unfoldable pub get_mixer_volume : Mixer → ℕ → ℕ
get_mixer_volume m node = read_control m.volume_controls node

unfoldable pub get_mixer_peak_meter : Mixer → ℕ → ℕ
get_mixer_peak_meter m node = read_control m.peak_meter_controls node

unfoldable pub get_mixer_mux : Mixer → ℕ
get_mixer_mux m = m.mux

-- SetMixerMute, SetMixerVolume, SetMixerMux
unfoldable pub set_mixer_mute : Mixer → ℕ → ℕ → Mixer
set_mixer_mute m node value = record m { mute_controls = write_control m.mute_controls node value }

unfoldable pub set_mixer_volume : Mixer → ℕ → ℕ → Mixer
set_mixer_volume m node value = record m {
  volume_controls = write_control m.volume_controls node value;
}

unfoldable pub set_mixer_mux : Mixer → ℕ → Mixer
set_mixer_mux m node = record m { mux = node }

-- The device specific values
unfoldable pub b_get_dev_specific : Mixer → ℕ
b_get_dev_specific m = m.b_dev_specific

unfoldable pub b_set_dev_specific : Mixer → ℕ → Mixer
b_set_dev_specific m value = record m { b_dev_specific = value }

unfoldable pub i_get_dev_specific : Mixer → ℕ
i_get_dev_specific m = m.i_dev_specific

unfoldable pub i_set_dev_specific : Mixer → ℕ → Mixer
i_set_dev_specific m value = record m { i_dev_specific = value }

unfoldable pub ui_get_dev_specific : Mixer → ℕ
ui_get_dev_specific m = m.ui_dev_specific

unfoldable pub ui_set_dev_specific : Mixer → ℕ → Mixer
ui_set_dev_specific m value = record m { ui_dev_specific = value }

-- MixerReset: every byte of the volumes is 0xFF, and a peak meter is at half of LONG_MAX.
unfoldable pub mixer_reset : Mixer → Mixer
mixer_reset m = record m {
  volume_controls = replicate max_topology_nodes 0xFFFFFFFF;
  mute_controls = replicate max_topology_nodes 0;
  peak_meter_controls = replicate max_topology_nodes ((2 ^ 31 - 1) / 2);
  mux = 2;
}
