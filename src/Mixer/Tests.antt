-- ===== src/Mixer/Tests.antt =====
-- Runs of the mixer of hw.cpp, and the theorems about it there.
use reai_board_sdk.Prelude.{◌≡◌, refl, replicate}
use reai_board_sdk.Mixer.{Mixer, get_mixer_volume, mixer_reset}

abbrev fresh : Mixer
fresh = record {
  mute_controls = replicate 20 7;
  volume_controls = replicate 20 7;
  peak_meter_controls = replicate 20 7;
  mux = 0;
  b_dev_specific = 0;
  i_dev_specific = 0;
  ui_dev_specific = 0;
}

reset_run : get_mixer_volume (mixer_reset fresh) 19 ≡ 0xFFFFFFFF
unfolding mixer_reset get_mixer_volume
reset_run = refl
