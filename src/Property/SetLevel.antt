-- ===== src/Property/SetLevel.antt =====
-- SET of the level properties of kshelper.cpp: all channels are one register.
use reai_board_sdk.Prelude.{
  ℕ, zero, suc, ◌+◌, ◌<◌, ◌≡◌, inl, inr, refl, arith, some, ◌==◌, eqb→eq, List, [], ◌∷◌, set, ap,
  ◌∙◌, Bool-cases,
}
use reai_board_sdk.Mixer.{Mixer, write_control, set_mixer_mute, set_mixer_volume}
use reai_board_sdk.Adapter.{mixer_volume_write, mixer_mute_write}
use reai_board_sdk.Property.Level.{LevelRequest, all_channels_id, set_level, write_channels}

set-set : (xs : List ℕ) (i v : ℕ) → set (set xs i v) i v ≡ set xs i v
set-set [] i v = refl
set-set (x ∷ xs) zero v = refl
set-set (x ∷ xs) (suc i) v = ap (λ ys. x ∷ ys) (set-set xs i v)

write_control-write_control :
    (xs : List ℕ) (node v : ℕ)
    → write_control (write_control xs node v) node v ≡ write_control xs node v
write_control-write_control xs node v = ground (arith, set-set xs node v)

-- A mixer whose volumes are written is written once, whichever and however many the channels are.
write_channels-volume :
    (node v count i : ℕ) (m : Mixer)
    → write_channels (λ i. mixer_volume_write node i v) (suc count) i (some m)
      ≡ some (set_mixer_volume m node v)
unfolding write_channels mixer_volume_write set_mixer_volume
write_channels-volume node v zero i m = refl
write_channels-volume node v (suc count) i m =
    write_channels-volume node v count (i + 1) (set_mixer_volume m node v)
    ∙ ap (λ xs. some (record m { volume_controls = xs }))
        (write_control-write_control m.volume_controls node v)

write_channels-mute :
    (node v count i : ℕ) (m : Mixer)
    → write_channels (λ i. mixer_mute_write node i v) (suc count) i (some m)
      ≡ some (set_mixer_mute m node v)
unfolding write_channels mixer_mute_write set_mixer_mute
write_channels-mute node v zero i m = refl
write_channels-mute node v (suc count) i m =
    write_channels-mute node v count (i + 1) (set_mixer_mute m node v)
    ∙ ap (λ xs. some (record m { mute_controls = xs }))
        (write_control-write_control m.mute_controls node v)

-- A count of rounds that is not 0.
positive : (P : ℕ → Type 0) (n : ℕ) → 0 < n → ((k : ℕ) → P (suc k)) → P n
positive P zero h f = absurd (omega arith)
positive P (suc n) h f = f n

pub set_level-volume :
    (c : LevelRequest) (v : ℕ) (m : Mixer)
    → set_level mixer_volume_write c v (some m) ≡ some (set_mixer_volume m c.node v)
unfolding set_level mixer_volume_write
set_level-volume c v m = elim (Bool-cases (c.channel == all_channels_id)) [
  | inl all ↦ rw all (
      positive
        (λ n.
          write_channels (λ i. mixer_volume_write c.node i v) n 0 (some m)
          ≡ some (set_mixer_volume m c.node v))
        c.channel (omega (arith, eqb→eq c.channel all_channels_id all))
        (λ k. write_channels-volume c.node v k 0 m))
  | inr one ↦ rw one refl
]

pub set_level-mute :
    (c : LevelRequest) (v : ℕ) (m : Mixer)
    → set_level mixer_mute_write c v (some m) ≡ some (set_mixer_mute m c.node v)
unfolding set_level mixer_mute_write
set_level-mute c v m = elim (Bool-cases (c.channel == all_channels_id)) [
  | inl all ↦ rw all (
      positive
        (λ n.
          write_channels (λ i. mixer_mute_write c.node i v) n 0 (some m)
          ≡ some (set_mixer_mute m c.node v))
        c.channel (omega (arith, eqb→eq c.channel all_channels_id all))
        (λ k. write_channels-mute c.node v k 0 m))
  | inr one ↦ rw one refl
]
