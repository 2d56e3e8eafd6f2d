-- ===== src/Mixer/Laws.antt =====
-- The registers of hw.cpp: each keeps what was last written to it, whatever is written elsewhere.
use reai_board_sdk.Prelude.{
  ℕ, ◌≡◌, refl, sym, ap, ◌∙◌, inl, inr, List, arith, length, length-set, get_or-set_self,
  get_or-set_ne, ltb, ◌==◌, ◌&&◌, Bool-cases, ltb→lt, if◌then◌else◌, eqb→eq, eq→eqb, eqb→ne,
}
use reai_board_sdk.Mixer.{
  Mixer, max_topology_nodes, read_control, write_control, get_mixer_mute, get_mixer_volume,
  get_mixer_peak_meter, get_mixer_mux, set_mixer_mute, set_mixer_volume, mixer_reset,
}

-- The arrays of the class, whole.
pub record IsWhole (m : Mixer) : Type 0 where
  pub mutes : length m.mute_controls ≡ max_topology_nodes
  pub volumes : length m.volume_controls ≡ max_topology_nodes
  pub peaks : length m.peak_meter_controls ≡ max_topology_nodes

-- A control after a write to `node`.
abbrev pub updated : ℕ → ℕ → ℕ → (ℕ → ℕ) → ℕ
updated node value other before =
    if ltb node max_topology_nodes && other == node then value else before other

read_control-write_control :
    (controls : List ℕ) (node value other : ℕ)
    → length controls ≡ max_topology_nodes
    → read_control (write_control controls node value) other
      ≡ updated node value other (read_control controls)
read_control-write_control controls node value other whole =
    elim (Bool-cases (ltb node max_topology_nodes)) [
      | inr out ↦ rw out refl
      | inl in_range ↦ elim (Bool-cases (other == node)) [
        | inl same ↦
            rw (eqb→eq other node same, in_range, eq→eqb node node refl)
              (get_or-set_self controls node value 0
                (omega (arith, whole, ltb→lt node max_topology_nodes in_range)))
        | inr other_node ↦
            rw (in_range, other_node)
              (ap (λ v. if ltb other max_topology_nodes then v else 0)
                (get_or-set_ne controls {i = node} {j = other} value 0
                  (λ e. eqb→ne other node other_node (sym e))))
      ]
    ]

length-write_control :
    (controls : List ℕ) (node value : ℕ)
    → length (write_control controls node value) ≡ length controls
length-write_control controls node value = ground (arith, length-set controls node value)

-- After SetMixerMute on a whole mixer, GetMixerMute gives the new value at that node, if it is one of
-- the 20, and the old one at any other; no other register changes, and the mixer stays whole.
pub set_mixer_mute_lem :
    {m : Mixer} (node value other : ℕ)
    → IsWhole m
    → let m' = set_mixer_mute m node value in
      (get_mixer_mute m' other ≡ updated node value other (get_mixer_mute m))
      × (get_mixer_volume m' other ≡ get_mixer_volume m other)
      × (get_mixer_peak_meter m' other ≡ get_mixer_peak_meter m other)
      × (get_mixer_mux m' ≡ get_mixer_mux m)
      × IsWhole m'
unfolding set_mixer_mute get_mixer_mute get_mixer_volume get_mixer_peak_meter get_mixer_mux
set_mixer_mute_lem {m} node value other v = (
  read_control-write_control m.mute_controls node value other v.mutes,
  refl,
  refl,
  refl,
  record {
    mutes = length-write_control m.mute_controls node value ∙ v.mutes;
    volumes = v.volumes;
    peaks = v.peaks;
  },
)

-- After SetMixerVolume on a whole mixer, GetMixerVolume gives the new value at that node, if it is one
-- of the 20, and the old one at any other; no other register changes, and the mixer stays whole.
pub set_mixer_volume_lem :
    {m : Mixer} (node value other : ℕ)
    → IsWhole m
    → let m' = set_mixer_volume m node value in
      (get_mixer_volume m' other ≡ updated node value other (get_mixer_volume m))
      × (get_mixer_mute m' other ≡ get_mixer_mute m other)
      × (get_mixer_peak_meter m' other ≡ get_mixer_peak_meter m other)
      × (get_mixer_mux m' ≡ get_mixer_mux m)
      × IsWhole m'
unfolding set_mixer_volume get_mixer_mute get_mixer_volume get_mixer_peak_meter get_mixer_mux
set_mixer_volume_lem {m} node value other v = (
  read_control-write_control m.volume_controls node value other v.volumes,
  refl,
  refl,
  refl,
  record {
    mutes = v.mutes;
    volumes = length-write_control m.volume_controls node value ∙ v.volumes;
    peaks = v.peaks;
  },
)

-- MixerReset makes any mixer whole.
pub mixer_reset-IsWhole : (m : Mixer) → IsWhole (mixer_reset m)
unfolding mixer_reset
mixer_reset-IsWhole m = record { mutes = refl; volumes = refl; peaks = refl }
