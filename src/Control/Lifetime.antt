-- ===== src/Control/Lifetime.antt =====
-- VbmCreateControlDevice and VbmDeleteControlDevice: the device and the feed come and go together,
-- and a failure leaves nothing behind.
use reai_board_sdk.Prelude.{
  ℕ, ◌≡◌, ◌≢◌, ◌⊎◌, inl, inr, refl, sym, ap, ap₂, subst, ◌∙◌, List, [], ◌∷◌, Option, none, some,
  Bool, true, false, Bool-cases, arith,
}
use reai_board_sdk.Status.{Status, success, nt_success}
use reai_board_sdk.PcmFeed
use reai_board_sdk.PcmFeed.{Feed, unloaded, ring_bytes_default, ring_size}
use reai_board_sdk.PcmFeed.Invariant.{IsLoaded}
use reai_board_sdk.PcmFeed.Positions.{contents}
use reai_board_sdk.PcmFeed.Load.{IsPool, initialize_lem, cleanup_lem}
use reai_board_sdk.Control.{
  Device, Control, Call, Answers, create_device, create_symbolic_link, delete_symbolic_link,
  delete_device, link_device, add_device, create_from, create_control_device, delete_control_device,
}

-- Nothing is there,
abbrev pub IsAbsent : Control → Type 0
IsAbsent c = (c.device ≡ none) × (c.feed ≡ unloaded)

-- or the device, set up, and a feed for it.
pub record IsPresent (c : Control) : Type 0 where
  pub device : Device
  pub there : c.device ≡ some device
  pub ready : (device.buffered_io ≡ true) × (device.initializing ≡ false)
  pub k : ℕ
  pub ring : List ℕ
  pub loaded : IsLoaded c.feed k ring

-- The device object and the symbolic link that exist after some calls.
abbrev pub objects : Option ℕ × Bool → List Call → Option ℕ × Bool
objects o [] = o
objects (d, l) (create_device none ∷ cs) = objects (d, l) cs
objects (d, l) (create_device (some n) ∷ cs) = objects (some n, l) cs
objects (d, l) (create_symbolic_link false ∷ cs) = objects (d, l) cs
objects (d, l) (create_symbolic_link true ∷ cs) = objects (d, true) cs
objects (d, l) (delete_symbolic_link ∷ cs) = objects (d, false) cs
objects (d, l) (delete_device n ∷ cs) = objects (none, l) cs

-- What a creation that succeeds comes to,
abbrev pub Created : Answers → Status × Control × List Call → Type 0
Created a (s, c, calls) =
    (s ≡ success)
    × IsPresent c
    × (contents c.feed ≡ [])
    × (objects (none, false) calls ≡ (some a.new_device.object, true))

-- and one that fails.
abbrev pub NotCreated : Status × Control × List Call → Type 0
NotCreated (s, c, calls) =
    (s ≢ success) × IsAbsent c × (objects (none, false) calls ≡ (none, false))

abbrev pub Outcome : Answers → Status × Control × List Call → Type 0
Outcome a r = Created a r ⊎ NotCreated r

fails : (s : Status) → nt_success s ≡ false → s ≢ success
fails s h e = ground arith

succeeds : (s : Status) → nt_success s ≡ true → s ≡ success
succeeds s h = ground arith

link_device_lem :
    (a : Answers) (feed : Feed) {k : ℕ} {b : List ℕ}
    → IsLoaded feed k b
    → contents feed ≡ []
    → Outcome a (link_device a feed)
unfolding link_device
link_device_lem a feed {k} {b} v e = elim (Bool-cases (nt_success a.link_status)) [
  | inl ok ↦ rw ok (
      inl (
        refl,
        record {
          device = record (a.new_device) { buffered_io = true; initializing = false };
          there = refl;
          ready = (refl, refl);
          k = k;
          ring = b;
          loaded = v;
        },
        e,
        refl,
      ))
  | inr bad ↦ rw bad (inr (fails a.link_status bad, (refl, (cleanup_lem [] 0 v).0), refl))
]

add_device_lem :
    (a : Answers) (feed : Feed) {k : ℕ} {b : List ℕ}
    → IsLoaded feed k b
    → contents feed ≡ []
    → Outcome a (add_device a (success, feed))
unfolding add_device
add_device_lem a feed v e = elim (Bool-cases (nt_success a.device_status)) [
  | inl ok ↦ rw ok (link_device_lem a feed v e)
  | inr bad ↦ rw bad (inr (fails a.device_status bad, (refl, (cleanup_lem [] 0 v).0), refl))
]

-- Where nothing is there, and with a pool that gives blocks of the size asked for, VbmCreateControlDevice creates the device with its flags, its symbolic link
-- and an empty feed, or fails and leaves nothing of them behind.
pub create_lem :
    (a : Answers) (c : Control)
    → IsPool a.allocate
    → IsAbsent c
    → Outcome a (create_control_device a c)
unfolding create_control_device add_device
create_lem a c pool (no_device, no_feed) =
    elim (initialize_lem a.allocate c.feed ring_bytes_default pool (ap (λ f. f.buffer) no_feed)) [
      | inl (_, s, f) ↦
          subst (Outcome a) (sym (starts ∙ ap₂ (λ t g. add_device a (t, g)) s f))
            (inr ((λ e. cc), (refl, no_feed), refl))
      | inr (k, b, s, _, e, v) ↦
          subst (Outcome a) (sym (starts ∙ ap (λ t. add_device a (t, given.1)) s))
            (add_device_lem a given.1 v e)
    ]
  where
    given : Status × Feed
    given = PcmFeed.initialize a.allocate c.feed ring_bytes_default

    starts : create_control_device a c ≡ add_device a given
    starts = ap (λ d. create_from d a c) no_device

-- A second creation changes nothing.
pub create_again :
    (a : Answers) (c : Control) → IsPresent c → create_control_device a c ≡ (success, c, [])
unfolding create_control_device
create_again a c p = ap (λ d. create_from d a c) p.there

-- Where the device is present, VbmDeleteControlDevice deletes it and its link, and frees the feed.
pub delete_lem :
    (c : Control) (p : IsPresent c)
    → let (c', calls) = delete_control_device c in
      IsAbsent c' × (objects (some p.device.object, true) calls ≡ (none, false))
unfolding delete_control_device
delete_lem c p = rw p.there ((refl, (cleanup_lem [] 0 p.loaded).0), refl)
