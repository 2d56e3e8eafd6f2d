-- ===== src/Stream/Effect.antt =====
-- What a call does to the positions of a stream of minwavertstream.cpp.
use reai_board_sdk.Prelude.{
  ℕ, suc, ◌+◌, ◌*◌, ◌%◌, ◌^◌, ◌<◌, ◌≤◌, ◌≡◌, ◌⊎◌, inl, inr, refl, sym, ap, ap₂, ◌∙◌, false, arith,
  mod-lt, mod-add-mod,
}
use reai_board_sdk.Stream.{Stream, KsState}
use reai_board_sdk.Stream.Words.{add64}
use reai_board_sdk.Stream.Position.{displacement}
use reai_board_sdk.Stream.Clock.{Moved}

-- The two ways of counting agree, nothing is at its end, and `n` updates explain the linear position.
pub record IsSynced (s : Stream) (n : ℕ) : Type 0 where
  pub room : 0 < s.dma_buffer_size
  pub small : s.dma_buffer_size < 2 ^ 32
  pub no_eos : s.eos_received ≡ false
  pub not_rendered : s.last_buffer_rendered ≡ false
  pub together : s.play_position ≡ s.write_position
  pub agree : s.write_position ≡ s.linear_position % s.dma_buffer_size
  pub bound : s.linear_position ≤ n * 2 ^ 32

-- A call moves the positions together by less than 2 ^ 32 bytes,
pub record Shifted (s s' : Stream) (d : ℕ) : Type 0 where
  pub few : d < 2 ^ 32
  pub size : s'.dma_buffer_size ≡ s.dma_buffer_size
  pub eos : s'.eos_received ≡ false
  pub rendered : s'.last_buffer_rendered ≡ s.last_buffer_rendered
  pub play : s'.play_position ≡ s'.write_position
  pub write : s'.write_position ≡ add64 s.write_position d % s.dma_buffer_size
  pub linear : s'.linear_position ≡ add64 s.linear_position d

-- or leaves them,
pub record Still (s s' : Stream) : Type 0 where
  pub size : s'.dma_buffer_size ≡ s.dma_buffer_size
  pub eos : s'.eos_received ≡ s.eos_received
  pub rendered : s'.last_buffer_rendered ≡ s.last_buffer_rendered
  pub play : s'.play_position ≡ s.play_position
  pub write : s'.write_position ≡ s.write_position
  pub linear : s'.linear_position ≡ s.linear_position

pub Effect : Stream → Stream → Type 0
Effect s s' = Still s s' ⊎ ((d : ℕ) × Shifted s s' d)

pub still : (s : Stream) → Still s s
still s = record {
  size = refl;
  eos = refl;
  rendered = refl;
  play = refl;
  write = refl;
  linear = refl;
}

pub Effect-IsSynced :
    (s s' : Stream) (n : ℕ) → n < 2 ^ 31 → IsSynced s n → Effect s s' → IsSynced s' (suc n)
unfolding Effect
Effect-IsSynced s s' n few i (inl e) = record {
  room = omega (arith, i.room, e.size);
  small = omega (arith, i.small, e.size);
  no_eos = e.eos ∙ i.no_eos;
  not_rendered = e.rendered ∙ i.not_rendered;
  together = omega (arith, i.together, e.play, e.write);
  agree = rw (e.write, e.linear, e.size) i.agree;
  bound = omega (arith, i.bound, e.linear);
}
Effect-IsSynced s s' n few i (inr (d, e)) = record {
  room = omega (arith, i.room, e.size);
  small = omega (arith, i.small, e.size);
  no_eos = e.eos;
  not_rendered = e.rendered ∙ i.not_rendered;
  together = e.play;
  agree =
      e.write
      ∙ ap (λ p. p % s.dma_buffer_size) no_wrap
      ∙ mod-add-mod s.linear_position s.dma_buffer_size d
      ∙ sym (
          ap (λ p. p % s'.dma_buffer_size) linear_no_wrap
          ∙ ap (λ m. (s.linear_position + d) % m) e.size);
  bound = omega (arith, i.bound, e.linear, e.few);
}
  where
    no_wrap : add64 s.write_position d ≡ s.linear_position % s.dma_buffer_size + d
    no_wrap = omega (arith, i.agree, e.few, i.small, mod-lt s.linear_position i.room)

    linear_no_wrap : s'.linear_position ≡ s.linear_position + d
    linear_no_wrap = omega (arith, i.bound, e.few, e.linear)

Moved-Shifted : (s s' : Stream) (now : ℕ) → Moved s s' now → Shifted s s' (displacement s now)
Moved-Shifted s s' now v = record {
  few = omega arith;
  size = v.size;
  eos = v.eos;
  rendered = v.rendered;
  play = v.play;
  write = v.write;
  linear = v.linear;
}

pub Still-Effect : (s t u : Stream) → Still s t → Effect t u → Effect s u
unfolding Effect
Still-Effect s t u a (inl b) = inl (record {
  size = b.size ∙ a.size;
  eos = b.eos ∙ a.eos;
  rendered = b.rendered ∙ a.rendered;
  play = b.play ∙ a.play;
  write = b.write ∙ a.write;
  linear = b.linear ∙ a.linear;
})
Still-Effect s t u a (inr (d, b)) = inr (
  d,
  record {
    few = b.few;
    size = b.size ∙ a.size;
    eos = b.eos;
    rendered = b.rendered ∙ a.rendered;
    play = b.play;
    write = b.write ∙ ap₂ (λ p m. add64 p d % m) a.write a.size;
    linear = b.linear ∙ ap (λ p. add64 p d) a.linear;
  },
)

pub Effect-Still : (s t u : Stream) → Effect s t → Still t u → Effect s u
unfolding Effect
Effect-Still s t u (inl a) b = Still-Effect s t u a (inl b)
Effect-Still s t u (inr (d, a)) b = inr (
  d,
  record {
    few = a.few;
    size = b.size ∙ a.size;
    eos = b.eos ∙ a.eos;
    rendered = b.rendered ∙ a.rendered;
    play = b.play ∙ a.play ∙ sym b.write;
    write = b.write ∙ a.write;
    linear = b.linear ∙ a.linear;
  },
)

pub new_state : (s : Stream) (k : KsState) → Still s (record s { ks_state = k })
new_state s k = record {
  size = refl;
  eos = refl;
  rendered = refl;
  play = refl;
  write = refl;
  linear = refl;
}

pub Still-Effect_same : {s s' : Stream} → Still s s' → Effect s s'
unfolding Effect
Still-Effect_same e = inl e

pub Moved-Effect : (s s' : Stream) (now : ℕ) → Moved s s' now → Effect s s'
unfolding Effect
Moved-Effect s s' now v = inr (_, Moved-Shifted s s' now v)
