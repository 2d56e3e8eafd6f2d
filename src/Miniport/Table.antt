-- ===== src/Miniport/Table.antt =====
-- The table of streams: what it holds after a stream has been entered or taken out.
use reai_board_sdk.Prelude.{
  ℕ, suc, ◌+◌, ◌<◌, ◌≡◌, inl, inr, refl, sym, ap, arith, List, [], ◌∷◌, Bool, false, none, some,
  ◌==◌, eqb→eq, if◌then◌else◌, length, Bool-cases,
}
use reai_board_sdk.Miniport.{Slot, cache_stream, clear_stream}

-- How many slots are taken.
abbrev pub taken : List Slot → ℕ
taken [] = 0
taken (none ∷ slots) = taken slots
taken (some s ∷ slots) = suc (taken slots)

-- A stream in the table, at most once or not at all.
abbrev pub occurrences : List Slot → ℕ → ℕ
occurrences [] stream = 0
occurrences (none ∷ slots) stream = occurrences slots stream
occurrences (some s ∷ slots) stream = (if s == stream then 1 else 0) + occurrences slots stream

pub taken-cache_stream :
    (slots : List Slot) (stream : ℕ)
    → taken slots < length slots
    → taken (cache_stream slots stream) ≡ suc (taken slots)
unfolding cache_stream
taken-cache_stream [] stream h = absurd (omega arith)
taken-cache_stream (none ∷ slots) stream h = refl
taken-cache_stream (some s ∷ slots) stream h =
    ap suc (taken-cache_stream slots stream (omega arith))

pub length-cache_stream :
    (slots : List Slot) (stream : ℕ) → length (cache_stream slots stream) ≡ length slots
unfolding cache_stream
length-cache_stream [] stream = refl
length-cache_stream (none ∷ slots) stream = refl
length-cache_stream (some s ∷ slots) stream = ap suc (length-cache_stream slots stream)

pub length-clear_stream :
    (slots : List Slot) (stream : ℕ) → length (clear_stream slots stream) ≡ length slots
unfolding clear_stream
length-clear_stream [] stream = refl
length-clear_stream (none ∷ slots) stream = ap suc (length-clear_stream slots stream)
length-clear_stream (some s ∷ slots) stream = ground (arith, length-clear_stream slots stream)

pub occurrences-cache_stream :
    (slots : List Slot) (stream other : ℕ)
    → taken slots < length slots
    → occurrences (cache_stream slots stream) other
      ≡ (if stream == other then 1 else 0) + occurrences slots other
unfolding cache_stream
occurrences-cache_stream [] stream other h = absurd (omega arith)
occurrences-cache_stream (none ∷ slots) stream other h = refl
occurrences-cache_stream (some s ∷ slots) stream other h =
    omega (arith, occurrences-cache_stream slots stream other (omega arith))

pub taken-clear_stream :
    (slots : List Slot) (stream : ℕ)
    → 0 < occurrences slots stream
    → suc (taken (clear_stream slots stream)) ≡ taken slots
unfolding clear_stream
taken-clear_stream [] stream h = absurd (omega arith)
taken-clear_stream (none ∷ slots) stream h = taken-clear_stream slots stream h
taken-clear_stream (some s ∷ slots) stream h = elim (Bool-cases (s == stream)) [
  | inl e ↦ rw e refl
  | inr e ↦ rw e (ap suc (taken-clear_stream slots stream (in_rest (s == stream) e h)))
]
  where
    in_rest :
        (b : Bool)
        → b ≡ false
        → 0 < (if b then 1 else 0) + occurrences slots stream
        → 0 < occurrences slots stream
    in_rest b e h = ground (arith, h, e)

pub occurrences-clear_stream :
    (slots : List Slot) (stream other : ℕ)
    → 0 < occurrences slots stream
    → (if stream == other then 1 else 0) + occurrences (clear_stream slots stream) other
      ≡ occurrences slots other
unfolding clear_stream
occurrences-clear_stream [] stream other h = absurd (omega arith)
occurrences-clear_stream (none ∷ slots) stream other h =
    occurrences-clear_stream slots stream other h
occurrences-clear_stream (some s ∷ slots) stream other h = elim (Bool-cases (s == stream)) [
  | inl e ↦
      rw e (
        ap (λ n. (if n == other then 1 else 0) + occurrences slots other) (sym (eqb→eq s stream e)))
  | inr e ↦
      rw e (omega (arith, occurrences-clear_stream slots stream other (in_rest (s == stream) e h)))
]
  where
    in_rest :
        (b : Bool)
        → b ≡ false
        → 0 < (if b then 1 else 0) + occurrences slots stream
        → 0 < occurrences slots stream
    in_rest b e h = ground (arith, h, e)
