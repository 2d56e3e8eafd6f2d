-- ===== src/Prelude/Lists.antt =====
-- Lists measured and indexed by native numbers, under the library's names.
use Prim.Native.Nat.{ℕ, zero, suc, ◌+◌, ◌-◌, ◌<◌, ◌≤◌, min}
use mathlib.Core.Path.{◌≡◌, refl, sym, ap, ◌∙◌}
use mathlib.Core.Logic.{◌≢◌, ◌⊎◌, inl, inr}
use mathlib.Core.List.{List, [], ◌∷◌, ◌++◌}
use native.Mathlib.Omega.{arith}
use native.Mathlib.Decide.{dec_le}

module _ {ℓ} {A : Type ℓ} where
  abbrev pub length : List A → ℕ
  length [] = 0
  length (x ∷ xs) = suc (length xs)

  abbrev pub get_or : List A → ℕ → A → A
  get_or [] i d = d
  get_or (x ∷ xs) zero d = x
  get_or (x ∷ xs) (suc i) d = get_or xs i d

  -- A write out of bounds changes nothing.
  abbrev pub set : List A → ℕ → A → List A
  set [] i v = []
  set (x ∷ xs) zero v = v ∷ xs
  set (x ∷ xs) (suc i) v = x ∷ set xs i v

  abbrev pub take : ℕ → List A → List A
  take zero xs = []
  take (suc n) [] = []
  take (suc n) (x ∷ xs) = x ∷ take n xs

  abbrev pub drop : ℕ → List A → List A
  drop zero xs = xs
  drop (suc n) [] = []
  drop (suc n) (x ∷ xs) = drop n xs

  abbrev pub replicate : ℕ → A → List A
  replicate zero a = []
  replicate (suc n) a = a ∷ replicate n a

  pub length-append : (xs ys : List A) → length (xs ++ ys) ≡ length xs + length ys
  length-append [] ys = omega arith
  length-append (x ∷ xs) ys = omega (arith, length-append xs ys)

  pub length-set : (xs : List A) (i : ℕ) (v : A) → length (set xs i v) ≡ length xs
  length-set [] i v = refl
  length-set (x ∷ xs) zero v = refl
  length-set (x ∷ xs) (suc i) v = ap suc (length-set xs i v)

  pub length-take : (n : ℕ) (xs : List A) → length (take n xs) ≡ min n (length xs)
  length-take zero xs = omega arith
  length-take (suc n) [] = omega arith
  length-take (suc n) (x ∷ xs) = omega (arith, length-take n xs)

  pub length-drop : (n : ℕ) (xs : List A) → length (drop n xs) ≡ length xs - n
  length-drop zero xs = omega arith
  length-drop (suc n) [] = omega arith
  length-drop (suc n) (x ∷ xs) = omega (arith, length-drop n xs)

  pub length-replicate : (n : ℕ) (a : A) → length (replicate n a) ≡ n
  length-replicate zero a = refl
  length-replicate (suc n) a = ap suc (length-replicate n a)

  pub get_or-set_self :
      (xs : List A) (i : ℕ) (v d : A) → i < length xs → get_or (set xs i v) i d ≡ v
  get_or-set_self [] i v d h = absurd (omega arith)
  get_or-set_self (x ∷ xs) zero v d h = refl
  get_or-set_self (x ∷ xs) (suc i) v d h = get_or-set_self xs i v d (omega arith)

  pub get_or-set_ne :
      (xs : List A) {i j : ℕ} (v d : A) → i ≢ j → get_or (set xs i v) j d ≡ get_or xs j d
  get_or-set_ne [] v d h = refl
  get_or-set_ne (x ∷ xs) {i = zero} {j = zero} v d h = absurd (h refl)
  get_or-set_ne (x ∷ xs) {i = zero} {j = suc j} v d h = refl
  get_or-set_ne (x ∷ xs) {i = suc i} {j = zero} v d h = refl
  get_or-set_ne (x ∷ xs) {i = suc i} {j = suc j} v d h = get_or-set_ne xs v d (λ e. h (ap suc e))

  -- RtlCopyMemory (buf + i, xs, length xs): element by element, from index `i` on.
  abbrev pub copy_to : List A → ℕ → List A → List A
  copy_to buf i [] = buf
  copy_to buf i (x ∷ xs) = copy_to (set buf i x) (i + 1) xs

  pub length-copy_to : (buf : List A) (i : ℕ) (xs : List A) → length (copy_to buf i xs) ≡ length buf
  length-copy_to buf i [] = refl
  length-copy_to buf i (x ∷ xs) =
      omega (arith, length-copy_to (set buf i x) (i + 1) xs, length-set buf i x)

  -- A copy leaves what lies before and behind it.
  pub get_or-copy_to_before :
      (buf : List A) (i : ℕ) (xs : List A) (j : ℕ) (d : A)
      → j < i
      → get_or (copy_to buf i xs) j d ≡ get_or buf j d
  get_or-copy_to_before buf i [] j d h = refl
  get_or-copy_to_before buf i (x ∷ xs) j d h = ground (
    arith,
    get_or-copy_to_before (set buf i x) (i + 1) xs j d,
    get_or-set_ne buf {i = i} {j = j} x d (omega arith),
  )

  pub get_or-copy_to_behind :
      (buf : List A) (i : ℕ) (xs : List A) (j : ℕ) (d : A)
      → i + length xs ≤ j
      → get_or (copy_to buf i xs) j d ≡ get_or buf j d
  get_or-copy_to_behind buf i [] j d h = refl
  get_or-copy_to_behind buf i (x ∷ xs) j d h = ground (
    arith,
    get_or-copy_to_behind (set buf i x) (i + 1) xs j d (omega arith),
    get_or-set_ne buf {i = i} {j = j} x d (omega arith),
  )

  -- What it has copied stands in its place.
  pub get_or-copy_to_at :
      (buf : List A) (i : ℕ) (xs : List A) (j k : ℕ) (d : A)
      → i + length xs ≤ length buf
      → j < length xs
      → k ≡ i + j
      → get_or (copy_to buf i xs) k d ≡ get_or xs j d
  get_or-copy_to_at buf i [] j k d h p e = absurd (omega arith)
  get_or-copy_to_at buf i (x ∷ xs) zero k d h p e = ground (
    arith,
    get_or-copy_to_before (set buf i x) (i + 1) xs k d (omega arith),
    get_or-set_self buf i x d (omega arith),
  )
  get_or-copy_to_at buf i (x ∷ xs) (suc j) k d h p e =
      get_or-copy_to_at (set buf i x) (i + 1) xs j k d (omega (arith, length-set buf i x))
        (omega arith) (omega arith)

  -- The same entry under another name of its index.
  pub get_or_index : (xs : List A) (d : A) (i j : ℕ) → i ≡ j → get_or xs i d ≡ get_or xs j d
  get_or_index xs d i j e = ap (λ k. get_or xs k d) e

  pub take_exact :
      (n : ℕ) (xs ys : List A)
      → length xs ≤ n
      → (n ≤ length xs) ⊎ (ys ≡ [])
      → take n (xs ++ ys) ≡ xs
  take_exact zero [] ys h e = refl
  take_exact zero (x ∷ xs) ys h e = absurd (omega arith)
  take_exact (suc n) [] ys h (inl e) = absurd (omega arith)
  take_exact (suc n) [] ys h (inr e) = rw e
  take_exact (suc n) (x ∷ xs) ys h (inl e) =
      ap (◌∷◌ x) (take_exact n xs ys (omega arith) (inl (omega arith)))
  take_exact (suc n) (x ∷ xs) ys h (inr e) = ap (◌∷◌ x) (take_exact n xs ys (omega arith) (inr e))

  pub take_all : (n : ℕ) (xs : List A) → length xs ≤ n → take n xs ≡ xs
  take_all zero [] h = refl
  take_all zero (x ∷ xs) h = absurd (omega arith)
  take_all (suc n) [] h = refl
  take_all (suc n) (x ∷ xs) h = ap (◌∷◌ x) (take_all n xs (omega arith))

  -- Taking as many as a prefix has is taking the prefix.
  pub take-length : (n : ℕ) (xs : List A) → take (length (take n xs)) xs ≡ take n xs
  take-length zero xs = refl
  take-length (suc n) [] = refl
  take-length (suc n) (x ∷ xs) = ap (◌∷◌ x) (take-length n xs)

  pub drop_all : (n : ℕ) (xs : List A) → length xs ≤ n → drop n xs ≡ []
  drop_all zero [] h = refl
  drop_all zero (x ∷ xs) h = absurd (omega arith)
  drop_all (suc n) [] h = refl
  drop_all (suc n) (x ∷ xs) h = drop_all n xs (omega arith)

  -- Dropping more than there is.
  pub drop-min : (n m : ℕ) (xs : List A) → length xs ≡ m → drop (min n m) xs ≡ drop n xs
  drop-min n m xs e = elim (dec_le n m) [
    | yes h ↦ let all : min n m ≡ n = omega arith in rw all
    | no h ↦ drop_all (min n m) xs (omega arith) ∙ sym (drop_all n xs (omega arith))
  ]
