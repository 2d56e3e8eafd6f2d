-- ===== src/Prelude/Tabulate.antt =====
-- Lists given by their entries: windows of ring buffers are compared entry by entry.
use Prim.Native.Nat.{ℕ, zero, suc, ◌+◌, ◌-◌, ◌<◌, min}
use mathlib.Core.Path.{◌≡◌, refl, ap, ap₂, ◌∙◌}
use mathlib.Core.List.{List, [], ◌∷◌, ◌++◌}
use native.Mathlib.Omega.{arith}
use reai_board_sdk.Prelude.Lists.{length, get_or, take, drop}

module _ {ℓ} {A : Type ℓ} where
  -- f 0, f 1, …, f (n - 1)
  abbrev pub tabulate : ℕ → (ℕ → A) → List A
  tabulate zero f = []
  tabulate (suc n) f = f 0 ∷ tabulate n (λ i. f (suc i))

  pub length-tabulate : (n : ℕ) (f : ℕ → A) → length (tabulate n f) ≡ n
  length-tabulate zero f = refl
  length-tabulate (suc n) f = ap suc (length-tabulate n (λ i. f (suc i)))

  pub tabulate_congr :
      (n : ℕ) (f g : ℕ → A) → ((i : ℕ) → i < n → f i ≡ g i) → tabulate n f ≡ tabulate n g
  tabulate_congr zero f g h = refl
  tabulate_congr (suc n) f g h =
      ap₂ ◌∷◌ (h 0 (omega arith))
        (tabulate_congr n (λ i. f (suc i)) (λ i. g (suc i)) (λ i p. h (suc i) (omega arith)))

  pub tabulate_resize : (m n : ℕ) (f : ℕ → A) → m ≡ n → tabulate m f ≡ tabulate n f
  tabulate_resize m n f e = ap (λ k. tabulate k f) e

  -- The same entry under another name of its index.
  reindex : (f : ℕ → A) (i j : ℕ) → i ≡ j → f i ≡ f j
  reindex f i j e = ap f e

  -- The second half has an entry function of its own, with what it says of `f`.
  pub tabulate-add :
      (m n : ℕ) (f g : ℕ → A)
      → ((i : ℕ) → i < n → f (m + i) ≡ g i)
      → tabulate (m + n) f ≡ tabulate m f ++ tabulate n g
  tabulate-add zero n f g h =
      tabulate_resize (0 + n) n f (omega arith)
      ∙ tabulate_congr n f g (λ i p. reindex f i (0 + i) (omega arith) ∙ h i p)
  tabulate-add (suc m) n f g h =
      tabulate_resize (suc m + n) (suc (m + n)) f (omega arith)
      ∙ ap (◌∷◌ (f 0)) (
          tabulate-add m n (λ i. f (suc i)) g
            (λ i p. reindex f (suc (m + i)) (suc m + i) (omega arith) ∙ h i p))

  pub tabulate-get_or : (xs : List A) (d : A) → tabulate (length xs) (λ i. get_or xs i d) ≡ xs
  tabulate-get_or [] d = refl
  tabulate-get_or (x ∷ xs) d = ap (◌∷◌ x) (tabulate-get_or xs d)

  -- A list is known by its length and its entries.
  pub eq-tabulate :
      (xs : List A) (d : A) (n : ℕ) (f : ℕ → A)
      → length xs ≡ n
      → ((i : ℕ) → i < n → get_or xs i d ≡ f i)
      → xs ≡ tabulate n f
  eq-tabulate [] d zero f e h = refl
  eq-tabulate [] d (suc n) f e h = absurd (omega arith)
  eq-tabulate (x ∷ xs) d zero f e h = absurd (omega arith)
  eq-tabulate (x ∷ xs) d (suc n) f e h =
      ap₂ ◌∷◌ (h 0 (omega arith))
        (eq-tabulate xs d n (λ i. f (suc i)) (omega arith) (λ i p. h (suc i) (omega arith)))

  pub get_or-tabulate :
      (n : ℕ) (f : ℕ → A) (i : ℕ) (d : A) → i < n → get_or (tabulate n f) i d ≡ f i
  get_or-tabulate zero f i d h = absurd (omega arith)
  get_or-tabulate (suc n) f zero d h = refl
  get_or-tabulate (suc n) f (suc i) d h = get_or-tabulate n (λ j. f (suc j)) i d (omega arith)

  pub take-tabulate : (k n : ℕ) (f : ℕ → A) → take k (tabulate n f) ≡ tabulate (min k n) f
  take-tabulate zero n f = tabulate_resize 0 (min 0 n) f (omega arith)
  take-tabulate (suc k) zero f = tabulate_resize 0 (min (suc k) 0) f (omega arith)
  take-tabulate (suc k) (suc n) f =
      ap (◌∷◌ (f 0)) (take-tabulate k n (λ i. f (suc i)))
      ∙ tabulate_resize (suc (min k n)) (min (suc k) (suc n)) f (omega arith)

  pub drop-tabulate :
      (k n : ℕ) (f : ℕ → A) → drop k (tabulate n f) ≡ tabulate (n - k) (λ i. f (k + i))
  drop-tabulate zero n f =
      tabulate_resize n (n - 0) f (omega arith)
      ∙ tabulate_congr (n - 0) f (λ i. f (0 + i)) (λ i p. reindex f i (0 + i) (omega arith))
  drop-tabulate (suc k) zero f = tabulate_resize 0 (0 - suc k) (λ i. f (suc k + i)) (omega arith)
  drop-tabulate (suc k) (suc n) f =
      drop-tabulate k n (λ i. f (suc i))
      ∙ tabulate_congr (n - k) (λ i. f (suc (k + i))) (λ i. f (suc k + i))
          (λ i p. reindex f (suc (k + i)) (suc k + i) (omega arith))
      ∙ tabulate_resize (n - k) (suc n - suc k) (λ i. f (suc k + i)) (omega arith)

  pub get_or-take :
      (n : ℕ) (xs : List A) (i : ℕ) (d : A) → i < n → get_or (take n xs) i d ≡ get_or xs i d
  get_or-take zero xs i d h = absurd (omega arith)
  get_or-take (suc n) [] i d h = refl
  get_or-take (suc n) (x ∷ xs) zero d h = refl
  get_or-take (suc n) (x ∷ xs) (suc i) d h = get_or-take n xs i d (omega arith)

  pub get_or-drop :
      (n : ℕ) (xs : List A) (i : ℕ) (d : A) → get_or (drop n xs) i d ≡ get_or xs (n + i) d
  get_or-drop zero xs i d = reindex (λ k. get_or xs k d) i (0 + i) (omega arith)
  get_or-drop (suc n) [] i d = refl
  get_or-drop (suc n) (x ∷ xs) i d =
      get_or-drop n xs i d
      ∙ reindex (λ k. get_or (x ∷ xs) k d) (suc (n + i)) (suc n + i) (omega arith)

  pub get_or-append_left :
      (xs ys : List A) (i : ℕ) (d : A) → i < length xs → get_or (xs ++ ys) i d ≡ get_or xs i d
  get_or-append_left [] ys i d h = absurd (omega arith)
  get_or-append_left (x ∷ xs) ys zero d h = refl
  get_or-append_left (x ∷ xs) ys (suc i) d h = get_or-append_left xs ys i d (omega arith)

  pub get_or-append_right :
      (xs ys : List A) (i j : ℕ) (d : A) → i ≡ length xs + j → get_or (xs ++ ys) i d ≡ get_or ys j d
  get_or-append_right [] ys i j d e = reindex (λ k. get_or ys k d) i j (omega arith)
  get_or-append_right (x ∷ xs) ys zero j d e = absurd (omega arith)
  get_or-append_right (x ∷ xs) ys (suc i) j d e = get_or-append_right xs ys i j d (omega arith)
