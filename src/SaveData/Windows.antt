-- ===== src/SaveData/Windows.antt =====
-- Windows of a buffer, by position and length, and what copies of bytes do to them.
use reai_board_sdk.Prelude.{
  ℕ, ◌+◌, ◌-◌, ◌≤◌, ◌<◌, ◌≡◌, ◌⊎◌, inl, inr, sym, ap, ◌∙◌, arith, List, ◌++◌, length, take, drop,
  copy_to, get_or, length-take, length-drop, length-append, length-copy_to, get_or-copy_to_before,
  get_or-copy_to_behind, get_or-copy_to_at, eq-tabulate, tabulate-get_or, get_or-take, get_or-drop,
  get_or-append_left, get_or-append_right, dec_lt,
}

module _ {ℓ} {A : Type ℓ} where
  abbrev pub window : List A → ℕ → ℕ → List A
  window b i n = take n (drop i b)

  pub length-window : (b : List A) (i n : ℕ) → i + n ≤ length b → length (window b i n) ≡ n
  length-window b i n h = omega (arith, length-take n (drop i b), length-drop i b)

  pub get_or-window :
      (b : List A) (i n k : ℕ) (d : A) → k < n → get_or (window b i n) k d ≡ get_or b (i + k) d
  get_or-window b i n k d h = get_or-take n (drop i b) k d h ∙ get_or-drop i b k d

  -- Two lists of the same length with the same entries.
  pub list_ext :
      (xs ys : List A) (d : A)
      → length xs ≡ length ys
      → ((i : ℕ) → i < length ys → get_or xs i d ≡ get_or ys i d)
      → xs ≡ ys
  list_ext xs ys d e h =
      eq-tabulate xs d (length ys) (λ i. get_or ys i d) e h ∙ tabulate-get_or ys d

  -- A copy that lies outside of a window leaves it.
  pub window-copy_to_outside :
      (b : List A) (o : ℕ) (xs : List A) (i n : ℕ) (d : A)
      → i + n ≤ length b
      → (i + n ≤ o) ⊎ (o + length xs ≤ i)
      → window (copy_to b o xs) i n ≡ window b i n
  window-copy_to_outside b o xs i n d h apart =
      list_ext (window (copy_to b o xs) i n) (window b i n) d
        (omega (
          arith,
          length-window b i n h,
          length-window (copy_to b o xs) i n (omega (arith, length-copy_to b o xs)),
        ))
        (λ k p. at k (omega (arith, length-window b i n h)))
    where
      at : (k : ℕ) → k < n → get_or (window (copy_to b o xs) i n) k d ≡ get_or (window b i n) k d
      at k p =
          get_or-window (copy_to b o xs) i n k d p
          ∙ untouched k p apart
          ∙ sym (get_or-window b i n k d p)
        where
          untouched :
              (k : ℕ)
              → k < n
              → (i + n ≤ o) ⊎ (o + length xs ≤ i)
              → get_or (copy_to b o xs) (i + k) d ≡ get_or b (i + k) d
          untouched k p (inl before) = get_or-copy_to_before b o xs (i + k) d (omega arith)
          untouched k p (inr behind) = get_or-copy_to_behind b o xs (i + k) d (omega arith)

  -- A copy to the end of a window makes it longer by what is copied.
  pub window-copy_to_end :
      (b : List A) (i n : ℕ) (xs : List A) (m : ℕ) (d : A)
      → i + n + length xs ≤ length b
      → m ≡ n + length xs
      → window (copy_to b (i + n) xs) i m ≡ window b i n ++ xs
  window-copy_to_end b i n xs m d h e =
      list_ext (window (copy_to b (i + n) xs) i m) (window b i n ++ xs) d
        (omega (
          arith,
          length-window (copy_to b (i + n) xs) i m (omega (arith, length-copy_to b (i + n) xs)),
          length-append (window b i n) xs,
          length-window b i n (omega arith),
        ))
        (λ k p.
          at k (omega (arith, length-append (window b i n) xs, length-window b i n (omega arith))))
    where
      at :
          (k : ℕ)
          → k < n + length xs
          → get_or (window (copy_to b (i + n) xs) i m) k d ≡ get_or (window b i n ++ xs) k d
      at k p = elim (dec_lt k n) [
        | yes q ↦
            get_or-window (copy_to b (i + n) xs) i m k d (omega arith)
            ∙ get_or-copy_to_before b (i + n) xs (i + k) d (omega arith)
            ∙ sym (get_or-window b i n k d q)
            ∙ sym (
                get_or-append_left (window b i n) xs k d
                  (omega (arith, length-window b i n (omega arith))))
        | no q ↦
            get_or-window (copy_to b (i + n) xs) i m k d (omega arith)
            ∙ get_or-copy_to_at b (i + n) xs (k - n) (i + k) d (omega arith) (omega arith)
                (omega arith)
            ∙ sym (
                get_or-append_right (window b i n) xs k (k - n) d
                  (omega (arith, length-window b i n (omega arith))))
      ]

  -- A window in two parts.
  pub window-add :
      (b : List A) (i n m j t : ℕ) (d : A)
      → j ≡ i + n
      → t ≡ n + m
      → i + t ≤ length b
      → window b i t ≡ window b i n ++ window b j m
  window-add b i n m j t d e e' h =
      list_ext (window b i t) (window b i n ++ window b j m) d
        (omega (arith, length-window b i t h, lengths)) (λ k p. at k (omega (arith, lengths)))
    where
      lengths : length (window b i n ++ window b j m) ≡ t
      lengths = omega (
        arith,
        length-append (window b i n) (window b j m),
        length-window b i n (omega arith),
        length-window b j m (omega arith),
      )

      at : (k : ℕ) → k < t → get_or (window b i t) k d ≡ get_or (window b i n ++ window b j m) k d
      at k p = elim (dec_lt k n) [
        | yes q ↦
            get_or-window b i t k d p
            ∙ sym (get_or-window b i n k d q)
            ∙ sym (
                get_or-append_left (window b i n) (window b j m) k d
                  (omega (arith, length-window b i n (omega arith))))
        | no q ↦
            get_or-window b i t k d p
            ∙ ap (λ q'. get_or b q' d) (same k (omega arith))
            ∙ sym (get_or-window b j m (k - n) d (omega arith))
            ∙ sym (
                get_or-append_right (window b i n) (window b j m) k (k - n) d
                  (omega (arith, length-window b i n (omega arith))))
      ]
        where
          same : (k : ℕ) → n ≤ k → i + k ≡ j + (k - n)
          same k p = omega arith
