-- ===== src/SaveData/DiskLaws.antt =====
-- The wave file of savedata.cpp on a disk that takes what is written to it.
use reai_board_sdk.Prelude.{
  ℕ, zero, suc, ◌+◌, ◌^◌, ◌≤◌, ◌<◌, ◌≡◌, refl, sym, ap, ap₂, ◌∙◌, arith, List, [], ◌∷◌, ◌++◌,
  append-nil, Bool, true, false, some, length, take, drop, length-append, drop_all, mod-eq_of_lt,
}
use reai_board_sdk.Status.{success}
use reai_board_sdk.SaveData.Disk.{Files, Output, file_open, file_close, file_write}
use reai_board_sdk.SaveData.Worker.{save_bytes}

-- A write into a file, up to its end or past it.
abbrev pub splice : List ℕ → ℕ → List ℕ → List ℕ
splice c at bytes = take at c ++ bytes ++ drop (at + length bytes) c

-- What ZwCreateFile, ZwWriteFile and ZwClose do to the bytes of the data file, where nothing fails.
pub record IsReliable {F : Type 0} (files : Files F) (contents : F → List ℕ) : Type 0 where
  pub opens : (disk : F) → (files.create_file false disk).0 ≡ success
  pub opens_same : (disk : F) → contents (files.create_file false disk).1 ≡ contents disk
  pub creates : (disk : F) → (files.create_file true disk).0 ≡ success
  pub creates_empty : (disk : F) → contents (files.create_file true disk).1 ≡ []
  pub writes : (bytes : List ℕ) (at : ℕ) (disk : F) → (files.write_file bytes at disk).0 ≡ success
  pub splices :
      (bytes : List ℕ) (at : ℕ) (disk : F)
      → at ≤ length (contents disk)
      → contents (files.write_file bytes at disk).1 ≡ splice (contents disk) at bytes
  pub closes_same : (disk : F) → contents (files.close_file disk).1 ≡ contents disk

module _ {ℓ} {A : Type ℓ} where
  pub take-append : (xs ys : List A) → take (length xs) (xs ++ ys) ≡ xs
  take-append [] ys = refl
  take-append (x ∷ xs) ys = ap (◌∷◌ x) (take-append xs ys)

  pub drop-append : (xs ys : List A) (n : ℕ) → length xs ≡ n → drop n (xs ++ ys) ≡ ys
  drop-append [] ys zero e = refl
  drop-append [] ys (suc n) e = absurd (omega arith)
  drop-append (x ∷ xs) ys zero e = absurd (omega arith)
  drop-append (x ∷ xs) ys (suc n) e = drop-append xs ys n (omega arith)

  drop-append_past : (xs ys : List A) (m n : ℕ) → n ≡ length xs + m → drop n (xs ++ ys) ≡ drop m ys
  drop-append_past [] ys m n e = ap (λ k. drop k ys) (omega arith)
  drop-append_past (x ∷ xs) ys m zero e = absurd (omega arith)
  drop-append_past (x ∷ xs) ys m (suc n) e = drop-append_past xs ys m n (omega arith)

-- A write behind a prefix.
splice-append :
    (p c bytes : List ℕ) (at : ℕ)
    → at ≡ length p
    → splice (p ++ c) at bytes ≡ (p ++ bytes) ++ drop (length bytes) c
splice-append p c bytes at e =
    ap₂ (λ t d. t ++ bytes ++ d) (ap (λ k. take k (p ++ c)) e ∙ take-append p c)
      (drop-append_past p c (length bytes) (at + length bytes) (omega arith))

module _ {F : Type 0} {files : Files F} {contents : F → List ℕ}
    (disk_ok : IsReliable files contents) where
  pub file_open_lem :
      (o : Output) (disk : F) (over_write : Bool)
      → o.initialized ≡ true
      → o.handle_open ≡ false
      → file_open files o disk over_write
        ≡ (success, record o { handle_open = true }, (files.create_file over_write disk).1)
  unfolding file_open
  file_open_lem o disk false ready closed = rw (ready, closed, disk_ok.opens disk) refl
  file_open_lem o disk true ready closed = rw (ready, closed, disk_ok.creates disk) refl

  file_write_lem :
      (o : Output) (disk : F) (bytes : List ℕ) (p : ℕ)
      → o.handle_open ≡ true
      → o.file_ptr ≡ some p
      → p + length bytes < 2 ^ 64
      → file_write files o disk bytes ≡ (
        success,
        record o { file_ptr = some (p + length bytes) },
        (files.write_file bytes p disk).1,
      )
  unfolding file_write
  file_write_lem o disk bytes p opened at small =
      rw (opened, at, disk_ok.writes bytes p disk, mod-eq_of_lt {n = p + length bytes} small) refl

  pub file_close_lem :
      (o : Output) (disk : F)
      → o.handle_open ≡ true
      → file_close files o disk
        ≡ ((files.close_file disk).0, record o { handle_open = false }, (files.close_file disk).1)
  unfolding file_close
  file_close_lem o disk opened = rw opened refl

  pub write_at :
      (disk : F) (p c bytes : List ℕ) (at : ℕ)
      → contents disk ≡ p ++ c
      → at ≡ length p
      → contents (files.write_file bytes at disk).1 ≡ (p ++ bytes) ++ drop (length bytes) c
  write_at disk p c bytes at e e' =
      disk_ok.splices bytes at disk (omega (arith, ap length e, length-append p c))
      ∙ ap (λ x. splice x at bytes) e
      ∙ splice-append p c bytes at e'

  -- A worker appends its bytes to the file, and closes it.
  pub save_bytes_lem :
      (o : Output) (disk : F) (bytes : List ℕ)
      → o.initialized ≡ true
      → o.handle_open ≡ false
      → o.file_ptr ≡ some (length (contents disk))
      → length (contents disk) + length bytes < 2 ^ 64
      → let (o', disk') = save_bytes files o disk bytes in
        (o' ≡ record o { file_ptr = some (length (contents disk) + length bytes) })
        × (contents disk' ≡ contents disk ++ bytes)
  unfolding save_bytes
  save_bytes_lem o disk bytes ready closed at_end small =
      rw
        (
          file_open_lem o disk false ready closed,
          file_write_lem (record o { handle_open = true }) (files.create_file false disk).1 bytes
              (length (contents disk)) refl at_end small,
          file_close_lem
              (record o {
                handle_open = true;
                file_ptr = some (length (contents disk) + length bytes);
              })
              (files.write_file bytes (length (contents disk)) (files.create_file false disk).1).1
              refl,
        )
        (
          ap
              (λ b. record o {
                handle_open = b;
                file_ptr = some (length (contents disk) + length bytes);
              })
              (sym closed),
          disk_ok.closes_same _
              ∙ write_at (files.create_file false disk).1 (contents disk) [] bytes
                  (length (contents disk))
                  (disk_ok.opens_same disk ∙ sym (append-nil (contents disk))) refl
              ∙ ap (λ r. contents disk ++ bytes ++ r) (drop_all (length bytes) [] (omega arith))
              ∙ append-nil (contents disk ++ bytes),
        )
