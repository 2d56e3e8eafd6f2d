-- ===== src/SaveData/HeaderLaws.antt =====
-- The header of the wave file: FileWriteHeader on a disk that takes what is written to it.
use reai_board_sdk.Prelude.{
  ℕ, ◌+◌, ◌^◌, ◌<◌, ◌≡◌, refl, sym, ap, subst, if◌then◌else◌, ◌∙◌, arith, List, [], ◌++◌, Bool,
  true, false, some, length, drop, length-append, take_all, mod-eq_of_lt,
}
use reai_board_sdk.Status.{Status, success, invalid_handle}
use reai_board_sdk.Memory.{le32}
use reai_board_sdk.SaveData.Disk.{
  Files, Output, FileHeader, DataHeader, file_header_bytes, data_header_bytes, format_length,
  file_close, write_piece, write_header_pieces, file_write_header, write_header_with,
}
use reai_board_sdk.SaveData.Worker.{write_header_once}
use reai_board_sdk.SaveData.DiskLaws.{IsReliable, file_open_lem, file_close_lem, write_at}

length-file_header_bytes : (h : FileHeader) → length (file_header_bytes h) ≡ 20
unfolding file_header_bytes le32
length-file_header_bytes h = refl

length-data_header_bytes : (h : DataHeader) → length (data_header_bytes h) ≡ 8
unfolding data_header_bytes le32
length-data_header_bytes h = refl

-- What FileWriteHeader leaves of the object: the pointer behind the header, and the format's length.
abbrev pub headed : Output → List ℕ → Output
headed o format = record o {
  file_ptr = some (28 + length format);
  file_header = record o.file_header { dw_format_length = length format };
}

abbrev pub header_of : Output → List ℕ → List ℕ
header_of o format =
    file_header_bytes (record o.file_header { dw_format_length = length format })
    ++ format
    ++ data_header_bytes o.data_header

pub length-header_of :
    (o : Output) (format : List ℕ) → length (header_of o format) ≡ 28 + length format
length-header_of o format = omega (
  arith,
  length-append (h1 ++ format) h3,
  length-append h1 format,
  length-file_header_bytes (record o.file_header { dw_format_length = length format }),
  length-data_header_bytes o.data_header,
)
  where
    h1 : List ℕ
    h1 = file_header_bytes (record o.file_header { dw_format_length = length format })

    h3 : List ℕ
    h3 = data_header_bytes o.data_header

module _ {F : Type 0} {files : Files F} {contents : F → List ℕ}
    (disk_ok : IsReliable files contents) where
  write_piece_lem :
      (o : Output) (disk : F) (bytes : List ℕ) (p q : ℕ)
      → o.file_ptr ≡ some p
      → p + length bytes ≡ q
      → q < 2 ^ 64
      → write_piece files o disk bytes
        ≡ (success, record o { file_ptr = some q }, (files.write_file bytes p disk).1)
  unfolding write_piece
  write_piece_lem o disk bytes p q at e small =
      rw (at, disk_ok.writes bytes p disk, e, mod-eq_of_lt {n = q} small) refl

  write_header_pieces_lem :
      (o : Output) (disk : F) (format payload : List ℕ)
      → length format ≡ format_length format
      → length format < 2 ^ 32
      → drop 8 (drop (length format) (drop 20 (contents disk))) ≡ payload
      → let (status, o', disk') = write_header_pieces files o disk format in
        (status ≡ success)
        × (o' ≡ headed o format)
        × (contents disk' ≡ header_of o format ++ payload)
  unfolding write_header_pieces
  write_header_pieces_lem o disk format payload whole small tail =
      rw
        (
          sym whole,
          take_all (length format) format (omega arith),
          write_piece_lem started disk h1 0 20 refl (omega (arith, h1_length)) (omega arith),
          write_piece_lem (record started { file_ptr = some 20 }) disk1 format 20
              (20 + length format) refl refl (omega arith),
          write_piece_lem (record started { file_ptr = some (20 + length format) }) disk2 h3
              (20 + length format) (28 + length format) refl (omega (arith, h3_length))
              (omega arith),
        )
        (refl, refl, at3)
    where
      header : FileHeader
      header = record o.file_header { dw_format_length = length format }

      started : Output
      started = record o { file_ptr = some 0; file_header = header }

      h1 : List ℕ
      h1 = file_header_bytes header

      h1_length : length h1 ≡ 20
      h1_length = length-file_header_bytes header

      h3 : List ℕ
      h3 = data_header_bytes o.data_header

      h3_length : length h3 ≡ 8
      h3_length = length-data_header_bytes o.data_header

      disk1 : F
      disk1 = (files.write_file h1 0 disk).1

      disk2 : F
      disk2 = (files.write_file format 20 disk1).1

      at1 : contents disk1 ≡ h1 ++ drop 20 (contents disk)
      at1 =
          (write_at disk_ok) disk [] (contents disk) h1 0 refl refl
          ∙ ap (λ n. h1 ++ drop n (contents disk)) h1_length

      at2 : contents disk2 ≡ h1 ++ format ++ drop (length format) (drop 20 (contents disk))
      at2 = (write_at disk_ok) disk1 h1 (drop 20 (contents disk)) format 20 at1 (sym h1_length)

      at3 :
          contents (files.write_file h3 (20 + length format) disk2).1
          ≡ h1 ++ format ++ h3 ++ payload
      at3 =
          (write_at disk_ok) disk2 (h1 ++ format) (drop (length format) (drop 20 (contents disk)))
            h3 (20 + length format) at2 (omega (arith, length-append h1 format, h1_length))
          ∙ ap (λ n. h1 ++ format ++ h3 ++ drop n (drop (length format) (drop 20 (contents disk))))
              h3_length
          ∙ ap (λ r. h1 ++ format ++ h3 ++ r) tail

  write_header_with_lem :
      (o : Output) (disk : F) (format payload : List ℕ)
      → o.handle_open ≡ true
      → o.wave_format ≡ some format
      → length format ≡ format_length format
      → length format < 2 ^ 32
      → drop 8 (drop (length format) (drop 20 (contents disk))) ≡ payload
      → let (status, o', disk') = file_write_header files o disk in
        (status ≡ success)
        × (o' ≡ headed o format)
        × (contents disk' ≡ header_of o format ++ payload)
  unfolding file_write_header write_header_with
  write_header_with_lem o disk format payload opened has_format whole small tail =
      subst
        (λ r.
          (r.0 ≡ success)
          × (r.1 ≡ headed o format)
          × (contents r.2 ≡ header_of o format ++ payload))
        (sym starts) (write_header_pieces_lem o disk format payload whole small tail)
    where
      starts : file_write_header files o disk ≡ write_header_pieces files o disk format
      starts =
          ap (λ w. write_header_with files w o disk) has_format
          ∙ ap
              (λ b.
                if b then write_header_pieces files o disk format else (invalid_handle, o, disk))
              opened

  -- Opening the file, writing the header and closing it.
  pub write_header_once_lem :
      (o : Output) (disk : F) (over_write : Bool) (format payload : List ℕ)
      → o.initialized ≡ true
      → o.handle_open ≡ false
      → o.wave_format ≡ some format
      → length format ≡ format_length format
      → length format < 2 ^ 32
      → drop 8 (drop (length format) (drop 20 (contents (files.create_file over_write disk).1)))
        ≡ payload
      → let (status, o', disk') = write_header_once files o disk over_write in
        (status ≡ success)
        × (o' ≡ headed o format)
        × (contents disk' ≡ header_of o format ++ payload)
  unfolding write_header_once
  write_header_once_lem o disk over_write format payload ready closed has_format whole small tail =
      rw ((file_open_lem disk_ok) o disk over_write ready closed) (
        done.0,
        ap (λ r. r.1) shut
            ∙ ap (λ (x : Output). record x { handle_open = false }) done.1
            ∙ ap (λ b. record (headed o format) { handle_open = b }) (sym closed),
        ap (λ r. contents r.2) shut ∙ disk_ok.closes_same after.2 ∙ done.2,
      )
    where
      opened : Output
      opened = record o { handle_open = true }

      after : Status × Output × F
      after = file_write_header files opened (files.create_file over_write disk).1

      done :
          (after.0 ≡ success)
          × (after.1 ≡ headed opened format)
          × (contents after.2 ≡ header_of o format ++ payload)
      done =
          write_header_with_lem opened (files.create_file over_write disk).1 format payload refl
            has_format whole small tail

      shut : file_close files after.1 after.2 ≡ (
        (files.close_file after.2).0,
        record after.1 { handle_open = false },
        (files.close_file after.2).1,
      )
      shut = (file_close_lem disk_ok) after.1 after.2 (ap (λ (x : Output). x.handle_open) done.1)
