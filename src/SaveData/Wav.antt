-- ===== src/SaveData/Wav.antt =====
-- A reader of wave files, and what it finds in the file of a recording.
use reai_board_sdk.Prelude.{
  ℕ, ◌+◌, ◌^◌, ◌<◌, ◌≡◌, refl, ap, ap₂, ◌∙◌, arith, List, [], ◌++◌, ◌&&◌, ◌==◌, eq→eqb, Option,
  none, some, length, take, drop, length-append, append_assoc, if◌then◌else◌,
}
use reai_board_sdk.Memory.{le32, dword, dword-le32}
use reai_board_sdk.SaveData.Disk.{
  Output, file_header_bytes, data_header_bytes, riff_tag, wave_tag, fmt_tag, data_tag,
}
use reai_board_sdk.SaveData.DiskLaws.{drop-append, take-append}
use reai_board_sdk.SaveData.HeaderLaws.{header_of, length-header_of}

-- A reader of wave files: the format and the samples, if the tags and the sizes are right.
unfoldable pub accept :
    (riff size wave fmt tag data_size total : ℕ) → List ℕ → List ℕ → Option (List ℕ × List ℕ)
accept riff size wave fmt tag data_size total format samples =
    if riff == riff_tag
      && size + 8 == total
      && wave == wave_tag
      && fmt == fmt_tag
      && tag == data_tag
      && data_size == length samples
    then some (format, samples)
    else none

unfoldable pub read_chunks : List ℕ → List ℕ → List ℕ → Option (List ℕ × List ℕ)
read_chunks b format tail =
    accept (dword b) (dword (drop 4 b)) (dword (drop 8 b)) (dword (drop 12 b)) (dword tail)
      (dword (drop 4 tail)) (length b) format (drop 8 tail)

unfoldable pub read_wav : List ℕ → Option (List ℕ × List ℕ)
read_wav b = let n = dword (drop 16 b) in read_chunks b (take n (drop 20 b)) (drop n (drop 20 b))

accept_lem :
    (riff size wave fmt tag data_size total : ℕ) (format samples : List ℕ)
    → riff ≡ riff_tag
    → size + 8 ≡ total
    → wave ≡ wave_tag
    → fmt ≡ fmt_tag
    → tag ≡ data_tag
    → data_size ≡ length samples
    → accept riff size wave fmt tag data_size total format samples ≡ some (format, samples)
unfolding accept
accept_lem riff size wave fmt tag data_size total format samples a b c d e f =
    rw
      (
        eq→eqb riff riff_tag a,
        eq→eqb (size + 8) total b,
        eq→eqb wave wave_tag c,
        eq→eqb fmt fmt_tag d,
        eq→eqb tag data_tag e,
        eq→eqb data_size (length samples) f,
      )
      refl

pub read_wav-header :
    (o : Output) (format samples : List ℕ)
    → o.file_header.dw_riff ≡ riff_tag
    → o.file_header.dw_wave ≡ wave_tag
    → o.file_header.dw_format ≡ fmt_tag
    → o.data_header.dw_data ≡ data_tag
    → o.file_header.dw_file_size ≡ 20 + length format + length samples
    → o.data_header.dw_data_length ≡ length samples
    → 28 + length format + length samples < 2 ^ 32
    → read_wav (header_of o format ++ samples) ≡ some (format, samples)
unfolding read_wav read_chunks file_header_bytes data_header_bytes le32
read_wav-header o format samples riff wave fmt tag size data_size small =
    ap (λ n. read_chunks w (take n (drop 20 w)) (drop n (drop 20 w)))
      (dword-le32 (length format) [] (omega (arith, small)))
    ∙ ap₂ (read_chunks w)
        (ap (take (length format)) (append_assoc format h3 samples)
          ∙ take-append format (h3 ++ samples))
        (ap (drop (length format)) (append_assoc format h3 samples)
          ∙ drop-append format (h3 ++ samples) (length format) refl)
    ∙ accept_lem _ _ _ _ _ _ _ format samples
        (dword-le32 o.file_header.dw_riff [] (omega (arith, riff)) ∙ riff)
        (ap (λ n. n + 8) (dword-le32 o.file_header.dw_file_size [] (omega (arith, size, small)))
          ∙ omega
              (arith, size, length-append (header_of o format) samples, length-header_of o format))
        (dword-le32 o.file_header.dw_wave [] (omega (arith, wave)) ∙ wave)
        (dword-le32 o.file_header.dw_format [] (omega (arith, fmt)) ∙ fmt)
        (dword-le32 o.data_header.dw_data [] (omega (arith, tag)) ∙ tag)
        (dword-le32 o.data_header.dw_data_length [] (omega (arith, data_size, small)) ∙ data_size)
  where
    w : List ℕ
    w = header_of o format ++ samples

    h3 : List ℕ
    h3 = data_header_bytes o.data_header

-- What lies behind the header.
pub drop-header :
    (o : Output) (format samples : List ℕ)
    → drop 8 (drop (length format) (drop 20 (header_of o format ++ samples))) ≡ samples
unfolding file_header_bytes data_header_bytes le32
drop-header o format samples = ap (drop 8) (
    ap (drop (length format)) (append_assoc format (data_header_bytes o.data_header) samples)
    ∙ drop-append format (data_header_bytes o.data_header ++ samples) (length format) refl)
