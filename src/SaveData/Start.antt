-- ===== src/SaveData/Start.antt =====
-- Initialize, where the system and the pool answer every request.
use reai_board_sdk.Prelude.{
  ℕ, ◌+◌, ◌-◌, ◌*◌, ◌^◌, ◌≤◌, ◌<◌, ◌≡◌, refl, sym, ap, ◌∙◌, subst, arith, List, [], ◌∷◌, ◌++◌, true,
  false, some, length, drop, drop_all, get_or, append-nil, replicate, length-replicate,
}
use reai_board_sdk.Status.{Status, success}
use reai_board_sdk.SaveData.{WorkItem, idle}
use reai_board_sdk.SaveData.Windows.{window}
use reai_board_sdk.SaveData.Disk.{
  Files, Output, format_length, riff_tag, wave_tag, fmt_tag, data_tag,
}
use reai_board_sdk.SaveData.Worker.{
  Saver, FileAnswers, initialize_saver, with_buffer, create_data_file, write_header_once,
}
use reai_board_sdk.SaveData.DiskLaws.{IsReliable}
use reai_board_sdk.SaveData.HeaderLaws.{headed, header_of, write_header_once_lem, length-header_of}
use reai_board_sdk.SaveData.Idle.{AllFree}
use reai_board_sdk.SaveData.Recording.{IsRecording, recorded}

-- An object whose format and sizes are set, before Initialize; `b` is the buffer that it is given.
pub record IsNew {F : Type 0} (s : Saver F) (format b : List ℕ) : Type 0 where
  pub several : 2 ≤ s.frames.frame_count
  pub a_byte : 0 < s.frames.frame_size
  pub sized : s.frames.buffer_size ≡ s.frames.frame_count * s.frames.frame_size
  pub small : s.frames.buffer_size < 2 ^ 32
  pub whole : length b ≡ s.frames.buffer_size
  pub first_frame : s.frames.frame_index ≡ 0
  pub first_byte : s.frames.buffer_offset ≡ 0
  pub enabled : s.frames.write_disabled ≡ false
  pub others : List WorkItem
  pub idle_item : s.items ≡ idle ∷ others
  pub closed : s.output.handle_open ≡ false
  pub has_format : s.output.wave_format ≡ some format
  pub format_whole : length format ≡ format_length format
  pub format_small : length format < 2 ^ 20
  pub riff : s.output.file_header.dw_riff ≡ riff_tag
  pub wave : s.output.file_header.dw_wave ≡ wave_tag
  pub fmt : s.output.file_header.dw_format ≡ fmt_tag
  pub tag : s.output.data_header.dw_data ≡ data_tag

-- All answers are good, and the pool gives `b`.
pub record AllGood (answers : FileAnswers) (b : List ℕ) : Type 0 where
  pub first_good : answers.first_folder ≡ success
  pub second_good : answers.second_folder ≡ success
  pub name_good : answers.name ≡ success
  pub name_got : answers.name_memory ≡ true
  pub buffer_got : answers.buffer_memory ≡ some b
  pub flags_got : answers.flags_memory ≡ true

pub replicate-AllFree : (n : ℕ) → AllFree (replicate n false)
replicate-AllFree n k = all n k
  where
    all : (n k : ℕ) → get_or (replicate n false) k false ≡ false
    all Prim.Native.Nat.zero k = refl
    all (Prim.Native.Nat.suc n) Prim.Native.Nat.zero = refl
    all (Prim.Native.Nat.suc n) (Prim.Native.Nat.suc k) = all n k

-- The output as the header is written.
abbrev pub ready : Output → Output
ready o = record o { file_ptr = some 0; initialized = true }

module _ {F : Type 0} {files : Files F} {contents : F → List ℕ}
    (disk_ok : IsReliable files contents) where
  initialize_starts :
      (answers : FileAnswers) (s : Saver F) (b : List ℕ)
      → AllGood answers b
      → initialize_saver files answers s ≡ create_data_file files s b
  unfolding initialize_saver with_buffer
  initialize_starts answers s b good =
      rw
        (
          good.first_good, good.second_good, good.name_good, good.name_got, good.buffer_got,
          good.flags_got,
        )
        refl

  -- Initialize succeeds, and leaves a file of the header alone.
  pub initialize-Recording :
      {s : Saver F} {format b : List ℕ} (answers : FileAnswers)
      → IsNew s format b
      → AllGood answers b
      → let (status, s') = initialize_saver files answers s in
        (status ≡ success)
        × IsRecording contents (headed (ready s.output) format) s' 0 s.frames.frame_size
        × (s'.frames.frame_size ≡ s.frames.frame_size)
        × (recorded contents s' 0 ≡ header_of (ready s.output) format)
  unfolding create_data_file
  initialize-Recording {s} {format} {b} answers n good =
      subst Result (sym (initialize_starts answers s b good)) (
        done.0,
        record {
          framed = record {
            several = n.several;
            a_byte = n.a_byte;
            sized = n.sized;
            small = n.small;
            whole = n.whole;
            flags = length-replicate s.frames.frame_count false;
            index_in = omega (arith, n.first_frame, n.several);
            starts = ap (λ i. i * s.frames.frame_size) n.first_frame ∙ omega arith;
            ends = omega arith;
            low = omega arith;
            high = omega (arith, n.first_byte, n.a_byte);
          };
          free = replicate-AllFree s.frames.frame_count;
          enabled = n.enabled;
          others = n.others;
          idle_item = n.idle_item;
          created = refl;
          closed = n.closed;
          at_end =
              done.1
              ∙ ap (λ k. record (headed (ready s.output) format) { file_ptr = some k }) at_end;
        },
        refl,
        ap (λ k. contents after.2 ++ window b 0 k) no_rest ∙ append-nil (contents after.2) ∙ header,
      )
    where
      after : Status × Output × F
      after = write_header_once files (ready s.output) s.disk true

      done :
          (after.0 ≡ success)
          × (after.1 ≡ headed (ready s.output) format)
          × (contents after.2 ≡ header_of (ready s.output) format ++ [])
      done =
          write_header_once_lem disk_ok (ready s.output) s.disk true format [] refl n.closed
            n.has_format n.format_whole (omega (arith, n.format_small))
            (ap (λ c. drop 8 (drop (length format) (drop 20 c))) (disk_ok.creates_empty s.disk)
              ∙ ap (drop 8) (drop_all (length format) [] (omega arith)))

      header : contents after.2 ≡ header_of (ready s.output) format
      header = done.2 ∙ append-nil (header_of (ready s.output) format)

      at_end : 28 + length format ≡ length (contents after.2)
      at_end = sym (ap length header ∙ length-header_of (ready s.output) format)

      no_rest : s.frames.buffer_offset - 0 ≡ 0
      no_rest = omega (arith, n.first_byte)

      Result : Status × Saver F → Type 0
      Result r =
          (r.0 ≡ success)
          × IsRecording contents (headed (ready s.output) format) r.1 0 s.frames.frame_size
          × (r.1.frames.frame_size ≡ s.frames.frame_size)
          × (recorded contents r.1 0 ≡ header_of (ready s.output) format)
