-- ===== src/SaveData/Roundtrip.antt =====
-- A whole recording, from Initialize to the destructor, read back from the file.
use reai_board_sdk.Prelude.{
  ℕ, ◌+◌, ◌^◌, ◌<◌, ◌≡◌, refl, ap, ◌∙◌, arith, List, [], ◌∷◌, ◌++◌, true, false, some, length, drop,
  length-append,
}
use reai_board_sdk.Status.{Status}
use reai_board_sdk.Stream.Words.{sub32, low32}
use reai_board_sdk.SaveData.Disk.{Files, Output}
use reai_board_sdk.SaveData.Worker.{
  Saver, FileAnswers, initialize_saver, wait_all_work_items, destroy, finish_header,
  write_header_once,
}
use reai_board_sdk.SaveData.DiskLaws.{IsReliable}
use reai_board_sdk.SaveData.HeaderLaws.{headed, header_of, write_header_once_lem, length-header_of}
use reai_board_sdk.SaveData.Recording.{recorded}
use reai_board_sdk.SaveData.Session.{
  joined, all_fit, record_all, record_all-Recording, wait_all_lem,
}
use reai_board_sdk.SaveData.Start.{IsNew, AllGood, ready, initialize-Recording}
use reai_board_sdk.SaveData.Wav.{read_wav, read_wav-header, drop-header}

module _ {F : Type 0} {files : Files F} {contents : F → List ℕ}
    (disk_ok : IsReliable files contents) {s : Saver F} {format b : List ℕ}
    (n : IsNew s format b) where
  -- The output between Initialize and the destructor.
  base : Output
  base = headed (ready s.output) format

  -- The header that the destructor writes.
  sized : ℕ → Output
  sized p = record base {
    file_ptr = some p;
    file_header = record base.file_header { dw_file_size = sub32 (low32 p) 8 };
    data_header = record base.data_header {
      dw_data_length = sub32 (sub32 (sub32 (low32 p) 20) (length format)) 8;
    };
  }

  destroy_lem :
      (t : Saver F) (samples : List ℕ) (p : ℕ)
      → p ≡ 28 + length format + length samples
      → p < 2 ^ 32
      → t.output ≡ record base { file_ptr = some p }
      → contents t.disk ≡ header_of (ready s.output) format ++ samples
      → read_wav (contents (destroy files t).1) ≡ some (format, samples)
  unfolding destroy finish_header sized base
  destroy_lem t samples p e small out c =
      ap (λ (o : Output). read_wav (contents (finish_header files o.file_ptr o t.disk).1)) out
      ∙ ap read_wav written
      ∙ read_wav-header (sized p) format samples n.riff n.wave n.fmt n.tag (omega (arith, e, small))
          (omega (arith, e, small)) (omega (arith, e, small))
    where
      tail :
          drop 8 (drop (length format) (drop 20 (contents (files.create_file false t.disk).1)))
          ≡ samples
      tail =
          ap (λ x. drop 8 (drop (length format) (drop 20 x))) (disk_ok.opens_same t.disk ∙ c)
          ∙ drop-header (ready s.output) format samples

      after : Status × Output × F
      after = write_header_once files (sized p) t.disk false

      written : contents after.2 ≡ header_of (sized p) format ++ samples
      written =
          (write_header_once_lem disk_ok (sized p) t.disk false format samples refl n.closed
            n.has_format n.format_whole (omega (arith, n.format_small)) tail).2

  -- On a reliable disk, where every request is answered, a recording of at most 2 ^ 32 bytes that is
  -- initialized, written in calls of up to a frame, each frame saved before the next call, waited for
  -- and destroyed is a wave file of its format and of the bytes of all calls.
  pub recording-roundtrip :
      (answers : FileAnswers) (calls : List (List ℕ))
      → AllGood answers b
      → all_fit s.frames.frame_size calls ≡ true
      → 28 + length format + length (joined calls) < 2 ^ 32
      → let recording = record_all files (initialize_saver files answers s).1 calls in
        let (_, disk) = destroy files (wait_all_work_items files recording (0 ∷ [])) in
        read_wav (contents disk) ≡ some (format, joined calls)
  unfolding base
  recording-roundtrip answers calls good fit small =
      let (_, r, size, header) = initialize-Recording disk_ok answers n good in
      let (start, end, r', all) =
        record_all-Recording disk_ok calls (initialize_saver files answers s).1 0
          s.frames.frame_size r (ap (λ k. all_fit k calls) size ∙ fit)
          (omega (
            arith,
            ap (λ x. length (x ++ joined calls)) header,
            length-append (header_of (ready s.output) format) (joined calls),
            length-header_of (ready s.output) format,
          )) in
      let whole : recorded contents (record_all files (initialize_saver files answers s).1 calls)
            start
          ≡ header_of (ready s.output) format ++ joined calls =
        all ∙ ap (λ x. x ++ joined calls) header in
      let total : length
            (recorded contents (record_all files (initialize_saver files answers s).1 calls) start)
          ≡ 28 + length format + length (joined calls) =
        ap length whole
        ∙ length-append (header_of (ready s.output) format) (joined calls)
        ∙ ap (λ k. k + length (joined calls)) (length-header_of (ready s.output) format) in
      let (out, c) = wait_all_lem disk_ok r' (omega (arith, total, small)) in
      destroy_lem
        (wait_all_work_items files (record_all files (initialize_saver files answers s).1 calls)
          (0 ∷ []))
        (joined calls)
        (length
          (recorded contents (record_all files (initialize_saver files answers s).1 calls) start))
        total (omega (arith, total, small)) out (c ∙ whole)
