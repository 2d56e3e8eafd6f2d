-- ===== src/SaveData/Session.antt =====
-- The life of a recording: Initialize, calls of WriteData each followed by the worker, the wait for the
-- workers, and the destructor.
use reai_board_sdk.Prelude.{
  ℕ, ◌-◌, ◌^◌, ◌≤◌, ◌<◌, ◌≡◌, refl, sym, ap, ◌∙◌, subst, arith, List, [], ◌∷◌, ◌++◌, Bool, true,
  false, ◌&&◌, leb, leb→le, some, length, set, length-append, append_assoc, append-nil, ltb, lt→ltb,
  le→ltb, dec_lt, if◌then◌else◌,
}
use reai_board_sdk.Stream.Words.{sub32}
use reai_board_sdk.SaveData.{Frames, WorkItem, idle}
use reai_board_sdk.SaveData.Write.{save_frame, save_last_frame}
use reai_board_sdk.SaveData.Invariant.{IsValid, mul32-start, end-le}
use reai_board_sdk.SaveData.Windows.{window}
use reai_board_sdk.SaveData.Contents.{partial}
use reai_board_sdk.SaveData.Disk.{Files, Output}
use reai_board_sdk.SaveData.Worker.{
  Saver, write_saver, save_bytes, save_frame_worker_callback, run_workers, wait_all_work_items,
}
use reai_board_sdk.SaveData.DiskLaws.{IsReliable}
use reai_board_sdk.SaveData.Idle.{callback_idle, callback_queued}
use reai_board_sdk.SaveData.Recording.{IsRecording, recorded, write-Recording, save_lem}

-- The bytes of all calls.
abbrev pub joined : List (List ℕ) → List ℕ
joined [] = []
joined (bytes ∷ calls) = bytes ++ joined calls

abbrev pub all_fit : ℕ → List (List ℕ) → Bool
all_fit n [] = true
all_fit n (bytes ∷ calls) = leb (length bytes) n && all_fit n calls

and-true : (a b : Bool) → (a && b) ≡ true → (a ≡ true) × (b ≡ true)
and-true true b e = (refl, e)
and-true false b e = absurd (ground (arith, e))

module _ {f : Frames} {start end : ℕ} (v : IsValid f start end) (items : List WorkItem) where
  save_last_frame_lem :
      start < f.buffer_offset
      → save_last_frame f items ≡ save_frame f items f.frame_index (f.buffer_offset - start)
  unfolding save_last_frame
  save_last_frame_lem h =
      ap last (mul32-start v)
      ∙ ap
          (λ b. if b then save_frame f items f.frame_index (sub32 f.buffer_offset start) else items)
          (lt→ltb start f.buffer_offset h)
      ∙ ap (save_frame f items f.frame_index) (omega (arith, v.high, end-le v, v.small))
    where
      last : ℕ → List WorkItem
      last at =
          if ltb at f.buffer_offset
          then save_frame f items f.frame_index (sub32 f.buffer_offset at)
          else items

  save_last_frame_none : f.buffer_offset ≤ start → save_last_frame f items ≡ items
  unfolding save_last_frame
  save_last_frame_none h =
      ap last (mul32-start v)
      ∙ ap
          (λ b. if b then save_frame f items f.frame_index (sub32 f.buffer_offset start) else items)
          (le→ltb start f.buffer_offset h)
    where
      last : ℕ → List WorkItem
      last at =
          if ltb at f.buffer_offset
          then save_frame f items f.frame_index (sub32 f.buffer_offset at)
          else items

module _ {F : Type 0} (files : Files F) where
  -- A call of WriteData, and the worker of the frame that it fills, if any.
  unfoldable pub record_all : Saver F → List (List ℕ) → Saver F
  record_all s [] = s
  record_all s (bytes ∷ calls) =
      record_all (save_frame_worker_callback files (write_saver s bytes) 0) calls

module _ {F : Type 0} {files : Files F} {contents : F → List ℕ}
    (disk_ok : IsReliable files contents) where
  pub record_all-Recording :
      {o : Output} (calls : List (List ℕ)) (s : Saver F) (start end : ℕ)
      → IsRecording contents o s start end
      → all_fit s.frames.frame_size calls ≡ true
      → length (recorded contents s start ++ joined calls) < 2 ^ 63
      → let s' = record_all files s calls in
        (start' end' : ℕ) × IsRecording contents o s' start' end'
        × (recorded contents s' start' ≡ recorded contents s start ++ joined calls)
  unfolding record_all
  record_all-Recording [] s start end r fit small =
      (start, end, r, sym (append-nil (recorded contents s start)))
  record_all-Recording (bytes ∷ calls) s start end r fit small =
      let (first, rest) =
        and-true (leb (length bytes) s.frames.frame_size) (all_fit s.frames.frame_size calls) fit in
      let (start1, end1, r1, size, kept) =
        write-Recording disk_ok r bytes (leb→le (length bytes) s.frames.frame_size first) (
          omega (
            arith,
            length-append (contents s.disk) (partial s.frames start),
            length-append (recorded contents s start) (bytes ++ joined calls),
          )) in
      let all : recorded contents (save_frame_worker_callback files (write_saver s bytes) 0) start1
            ++ joined calls
          ≡ recorded contents s start ++ (bytes ++ joined calls) =
        ap (λ x. x ++ joined calls) kept
        ∙ append_assoc (recorded contents s start) bytes (joined calls) in
      let (start', end', r', kept') =
        record_all-Recording calls (save_frame_worker_callback files (write_saver s bytes) 0) start1
          end1 r1 (ap (λ n. all_fit n calls) size ∙ rest)
          (subst (λ x. length x < 2 ^ 63) (sym all) small) in
      (start', end', r', kept' ∙ all)

  -- What the wait leaves: the rest is in the file.
  pub wait_all_lem :
      {o : Output} {s : Saver F} {start end : ℕ}
      → IsRecording contents o s start end
      → length (recorded contents s start) < 2 ^ 63
      → let s' = wait_all_work_items files s (0 ∷ []) in
        (s'.output ≡ record o { file_ptr = some (length (recorded contents s start)) })
        × (contents s'.disk ≡ recorded contents s start)
  unfolding wait_all_work_items run_workers
  wait_all_lem {o} {s} {start} {end} r small = elim (dec_lt start s.frames.buffer_offset) [
    | yes h ↦
        let w : List ℕ = partial s.frames start in
        let (out, c) = save_lem disk_ok r w (omega (arith, length-append (contents s.disk) w)) in
        leaves
          (ap callback (
              save_last_frame_lem r.framed s.items h
              ∙ ap
                  (λ items.
                    save_frame s.frames items s.frames.frame_index (s.frames.buffer_offset - start))
                  r.idle_item)
            ∙ callback_queued files s.frames s.frames r.others s.output s.disk s.frames.frame_index
                (s.frames.buffer_offset - start)
            ∙ ap
                (λ p. worked (
                  save_bytes files s.output s.disk
                    (window s.frames.buffer p (s.frames.buffer_offset - start))))
                (mul32-start r.framed))
          (out ∙ ap (λ x. record o { file_ptr = some (length x) }) c, c)
    | no h ↦
        let no_rest : s.frames.buffer_offset - start ≡ 0 = omega (arith, h) in
        let nothing : recorded contents s start ≡ contents s.disk =
          ap (λ n. contents s.disk ++ window s.frames.buffer start n) no_rest
          ∙ append-nil (contents s.disk) in
        leaves
          (ap callback (save_last_frame_none r.framed s.items (omega (arith, h)))
            ∙ callback_idle files s r.others r.idle_item)
          (r.at_end ∙ ap (λ x. record o { file_ptr = some (length x) }) (sym nothing), sym nothing)
  ]
    where
      callback : List WorkItem → Saver F
      callback items = save_frame_worker_callback files (record s { items = items }) 0

      worked : Output × F → Saver F
      worked after = record {
        frames = record s.frames {
          frame_used = set s.frames.frame_used s.frames.frame_index false;
        };
        items = idle ∷ r.others;
        output = after.0;
        disk = after.1;
      }

      Result : Saver F → Type 0
      Result t =
          (t.output ≡ record o { file_ptr = some (length (recorded contents s start)) })
          × (contents t.disk ≡ recorded contents s start)

      leaves :
          {t : Saver F}
          → callback (save_last_frame s.frames s.items) ≡ t
          → Result t
          → Result (callback (save_last_frame s.frames s.items))
      leaves e h = subst Result (sym e) h
