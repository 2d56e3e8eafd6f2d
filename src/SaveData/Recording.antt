-- ===== src/SaveData/Recording.antt =====
-- A recording: what is written by WriteData arrives in the file, where each frame is saved before the
-- next call.
use reai_board_sdk.Prelude.{
  ℕ, ◌+◌, ◌^◌, ◌≤◌, ◌<◌, ◌≡◌, inl, inr, refl, sym, ap, ◌∙◌, subst, arith, List, ◌∷◌, ◌++◌, true,
  false, some, length, get_or, set, length-append, append_assoc, append-nil,
}
use reai_board_sdk.SaveData.{Frames, WorkItem, idle}
use reai_board_sdk.SaveData.Write.{write_data, save_frame}
use reai_board_sdk.SaveData.Invariant.{IsValid, mul32-start, end-le}
use reai_board_sdk.SaveData.Windows.{window, length-window}
use reai_board_sdk.SaveData.Contents.{partial, Fills, Ends}
use reai_board_sdk.SaveData.Around.{write_frame-Contents}
use reai_board_sdk.SaveData.Disk.{Files, Output}
use reai_board_sdk.SaveData.Worker.{Saver, write_saver, save_bytes, save_frame_worker_callback}
use reai_board_sdk.SaveData.DiskLaws.{IsReliable, save_bytes_lem}
use reai_board_sdk.SaveData.Idle.{
  AllFree, set-AllFree, flags-IsValid, write_data_free, callback_idle, callback_queued,
}

-- Between two calls: all frames are free, the first work item is idle, and the file is closed, with the
-- pointer at its end.
pub record IsRecording {F : Type 0} (contents : F → List ℕ) (o : Output) (s : Saver F)
    (start end : ℕ) : Type 0 where
  pub framed : IsValid s.frames start end
  pub free : AllFree s.frames.frame_used
  pub enabled : s.frames.write_disabled ≡ false
  pub others : List WorkItem
  pub idle_item : s.items ≡ idle ∷ others
  pub created : o.initialized ≡ true
  pub closed : o.handle_open ≡ false
  pub at_end : s.output ≡ record o { file_ptr = some (length (contents s.disk)) }

-- What is in the file, and then what is not yet saved.
module _ {F : Type 0} where
  abbrev pub recorded : (F → List ℕ) → Saver F → ℕ → List ℕ
  recorded contents s start = contents s.disk ++ partial s.frames start

module _ {F : Type 0} {files : Files F} {contents : F → List ℕ}
    (disk_ok : IsReliable files contents) {o : Output} {s : Saver F} {start end : ℕ}
    (r : IsRecording contents o s start end) where
  -- What WriteData and the worker leave, where no frame is filled.
  Fills-IsRecording :
      {g : Frames} (bytes : List ℕ)
      → Fills s.frames g start end bytes
      → IsRecording contents o (record s { frames = g }) start end
  Fills-IsRecording bytes h = record {
    framed = h.fills_valid;
    free = λ k. ap (λ used. get_or used k false) h.fills_used ∙ r.free k;
    enabled = h.fills_enabled ∙ r.enabled;
    others = r.others;
    idle_item = r.idle_item;
    created = r.created;
    closed = r.closed;
    at_end = r.at_end;
  }

  -- The frame that has been filled, as the worker finds it.
  full_frame : Frames → List ℕ
  full_frame g = window g.buffer start s.frames.frame_size

  saved : Frames → Output × F
  saved g = save_bytes files s.output s.disk (full_frame g)

  -- The same, where a frame is filled and saved.
  worked : Frames → Output × F → Saver F
  worked g after = record {
    frames = record g { frame_used = set g.frame_used s.frames.frame_index false };
    items = idle ∷ r.others;
    output = after.0;
    disk = after.1;
  }

  after_ends : Frames → Saver F
  after_ends g = worked g (saved g)

  -- Whatever a worker saves goes to the end of the file.
  pub save_lem :
      (w : List ℕ)
      → length (contents s.disk) + length w < 2 ^ 64
      → let (o', disk') = save_bytes files s.output s.disk w in
        (o' ≡ record o { file_ptr = some (length (contents disk')) })
        × (contents disk' ≡ contents s.disk ++ w)
  save_lem w small =
      let (saved_output, c) =
        save_bytes_lem disk_ok s.output s.disk w
          (ap (λ (x : Output). x.initialized) r.at_end ∙ r.created)
          (ap (λ (x : Output). x.handle_open) r.at_end ∙ r.closed)
          (ap (λ (x : Output). x.file_ptr) r.at_end) small in
      (
        saved_output
            ∙ ap
                (λ (x : Output). record x { file_ptr = some (length (contents s.disk) + length w) })
                r.at_end
            ∙ ap (λ n. record o { file_ptr = some n })
                (sym (length-append (contents s.disk) w) ∙ sym (ap length c)),
        c,
      )

  Ends-IsRecording :
      {g : Frames} {start' : ℕ} (bytes : List ℕ)
      → Ends s.frames g start start' bytes
      → length (contents s.disk) < 2 ^ 63
      → IsRecording contents o (after_ends g) start' (start' + g.frame_size)
        × (recorded contents (after_ends g) start' ≡ recorded contents s start ++ bytes)
  unfolding after_ends worked saved full_frame
  Ends-IsRecording {g} {start'} bytes h small =
      let size : length (full_frame g) ≡ s.frames.frame_size =
        length-window g.buffer start s.frames.frame_size h.ends_in in
      let (out, c) =
        save_lem (full_frame g)
          (omega (arith, size, end-le r.framed, r.framed.small, r.framed.ends)) in
      (
        record {
          framed = flags-IsValid h.ends_valid s.frames.frame_index false;
          free = λ k.
              ap (λ used. get_or (set used s.frames.frame_index false) k false) h.ends_used
              ∙ set-AllFree s.frames.frame_used s.frames.frame_index r.free k;
          enabled = h.ends_enabled ∙ r.enabled;
          others = r.others;
          idle_item = refl;
          created = r.created;
          closed = r.closed;
          at_end = out;
        },
        ap (λ x. x ++ partial g start') c
            ∙ append_assoc (contents s.disk) (full_frame g) (partial g start')
            ∙ ap (λ x. contents s.disk ++ x) h.ends_partial
            ∙ sym (append_assoc (contents s.disk) (partial s.frames start) bytes),
      )

  -- WriteData of up to a frame, and the worker, if it is queued: the bytes are recorded behind those
  -- before, and the object is between two calls again.
  pub write-Recording :
      (bytes : List ℕ)
      → length bytes ≤ s.frames.frame_size
      → length (contents s.disk) < 2 ^ 63
      → let s' = save_frame_worker_callback files (write_saver s bytes) 0 in
        (start' end' : ℕ) × IsRecording contents o s' start' end'
        × (s'.frames.frame_size ≡ s.frames.frame_size)
        × (recorded contents s' start' ≡ recorded contents s start ++ bytes)
  unfolding write_saver after_ends worked saved full_frame
  write-Recording bytes few small =
      elim (write_data_free s.frames s.items bytes r.enabled (r.free s.frames.frame_index) few) [
        | inl (no_bytes, e) ↦
            result s start end (run e ∙ callback_idle files s r.others r.idle_item) r refl (
              sym (append-nil (recorded contents s start))
              ∙ ap (λ x. recorded contents s start ++ x) (sym no_bytes))
        | inr e ↦ elim (write_frame-Contents r.framed s.items bytes few (r.free 0)) [
          | inl (g, e', h) ↦
              result (record s { frames = g }) start end
                (run (e ∙ e') ∙ callback_idle files (record s { frames = g }) r.others r.idle_item)
                (Fills-IsRecording bytes h) h.fills_size
                (ap (λ x. contents s.disk ++ x) h.fills_partial
                  ∙ sym (append_assoc (contents s.disk) (partial s.frames start) bytes))
          | inr (g, start', e', h) ↦
              let (again, kept) = Ends-IsRecording bytes h small in
              result (after_ends g) start' (start' + g.frame_size)
                (run (
                    e
                    ∙ e'
                    ∙ ap
                        (λ items.
                          (g, save_frame s.frames items s.frames.frame_index s.frames.frame_size))
                        r.idle_item)
                  ∙ callback_queued files s.frames g r.others s.output s.disk s.frames.frame_index
                      s.frames.frame_size
                  ∙ ap
                      (λ p.
                        worked g (
                          save_bytes files s.output s.disk (window g.buffer p s.frames.frame_size)))
                      (mul32-start r.framed))
                again h.ends_size kept
        ]
      ]
    where
      result :
          (t : Saver F) (start' end' : ℕ)
          → save_frame_worker_callback files (write_saver s bytes) 0 ≡ t
          → IsRecording contents o t start' end'
          → t.frames.frame_size ≡ s.frames.frame_size
          → recorded contents t start' ≡ recorded contents s start ++ bytes
          → let s' = save_frame_worker_callback files (write_saver s bytes) 0 in
            (start' end' : ℕ) × IsRecording contents o s' start' end'
            × (s'.frames.frame_size ≡ s.frames.frame_size)
            × (recorded contents s' start' ≡ recorded contents s start ++ bytes)
      result t start' end' e again size kept = (
        start',
        end',
        subst (λ x. IsRecording contents o x start' end') (sym e) again,
        ap (λ (x : Saver F). x.frames.frame_size) e ∙ size,
        ap (λ x. recorded contents x start') e ∙ kept,
      )

      run :
          {fr : Frames × List WorkItem}
          → write_data s.frames s.items bytes ≡ fr
          → save_frame_worker_callback files (write_saver s bytes) 0
            ≡ save_frame_worker_callback files (record s { frames = fr.0; items = fr.1 }) 0
      run e =
          ap (λ x. save_frame_worker_callback files (record s { frames = x.0; items = x.1 }) 0) e
