-- ===== src/SaveData/Disk.antt =====
-- Utilities/savedata.cpp: the wave file. The system's file calls are a parameter, over the state of the
-- disk `F`; a structure that is written is its bytes in memory.
use reai_board_sdk.Prelude.{
  ℕ, ◌+◌, ◌*◌, List, ◌++◌, Bool, true, false, not, Option, none, some, ◌==◌, if◌then◌else◌, length,
  get_or, take,
}
use reai_board_sdk.Status.{
  Status, success, unsuccessful, insufficient_resources, invalid_handle, nt_success,
}
use reai_board_sdk.Memory.{le32}
use reai_board_sdk.Stream.Words.{add64}

-- ZwCreateFile of the data file (which may overwrite it), ZwWriteFile of bytes at an offset, ZwClose.
pub record Files (F : Type 0) : Type 0 where
  pub create_file : Bool → F → Status × F
  pub write_file : List ℕ → ℕ → F → Status × F
  pub close_file : F → Status × F

-- OUTPUT_FILE_HEADER, OUTPUT_DATA_HEADER
pub record FileHeader : Type 0 where
  pub dw_riff : ℕ
  pub dw_file_size : ℕ
  pub dw_wave : ℕ
  pub dw_format : ℕ
  pub dw_format_length : ℕ

pub record DataHeader : Type 0 where
  pub dw_data : ℕ
  pub dw_data_length : ℕ

-- RIFF_TAG, WAVE_TAG, FMT__TAG, DATA_TAG
abbrev pub riff_tag : ℕ
riff_tag = 0x46464952

abbrev pub wave_tag : ℕ
wave_tag = 0x45564157

abbrev pub fmt_tag : ℕ
fmt_tag = 0x20746D66

abbrev pub data_tag : ℕ
data_tag = 0x61746164

unfoldable pub file_header_bytes : FileHeader → List ℕ
file_header_bytes h =
    le32 h.dw_riff
    ++ le32 h.dw_file_size
    ++ le32 h.dw_wave
    ++ le32 h.dw_format
    ++ le32 h.dw_format_length

unfoldable pub data_header_bytes : DataHeader → List ℕ
data_header_bytes h = le32 h.dw_data ++ le32 h.dw_data_length

-- wFormatTag and cbSize of the bytes of a WAVEFORMATEX.
abbrev pub format_tag : List ℕ → ℕ
format_tag b = get_or b 0 0 + 256 * get_or b 1 0

abbrev pub cb_size : List ℕ → ℕ
cb_size b = get_or b 16 0 + 256 * get_or b 17 0

-- sizeof(PCMWAVEFORMAT), or sizeof(WAVEFORMATEX) and the extension; WAVE_FORMAT_PCM is 1.
abbrev pub format_length : List ℕ → ℕ
format_length b = if format_tag b == 1 then 16 else 18 + cb_size b

-- The members of CSaveData that deal with the file; `file_ptr` is `none` for NULL.
pub record Output : Type 0 where
  pub handle_open : Bool
  pub initialized : Bool
  pub file_header : FileHeader
  pub wave_format : Option (List ℕ)
  pub data_header : DataHeader
  pub file_ptr : Option ℕ

-- The constructor.
abbrev pub new_output : Output
new_output = record {
  handle_open = false;
  initialized = false;
  file_header = record {
    dw_riff = riff_tag;
    dw_file_size = 0;
    dw_wave = wave_tag;
    dw_format = fmt_tag;
    dw_format_length = 18;
  };
  wave_format = none;
  data_header = record { dw_data = data_tag; dw_data_length = 0 };
  file_ptr = none;
}

-- KSDATAFORMAT by its specifier.
pub data DataFormat : Type 0 where
  dsound : List ℕ → DataFormat
  waveformatex : List ℕ → DataFormat
  other_specifier : DataFormat

-- SetDataFormat; `got_memory` if the pool answers.
unfoldable pub store_format : Bool → Output → List ℕ → Status × Output
store_format true o b = (success, record o { wave_format = some (take (format_length b) b) })
store_format false o b = (insufficient_resources, record o { wave_format = none })

unfoldable pub set_data_format : Bool → Output → DataFormat → Status × Output
set_data_format got_memory o (dsound b) = store_format got_memory o b
set_data_format got_memory o (waveformatex b) = store_format got_memory o b
set_data_format got_memory o other_specifier = (success, o)

-- `m_pFilePtr->QuadPart`, where it is not NULL
abbrev pub quad_part : Option ℕ → ℕ
quad_part none = 0
quad_part (some p) = p

module _ {F : Type 0} (files : Files F) where
  -- FileClose
  unfoldable pub file_close : Output → F → Status × Output × F
  file_close o disk =
      let (status, closed) = files.close_file disk in
      if o.handle_open
      then (status, record o { handle_open = false }, closed)
      else (success, o, disk)

  -- FileOpen
  unfoldable pub file_open : Output → F → Bool → Status × Output × F
  file_open o disk over_write =
      let (status, opened) = files.create_file over_write disk in
      if not o.initialized
      then (unsuccessful, o, disk)
      else (if o.handle_open
          then (success, o, disk)
          else (status, record o { handle_open = nt_success status }, opened))

  -- FileWrite
  unfoldable pub file_write : Output → F → List ℕ → Status × Output × F
  file_write o disk bytes =
      let (status, written) = files.write_file bytes (quad_part o.file_ptr) disk in
      if o.handle_open
      then (
        status,
        (if nt_success status
            then record o { file_ptr = some (add64 (quad_part o.file_ptr) (length bytes)) }
            else o),
        written,
      )
      else (invalid_handle, o, disk)

  -- One of the three writes of FileWriteHeader: the pointer is stepped whether it fails or not.
  unfoldable pub write_piece : Output → F → List ℕ → Status × Output × F
  write_piece o disk bytes =
      let (status, written) = files.write_file bytes (quad_part o.file_ptr) disk in
      (status, record o { file_ptr = some (add64 (quad_part o.file_ptr) (length bytes)) }, written)

  -- FileWriteHeader with a format.
  unfoldable pub write_header_pieces : Output → F → List ℕ → Status × Output × F
  write_header_pieces o disk format =
      let header : FileHeader = record o.file_header { dw_format_length = format_length format } in
      let start : Output = record o { file_ptr = some 0; file_header = header } in
      let (_, o', disk') = write_piece start disk (file_header_bytes header) in
      let (_, o'', disk'') = write_piece o' disk' (take (format_length format) format) in
      write_piece o'' disk'' (data_header_bytes o.data_header)

  unfoldable pub write_header_with : Option (List ℕ) → Output → F → Status × Output × F
  write_header_with none o disk = (invalid_handle, o, disk)
  write_header_with (some format) o disk =
      if o.handle_open then write_header_pieces o disk format else (invalid_handle, o, disk)

  -- FileWriteHeader
  unfoldable pub file_write_header : Output → F → Status × Output × F
  file_write_header o disk = write_header_with o.wave_format o disk
