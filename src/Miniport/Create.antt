-- ===== src/Miniport/Create.antt =====
-- Main/minwavert.cpp: NewStream, with CMiniportWaveRTStream::Init and the destructor of
-- Main/minwavertstream.cpp as far as they answer for the miniport and the PCM feed.
use reai_board_sdk.Prelude.{
  ℕ, List, Bool, true, false, not, ◌&&◌, Option, none, some, if◌then◌else◌,
}
use reai_board_sdk.Status.{Status, success, unsuccessful, insufficient_resources, nt_success}
use reai_board_sdk.PcmFeed.{Feed}
use reai_board_sdk.PcmFeed
use reai_board_sdk.Miniport.{Miniport, Format, validate_stream_create, stream_created, free_stream}
use reai_board_sdk.Miniport.Formats.{is_format_supported}

-- What the system and the pool answer to a new stream: the memory for the stream itself, its timer, the
-- DPC, the copy of the format, the mutes, volumes and meters; whether the data format has a
-- WAVEFORMATEX; g_DoNotCreateDataFiles; and what SetDataFormat and Initialize of the data's saving give.
pub record StreamAnswers : Type 0 where
  pub stream_memory : Bool
  pub timer : Bool
  pub has_waveformatex : Bool
  pub dpc : Bool
  pub format_memory : Bool
  pub muted_memory : Bool
  pub volume_memory : Bool
  pub meter_memory : Bool
  pub no_data_files : Bool
  pub data_format : Status
  pub data_file : Status

-- The state that NewStream works on.
pub record Streams : Type 0 where
  pub miniport : Miniport
  pub feed : Feed

-- The end of Init: the stream is registered, and m_bUnregisterStream is set.
abbrev pub register_stream : Streams → ℕ → ℕ → Status × Streams × Bool
register_stream s pin stream =
    (success, record s { miniport = stream_created s.miniport pin stream }, true)

-- The middle of Init, by the stream's direction.
unfoldable pub prepare_data : StreamAnswers → Streams → ℕ → Bool → ℕ → Status × Streams × Bool
prepare_data a s pin capture stream =
    if capture
    then register_stream (record s { feed = PcmFeed.reset s.feed }) pin stream
    else (if a.no_data_files
        then register_stream s pin stream
        else (if not (nt_success a.data_format)
            then (a.data_format, s, false)
            else (if not (nt_success a.data_file)
                then (a.data_file, s, false)
                else register_stream s pin stream)))

-- CMiniportWaveRTStream::Init: the status, the state, and m_bUnregisterStream.
unfoldable pub init_stream : StreamAnswers → Streams → ℕ → Bool → ℕ → Status × Streams × Bool
init_stream a s pin capture stream =
    if not a.timer
    then (insufficient_resources, s, false)
    else (if not a.has_waveformatex
        then (unsuccessful, s, false)
        else (if a.dpc && a.format_memory && a.muted_memory && a.volume_memory && a.meter_memory
            then prepare_data a s pin capture stream
            else (insufficient_resources, s, false)))

-- ~CMiniportWaveRTStream, as far as the miniport goes.
unfoldable pub destroy_stream : Streams → ℕ → ℕ → Bool → Streams
destroy_stream s pin stream unregister =
    if unregister then record s { miniport = free_stream s.miniport pin stream } else s

-- The part of NewStream with a stream: it is released where Init fails.
unfoldable pub keep_or_release : ℕ → ℕ → Status × Streams × Bool → Status × Streams
keep_or_release pin stream (status, s, unregister) =
    let released = destroy_stream s pin stream unregister in
    (status, (if nt_success status then s else released))

-- The status of the checks of NewStream, with what GetAttributesFromAttributeList gives, if the data
-- format has attributes.
abbrev pub attributes_status : Option (Status × List ℕ) → Status
attributes_status none = success
attributes_status (some (status, mode)) = status

unfoldable pub check_stream : Streams → ℕ → Bool → Format → Option (Status × List ℕ) → Status
check_stream s pin capture format attributes =
    if not (nt_success (attributes_status attributes))
    then attributes_status attributes
    else (if not (nt_success (validate_stream_create s.miniport pin capture))
        then validate_stream_create s.miniport pin capture
        else is_format_supported s.miniport pin format)

-- NewStream, of the stream `stream`.
unfoldable pub new_stream :
    StreamAnswers → Streams → ℕ → Bool → Format → Option (Status × List ℕ) → ℕ → Status × Streams
new_stream a s pin capture format attributes stream =
    let status = check_stream s pin capture format attributes in
    let made = keep_or_release pin stream (init_stream a s pin capture stream) in
    if not (nt_success status)
    then (status, s)
    else (if a.stream_memory then made else (insufficient_resources, s))
