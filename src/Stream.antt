-- ===== src/Stream.antt =====
-- virtual-mic/driver-windows/Source/Main/minwavertstream.{h,cpp}: the state of a WaveRT stream. Its
-- operations stand in the child modules. The operations that take the position lock run under it for
-- all that they share, and are one step each.
pub mod Words
pub mod Position
pub mod Query
pub mod Packets
pub mod Buffers
pub mod Events
pub mod State
pub mod Timer
pub mod Clock
pub mod Drift
pub mod Drain
pub mod Capture
pub mod PacketLaws
pub mod WritePacketLaws
pub mod EventLaws
pub mod TimerLaws
pub mod BufferLaws
pub mod Calls
pub mod Effect
pub mod Session
mod Tests
use reai_board_sdk.Prelude.{ℕ, List, Option, Bool}
use reai_board_sdk.PcmFeed.{Feed}

pub data KsState : Type 0 where
  stop acquire pause run : KsState

-- The numbers of ks.h, by which the code compares states.
abbrev pub rank : KsState → ℕ
rank stop = 0
rank acquire = 1
rank pause = 2
rank run = 3

-- What is traced through WriteEtwEvent, with its parameters.
pub data Etw : Type 0 where
  set_write_position : ℕ → ℕ → ℕ → Etw
  glitch : ℕ → ℕ → ℕ → ℕ → Etw

-- The fields of `m_pWfExt->Format` that are read.
pub record Format : Type 0 where
  pub block_align : ℕ
  pub samples_per_sec : ℕ
  pub avg_bytes_per_sec : ℕ

-- The members of CMiniportWaveRTStream that its operations read or write, under their names less the
-- prefix; the feed, which all streams share; and what goes out: traces, events that are set, bytes
-- that are handed to CSaveData::WriteData, oldest first.
pub record Stream : Type 0 where
  pub capture : Bool
  pub format : Format
  pub dma_movement_rate : ℕ
  pub performance_counter_frequency : ℕ
  pub ks_state : KsState
  pub dma_buffer : List ℕ
  pub dma_buffer_size : ℕ
  pub notifications_per_buffer : ℕ
  pub notification_interval_ms : ℕ
  pub notification_list : List ℕ
  pub timer_running : Bool
  pub packet_counter : ℕ
  pub play_position : ℕ
  pub write_position : ℕ
  pub linear_position : ℕ
  pub presentation_position : ℕ
  pub dma_time_stamp : ℕ
  pub elapsed_time_carry_forward : ℕ
  pub byte_displacement_carry_forward : ℕ
  pub last_dpc_time_stamp : ℕ
  pub dpc_time_carry_forward : ℕ
  pub current_write_position : ℕ
  pub write_position_updated : Bool
  pub last_os_read_packet : ℕ
  pub last_os_write_packet : ℕ
  pub eos_received : Bool
  pub last_buffer_rendered : Bool
  pub feed : Feed
  pub traced : List Etw
  pub events_set : List ℕ
  pub saved : List ℕ
