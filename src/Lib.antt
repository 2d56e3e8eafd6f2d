-- ===== src/Lib.antt =====
-- The virtual microphone of the ReAI board SDK: the macOS audio server plugin and the Windows driver,
-- both in C++.
--
-- Parts, and the files that model them (paths from the repository's root):
--   SampleRing, SampleRing/*: class SampleRing of virtual-mic/driver/Driver.cpp, the lock-free ring
--     between the UDP receiver thread and the audio server's IO thread. `push` and `pop` are Push and
--     Pop as one step; SampleRing/Threads splits them into their accesses of shared memory, one step
--     of the relation `Step` each, in any interleaving (sequentially consistent: the acquire and
--     release orders of the code are not weakened further). SampleRing/Queue is the queue that the
--     ring implements.
--   Mic, Mic/*: Receiver::Run and MicHandler::OnReadClientInput of the same file, on the ring.
--   PcmFeed, PcmFeed/*: virtual-mic/driver-windows/Source/Main/pcmfeed.cpp, the ring of bytes between
--     the control device and the capture stream. The file's globals are the record `Feed`; `initialize`,
--     `cleanup`, `reset`, `write` and `read` are VbmPcmFeedInitialize and so on. PcmFeed/Positions says
--     which bytes a feed holds.
--   Control, Control/*: virtual-mic/driver-windows/Source/Main/vbmcontrol.cpp, the control device. Its
--     writes end in `PcmFeed.write`. What the kernel and PortCls do is a parameter (`Answers`,
--     `PortDispatch`); the calls that create and delete objects are kept as a list.
--   Stream, Stream/*: virtual-mic/driver-windows/Source/Main/minwavertstream.{h,cpp}, a WaveRT stream.
--     The members that its operations use are the record `Stream`. Position is the simulated DMA engine
--     (UpdatePosition, WriteBytes, ReadBytes), whose WriteBytes drains the feed by `PcmFeed.read`; Query,
--     Packets, Buffers, Events, State and Timer hold the other operations; Calls any sequence of them.
--     Allocating a buffer with notifications also sizes the frames of the saved data, by
--     SaveData.set_max_write_size.
--     The value of the performance counter is an argument of each operation that reads it, and its
--     conversion to units of 100 ns (KSCONVERT_PERFORMANCE_TIME) a parameter.
--   Mixer, Mixer/*: virtual-mic/driver-windows/Source/Utilities/hw.{h,cpp}, the mixer's registers.
--   Adapter, Adapter/*: the calls of CAdapterCommon of virtual-mic/driver-windows/Source/Main/common.cpp
--     that pass on to the mixer; the adapter is its m_pHW.
--   Property, Property/*: virtual-mic/driver-windows/Source/Utilities/kshelper.cpp, the checks and the
--     dispatch of property requests, and the answers to requests for basic support. The handlers of an
--     item are functions; what is written through the request's buffer is returned. Property/Level holds
--     the handlers of the volume, mute, peak meter and CPU resources, with the normalisation of levels of
--     virtual-mic/driver-windows/Source/Inc/definitions.h, on the mixer behind the adapter.
--   SaveData, SaveData/*: virtual-mic/driver-windows/Source/Utilities/savedata.{h,cpp}, the data that a
--     stream saves to a wave file. Write is the circular buffer of frames that WriteData fills; Disk the
--     file and its header, with the system's file calls as the parameter `Files` over the state of a disk
--     (`IsReliable` says what they do where nothing fails); Worker the work items and the life of the
--     object. A worker runs between two calls of WriteData, and their order is given. The other files
--     are proofs; Wav is a reader of wave files, written apart from the code, that they use.
--   Miniport, Miniport/*: virtual-mic/driver-windows/Source/Main/minwavert.{h,cpp}, the wave miniport:
--     the table and the count of its streams, formats and modes of its pins (Formats), the attribute list
--     that follows a data format in memory (Attributes), the rights of mixed contents, with the DRM port
--     as the parameter `DrmPort` (Drm), and NewStream (Create). Create and Drm also hold Init, the
--     destructor and SetContentId of Main/minwavertstream.cpp as far as they answer for the miniport, the
--     feed and the saved data. What an index behind the table of pins reads is any pin (`beyond`).
--   Status: the NTSTATUS codes that occur. Memory: numbers as bytes. Prelude, Prelude/*: shared names
--     and lemmas.
--
-- Numbers are natural numbers; what wraps in the code wraps here at the width of its type
-- (Stream/Words, SampleRing.sub_size, PcmFeed.sub_ulong). NULL is `none`. Loops run on fuel where they
-- are not structural: 18 rounds of `shrink` halve 2 ^ 17 to 1, and `write_loop` and `read_loop` have as
-- many rounds as there are bytes, of which each round moves one at least. Operations that hold the feed's
-- or the stream's spin lock are one step.
--
-- Not modelled: libASPL, the Rust SDK, the mSBC decoder and the Flutter plugin; ReadRegistrySettings and
-- NonDelegatingQueryInterface of the stream and the miniport; of minwavert.cpp also DataRangeIntersection,
-- PropertyHandlerProposedFormat2 and the handlers that pass a request on; of savedata.cpp the device
-- object and the names of folders and files; the adapter and topology objects of the Windows driver, but
-- for the adapter's calls of the mixer; the tone generator, which computes with
-- floating point numbers. A sample or a byte is only moved, so its values are not bounded, but where it
-- is read as a number. Allocated buffers are given with their first contents by the allocator's
-- parameter.
pub mod Prelude
pub mod SampleRing
pub mod Status
pub mod Memory
pub mod Mic
pub mod PcmFeed
pub mod Control
pub mod Stream
pub mod Mixer
pub mod Adapter
pub mod Property
pub mod SaveData
pub mod Miniport
