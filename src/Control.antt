-- ===== src/Control.antt =====
-- virtual-mic/driver-windows/Source/Main/vbmcontrol.cpp: the control device that a user process
-- writes its PCM to. What the kernel answers is an argument; the calls that create and delete its
-- objects are returned in order.
pub mod Lifetime
pub mod Dispatch
mod Tests
use reai_board_sdk.Prelude.{
  ℕ, ◌+◌, List, [], ◌∷◌, Option, none, some, Bool, true, false, ◌&&◌, ltb, ◌==◌, if◌then◌else◌,
  take,
}
use reai_board_sdk.Status.{Status, success, invalid_user_buffer, nt_success}
use reai_board_sdk.PcmFeed
use reai_board_sdk.PcmFeed.{Feed, ring_bytes_default}

-- The device object, by its address, with the flags that the driver sets on it.
pub record Device : Type 0 where
  pub object : ℕ
  pub buffered_io : Bool
  pub initializing : Bool

-- `g_VbmControlDevice`, and the globals of pcmfeed.cpp.
pub record Control : Type 0 where
  pub device : Option Device
  pub feed : Feed

-- A call that creates carries what it created, if it succeeded.
pub data Call : Type 0 where
  create_device : Option ℕ → Call
  create_symbolic_link : Bool → Call
  delete_symbolic_link : Call
  delete_device : ℕ → Call

-- What the kernel answers to VbmCreateControlDevice.
pub record Answers : Type 0 where
  pub allocate : ℕ → Option (List ℕ)
  pub device_status : Status
  pub new_device : Device
  pub link_status : Status

-- The end of VbmCreateControlDevice, with the device created.
unfoldable pub link_device : Answers → Feed → Status × Control × List Call
link_device a feed =
    let d = record (a.new_device) { buffered_io = true; initializing = false } in
    if nt_success a.link_status
    then (
      success,
      record { device = some d; feed = feed },
      create_device (some d.object) ∷ create_symbolic_link true ∷ [],
    )
    else (
      a.link_status,
      record { device = none; feed = PcmFeed.cleanup feed },
      create_device (some d.object) ∷ create_symbolic_link false ∷ delete_device d.object ∷ [],
    )

-- VbmCreateControlDevice, with no device so far, once the feed is initialised.
unfoldable pub add_device : Answers → Status × Feed → Status × Control × List Call
unfolding link_device
add_device a (status, feed) =
    if nt_success status
    then (if nt_success a.device_status then link_device a feed else (
      a.device_status,
      record { device = none; feed = PcmFeed.cleanup feed },
      create_device none ∷ [],
    ))
    else (status, record { device = none; feed = feed }, [])

-- VbmCreateControlDevice at each state of `g_VbmControlDevice`.
unfoldable pub create_from : Option Device → Answers → Control → Status × Control × List Call
unfolding add_device
create_from (some _) a c = (success, c, [])
create_from none a c = add_device a (PcmFeed.initialize a.allocate c.feed ring_bytes_default)

-- VbmCreateControlDevice
unfoldable pub create_control_device : Answers → Control → Status × Control × List Call
unfolding create_from
create_control_device a c = create_from c.device a c

-- VbmDeleteControlDevice
unfoldable pub delete_control_device : Control → Control × List Call
delete_control_device c = (
  record { device = none; feed = PcmFeed.cleanup c.feed },
  elim c.device [ some d ↦ delete_symbolic_link ∷ delete_device d.object ∷ [] | none ↦ [] ],
)

-- What the driver reads and writes of an IRP. `system_buffer` is what a pointer, NULL or not, points
-- to; `completions` counts the calls of IoCompleteRequest.
pub record Irp : Type 0 where
  pub status : Status
  pub information : ℕ
  pub write_length : ℕ
  pub system_buffer : Option (List ℕ)
  pub completions : ℕ

-- `DeviceObject == g_VbmControlDevice`, for an object that is not NULL.
abbrev pub is_control : Control → ℕ → Bool
is_control c object = elim c.device [ none ↦ false | some d ↦ d.object == object ]

abbrev pub complete : Irp → Status → ℕ → Irp
complete irp status information = record irp {
  status = status;
  information = information;
  completions = irp.completions + 1;
}

-- PcDispatchIrp, of PortCls.
abbrev pub PortDispatch : Type 0
PortDispatch = ℕ → Irp → Status × Irp

-- VbmDispatchCreate
unfoldable pub dispatch_create : PortDispatch → Control → ℕ → Irp → Status × Irp
dispatch_create port c object irp =
    if is_control c object then (success, complete irp success 0) else port object irp

-- VbmDispatchCleanup
unfoldable pub dispatch_cleanup : PortDispatch → Control → ℕ → Irp → Status × Irp
dispatch_cleanup port c object irp =
    if is_control c object then (success, complete irp success 0) else port object irp

-- The bytes at `SystemBuffer`, as many as the IRP says.
unfoldable pub buffer_bytes : Option (List ℕ) → ℕ → List ℕ
buffer_bytes none length = []
buffer_bytes (some bytes) length = take length bytes

-- `length > 0 && systemBuffer == NULL`
abbrev pub lacks_buffer : Irp → Bool
lacks_buffer irp = elim irp.system_buffer [ none ↦ ltb 0 irp.write_length | some _ ↦ false ]

-- VbmDispatchWrite
unfoldable pub dispatch_write : PortDispatch → Control → ℕ → Irp → Status × Irp × Control
unfolding buffer_bytes
dispatch_write port c object irp =
    if is_control c object
    then (if lacks_buffer irp
        then (invalid_user_buffer, complete irp invalid_user_buffer 0, c)
        else (let (accepted, feed) =
              PcmFeed.write c.feed (buffer_bytes irp.system_buffer irp.write_length) in
            (success, complete irp success accepted, record c { feed = feed })))
    else ((port object irp).0, (port object irp).1, c)
