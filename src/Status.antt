-- ===== src/Status.antt =====
-- The NTSTATUS codes that the driver returns.
use reai_board_sdk.Prelude.{Bool, true, false}

pub data Status : Type 0 where
  success : Status
  unsuccessful : Status
  insufficient_resources : Status
  invalid_parameter : Status
  invalid_user_buffer : Status
  invalid_device_state : Status
  invalid_device_request : Status
  device_not_ready : Status
  data_late_error : Status
  data_overrun : Status
  not_supported : Status
  not_implemented : Status
  not_found : Status
  buffer_overflow : Status
  buffer_too_small : Status
  invalid_handle : Status
  no_match : Status
  -- A failure that a callee outside the driver reports.
  foreign_error : Status

-- NT_SUCCESS. Of these codes, STATUS_BUFFER_OVERFLOW is a warning and the others but success are
-- errors: both have the top bit set.
abbrev pub nt_success : Status → Bool
nt_success success = true
nt_success _ = false
