-- ===== src/Core.antt =====
-- What the services share: the negative response codes of src/include/uds_nrc.h and src/core/nrc.c, the
-- return codes of src/include/uds_core.h with what they carry, and the two bytes of a 16-bit field.
use Prim.Native.String.{String}
use uds.Base.{
  ℕ, ◌/◌, ◌%◌, ◌^◌, bit_and, ◌≡◌, ◌≢◌, ◌⊎◌, inl, inr, refl, Bool, true, false, List, ◌==◌,
  if◌then◌else◌,
}

-- `UdsNrc`
pub data UdsNrc : Type 0 where
  general_reject service_not_supported sub_function_not_supported : UdsNrc
  incorrect_msg_len_or_format response_too_long busy_repeat_request : UdsNrc
  conditions_not_correct request_sequence_error no_response_from_subnet : UdsNrc
  failure_prevents_exec request_out_of_range security_access_denied invalid_key : UdsNrc
  exceeded_number_of_attempts required_time_delay_not_expired : UdsNrc
  upload_download_not_accepted transfer_data_suspended general_programming_failure : UdsNrc
  wrong_block_sequence_counter response_pending : UdsNrc
  sub_function_not_supported_in_session service_not_supported_in_session : UdsNrc

-- The byte of each code.
unfoldable pub nrc_code : UdsNrc → ℕ
nrc_code general_reject = 0x10
nrc_code service_not_supported = 0x11
nrc_code sub_function_not_supported = 0x12
nrc_code incorrect_msg_len_or_format = 0x13
nrc_code response_too_long = 0x14
nrc_code busy_repeat_request = 0x21
nrc_code conditions_not_correct = 0x22
nrc_code request_sequence_error = 0x24
nrc_code no_response_from_subnet = 0x25
nrc_code failure_prevents_exec = 0x26
nrc_code request_out_of_range = 0x31
nrc_code security_access_denied = 0x33
nrc_code invalid_key = 0x35
nrc_code exceeded_number_of_attempts = 0x36
nrc_code required_time_delay_not_expired = 0x37
nrc_code upload_download_not_accepted = 0x70
nrc_code transfer_data_suspended = 0x71
nrc_code general_programming_failure = 0x72
nrc_code wrong_block_sequence_counter = 0x73
nrc_code response_pending = 0x78
nrc_code sub_function_not_supported_in_session = 0x7E
nrc_code service_not_supported_in_session = 0x7F

-- `uds_nrc_string`
unfoldable pub nrc_string : ℕ → String
nrc_string nrc =
    if nrc == 0x10
    then "generalReject"
    else if nrc == 0x11
    then "serviceNotSupported"
    else if nrc == 0x12
    then "subFunctionNotSupported"
    else if nrc == 0x13
    then "incorrectMessageLengthOrInvalidFormat"
    else if nrc == 0x14
    then "responseTooLong"
    else if nrc == 0x21
    then "busyRepeatRequest"
    else if nrc == 0x22
    then "conditionsNotCorrect"
    else if nrc == 0x24
    then "requestSequenceError"
    else if nrc == 0x25
    then "noResponseFromSubnetComponent"
    else if nrc == 0x26
    then "failurePreventsExecutionOfRequestedAction"
    else if nrc == 0x31
    then "requestOutOfRange"
    else if nrc == 0x33
    then "securityAccessDenied"
    else if nrc == 0x35
    then "invalidKey"
    else if nrc == 0x36
    then "exceededNumberOfAttempts"
    else if nrc == 0x37
    then "requiredTimeDelayNotExpired"
    else if nrc == 0x70
    then "uploadDownloadNotAccepted"
    else if nrc == 0x71
    then "transferDataSuspended"
    else if nrc == 0x72
    then "generalProgrammingFailure"
    else if nrc == 0x73
    then "wrongBlockSequenceCounter"
    else if nrc == 0x78
    then "requestCorrectlyReceivedResponsePending"
    else if nrc == 0x7E
    then "subFunctionNotSupportedInActiveSession"
    else if nrc == 0x7F
    then "serviceNotSupportedInActiveSession"
    else "unknown NRC"

-- `UdsCoreError`, with what a caller may read under it: after UDS_CORE_OK the bytes
-- `resp[0 .. *resp_len)`, after UDS_CORE_ERR_NRC the code in `*nrc_out`, else nothing.
pub data Reply : Type 0 where
  positive : List ℕ → Reply
  negative : UdsNrc → Reply
  err_param : Reply
  err_buf : Reply

-- `rc == UDS_CORE_OK`
abbrev pub is_positive : Reply → Bool
is_positive (positive bytes) = true
is_positive r = false

-- `struct timespec` as the monotonic clock fills it.
pub record Timespec : Type 0 where
  pub tv_sec : ℕ
  pub tv_nsec : ℕ

-- `(uint8_t)(x >> k)` and `(uint8_t)(x & 0xFFU)`
abbrev pub byte_at : ℕ → ℕ → ℕ
byte_at x k = x / 2 ^ k % 2 ^ 8

abbrev pub low_byte : ℕ → ℕ
low_byte x = bit_and x 0xFF

-- A reply is positive or it is not.
pub positive-cases :
    (r : Reply)
    → ((bytes : List ℕ) × (r ≡ positive bytes)) ⊎ ((bytes : List ℕ) → r ≢ positive bytes)
positive-cases (positive bytes) = inl (bytes, refl)
positive-cases (negative c) = inr (λ bytes e. cc)
positive-cases err_param = inr (λ bytes e. cc)
positive-cases err_buf = inr (λ bytes e. cc)
