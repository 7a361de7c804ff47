-- ===== src/Common/Errors.antt =====
-- src/common/errors.hpp: the codes of errors and the exception that carries one. No other file uses them.
use spout_relay.Base.{String}

-- `FATAL_ERROR` is `fatal_error`, and so on.
data ErrorCode : Type 0 where
  ok config_not_found config_parse_error config_validation_error spout_init_failed
        spout_connect_failed spout_receive_failed encoder_init_failed encoder_encode_failed
        rtsp_connect_failed rtsp_send_failed rtsp_timeout log_init_failed fatal_error :
      ErrorCode

unfoldable error_code_name : ErrorCode → String
error_code_name ok = "OK"
error_code_name config_not_found = "CONFIG_NOT_FOUND"
error_code_name config_parse_error = "CONFIG_PARSE_ERROR"
error_code_name config_validation_error = "CONFIG_VALIDATION_ERROR"
error_code_name spout_init_failed = "SPOUT_INIT_FAILED"
error_code_name spout_connect_failed = "SPOUT_CONNECT_FAILED"
error_code_name spout_receive_failed = "SPOUT_RECEIVE_FAILED"
error_code_name encoder_init_failed = "ENCODER_INIT_FAILED"
error_code_name encoder_encode_failed = "ENCODER_ENCODE_FAILED"
error_code_name rtsp_connect_failed = "RTSP_CONNECT_FAILED"
error_code_name rtsp_send_failed = "RTSP_SEND_FAILED"
error_code_name rtsp_timeout = "RTSP_TIMEOUT"
error_code_name log_init_failed = "LOG_INIT_FAILED"
error_code_name fatal_error = "FATAL_ERROR"

-- The text of `std::runtime_error`, and the code.
record AppError : Type 0 where
  message : String
  code : ErrorCode
