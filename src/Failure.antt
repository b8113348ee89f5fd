-- ===== src/Failure.antt =====
-- What a failure leaves in the log: the callbacks of src/logging.cc.
use axhost.Common.{
  ℕ, Text, codes, Bool, not, ◌==◌, if◌then◌else◌, List, [], ◌∷◌, ◌++◌, Option, none, some,
}
use axhost.Common.Hresult.{succeeded}
use axhost.Logging.{Level, err, critical, MessageType, level_from_type}

-- wil::FailureType.
pub data FailureType : Type 0 where
  exception_failure return_failure log_failure fail_fast : FailureType

-- wil::FailureInfo, as far as it is read. `nt_status`: the flag of that name.
pub record FailureInfo : Type 0 where
  pub type : FailureType
  pub nt_status : Bool
  pub status : ℕ
  pub hr : ℕ
  pub failure_count : ℕ
  pub message : Option Text

-- What std::current_exception holds.
pub data Current : Type 0 where
  no_exception : Current
  std_exception : Text → Text → Current
  other_exception : Current

-- What the callbacks use of WIL, Windows and Qt.
pub record Platform : Type 0 where
  -- g_pfnFormatNtStatusMsg, if it is set.
  pub format_nt_status : Option (ℕ → Text)
  -- FormatMessageW of a code.
  pub format_message : ℕ → Text
  pub trimmed : Text → Text
  -- `%08X` of a code, and `%d` of a number.
  pub hex8 : ℕ → Text
  pub decimal : ℕ → Text
  -- LogStringPrintf: appends to what the buffer of a size holds, as far as it fits.
  pub print : ℕ → Text → Text → Text
  -- GetFailureLogString, which calls the message callback: the HRESULT and the text.
  pub failure_log_string : FailureInfo → ℕ → ℕ × Text

-- The code that WIL gives a failure for an exception that it does not know.
abbrev pub error_unhandled_exception : ℕ
error_unhandled_exception = 0x8007023E

unfoldable pub type_text : FailureType → Bool → Text
type_text exception_failure nt = codes "Exception"
type_text return_failure nt = if nt then codes "ReturnNt" else codes "ReturnHr"
type_text log_failure nt = if nt then codes "LogNt" else codes "LogHr"
type_text fail_fast nt = codes "FailFast"

-- GetCurrentExceptionRepr.
unfoldable pub current_exception_repr : Current → Text
current_exception_repr no_exception = []
current_exception_repr (std_exception name what) = name ++ (codes "(" ++ (what ++ codes ")"))
current_exception_repr other_exception = codes "<unknown C++ exception>"

-- EXCEPTION_EXECUTE_HANDLER without a former filter.
unfoldable pub filter_result : Option ℕ → ℕ
filter_result none = 1
filter_result (some result) = result

module _ (platform : Platform) where
  open platform use {
    format_nt_status, format_message, trimmed, hex8, decimal, print, failure_log_string,
  }

  unfoldable pub nt_text : Option (ℕ → Text) → ℕ → Text
  nt_text none status = []
  nt_text (some format) status = trimmed (format status)

  -- errorCode and errorText of CustomResultMessageCallback.
  unfoldable pub error_code : FailureInfo → ℕ
  error_code failure = if failure.nt_status then failure.status else failure.hr

  unfoldable pub error_text : Current → FailureInfo → Text
  error_text current failure =
      if failure.nt_status
      then nt_text format_nt_status failure.status
      else if failure.hr == error_unhandled_exception
      then current_exception_repr current
      else trimmed (format_message failure.hr)

  -- The two lines that CustomResultMessageCallback prints.
  unfoldable pub summary : Current → FailureInfo → Text
  summary current failure =
      error_text current failure
      ++ (codes " (0x"
          ++ (hex8 (error_code failure)
              ++ (codes ") "
                  ++ (type_text failure.type failure.nt_status
                      ++ (codes "(" ++ (decimal failure.failure_count ++ codes ")"))))))

  unfoldable pub with_message : ℕ → Option Text → Text → Text
  with_message size none buffer = buffer
  with_message size (some message) buffer = print size buffer (codes " << " ++ message)

  -- CustomResultMessageCallback: what the buffer of a size holds after it.
  unfoldable pub custom_result_message_callback : Current → FailureInfo → ℕ → Text
  custom_result_message_callback current failure size =
      with_message size failure.message (print size [] (summary current failure))

  -- CustomLoggingCallback: what is logged.
  unfoldable pub custom_logging_callback : FailureInfo → List (Level × Text) → List (Level × Text)
  custom_logging_callback failure log =
      let (hr, text) = failure_log_string failure 2048 in
      if succeeded hr then log ++ (err, trimmed text) ∷ [] else log

  -- CustomExceptionFilter: the log, and the result. `original`: what the former filter answers,
  -- if there was one.
  unfoldable pub custom_exception_filter :
      Option ℕ → ℕ → List (Level × Text) → List (Level × Text) × ℕ
  custom_exception_filter original code log =
      let text =
        if code == 0xE06D7363
        then codes "Unhandled C++ exception. (0x"
        else codes "Unhandled SEH exception. (0x" in
      (log ++ (critical, text ++ (hex8 code ++ codes ")")) ∷ [], filter_result original)

  -- CustomTerminateHandler, up to the call of std::abort; `reported`: what LOG_CAUGHT_EXCEPTION
  -- hands to the logging callback.
  unfoldable pub custom_terminate_handler :
      Current → FailureInfo → List (Level × Text) → List (Level × Text)
  custom_terminate_handler no_exception reported log = log
  custom_terminate_handler (std_exception name what) reported log =
      custom_logging_callback reported log
  custom_terminate_handler other_exception reported log = custom_logging_callback reported log

  -- CustomMessageHandler.
  unfoldable pub custom_message_handler :
      MessageType → Text → List (Level × Text) → List (Level × Text)
  custom_message_handler type msg log = log ++ (level_from_type type, msg) ∷ []

-- The handlers of the process; a handler of the program's own, or a former one.
pub data Handler : Type 0 where
  custom : Handler
  former : ℕ → Handler

pub record Handlers : Type 0 where
  pub result_logging : Handler
  pub result_message : Handler
  pub terminate : Handler
  pub exception_filter : Handler
  pub message : Handler

-- InstallCustomHandlers: the handlers, and the former ones that are kept.
unfoldable pub install_custom_handlers : Bool → Handlers → Handlers × Handler × Handler × Handler
install_custom_handlers is_debugger_present h = (
  record {
    result_logging = custom;
    result_message = if not is_debugger_present then custom else h.result_message;
    terminate = custom;
    exception_filter = custom;
    message = custom;
  },
  h.terminate,
  h.exception_filter,
  h.message,
)
