-- ===== src/HelpDialog.antt =====
-- The dialog that shows help and error texts, src/help_dialog.cc, and the texts of Windows for error
-- codes, GetLastErrorMessage of src/utils.cc.
use axhost.Common.{
  ℕ, Bool, true, false, ◌==◌, if◌then◌else◌, [], Option, none, some, Text, codes, take,
}
use axhost.Common.Qt.{Qt}

-- What the dialog tells its widgets: the window, the text and its cursor, and the button, which
-- accepts the dialog.
pub record HelpDialog : Type 0 where
  pub window_title : Text
  pub modal : Bool
  pub minimum_width : ℕ
  pub minimum_height : ℕ
  pub size_grip : Bool
  pub read_only : Bool
  pub document_margin : ℕ
  pub fixed_font : Bool
  pub wraps : Bool
  pub button : Text
  pub text : Text
  pub cursor : ℕ

-- The constructor.
unfoldable pub construct : Text → HelpDialog
construct application_name = record {
  window_title = application_name;
  modal = true;
  minimum_width = 800;
  minimum_height = 600;
  size_grip = true;
  read_only = true;
  document_margin = 12;
  fixed_font = true;
  wraps = false;
  button = codes "Confirm";
  text = [];
  cursor = 0;
}

-- setHelpText: the text from its start on.
unfoldable pub set_help_text : Text → HelpDialog → HelpDialog
set_help_text text d = record d { text = text; cursor = 0 }

-- FormatMessageW of an error code: the length and, unless it is null, the buffer.
abbrev pub FormatMessage : Type 0
FormatMessage = ℕ → ℕ × Option Text

-- GetLastErrorMessage.
unfoldable pub message_of : Qt → ℕ → Option Text → Text
message_of qt len none = []
message_of qt len (some buf) = if len == 0 then [] else qt.trimmed (take len buf)

unfoldable pub get_last_error_message : Qt → FormatMessage → ℕ → Text
get_last_error_message qt format_message err =
    let (len, buf) = format_message err in message_of qt len buf
