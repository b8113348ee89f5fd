-- ===== src/RegistryHelper.antt =====
-- src/registry_helper.cc: the registry entries of a surrogate and of its logging settings. Message
-- boxes are values: which message, and what it shows. The code that only reacts to a C++ exception
-- (out of memory) is left out.
pub mod Resolve
pub mod Settings
pub mod Removal
pub mod Registration
use axhost.Common.{
  ℕ, Text, codes, Bool, true, false, not, ◌&&◌, ◌==◌, if◌then◌else◌, ◌++◌, is_empty, Option, none,
  some, [],
}
use axhost.Common.Hresult.{failed, succeeded, s_ok, e_accessdenied, hresult_from_win32}
use axhost.Registry.{Registry, Access, read, readwrite}

-- `allocated`: AllocateAndInitializeSid succeeded; `checked`: what CheckTokenMembership wrote.
unfoldable pub is_running_as_admin : Bool → ℕ → Bool
is_running_as_admin allocated checked = (if allocated then checked else 0) == 1

-- The message boxes, with the texts that they show.
pub data Notice : Type 0 where
  admin_required : Notice
  create_failed open_failed : Text → ℕ → Notice
  set_failed : Text → Text → ℕ → Notice
  registered : Text → Text → Text → Notice
  unregistered : Text → Text → Notice
  settings_applied : Text → Bool → Bool → Notice

-- LoggingSettings of src/logging.h.
pub record LoggingSettings : Type 0 where
  pub enabled : Bool
  pub level : Text
  pub directory : Text
  pub file : Text

abbrev pub default_settings : LoggingSettings
default_settings = record { enabled = false; level = []; directory = []; file = [] }

unfoldable pub clsid_path : Text → Text
clsid_path clsid = codes "CLSID\\" ++ clsid

unfoldable pub appid_path : Text → Text
appid_path appid = codes "AppID\\" ++ appid

-- The AppID that a class is registered with.
abbrev pub effective_app_id : Text → Text → Text
effective_app_id clsid appid = if is_empty appid then clsid else appid

abbrev pub app_id : Text
app_id = codes "AppID"

abbrev pub dll_surrogate : Text
dll_surrogate = codes "DllSurrogate"

abbrev pub log_enabled : Text
log_enabled = codes "LogEnabled"

abbrev pub log_level : Text
log_level = codes "LogLevel"

abbrev pub log_directory : Text
log_directory = codes "LogDirectory"

pub error_file_not_found : ℕ
error_file_not_found = 2

module _ (rg : Registry) where
  open rg use {
    Reg, create_key, open_key, set_string, set_dword, get_string, get_dword, delete_value,
  }

  -- What a call returns, the message box that it shows, and the registry after it.
  abbrev pub Outcome : Type 0
  Outcome = ℕ × Option Notice × Reg

  unfoldable pub register_surrogate : Bool → Text → Text → Text → Reg → Outcome
  register_surrogate admin exe_path clsid appid s =
      if not admin
      then (e_accessdenied, some admin_required, s)
      else let effective : Text = effective_app_id clsid appid in
        let (s1, made) = create_key (clsid_path clsid) s in
        if failed made
        then (made, some (create_failed (clsid_path clsid) made), s1)
        else let (s2, named) = set_string (clsid_path clsid) app_id effective s1 in
          if failed named
          then (named, some (set_failed (clsid_path clsid) app_id named), s2)
          else let (s3, made_app) = create_key (appid_path effective) s2 in
            if failed made_app
            then (made_app, some (create_failed (appid_path effective) made_app), s3)
            else let (s4, hosted) = set_string (appid_path effective) dll_surrogate exe_path s3 in
              if failed hosted
              then (hosted, some (set_failed (appid_path effective) dll_surrogate hosted), s4)
              else (s_ok, some (registered clsid effective exe_path), s4)

  -- The AppID of the class, empty if there is none.
  unfoldable pub read_app_id : Text → Reg → Text
  read_app_id clsid s =
      if succeeded (open_key (clsid_path clsid) read s)
      then (let (hr, value) = get_string (clsid_path clsid) app_id s in
          if succeeded hr then value else [])
      else []

  -- Deletes a value if its key can be opened. A status that is an error ends the caller, without a
  -- message.
  unfoldable pub delete_if_open : Text → Text → Reg → ℕ × Reg
  unfolding error_file_not_found
  delete_if_open path name s =
      if succeeded (open_key path readwrite s)
      then (let (s1, status) = delete_value path name s in
          if not (status == error_file_not_found) && not (status == 0)
          then (hresult_from_win32 status, s1)
          else (s_ok, s1))
      else (s_ok, s)

  unfoldable pub unregister_surrogate : Bool → Text → Reg → Outcome
  unregister_surrogate admin clsid s =
      if not admin
      then (e_accessdenied, some admin_required, s)
      else let appid : Text = read_app_id clsid s in
        let (hr, s1) = delete_if_open (clsid_path clsid) app_id s in
        if failed hr
        then (hr, none, s1)
        else let (hr', s2) =
            (if is_empty appid
              then (s_ok, s1)
              else delete_if_open (appid_path appid) dll_surrogate s1) in
          if failed hr' then (hr', none, s2) else (s_ok, some (unregistered clsid appid), s2)

  -- Writes a text value unless the text is empty.
  unfoldable pub set_if_given : Text → Text → Text → Reg → Reg × ℕ
  set_if_given path name value s =
      if is_empty value then (s, s_ok) else set_string path name value s

  unfoldable pub write_logging_settings : Bool → Text → LoggingSettings → Reg → Outcome
  write_logging_settings admin appid settings s =
      if not admin
      then (e_accessdenied, some admin_required, s)
      else let path : Text = appid_path appid in
        let opened : ℕ = open_key path readwrite s in
        if failed opened
        then (opened, some (open_failed path opened), s)
        else let (s1, hr1) = set_dword path log_enabled (if settings.enabled then 1 else 0) s in
          if failed hr1
          then (hr1, some (set_failed path log_enabled hr1), s1)
          else let (s2, hr2) = set_if_given path log_level settings.level s1 in
            if failed hr2
            then (hr2, some (set_failed path log_level hr2), s2)
            else let (s3, hr3) = set_if_given path log_directory settings.directory s2 in
              if failed hr3 then (hr3, some (set_failed path log_directory hr3), s3) else (
                s_ok,
                some (
                    settings_applied appid (is_empty settings.level) (is_empty settings.directory)),
                s3,
              )

  -- The three values below an AppID's key; one that cannot be read keeps its default.
  pub read_values : Text → Reg → LoggingSettings
  read_values path s =
      let (hr1, enabled) = get_dword path log_enabled s in
      let (hr2, level) = get_string path log_level s in
      let (hr3, directory) = get_string path log_directory s in
      record {
        enabled = if succeeded hr1 then not (enabled == 0) else false;
        level = if succeeded hr2 then level else [];
        directory = if succeeded hr3 then directory else [];
        file = [];
      }

  unfoldable pub read_logging_settings : Text → Reg → LoggingSettings
  unfolding read_values
  read_logging_settings clsid s =
      if failed (open_key (clsid_path clsid) read s)
      then default_settings
      else let (hr, appid) = get_string (clsid_path clsid) app_id s in
        if failed hr
        then default_settings
        else if failed (open_key (appid_path appid) read s)
        then default_settings
        else read_values (appid_path appid) s
