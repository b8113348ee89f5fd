-- ===== src/RegistryHelper/Settings.antt =====
-- Logging settings that are written are read back.
use axhost.Common.{
  ℕ, Text, Bool, false, if◌then◌else◌, ◌≡◌, ◌≢◌, refl, sym, ap, ◌∙◌, is_empty, [], ◌∷◌, length,
  arith,
}
use axhost.Common.Hresult.{failed, s_ok}
use axhost.Registry.{Registry, Laws}
use axhost.RegistryHelper.{
  LoggingSettings, appid_path, app_id, log_enabled, log_level, log_directory, set_if_given,
  read_values, read_logging_settings, write_logging_settings,
}
use axhost.RegistryHelper.Resolve.{
  Resolves, apart, set_dword-Resolves, set_string-Resolves, read_logging_settings-Resolves,
}

-- What was there before, with the given settings put over it: an empty text keeps the old one.
abbrev pub put_over : LoggingSettings → LoggingSettings → LoggingSettings
put_over settings old = record {
  enabled = settings.enabled;
  level = if is_empty settings.level then old.level else settings.level;
  directory = if is_empty settings.directory then old.directory else settings.directory;
  file = [];
}

abbrev level_over : LoggingSettings → LoggingSettings → LoggingSettings
level_over settings old = record old {
  level = if is_empty settings.level then old.level else settings.level;
}

abbrev directory_over : LoggingSettings → LoggingSettings → LoggingSettings
directory_over settings old = record old {
  directory = if is_empty settings.directory then old.directory else settings.directory;
}

module _ (rg : Registry) (laws : Laws rg) (path : Text) where
  read_values-enabled :
      (e : Bool) (s : rg.Reg)
      → failed (rg.set_dword path log_enabled (if e then 1 else 0) s).1 ≡ false
      → read_values rg path (rg.set_dword path log_enabled (if e then 1 else 0) s).0
        ≡ record (read_values rg path s) { enabled = e }
  unfolding read_values
  read_values-enabled e s h =
      let n : ℕ = if e then 1 else 0 in
      ground (
        arith,
        laws.get_dword-set_dword path log_enabled n s h,
        laws.get_string-set_dword_ne path log_enabled n path log_level s
            (apart rg laws path path log_enabled log_level (omega arith)),
        laws.get_string-set_dword_ne path log_enabled n path log_directory s
            (apart rg laws path path log_enabled log_directory (omega arith)),
      )

  read_values-level :
      (v : Text) (s : rg.Reg)
      → failed (set_if_given rg path log_level v s).1 ≡ false
      → read_values rg path (set_if_given rg path log_level v s).0
        ≡ record (read_values rg path s) {
          level = if is_empty v then (read_values rg path s).level else v;
        }
  unfolding read_values set_if_given
  read_values-level [] s h = refl
  read_values-level (c ∷ v) s h = ground (
    arith,
    laws.get_string-set_string path log_level (c ∷ v) s h,
    laws.get_dword-set_string_ne path log_level (c ∷ v) path log_enabled s
        (apart rg laws path path log_level log_enabled (omega arith)),
    laws.get_string-set_string_ne path log_level (c ∷ v) path log_directory s
        (apart rg laws path path log_level log_directory (omega arith)),
  )

  read_values-directory :
      (v : Text) (s : rg.Reg)
      → failed (set_if_given rg path log_directory v s).1 ≡ false
      → read_values rg path (set_if_given rg path log_directory v s).0
        ≡ record (read_values rg path s) {
          directory = if is_empty v then (read_values rg path s).directory else v;
        }
  unfolding read_values set_if_given
  read_values-directory [] s h = refl
  read_values-directory (c ∷ v) s h = ground (
    arith,
    laws.get_string-set_string path log_directory (c ∷ v) s h,
    laws.get_dword-set_string_ne path log_directory (c ∷ v) path log_enabled s
        (apart rg laws path path log_directory log_enabled (omega arith)),
    laws.get_string-set_string_ne path log_directory (c ∷ v) path log_level s
        (apart rg laws path path log_directory log_level (omega arith)),
  )

module _ (rg : Registry) (laws : Laws rg) (clsid appid : Text) where
  set_if_given-Resolves :
      (p n v : Text) (s : rg.Reg)
      → length n ≢ length app_id
      → Resolves rg clsid appid s
      → Resolves rg clsid appid (set_if_given rg p n v s).0
  unfolding set_if_given
  set_if_given-Resolves p n [] s h r = r
  set_if_given-Resolves p n (c ∷ v) s h r =
      set_string-Resolves rg laws clsid appid p n (c ∷ v) s h r

  -- The registry after each of the writes.
  abbrev after_enabled : LoggingSettings → rg.Reg → rg.Reg
  after_enabled settings s =
      (rg.set_dword (appid_path appid) log_enabled (if settings.enabled then 1 else 0) s).0

  abbrev after_level : LoggingSettings → rg.Reg → rg.Reg
  after_level settings s =
      (set_if_given rg (appid_path appid) log_level settings.level (after_enabled settings s)).0

  abbrev after_directory : LoggingSettings → rg.Reg → rg.Reg
  after_directory settings s =
      (set_if_given rg (appid_path appid) log_directory settings.directory
        (after_level settings s)).0

  -- Each of the three writes succeeded, and `t` is the registry after them.
  record Written (settings : LoggingSettings) (s t : rg.Reg) : Type 0 where
    enabled_ok :
        failed (rg.set_dword (appid_path appid) log_enabled (if settings.enabled then 1 else 0) s).1
        ≡ false
    level_ok :
        failed
          (set_if_given rg (appid_path appid) log_level settings.level (after_enabled settings s)).1
        ≡ false
    directory_ok :
        failed
          (set_if_given rg
            (appid_path appid)
            log_directory
            settings.directory
            (after_level settings s)).1
        ≡ false
    result : t ≡ after_directory settings s

  write_logging_settings-Written :
      (admin : Bool) (settings : LoggingSettings) (s : rg.Reg)
      → (write_logging_settings rg admin appid settings s).0 ≡ s_ok
      → Written settings s (write_logging_settings rg admin appid settings s).2
  unfolding write_logging_settings
  write_logging_settings-Written admin settings s h = record {
    enabled_ok = ground arith;
    level_ok = ground arith;
    directory_ok = ground arith;
    result = ground arith;
  }

  read_logging_settings-Written :
      (settings : LoggingSettings) (s t : rg.Reg)
      → Resolves rg clsid appid s
      → Written settings s t
      → read_logging_settings rg clsid t ≡ put_over settings (read_logging_settings rg clsid s)
  unfolding read_values
  read_logging_settings-Written settings s t r w =
      let path = appid_path appid in
      let n : ℕ = if settings.enabled then 1 else 0 in
      let r1 = set_dword-Resolves rg laws clsid appid path log_enabled n s (omega arith) r in
      let r2 = set_if_given-Resolves path log_level settings.level _ (omega arith) r1 in
      let r3 = set_if_given-Resolves path log_directory settings.directory _ (omega arith) r2 in
      rw w.result (
        read_logging_settings-Resolves rg clsid appid _ r3
        ∙ read_values-directory rg laws path settings.directory _ w.directory_ok
        ∙ ap (directory_over settings) (
            read_values-level rg laws path settings.level _ w.level_ok
            ∙ ap (level_over settings)
                (read_values-enabled rg laws path settings.enabled s w.enabled_ok))
        ∙ ap (put_over settings) (sym (read_logging_settings-Resolves rg clsid appid s r)))

  -- After a successful write of logging settings for an AppID, a class that resolves to it reads
  -- the settings back; an empty level or directory keeps the value that was there.
  pub read-write_logging_settings :
      (admin : Bool) (settings : LoggingSettings) (s : rg.Reg)
      → Resolves rg clsid appid s
      → (write_logging_settings rg admin appid settings s).0 ≡ s_ok
      → read_logging_settings rg clsid (write_logging_settings rg admin appid settings s).2
        ≡ put_over settings (read_logging_settings rg clsid s)
  read-write_logging_settings admin settings s r h =
      read_logging_settings-Written settings s _ r
        (write_logging_settings-Written admin settings s h)
