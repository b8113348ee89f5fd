-- ===== src/Startup/Registering.antt =====
-- What a start with `--register` and its options leaves in the registry.
use axhost.Common.{if-false, Text, Bool, false, ◌≡◌, refl, sym, ap, ◌∙◌, subst, is_empty, arith}
use axhost.Common.Hresult.{failed, s_ok}
use axhost.Registry.{Registry, Laws}
use axhost.RegistryHelper.{
  LoggingSettings, register_surrogate, write_logging_settings, read_logging_settings,
}
use axhost.RegistryHelper.Resolve.{Resolves}
use axhost.RegistryHelper.Registration.{register_surrogate-Resolves}
use axhost.RegistryHelper.Settings.{put_over, read-write_logging_settings}
use axhost.Com.{Com}
use axhost.Startup.{
  ParsedResult, settings_of, returns, register_if_given, register_entries, dispatch,
}

module _ (rg : Registry) (ole : Com) (admin : Bool) (exe : Text) where
  register_surrogate_ok :
      (clsid appid : Text) (s : rg.Reg)
      → failed (register_surrogate rg admin exe clsid appid s).0 ≡ false
      → (register_surrogate rg admin exe clsid appid s).0 ≡ s_ok
  unfolding register_surrogate
  register_surrogate_ok clsid appid s h = ground arith

  write_logging_settings_ok :
      (appid : Text) (settings : LoggingSettings) (s : rg.Reg)
      → failed (write_logging_settings rg admin appid settings s).0 ≡ false
      → (write_logging_settings rg admin appid settings s).0 ≡ s_ok
  unfolding write_logging_settings
  write_logging_settings_ok appid settings s h = ground arith

  -- The registry after the registration of the class, and after the settings.
  abbrev class_registered : ParsedResult → rg.Reg → rg.Reg
  class_registered parsed s =
      (register_surrogate rg admin exe parsed.register_class_id parsed.register_app_id s).2

  abbrev settings_written : ParsedResult → rg.Reg → rg.Reg
  settings_written parsed s =
      (write_logging_settings rg admin parsed.register_app_id (settings_of parsed)
        (class_registered parsed s)).2

  dispatch_inv :
      (parsed : ParsedResult) (s s' : rg.Reg) (w : ole.World)
      → is_empty parsed.register_class_id ≡ false
      → is_empty parsed.register_app_id ≡ false
      → dispatch rg ole admin exe parsed s w ≡ returns s'
      → (failed
            (register_surrogate rg admin exe parsed.register_class_id parsed.register_app_id s).0
          ≡ false)
        × (failed
              (write_logging_settings rg admin parsed.register_app_id
                (settings_of parsed)
                (class_registered parsed s)).0
            ≡ false)
        × (settings_written parsed s ≡ s')
  unfolding dispatch register_entries register_if_given
  dispatch_inv parsed s s' w a b h = ground arith

module _ (rg : Registry) (laws : Laws rg) (ole : Com) (admin : Bool) (exe : Text) where
  written :
      (parsed : ParsedResult) (s : rg.Reg)
      → is_empty parsed.register_app_id ≡ false
      → failed (register_surrogate rg admin exe parsed.register_class_id parsed.register_app_id s).0
        ≡ false
      → failed
          (write_logging_settings rg admin parsed.register_app_id
            (settings_of parsed)
            (class_registered rg ole admin exe parsed s)).0
        ≡ false
      → read_logging_settings rg parsed.register_class_id
          (settings_written rg ole admin exe parsed s)
        ≡ put_over (settings_of parsed) (
            read_logging_settings rg parsed.register_class_id
              (class_registered rg ole admin exe parsed s))
  written parsed s given ok ok1 =
      let clsid : Text = parsed.register_class_id in
      let appid : Text = parsed.register_app_id in
      let s1 : rg.Reg = class_registered rg ole admin exe parsed s in
      let resolves =
        register_surrogate-Resolves rg laws exe clsid appid admin s
          (register_surrogate_ok rg ole admin exe clsid appid s ok) in
      read-write_logging_settings rg laws clsid appid admin (settings_of parsed) s1
        (subst (λ a. Resolves rg clsid a s1) (if-false clsid appid (is_empty appid) given)
          resolves.0)
        (write_logging_settings_ok rg ole admin exe appid (settings_of parsed) s1 ok1)

  -- A start with a class to register, an AppID, and a level and a directory for its log, that
  -- returns without an exception, leaves a registry from which the settings of exactly that
  -- command line are read for the class.
  pub read_logging_settings-dispatch :
      (parsed : ParsedResult) (s s' : rg.Reg) (w : ole.World)
      → is_empty parsed.register_class_id ≡ false
      → is_empty parsed.register_app_id ≡ false
      → is_empty parsed.register_log_level ≡ false
      → is_empty parsed.register_log_dir ≡ false
      → dispatch rg ole admin exe parsed s w ≡ returns s'
      → read_logging_settings rg parsed.register_class_id s' ≡ settings_of parsed
  read_logging_settings-dispatch parsed s s' w a b c d h =
      let inv = dispatch_inv rg ole admin exe parsed s s' w a b h in
      ap (read_logging_settings rg parsed.register_class_id) (sym inv.2)
      ∙ written parsed s b inv.0 inv.1
      ∙ rw c rw d refl
