-- ===== src/Tests/Entries.antt =====
-- The registry.
use axhost.Common.{Text, codes, [], ◌≡◌, refl, true, some, none}
use axhost.Common.Hresult.{failed, s_ok, e_fail, e_accessdenied}
use axhost.Registry.{Registry}
use axhost.Registry.Table.{table, table_laws, Table}
use axhost.RegistryHelper.{
  LoggingSettings, clsid_path, appid_path, app_id, dll_surrogate, register_surrogate,
  unregister_surrogate, write_logging_settings, read_logging_settings, admin_required,
  is_running_as_admin, read_app_id, delete_if_open, set_if_given,
}
use axhost.RegistryHelper.Resolve.{Resolves}
use axhost.RegistryHelper.Settings.{put_over, read-write_logging_settings}
use axhost.RegistryHelper.Registration.{register_surrogate-Resolves}
use axhost.RegistryHelper.Removal.{unregister_surrogate-gone}

abbrev empty : Table
empty = λ p n. none

abbrev class : Text
class = codes "{C}"

-- After `--register {C}` without an AppID.
abbrev registered : Table
registered = (register_surrogate table true (codes "axhost.exe") class [] empty).2

register_succeeds : (register_surrogate table true (codes "axhost.exe") class [] empty).0 ≡ s_ok
unfolding register_surrogate
register_succeeds = refl

not_admin :
    register_surrogate table (is_running_as_admin true 0) (codes "axhost.exe") class [] empty
    ≡ (e_accessdenied, some admin_required, empty)
unfolding register_surrogate is_running_as_admin
not_admin = refl

register_surrogate-Resolves_example :
    Resolves table class class registered
    × (table.get_string (appid_path class) dll_surrogate registered ≡ (s_ok, codes "axhost.exe"))
register_surrogate-Resolves_example =
    register_surrogate-Resolves table table_laws (codes "axhost.exe") class [] true empty
      register_succeeds

abbrev debug : LoggingSettings
debug = record { enabled = true; level = codes "debug"; directory = []; file = [] }

write_succeeds : (write_logging_settings table true class debug registered).0 ≡ s_ok
unfolding write_logging_settings set_if_given
write_succeeds = refl

read-write_logging_settings_example :
    read_logging_settings table class (write_logging_settings table true class debug registered).2
    ≡ put_over debug (read_logging_settings table class registered)
read-write_logging_settings_example =
    read-write_logging_settings table table_laws class class true debug registered
      register_surrogate-Resolves_example.0 write_succeeds

unregister_succeeds : (unregister_surrogate table true class registered).0 ≡ s_ok
unfolding unregister_surrogate read_app_id delete_if_open register_surrogate clsid_path appid_path
unregister_succeeds = refl

unregister_surrogate-gone_example :
    (failed
        (table.get_string
          (clsid_path class)
          app_id
          (unregister_surrogate table true class registered).2).0
      ≡ true)
    × (failed
          (table.get_string
            (appid_path class)
            dll_surrogate
            (unregister_surrogate table true class registered).2).0
        ≡ true)
unregister_surrogate-gone_example =
    unregister_surrogate-gone table table_laws class class true registered
      register_surrogate-Resolves_example.0 refl refl refl unregister_succeeds

-- A registry in which no key can be opened.
abbrev closed : Registry
closed = record table { open_key = λ p a t. e_fail }
