-- ===== src/RegistryHelper/Removal.antt =====
-- What unregistering removes, and when it removes nothing.
use axhost.Common.{Text, Bool, true, false, ◌≡◌, ◌≢◌, is_empty, length, arith}
use axhost.Common.Hresult.{failed, s_ok}
use axhost.Registry.{Registry, Laws, Access, readwrite}
use axhost.RegistryHelper.{
  clsid_path, appid_path, app_id, dll_surrogate, read_app_id, delete_if_open, unregister_surrogate,
}
use axhost.RegistryHelper.Resolve.{Resolves, apart}

module _ (rg : Registry) (laws : Laws rg) where
  -- A removal that reports no failure has removed the value, if the key could be opened.
  delete_if_open-gone :
      (path name : Text) (s : rg.Reg)
      → failed (rg.open_key path readwrite s) ≡ false
      → failed (delete_if_open rg path name s).0 ≡ false
      → failed (rg.get_string path name (delete_if_open rg path name s).1).0 ≡ true
  unfolding delete_if_open
  delete_if_open-gone path name s h ok = ground (arith, laws.get_string-delete path name s)

  delete_if_open-open :
      (path name q : Text) (a : Access) (s : rg.Reg)
      → rg.open_key q a (delete_if_open rg path name s).1 ≡ rg.open_key q a s
  unfolding delete_if_open
  delete_if_open-open path name q a s = ground (arith, laws.open-delete path name q a s)

  delete_if_open-elsewhere :
      (path name q m : Text) (s : rg.Reg)
      → length name ≢ length m
      → rg.get_string q m (delete_if_open rg path name s).1 ≡ rg.get_string q m s
  unfolding delete_if_open
  delete_if_open-elsewhere path name q m s h =
      ground (arith, laws.get_string-delete_ne path name q m s (apart rg laws path q name m h))

module _ (rg : Registry) (clsid appid : Text) where
  read_app_id-Resolves : (s : rg.Reg) → Resolves rg clsid appid s → read_app_id rg clsid s ≡ appid
  unfolding read_app_id
  read_app_id-Resolves s r = rw (r.class_opens, r.named, r.names)

  abbrev class_cleared : rg.Reg → rg.Reg
  class_cleared s = (delete_if_open rg (clsid_path clsid) app_id s).1

  abbrev host_cleared : rg.Reg → rg.Reg
  host_cleared s = (delete_if_open rg (appid_path appid) dll_surrogate (class_cleared s)).1

  -- Success means that both removals reported no failure.
  record Removed (s t : rg.Reg) : Type 0 where
    class_ok : failed (delete_if_open rg (clsid_path clsid) app_id s).0 ≡ false
    host_ok :
        failed (delete_if_open rg (appid_path appid) dll_surrogate (class_cleared s)).0 ≡ false
    result : t ≡ host_cleared s

  unregister_surrogate-Removed :
      (admin : Bool) (s : rg.Reg)
      → Resolves rg clsid appid s
      → is_empty appid ≡ false
      → (unregister_surrogate rg admin clsid s).0 ≡ s_ok
      → Removed s (unregister_surrogate rg admin clsid s).2
  unfolding unregister_surrogate
  unregister_surrogate-Removed admin s r given h =
      let found = read_app_id-Resolves s r in
      record { class_ok = ground arith; host_ok = ground arith; result = ground arith }

module _ (rg : Registry) (laws : Laws rg) (clsid appid : Text) where
  host_cleared-gone :
      (s : rg.Reg)
      → failed (rg.open_key (clsid_path clsid) readwrite s) ≡ false
      → failed (rg.open_key (appid_path appid) readwrite s) ≡ false
      → (t : rg.Reg) → Removed rg clsid appid s t
      → (failed (rg.get_string (clsid_path clsid) app_id t).0 ≡ true)
        × (failed (rg.get_string (appid_path appid) dll_surrogate t).0 ≡ true)
  host_cleared-gone s h k t w =
      let class = clsid_path clsid in
      let app = appid_path appid in
      let s1 = class_cleared rg clsid appid s in
      let open_app = delete_if_open-open rg laws class app_id app readwrite s in
      rw w.result (
        rw (delete_if_open-elsewhere rg laws app dll_surrogate class app_id s1 (omega arith))
            (delete_if_open-gone rg laws class app_id s h w.class_ok),
        delete_if_open-gone rg laws app dll_surrogate s1 (rw open_app k) w.host_ok,
      )

  -- Unregistering a class that leads to an AppID, where both keys can be opened for writing:
  -- after a reported success neither the class's AppID nor the AppID's surrogate can be read.
  pub unregister_surrogate-gone :
      (admin : Bool) (s : rg.Reg)
      → Resolves rg clsid appid s
      → is_empty appid ≡ false
      → failed (rg.open_key (clsid_path clsid) readwrite s) ≡ false
      → failed (rg.open_key (appid_path appid) readwrite s) ≡ false
      → (unregister_surrogate rg admin clsid s).0 ≡ s_ok
      → (failed
            (rg.get_string (clsid_path clsid) app_id (unregister_surrogate rg admin clsid s).2).0
          ≡ true)
        × (failed
              (rg.get_string
                (appid_path appid)
                dll_surrogate
                (unregister_surrogate rg admin clsid s).2).0
            ≡ true)
  unregister_surrogate-gone admin s r given h k ok =
      host_cleared-gone s h k _ (unregister_surrogate-Removed rg clsid appid admin s r given ok)
