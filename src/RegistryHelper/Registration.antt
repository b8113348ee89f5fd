-- ===== src/RegistryHelper/Registration.antt =====
-- A registered surrogate is found again.
use axhost.Common.{Text, Bool, false, ◌≡◌, refl, ◌∙◌, arith}
use axhost.Common.Hresult.{failed, s_ok}
use axhost.Registry.{Registry, Laws, read}
use axhost.RegistryHelper.{
  clsid_path, appid_path, effective_app_id, app_id, dll_surrogate, register_surrogate,
}
use axhost.RegistryHelper.Resolve.{Resolves, apart}

module _ (rg : Registry) (laws : Laws rg) (exe_path clsid appid : Text) where
  -- The registry after each of the four writes.
  abbrev class_made : rg.Reg → rg.Reg
  class_made s = (rg.create_key (clsid_path clsid) s).0

  abbrev app_named : rg.Reg → rg.Reg
  app_named s =
      (rg.set_string (clsid_path clsid) app_id (effective_app_id clsid appid) (class_made s)).0

  abbrev app_made : rg.Reg → rg.Reg
  app_made s = (rg.create_key (appid_path (effective_app_id clsid appid)) (app_named s)).0

  abbrev host_set : rg.Reg → rg.Reg
  host_set s =
      (rg.set_string (appid_path (effective_app_id clsid appid)) dll_surrogate exe_path
        (app_made s)).0

  record Registered (s t : rg.Reg) : Type 0 where
    class_ok : failed (rg.create_key (clsid_path clsid) s).1 ≡ false
    named_ok :
        failed
          (rg.set_string (clsid_path clsid) app_id (effective_app_id clsid appid) (class_made s)).1
        ≡ false
    app_ok :
        failed (rg.create_key (appid_path (effective_app_id clsid appid)) (app_named s)).1 ≡ false
    host_ok :
        failed
          (rg.set_string
            (appid_path (effective_app_id clsid appid))
            dll_surrogate
            exe_path
            (app_made s)).1
        ≡ false
    result : t ≡ host_set s

  register_surrogate-Registered :
      (admin : Bool) (s : rg.Reg)
      → (register_surrogate rg admin exe_path clsid appid s).0 ≡ s_ok
      → Registered s (register_surrogate rg admin exe_path clsid appid s).2
  unfolding register_surrogate
  register_surrogate-Registered admin s h = record {
    class_ok = ground arith;
    named_ok = ground arith;
    app_ok = ground arith;
    host_ok = ground arith;
    result = ground arith;
  }

  host_set-Resolves :
      (s t : rg.Reg)
      → Registered s t
      → Resolves rg clsid (effective_app_id clsid appid) t
        × (rg.get_string (appid_path (effective_app_id clsid appid)) dll_surrogate t
            ≡ (s_ok, exe_path))
  host_set-Resolves s t w =
      let app = appid_path (effective_app_id clsid appid) in
      let class = clsid_path clsid in
      let opened = laws.open-create class read s w.class_ok in
      let still : rg.open_key class read (app_named s) ≡ rg.open_key class read (class_made s) =
        laws.open-set_string class app_id _ class read (class_made s) in
      let kept = laws.open-create_elsewhere app class read (app_named s) (rw still opened) in
      let named = laws.get_string-set_string class app_id _ (class_made s) w.named_ok in
      let kept_name =
        laws.get_string-set_string_ne app dll_surrogate exe_path class app_id (app_made s)
          (apart rg laws app class dll_surrogate app_id (omega arith))
        ∙ laws.get_string-create app class app_id (app_named s)
        ∙ named in
      rw w.result (
        record {
          class_opens = rw laws.open-set_string kept;
          named = rw kept_name refl;
          names = rw kept_name refl;
          app_opens = rw laws.open-set_string (laws.open-create app read (app_named s) w.app_ok);
        },
        laws.get_string-set_string app dll_surrogate exe_path (app_made s) w.host_ok,
      )

  -- After a successful registration the class leads to its AppID (the class identifier itself, if
  -- no AppID is given), both keys can be read, and the AppID's surrogate is this executable.
  pub register_surrogate-Resolves :
      (admin : Bool) (s : rg.Reg)
      → (register_surrogate rg admin exe_path clsid appid s).0 ≡ s_ok
      → Resolves rg clsid
          (effective_app_id clsid appid)
          (register_surrogate rg admin exe_path clsid appid s).2
        × (rg.get_string
              (appid_path (effective_app_id clsid appid))
              dll_surrogate
              (register_surrogate rg admin exe_path clsid appid s).2
            ≡ (s_ok, exe_path))
  register_surrogate-Resolves admin s h =
      host_set-Resolves s _ (register_surrogate-Registered admin s h)
