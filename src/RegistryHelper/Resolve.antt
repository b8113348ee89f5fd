-- ===== src/RegistryHelper/Resolve.antt =====
-- How a class leads to the values of its AppID, and what leaves that as it is.
use axhost.Common.{ℕ, Text, false, ◌&&◌, ◌≡◌, ◌≢◌, length, arith, Bool-cases, inl, inr}
use axhost.Common.Hresult.{failed}
use axhost.Registry.{Registry, Laws, read}
use axhost.RegistryHelper.{clsid_path, appid_path, app_id, read_values, read_logging_settings}

module _ (rg : Registry) where
  -- The class names the AppID, and both keys can be read.
  pub record Resolves (clsid appid : Text) (s : rg.Reg) : Type 0 where
    pub class_opens : failed (rg.open_key (clsid_path clsid) read s) ≡ false
    pub named : failed (rg.get_string (clsid_path clsid) app_id s).0 ≡ false
    pub names : (rg.get_string (clsid_path clsid) app_id s).1 ≡ appid
    pub app_opens : failed (rg.open_key (appid_path appid) read s) ≡ false

module _ (rg : Registry) (clsid appid : Text) where
  pub read_logging_settings-Resolves :
      (s : rg.Reg)
      → Resolves rg clsid appid s
      → read_logging_settings rg clsid s ≡ read_values rg (appid_path appid) s
  unfolding read_logging_settings
  read_logging_settings-Resolves s r = rw (r.class_opens, r.named, r.names, r.app_opens)

module _ (rg : Registry) (laws : Laws rg) where
  -- Names of two lengths are two values.
  pub apart :
      (p q a b : Text) → length a ≢ length b → (laws.same_name p q && laws.same_name a b) ≡ false
  apart p q a b h = elim (Bool-cases (laws.same_name a b)) [
    | inl same ↦ absurd (h (laws.same_name-length a b same))
    | inr other ↦ ground arith
  ]

module _ (rg : Registry) (laws : Laws rg) (clsid appid : Text) where
  pub set_dword-Resolves :
      (p n : Text) (v : ℕ) (s : rg.Reg)
      → length n ≢ length app_id
      → Resolves rg clsid appid s
      → Resolves rg clsid appid (rg.set_dword p n v s).0
  set_dword-Resolves p n v s h r =
      let other =
        laws.get_string-set_dword_ne p n v (clsid_path clsid) app_id s
          (apart rg laws p (clsid_path clsid) n app_id h) in
      record {
        class_opens = rw laws.open-set_dword r.class_opens;
        named = rw other r.named;
        names = rw other r.names;
        app_opens = rw laws.open-set_dword r.app_opens;
      }

  pub set_string-Resolves :
      (p n v : Text) (s : rg.Reg)
      → length n ≢ length app_id
      → Resolves rg clsid appid s
      → Resolves rg clsid appid (rg.set_string p n v s).0
  set_string-Resolves p n v s h r =
      let other =
        laws.get_string-set_string_ne p n v (clsid_path clsid) app_id s
          (apart rg laws p (clsid_path clsid) n app_id h) in
      record {
        class_opens = rw laws.open-set_string r.class_opens;
        named = rw other r.named;
        names = rw other r.names;
        app_opens = rw laws.open-set_string r.app_opens;
      }
