-- ===== src/Surrogate.antt =====
-- HostSurrogate, src/surrogate.h and src/surrogate.cc: the class objects that this process has
-- registered, by their cookies.
pub mod Cookies
pub mod Counts
pub mod Failures
pub mod Successes
pub mod Revoking
use axhost.Common.{
  ℕ, suc, Text, Bool, true, false, not, ◌&&◌, ◌||◌, ◌==◌, if◌then◌else◌, ◌++◌, List, [], ◌∷◌,
  length, is_empty, Option, none, some,
}
use axhost.Common.Hresult.{failed, succeeded, s_ok, e_unexpected}
use axhost.Common.Flags.{
  has, bit_or, clsctx_inproc_server, clsctx_local_server, regcls_multipleuse, regcls_multi_separate,
  regcls_suspended, regcls_surrogate,
}
use axhost.ClassSpec.{ClassSpec, Uuid, sanitize}
use axhost.Com.{Com, Pointer, Factory, host, original}

pub contains : ℕ → List ℕ → Bool
contains c [] = false
contains c (d ∷ cookies) = c == d || contains c cookies

-- QSet::insert. The order of a set's members stands for the order in which it is walked.
pub insert : ℕ → List ℕ → List ℕ
insert c cookies = if contains c cookies then cookies else c ∷ cookies

module _ (ole : Com) where
  open ole use {
    World, get_class_object, query_unknown, register_class_object, revoke_class_object,
    get_last_error,
  }

  -- The constructor of HostContainerFactory: what it finds below itself.
  pub new_factory : Uuid → ℕ → World → World × Factory
  new_factory clsid clsctx w =
      let (w1, hr, underlying) = get_class_object clsid clsctx w in
      if failed hr
      then (w1, host clsid clsctx underlying 0)
      else if underlying == 0
      then (w1, host clsid clsctx underlying 0)
      else let (qry, unknown) = query_unknown underlying w1 in
        (w1, host clsid clsctx underlying unknown)

  -- The original in-process factory, for a registration that COM would make in-process by itself:
  -- the world, the HRESULT and the pointer, null if none is asked for.
  pub original_factory : Uuid → ℕ → ℕ → ℕ → World → World × ℕ × Pointer
  original_factory clsid clsctx_create clsctx_register regcls w =
      let does_auto_inproc_registration : Bool =
        has clsctx_register clsctx_local_server && has regcls regcls_multipleuse in
      let can_workaround_short_circuit : Bool =
        has clsctx_create clsctx_inproc_server && not (has clsctx_create clsctx_local_server) in
      if does_auto_inproc_registration && can_workaround_short_circuit
      then get_class_object clsid clsctx_create w
      else (w, s_ok, 0)

  -- The registration of the original factory besides the host's own.
  pub register_original : Uuid → ℕ → Pointer → List ℕ × World → List ℕ × World
  register_original clsid clsctx_create found (cookies, w) =
      if found == 0
      then (cookies, w)
      else let (w1, hr, cookie) =
          register_class_object clsid (original found) clsctx_create
            (bit_or regcls_multipleuse regcls_multi_separate) w in
        if succeeded hr then (insert cookie cookies, w1) else (cookies, w1)

  -- LoadDllServerEx: the HRESULT, the cookies and the world after it.
  pub load_dll_server_ex : Uuid → Uuid → ℕ → ℕ → ℕ → List ℕ × World → ℕ × List ℕ × World
  load_dll_server_ex clsid alias clsctx_create clsctx_register regcls (cookies, w) =
      let (w1, get_org, found) = original_factory clsid clsctx_create clsctx_register regcls w in
      let (w2, surrogate) = new_factory clsid clsctx_create w1 in
      let (w3, reg, cookie) = register_class_object alias surrogate clsctx_register regcls w2 in
      if failed reg
      then (reg, cookies, w3)
      else let (cookies', w4) =
          register_original clsid clsctx_create found (insert cookie cookies, w3) in
        (reg, cookies', w4)

  -- Whether LoadDllServerEx warns that the host may instantiate itself.
  pub warns_self_instantiation : Uuid → Uuid → ℕ → ℕ → ℕ → World → Bool
  warns_self_instantiation clsid alias clsctx_create clsctx_register regcls w =
      failed (original_factory clsid clsctx_create clsctx_register regcls w).1 && alias == clsid

  -- LoadDllServer, by the overload with the default contexts and flags.
  pub load_dll_server : Uuid → List ℕ × World → ℕ × List ℕ × World
  load_dll_server clsid =
      load_dll_server_ex clsid clsid clsctx_inproc_server clsctx_local_server
        (bit_or regcls_surrogate regcls_multi_separate)

  -- One round of the loop: the specification with its result, and the state after it.
  pub register_spec : ℕ → ClassSpec → List ℕ × World → ClassSpec × List ℕ × World
  register_spec regcls given state =
      let spec : ClassSpec = sanitize regcls given in
      let (hr, cookies, w) =
        load_dll_server_ex spec.clsid spec.alias spec.clsctx_create spec.clsctx_register spec.regcls
          state in
      if failed hr
      then (record spec { result = hr; error = get_last_error w }, cookies, w)
      else (record spec { result = hr }, cookies, w)

  -- The loop of RegisterAllClassFactories.
  pub register_loop : ℕ → List ClassSpec → ℕ → List ℕ × World → List ClassSpec × ℕ × List ℕ × World
  register_loop regcls [] overall state = ([], overall, state.0, state.1)
  register_loop regcls (given ∷ specs) overall state =
      let (spec, cookies, w) = register_spec regcls given state in
      let overall' : ℕ =
        if failed spec.result
        then (if succeeded overall then spec.result else overall)
        else overall in
      let (rest, final, cookies', w') = register_loop regcls specs overall' (cookies, w) in
      (spec ∷ rest, final, cookies', w')

  -- RegisterAllClassFactories: the specifications with their results, the HRESULT, and the state.
  pub register_all_class_factories :
      List ClassSpec → Bool → ℕ → List ℕ × World → List ClassSpec × ℕ × List ℕ × World
  register_all_class_factories specs suspend regcls state =
      let flags : ℕ = if suspend then bit_or regcls regcls_suspended else regcls in
      register_loop (bit_or flags regcls_multi_separate) specs s_ok state

  -- The loop of RevokeAllClassFactories: a cookie that cannot be revoked stays in the set.
  pub revoke_loop : List ℕ → ℕ → World → ℕ × List ℕ × World
  revoke_loop [] overall w = (overall, [], w)
  revoke_loop (cookie ∷ cookies) overall w =
      let (w1, hr) = revoke_class_object cookie w in
      let overall' : ℕ =
        if succeeded hr then overall else (if succeeded overall then hr else overall) in
      let (final, kept, w2) = revoke_loop cookies overall' w1 in
      (final, (if succeeded hr then kept else cookie ∷ kept), w2)

  unfoldable pub revoke_all_class_factories : List ℕ → World → ℕ × List ℕ × World
  revoke_all_class_factories cookies w = revoke_loop cookies s_ok w

  -- FreeSurrogate; `invoked`: the exit could be queued.
  pub free_surrogate : Bool → List ℕ → World → ℕ × List ℕ × World
  free_surrogate invoked cookies w =
      let (hr, kept, w1) = revoke_all_class_factories cookies w in
      ((if succeeded hr && not invoked then e_unexpected else hr), kept, w1)

pub get_registered_class_count : List ℕ → ℕ
get_registered_class_count cookies = length cookies

pub has_registered_class : List ℕ → Bool
has_registered_class cookies = not (is_empty cookies)
