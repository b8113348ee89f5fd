-- ===== src/Unknown/Counted.antt =====
-- Two classes count their references without CUnknownImpl: HostProvideClassInfo,
-- src/provide_class_info.cc, and HostContainerFactory, src/container_factory.cc.
use axhost.Common.{◌-◌, arith, ℕ, Bool, true, false, not, ◌==◌, ◌+◌, ◌%◌, ◌^◌, ◌≡◌, if◌then◌else◌}
use axhost.Common.Hresult.{s_ok, e_pointer, e_nointerface}
use axhost.Container.{
  Iid, unknown, provide_class_info, provide_class_info2, connection_point_container,
  external_connection, class_factory, marshal, other, factory_answers,
}
use axhost.Unknown.{Object, Asked, derived, add_ref, release, query_interface, knows}

unfoldable pub class_info_add_ref : Object → ℕ × Object
class_info_add_ref o = let n : ℕ = (o.ref + 1) % 2 ^ 32 in (n, record o { ref = n })

unfoldable pub class_info_release : Object → ℕ × Object
class_info_release o =
    let n : ℕ = (o.ref + (2 ^ 32 - 1)) % 2 ^ 32 in
    if n == 0 then (n, record { ref = n; deleted = true }) else (n, record o { ref = n })

unfoldable pub class_info_answers : Iid → Bool
class_info_answers unknown = true
class_info_answers provide_class_info = true
class_info_answers provide_class_info2 = true
class_info_answers connection_point_container = false
class_info_answers external_connection = false
class_info_answers class_factory = false
class_info_answers marshal = false
class_info_answers (other i) = false

unfoldable pub class_info_query_interface : Bool → Iid → Object → ℕ × Object
class_info_query_interface wanted riid o =
    if not wanted
    then (e_pointer, o)
    else if not (class_info_answers riid)
    then (e_nointerface, o)
    else (s_ok, (class_info_add_ref o).1)

unfoldable pub factory_add_ref : Object → ℕ × Object
factory_add_ref o = let n : ℕ = (o.ref + 1) % 2 ^ 32 in (n, record o { ref = n })

unfoldable pub factory_release : Object → ℕ × Object
factory_release o =
    let n : ℕ = (o.ref + (2 ^ 32 - 1)) % 2 ^ 32 in
    if n == 0 then (n, record { ref = n; deleted = true }) else (n, record o { ref = n })

unfoldable pub factory_query_interface : Bool → Iid → Object → ℕ × Object
factory_query_interface wanted riid o =
    if not wanted
    then (e_pointer, o)
    else if not (factory_answers riid)
    then (e_nointerface, o)
    else (s_ok, (factory_add_ref o).1)

-- What CUnknownImpl tells apart.
abbrev asked_of : Bool → Asked
asked_of knows = if knows then derived else Asked.other

-- Both classes release and answer as CUnknownImpl does, so its count is theirs.
pub release-release :
    (o : Object) → (class_info_release o ≡ release o) × (factory_release o ≡ release o)
unfolding class_info_release factory_release release
release-release o = (ground arith, ground arith)

pub query_interface-query_interface :
    (wanted : Bool) (riid : Iid) (o : Object)
    → (class_info_query_interface wanted riid o
        ≡ query_interface wanted (asked_of (class_info_answers riid)) o)
      × (factory_query_interface wanted riid o
          ≡ query_interface wanted (asked_of (factory_answers riid)) o)
unfolding class_info_query_interface factory_query_interface class_info_add_ref factory_add_ref
    query_interface add_ref knows
query_interface-query_interface wanted riid o = (ground arith, ground arith)
