-- ===== src/Tests/Calls.antt =====
-- The calls of a client that its container hands on.
use axhost.Common.{ℕ, ◌+◌, true, ◌≡◌, refl, some}
use axhost.Common.Hresult.{s_ok, e_nointerface}
use axhost.TypeInfo
use axhost.Com.{Pointer}
use axhost.Com.Table.{objects, object_laws}
use axhost.Container.Methods.{ClassInfo, get_class_info, get_guid, with_part, underlying}
use axhost.Serving.Methods.{Reach-answers}
use axhost.Tests.Containers.{widget, living}
use axhost.Tests.Servers.{unused-IsFresh, made_serving, one_lives}
use axhost.Tests.Libraries.{library, library-Ends}

-- A control that knows its class information, but not its events.
abbrev control : ClassInfo
control = record { get_class_info = λ p. (s_ok, p + 1); get_guid = λ p kind. (e_nointerface, 0) }

asked_control : get_class_info library control true living ≡ some (some (s_ok, 51))
unfolding get_class_info with_part underlying TypeInfo.get_class_info
asked_control = refl

Reach-answers_example :
    ((answer : ℕ × Pointer) × (get_class_info library control true living ≡ some (some answer)))
    × ((answer : ℕ × ℕ) × (get_guid library control true 1 living ≡ some (some answer)))
Reach-answers_example =
    Reach-answers objects object_laws widget library library-Ends control 0 living true 1
      unused-IsFresh made_serving one_lives refl
