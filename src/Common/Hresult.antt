-- ===== src/Common/Hresult.antt =====
-- HRESULT as its 32-bit pattern: FAILED reads the sign bit. The codes are those of winerror.h.
use Prim.Native.Nat.{ℕ, ◌+◌, ◌%◌, compare, Ordering}
use mathlib.Core.Bool.{Bool, true, false, not}

-- FAILED(hr): the value is negative as a 32-bit integer.
abbrev pub failed : ℕ → Bool
failed hr = elim (compare 0x80000000 hr) [ Ordering.gt ↦ false | _ ↦ true ]

abbrev pub succeeded : ℕ → Bool
succeeded hr = not (failed hr)

abbrev pub s_ok : ℕ
s_ok = 0

abbrev pub s_false : ℕ
s_false = 1

abbrev pub e_notimpl : ℕ
e_notimpl = 0x80004001

abbrev pub e_nointerface : ℕ
e_nointerface = 0x80004002

abbrev pub e_pointer : ℕ
e_pointer = 0x80004003

abbrev pub e_fail : ℕ
e_fail = 0x80004005

abbrev pub e_unexpected : ℕ
e_unexpected = 0x8000FFFF

abbrev pub e_accessdenied : ℕ
e_accessdenied = 0x80070005

abbrev pub e_outofmemory : ℕ
e_outofmemory = 0x8007000E

abbrev pub e_invalidarg : ℕ
e_invalidarg = 0x80070057

abbrev pub type_e_libnotregistered : ℕ
type_e_libnotregistered = 0x8002801D

abbrev pub type_e_elementnotfound : ℕ
type_e_elementnotfound = 0x8002802B

abbrev pub class_e_noaggregation : ℕ
class_e_noaggregation = 0x80040110

abbrev pub class_e_classnotavailable : ℕ
class_e_classnotavailable = 0x80040111

-- HRESULT_FROM_WIN32 of a status code.
abbrev pub hresult_from_win32 : ℕ → ℕ
hresult_from_win32 status = elim (compare status 0) [
  | Ordering.eq ↦ s_ok
  | _ ↦ 0x80070000 + status % 65536
]
