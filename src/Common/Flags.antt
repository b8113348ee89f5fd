-- ===== src/Common/Flags.antt =====
-- Bit flags of the Windows headers, and facts about `&` and `|` at single bits.
pub use Prim.Native.Nat.{bit_and, bit_or}
use axhost.Common.{ℕ, Bool, not, ◌==◌}

-- `x & flag` as a condition.
abbrev pub has : ℕ → ℕ → Bool
has x flag = not (bit_and x flag == 0)

abbrev pub clsctx_inproc_server : ℕ
clsctx_inproc_server = 1

abbrev pub clsctx_local_server : ℕ
clsctx_local_server = 4

abbrev pub regcls_singleuse : ℕ
regcls_singleuse = 0

abbrev pub regcls_multipleuse : ℕ
regcls_multipleuse = 1

abbrev pub regcls_multi_separate : ℕ
regcls_multi_separate = 2

abbrev pub regcls_suspended : ℕ
regcls_suspended = 4

abbrev pub regcls_surrogate : ℕ
regcls_surrogate = 8
