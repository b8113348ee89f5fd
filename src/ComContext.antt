-- ===== src/ComContext.antt =====
-- ComInitializeContext, src/com_initialize_context.cc: COM in a thread for as long as the object
-- lives.
pub mod Balance
use axhost.Common.{ℕ, Bool, true, false, if◌then◌else◌, Option, none, some}
use axhost.Common.Hresult.{failed, succeeded}

-- COM in one thread; a world is its state.
pub record Threading : Type 1 where
  pub World : Type 0
  pub co_initialize : ℕ → World → World × ℕ
  pub co_uninitialize : World → World

pub record ComInitializeContext : Type 0 where
  pub hr : ℕ
  pub initialized : Bool

module _ (threading : Threading) where
  open threading use {World, co_initialize, co_uninitialize}

  unfoldable pub construct : ℕ → World → World × ComInitializeContext
  construct mode w =
      let (w1, hr) = co_initialize mode w in (w1, record { hr = hr; initialized = succeeded hr })

  unfoldable pub destruct : ComInitializeContext → World → World
  destruct context w = if context.initialized then co_uninitialize w else w

-- ThrowIfFailed: the HRESULT of the exception, if one is thrown.
pub throw_if_failed : ComInitializeContext → Option ℕ
throw_if_failed context = if failed context.hr then some context.hr else none
