-- ===== src/Sink/Lifecycle.antt =====
-- What sinks leave in the global interface table.
use axhost.Common.{ℕ, Bool, true, false, ◌==◌, ◌≡◌, ◌∙◌, if◌then◌else◌, arith}
use axhost.Common.Hresult.{failed}
use axhost.Com.{Pointer}
use axhost.Sink.{Global, create_global_sink, remove_global_sink, construct, destruct}

-- What the host relies on: which cookies the table holds.
pub record Laws (git : Global) : Type 0 where
  pub holds : git.World → ℕ → Bool
  pub has_table-query :
      (p : Pointer) (w : git.World) → git.has_table (git.query_dispatch p w).0 ≡ git.has_table w
  pub has_table-register :
      (p : Pointer) (w : git.World) → git.has_table (git.register_interface p w).0 ≡ git.has_table w
  pub holds-query :
      (p : Pointer) (w : git.World) (k : ℕ) → holds (git.query_dispatch p w).0 k ≡ holds w k
  -- A failure gives the cookie 0, and success a new one that is not 0.
  pub failed-register :
      (p : Pointer) (w : git.World)
      → (git.register_interface p w).2 == 0 ≡ failed (git.register_interface p w).1
  pub new-register :
      (p : Pointer) (w : git.World)
      → failed (git.register_interface p w).1 ≡ false
      → holds w (git.register_interface p w).2 ≡ false
  pub holds-register :
      (p : Pointer) (w : git.World) (k : ℕ)
      → holds (git.register_interface p w).0 k ≡ (
          if failed (git.register_interface p w).1
          then holds w k
          else if k == (git.register_interface p w).2
          then true
          else holds w k)
  -- A cookie that the table holds can be revoked.
  pub holds-revoke :
      (j : ℕ) (w : git.World) (k : ℕ)
      → holds w j ≡ true
      → holds (git.revoke_interface j w).0 k ≡ (if k == j then false else holds w k)

module _ (git : Global) (laws : Laws git) where
  open laws use {holds}

  -- A sink that the table took in, and that is taken out.
  holds-revoke-register :
      (p : Pointer) (w : git.World) (k : ℕ)
      → failed (git.register_interface p w).1 ≡ false
      → let out = git.register_interface p w in
        holds (git.revoke_interface out.2 out.0).0 k ≡ holds w k
  holds-revoke-register p w k ok =
      let out = git.register_interface p w in
      let held : holds out.0 out.2 ≡ true = laws.holds-register p w out.2 ∙ ground (arith, ok) in
      grind (
        arith,
        laws.holds-revoke out.2 out.0 k held,
        laws.holds-register p w k,
        laws.new-register p w ok,
      )

  -- A sink that is constructed on memory that holds 0, and destroyed, leaves the global interface
  -- table with the cookies it held before, whether or not the client's sink could be registered.
  pub holds-destruct-construct :
      (underlying : Pointer) (w : git.World) (k : ℕ)
      → let made = construct git underlying 0 w in holds (destruct git made.1 made.0) k ≡ holds w k
  unfolding construct destruct create_global_sink remove_global_sink
  holds-destruct-construct underlying w k =
      let asked = git.query_dispatch underlying w in
      let out = git.register_interface asked.2 asked.0 in
      ground (
        arith,
        laws.has_table-query underlying w,
        laws.has_table-register asked.2 asked.0,
        laws.failed-register asked.2 asked.0,
        laws.holds-query underlying w k,
        laws.holds-register asked.2 asked.0 k,
        holds-revoke-register asked.2 asked.0 k,
      )
