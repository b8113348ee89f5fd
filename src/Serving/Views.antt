-- ===== src/Serving/Views.antt =====
-- What a runtime shows to the clients of its process, and how its calls move it.
use axhost.Common.{
  ℕ, ◌+◌, ◌-◌, ◌≡◌, Bool, true, not, ◌&&◌, ◌||◌, ◌==◌, refl, sym, subst, ◌<◌, ◌⊎◌, inl, inr, arith,
}
use axhost.Com.{Com, Laws}
use axhost.Runtime.{
  Runtime, standalone, acquired, released, timed_out, step, add_server_reference,
  release_server_reference, check_for_exit, warn_idle, exit_application_later, check_for_exit_later,
}

-- How many use the process, whether its exit is queued, and whether it stays for further clients.
pub record View : Type 0 where
  pub users : ℕ
  pub exiting : Bool
  pub stays_unused : Bool

-- The abstract host: users come and go; when the last goes from a host that does not stay unused,
-- the exit is queued; else it is queued only while there are no users.
pub data Move : View → View → Type 0 where
  comes : (v : View) → Move v (record v { users = v.users + 1 })
  goes :
      (v w : View)
      → v.users ≡ w.users + 1
      → w.exiting ≡ (v.exiting || (w.users == 0 && not v.stays_unused))
      → w.stays_unused ≡ v.stays_unused
      → Move v w
  passes : (v : View) → Move v v
  ends : (v : View) → v.users ≡ 0 → Move v (record v { exiting = true })

module _ (ole : Com) (laws : Laws ole) where
  open laws use {count, count-add_ref, count-release, result-release}

  abbrev pub runtime_view : Runtime ole → View
  runtime_view r = record {
    users = count r.world;
    exiting = r.exiting;
    stays_unused = r.has_multiple_use;
  }

  pub acquired-view :
      (r : Runtime ole)
      → runtime_view (step ole standalone acquired r)
        ≡ record (runtime_view r) { users = count r.world + 1 }
  unfolding step add_server_reference
  acquired-view r = ground (arith, count-add_ref r.world)

  pub released-view :
      (r : Runtime ole)
      → runtime_view (step ole standalone released r) ≡ record (runtime_view r) {
        users = count r.world - 1;
        exiting = r.exiting || (count r.world - 1 == 0 && not r.has_multiple_use);
      }
  unfolding step release_server_reference exit_application_later check_for_exit_later
  released-view r = ground (arith, count-release r.world, result-release r.world)

  -- Nobody came or went.
  abbrev pub Stays : Runtime ole → Runtime ole → Type 0
  Stays r r' =
      (runtime_view r' ≡ runtime_view r)
      ⊎ ((count r.world ≡ 0) × (runtime_view r' ≡ record (runtime_view r) { exiting = true }))

  pub timed_out-Stays : (r : Runtime ole) → Stays r (step ole standalone timed_out r)
  unfolding step check_for_exit warn_idle exit_application_later check_for_exit_later
  timed_out-Stays r = ground (
    arith,
    count-add_ref r.world,
    count-release (ole.add_ref_server_process r.world).0,
    result-release (ole.add_ref_server_process r.world).0,
  )

  pub Stays-Move : (r r' : Runtime ole) → Stays r r' → Move (runtime_view r) (runtime_view r')
  Stays-Move r r' (inl h) = subst (Move (runtime_view r)) (sym h) (passes (runtime_view r))
  Stays-Move r r' (inr h) = subst (Move (runtime_view r)) (sym h.1) (ends (runtime_view r) h.0)

  pub acquired-Move :
      (r : Runtime ole) → Move (runtime_view r) (runtime_view (step ole standalone acquired r))
  acquired-Move r = subst (Move (runtime_view r)) (sym (acquired-view r)) (comes (runtime_view r))

  pub released-Move :
      (r : Runtime ole)
      → 0 < count r.world
      → Move (runtime_view r) (runtime_view (step ole standalone released r))
  released-Move r h =
      let w = released-view r in
      subst (Move (runtime_view r)) (sym w) (goes (runtime_view r) _ (omega arith) refl refl)

  -- A user that comes and goes at once.
  pub acquired_released-Stays :
      (r : Runtime ole) → Stays r (step ole standalone released (step ole standalone acquired r))
  acquired_released-Stays r =
      let r1 = step ole standalone acquired r in ground (arith, acquired-view r, released-view r1)
