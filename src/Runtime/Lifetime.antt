-- ===== src/Runtime/Lifetime.antt =====
-- When the process exits.
use axhost.Common.{
  ℕ, ◌+◌, ◌-◌, true, false, not, ◌&&◌, ◌||◌, leb, ◌≡◌, ◌≢◌, ◌⊎◌, inl, refl, List, [], ◌∷◌, ◌++◌,
  arith, All, ◌∙◌,
}
use axhost.Com.{Com, Laws}
use axhost.Runtime.{
  Runtime, start, idle_timeout, exit_application_later, check_for_exit_later, warn_idle,
  check_for_exit, add_server_reference, release_server_reference, Mode, surrogate, standalone,
  Event, acquired, released, timed_out, step, run,
}

module _ (ole : Com) where
  -- The process is about to exit, or the timer that checks for it runs.
  abbrev pub IsWatched : Runtime ole → Type 0
  IsWatched r = (r.exiting ≡ true) ⊎ (r.armed ≡ true)

  check_for_exit-IsWatched : (r : Runtime ole) → IsWatched (check_for_exit ole r)
  unfolding check_for_exit exit_application_later check_for_exit_later
  check_for_exit-IsWatched r = ground arith

  release-IsWatched : (r : Runtime ole) → IsWatched r → IsWatched (release_server_reference ole r)
  unfolding release_server_reference exit_application_later check_for_exit_later
  release-IsWatched r h = ground arith

  step-IsWatched :
      (mode : Mode) (e : Event) (r : Runtime ole) → IsWatched r → IsWatched (step ole mode e r)
  unfolding step
  step-IsWatched surrogate acquired r h = h
  step-IsWatched surrogate released r h = h
  step-IsWatched surrogate timed_out r h = ground (arith, check_for_exit-IsWatched r)
  step-IsWatched standalone acquired r h = unfold add_server_reference in h
  step-IsWatched standalone released r h = release-IsWatched r h
  step-IsWatched standalone timed_out r h = ground (arith, check_for_exit-IsWatched r)

  pub run-IsWatched :
      (mode : Mode) (events : List Event) (r : Runtime ole)
      → IsWatched r
      → IsWatched (run ole mode events r)
  unfolding run
  run-IsWatched mode [] r h = h
  run-IsWatched mode (e ∷ events) r h =
      run-IsWatched mode events (step ole mode e r) (step-IsWatched mode e r h)

  -- The idle warning was not shown, or it is all that was shown.
  abbrev pub WarnedOnce : Runtime ole → Type 0
  WarnedOnce r =
      ((r.warned_idle ≡ false) × (r.notices ≡ []))
      ⊎ ((r.warned_idle ≡ true) × (r.notices ≡ idle_timeout ∷ []))

  check_for_exit-WarnedOnce : (r : Runtime ole) → WarnedOnce r → WarnedOnce (check_for_exit ole r)
  unfolding check_for_exit exit_application_later check_for_exit_later warn_idle
  check_for_exit-WarnedOnce r h = ground arith

  release-WarnedOnce :
      (r : Runtime ole) → WarnedOnce r → WarnedOnce (release_server_reference ole r)
  unfolding release_server_reference exit_application_later check_for_exit_later
  release-WarnedOnce r h = ground arith

  step-WarnedOnce :
      (mode : Mode) (e : Event) (r : Runtime ole) → WarnedOnce r → WarnedOnce (step ole mode e r)
  unfolding step
  step-WarnedOnce surrogate acquired r h = h
  step-WarnedOnce surrogate released r h = h
  step-WarnedOnce surrogate timed_out r h = ground (arith, check_for_exit-WarnedOnce r h)
  step-WarnedOnce standalone acquired r h = unfold add_server_reference in h
  step-WarnedOnce standalone released r h = release-WarnedOnce r h
  step-WarnedOnce standalone timed_out r h = ground (arith, check_for_exit-WarnedOnce r h)

  run-WarnedOnce :
      (mode : Mode) (events : List Event) (r : Runtime ole)
      → WarnedOnce r
      → WarnedOnce (run ole mode events r)
  unfolding run
  run-WarnedOnce mode [] r h = h
  run-WarnedOnce mode (e ∷ events) r h =
      run-WarnedOnce mode events (step ole mode e r) (step-WarnedOnce mode e r h)

  -- However often the exit timer fires, the idle warning is shown at most once, and nothing else.
  pub run-start-WarnedOnce :
      (mode : Mode) (events : List Event) (w : ole.World)
      → WarnedOnce (run ole mode events (start ole w))
  run-start-WarnedOnce mode events w =
      run-WarnedOnce mode events _ (unfold start in inl (refl, refl))

-- The references that a history leaves, from `n` on.
abbrev pub held : List Event → ℕ → ℕ
held [] n = n
held (acquired ∷ events) n = held events (n + 1)
held (released ∷ events) n = held events (n - 1)
held (timed_out ∷ events) n = held events n

module _ (ole : Com) (laws : Laws ole) where
  open laws use {count, count-add_ref, result-add_ref, count-release, result-release}

  check_for_exit-count : (r : Runtime ole) → count (check_for_exit ole r).world ≡ count r.world
  unfolding check_for_exit exit_application_later check_for_exit_later warn_idle
  check_for_exit-count r =
      ground (arith, count-add_ref r.world, count-release (ole.add_ref_server_process r.world).0)

  release-count :
      (r : Runtime ole) → count (release_server_reference ole r).world ≡ count r.world - 1
  unfolding release_server_reference exit_application_later check_for_exit_later
  release-count r = ground (arith, count-release r.world)

  step-held :
      (e : Event) (events : List Event) (r : Runtime ole)
      → held events (count (step ole standalone e r).world) ≡ held (e ∷ events) (count r.world)
  unfolding step
  step-held acquired events r = unfold add_server_reference in rw count-add_ref
  step-held released events r = rw release-count
  step-held timed_out events r = ground (arith, check_for_exit-count r)

  -- In standalone mode the process has as many references as its history leaves.
  pub run-held :
      (events : List Event) (r : Runtime ole)
      → count (run ole standalone events r).world ≡ held events (count r.world)
  unfolding run
  run-held [] r = refl
  run-held (e ∷ events) r = run-held events (step ole standalone e r) ∙ step-held e events r

  check_for_exit-starts :
      (r : Runtime ole)
      → r.exiting ≡ false
      → (check_for_exit ole r).exiting ≡ true
      → count (check_for_exit ole r).world ≡ 0
  unfolding check_for_exit exit_application_later check_for_exit_later warn_idle
  check_for_exit-starts r h k = ground (
    arith,
    count-add_ref r.world,
    count-release (ole.add_ref_server_process r.world).0,
    result-release (ole.add_ref_server_process r.world).0,
  )

  release-starts :
      (r : Runtime ole)
      → r.exiting ≡ false
      → (release_server_reference ole r).exiting ≡ true
      → count (release_server_reference ole r).world ≡ 0
  unfolding release_server_reference exit_application_later check_for_exit_later
  release-starts r h k = ground (arith, count-release r.world, result-release r.world)

  -- In either mode, the host queues an exit only where the process has no references left.
  pub step-starts :
      (mode : Mode) (e : Event) (r : Runtime ole)
      → r.exiting ≡ false
      → (step ole mode e r).exiting ≡ true
      → count (step ole mode e r).world ≡ 0
  unfolding step
  step-starts surrogate acquired r h k = cc
  step-starts surrogate released r h k = cc
  step-starts surrogate timed_out r h k = ground (arith, check_for_exit-starts r h)
  step-starts standalone acquired r h k = unfold add_server_reference in cc
  step-starts standalone released r h k = release-starts r h k
  step-starts standalone timed_out r h k = ground (arith, check_for_exit-starts r h)

  -- A released reference ends a single-use host exactly when it was the last; a multiple-use host
  -- goes on, with the exit timer running.
  pub release_server_reference-exiting :
      (r : Runtime ole)
      → let after = release_server_reference ole r in
        (after.exiting ≡ (r.exiting || (leb (count r.world) 1 && not r.has_multiple_use)))
        × (after.armed ≡ (r.armed || (leb (count r.world) 1 && r.has_multiple_use)))
  unfolding release_server_reference exit_application_later check_for_exit_later
  release_server_reference-exiting r = ground (arith, result-release r.world)

-- Events without the timer.
abbrev pub NoTimeout : List Event → Type 0
NoTimeout = All (λ e. e ≢ timed_out)

module _ (ole : Com) (laws : Laws ole) where
  run_surrogate :
      (events rest : List Event) (r : Runtime ole)
      → NoTimeout events
      → run ole surrogate (events ++ rest) r ≡ run ole surrogate rest r
  unfolding run step
  run_surrogate [] rest r h = refl
  run_surrogate (acquired ∷ events) rest r h = run_surrogate events rest r h.1
  run_surrogate (released ∷ events) rest r h = run_surrogate events rest r h.1
  run_surrogate (timed_out ∷ events) rest r h = absurd (h.0 refl)

  first_timeout :
      (w : ole.World)
      → laws.count w ≡ 0
      → let r = step ole surrogate timed_out (start ole w) in
        (r.exiting ≡ true) × (r.notices ≡ idle_timeout ∷ [])
  unfolding step start check_for_exit exit_application_later check_for_exit_later warn_idle
  first_timeout w n =
      ground (arith, laws.count-add_ref w, laws.result-release (ole.add_ref_server_process w).0)

  -- The bug: in surrogate mode the host counts no references of its own, so at the first timeout
  -- it warns that nothing used it and exits, however many objects its clients hold.
  pub surrogate_ignores_references :
      (events : List Event) (w : ole.World)
      → NoTimeout events
      → laws.count w ≡ 0
      → let r = run ole surrogate (events ++ timed_out ∷ []) (start ole w) in
        (r.exiting ≡ true) × (r.notices ≡ idle_timeout ∷ [])
  surrogate_ignores_references events w h n =
      rw (run_surrogate events (timed_out ∷ []) (start ole w) h) (unfold run in first_timeout w n)
