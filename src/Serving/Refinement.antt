-- ===== src/Serving/Refinement.antt =====
-- A standalone host with its containers and clients behaves as the abstract host: its users are
-- the containers that live and the locks that are held.
use axhost.Common.{
  ℕ, ◌+◌, ◌<◌, ◌≡◌, true, false, refl, ap, sym, subst, inl, inr, [], ◌∷◌, Option, some, All, arith,
  Bool-cases,
}
use axhost.ClassSpec.{Uuid}
use axhost.Com.{Com, Laws}
use axhost.Runtime.{Runtime, standalone, acquired, released, timed_out, step}
use axhost.Container.{
  answers, Iid, Widget, Container, lock_server, add_server_reference_if,
  release_server_reference_if,
}
use axhost.Container.Creating.{
  create_instance-answers, create_instance_unavailable, create_instance-query_interface,
}
use axhost.Serving.{
  Server, create, keep, lock, time_out, Step, creates, drops, keeps, asks, locks, unlocks,
  times_out, Reach, here, next,
}
use axhost.Serving.Views.{
  passes, View, Move, runtime_view, Stays-Move, timed_out-Stays, acquired-Move, released-Move,
  acquired_released-Stays,
}
use axhost.Serving.Uses.{
  alive, live, IsSound, Inv, Moves, drop-Moves, keep-Inv, ask-Moves, released-count, acquired-count,
}

module _ (ole : Com) (laws : Laws ole) (widget : Widget) where
  -- A container that was made is added.
  add-Inv :
      (s : Server ole widget) (r : Runtime ole) (w : widget.World) (d : Container)
      → IsSound d
      → laws.count r.world ≡ laws.count s.runtime.world + alive d
      → Inv ole laws widget s
      → Inv ole laws widget (record s { runtime = r; control = w; containers = d ∷ s.containers })
  add-Inv s r w d sound_d same v = record {
    sound = (sound_d, v.sound);
    counted = omega (arith, v.counted, same);
  }

  twice-count :
      (r : Runtime ole)
      → laws.count (step ole standalone released (step ole standalone acquired r)).world
        ≡ laws.count r.world + 0
  twice-count r = omega (
    arith,
    released-count ole laws widget (step ole standalone acquired r),
    acquired-count ole laws widget r,
  )

  create-Moves :
      (s : Server ole widget) (riid : Iid) (clsid : Uuid) (clsctx : ℕ)
      → Inv ole laws widget s
      → Moves ole laws widget s (create ole widget riid clsid clsctx s)
  unfolding create add_server_reference_if release_server_reference_if
  create-Moves s riid clsid clsctx v =
      let r : Runtime ole = s.runtime in
      let rt : Option (Runtime ole) = some r in
      let away =
        Stays-Move ole laws r (step ole standalone released (step ole standalone acquired r))
          (acquired_released-Stays ole laws r) in
      elim (Bool-cases (widget.set_control clsid clsctx s.control).1) [
        | inr f ↦
            rw (create_instance_unavailable ole standalone widget riid clsid clsctx rt s.control f)
              (add-Inv s _ _ _ (inl refl) (twice-count r) v, away)
        | inl t ↦ elim (Bool-cases (answers riid)) [
          | inl own ↦
              rw
                (create_instance-answers ole standalone widget riid clsid clsctx rt s.control own t)
                (
                  add-Inv s _ _ _ (inr (omega arith)) (acquired-count ole laws widget r) v,
                  acquired-Move ole laws r,
                )
          | inr other ↦
              rw
                (create_instance-query_interface ole standalone widget riid clsid clsctx rt
                  s.control other t)
                (add-Inv s _ _ _ (inl refl) (twice-count r) v, away)
        ]
      ]

  lock-Moves :
      (s : Server ole widget)
      → Inv ole laws widget s
      → Moves ole laws widget s (lock ole widget true s)
  unfolding lock lock_server add_server_reference_if
  lock-Moves s v = (
    record {
      sound = v.sound;
      counted = omega (arith, acquired-count ole laws widget s.runtime, v.counted);
    },
    acquired-Move ole laws s.runtime,
  )

  unlock-Moves :
      (s : Server ole widget)
      → 0 < s.locks
      → Inv ole laws widget s
      → Moves ole laws widget s (lock ole widget false s)
  unfolding lock lock_server release_server_reference_if
  unlock-Moves s h v = (
    record {
      sound = v.sound;
      counted = omega (arith, released-count ole laws widget s.runtime, v.counted, h);
    },
    released-Move ole laws s.runtime (omega (arith, v.counted, h)),
  )

  time_out-count :
      (r : Runtime ole) → laws.count (step ole standalone timed_out r).world ≡ laws.count r.world
  time_out-count r = elim (timed_out-Stays ole laws r) [
    | inl h ↦ ap (λ v. v.users) h
    | inr h ↦ ap (λ v. v.users) h.1
  ]

  time_out-Moves :
      (s : Server ole widget)
      → Inv ole laws widget s
      → Moves ole laws widget s (time_out ole widget s)
  unfolding time_out
  time_out-Moves s v = (
    record { sound = v.sound; counted = omega (arith, time_out-count s.runtime, v.counted) },
    Stays-Move ole laws s.runtime (step ole standalone timed_out s.runtime)
        (timed_out-Stays ole laws s.runtime),
  )

  pub Step-Moves :
      {s t : Server ole widget}
      → Step ole widget s t
      → Inv ole laws widget s
      → Moves ole laws widget s t
  Step-Moves (creates s riid clsid clsctx) v = create-Moves s riid clsid clsctx v
  Step-Moves (drops s i c e d) v = drop-Moves ole laws widget s i c e d v
  Step-Moves (keeps s i c e d h) v =
      unfold keep in (keep-Inv ole laws widget s s.control i c e d h v, passes _)
  Step-Moves (asks s i riid c e d h) v = ask-Moves ole laws widget s i riid c e d h v
  Step-Moves (locks s) v = lock-Moves s v
  Step-Moves (unlocks s h) v = unlock-Moves s h v
  Step-Moves (times_out s) v = time_out-Moves s v

  -- A host that nobody has used yet.
  abbrev pub IsFresh : Server ole widget → Type 0
  IsFresh s = (s.containers ≡ []) × (s.locks ≡ 0) × (laws.count s.runtime.world ≡ 0)

  fresh-Inv : (s : Server ole widget) → IsFresh s → Inv ole laws widget s
  fresh-Inv s h = record {
    sound = subst (All IsSound) (sym h.0) tt;
    counted = omega (arith, h.1, h.2, ap live h.0);
  }

  pub Reach-Inv :
      {s t : Server ole widget} → IsFresh s → Reach ole widget s t → Inv ole laws widget t
  Reach-Inv {s} h here = fresh-Inv s h
  Reach-Inv h (next r st) = (Step-Moves st (Reach-Inv h r)).0

  -- What the host shows: its users are the containers that live and the locks that are held.
  abbrev pub server_view : Server ole widget → View
  server_view s = record (runtime_view ole laws s.runtime) { users = live s.containers + s.locks }

  pub server_view_lem :
      (s : Server ole widget)
      → Inv ole laws widget s
      → server_view s ≡ runtime_view ole laws s.runtime
  server_view_lem s v = ground (arith, v.counted)

  -- In every state that a fresh standalone host reaches while its clients unlock only what they
  -- locked, use only containers that were not deleted, and hold fewer than 2^32 references of each,
  -- and whenever the timer runs out: the process has as many references as containers live and
  -- locks are held, and each container that lives has a count between 1 and 2^32 - 1.
  pub Reach-counted :
      {s t : Server ole widget}
      → IsFresh s
      → Reach ole widget s t
      → (laws.count t.runtime.world ≡ live t.containers + t.locks) × All IsSound t.containers
  Reach-counted h r = let v = Reach-Inv h r in (v.counted, v.sound)

  -- Refinement: each step of a host that a fresh one reaches is a move of the abstract host: a
  -- user comes; a user goes, and the exit is queued if it was the last and the host does not
  -- stay unused; nothing changes; or an exit is queued while there are no users.
  pub Step-Move :
      {s t u : Server ole widget}
      → IsFresh s
      → Reach ole widget s t
      → Step ole widget t u
      → Move (server_view t) (server_view u)
  Step-Move {s} {t} {u} h r st =
      let v = Reach-Inv h r in
      let moved = Step-Moves st v in rw (server_view_lem t v) rw (server_view_lem u moved.0) moved.1
