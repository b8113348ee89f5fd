-- ===== src/Sink/Waiting.antt =====
-- When a call of a sink returns.
use axhost.Common.{
  ℕ, Bool, true, false, ◌||◌, ◌==◌, ◌≡◌, ◌≢◌, refl, List, [], ◌∷◌, ◌++◌, none, some, All, arith,
}
use axhost.Common.Hresult.{failed, e_unexpected}
use axhost.Sink.{Global, Wake, wait_loop, invoke_in_thread, invoke}

-- A return for another reason than the event, such as a message.
abbrev pub Other : Wake → Type 0
Other wake = (failed wake.hr ≡ false) × (wake.index ≢ 0)

wait_loop-others :
    (result : ℕ) (wakes rest : List Wake)
    → All Other wakes
    → wait_loop result (wakes ++ rest) ≡ wait_loop result rest
unfolding wait_loop
wait_loop-others result [] rest h = refl
wait_loop-others result (wake ∷ wakes) rest h =
    ground (arith, wait_loop-others result wakes rest h.1)

wait_loop-silent :
    (result : ℕ) (wakes : List Wake) → All Other wakes → wait_loop result wakes ≡ none
unfolding wait_loop
wait_loop-silent result [] h = refl
wait_loop-silent result (wake ∷ wakes) h = ground (arith, wait_loop-silent result wakes h.1)

module _ (git : Global) (wakes : Bool → List Wake) (member cookie : ℕ) (w : git.World) where
  -- The client's sink cannot be reached from the thread.
  abbrev pub Unreachable : Type 0
  Unreachable = let got = git.get_interface cookie w in (failed got.1 || got.2 == 0) ≡ true

  -- A call of a sink whose client's sink is reached from the thread returns what the client's
  -- sink returns, however many other returns of the wait come before that of the event.
  pub invoke-returns :
      (others rest : List Wake) (last : Wake)
      → cookie ≢ 0
      → let got = git.get_interface cookie w in
        (failed got.1 || got.2 == 0) ≡ false
        → wakes true ≡ others ++ last ∷ rest
        → All Other others
        → failed last.hr ≡ false
        → last.index ≡ 0
        → invoke git true true wakes member cookie w
          ≡ (let called = git.invoke got.2 member got.0 in (called.0, some called.1))
  unfolding invoke invoke_in_thread wait_loop
  invoke-returns others rest last there reached given o ok zero_index =
      let got = git.get_interface cookie w in
      let called = git.invoke got.2 member got.0 in
      ground (arith, wait_loop-others called.1 others (last ∷ rest) o)

  -- A call of a sink whose client's sink cannot be reached from the thread, which then does not
  -- set the event, is still waiting after any number of returns of the wait for other reasons.
  pub invoke-waits :
      cookie ≢ 0
      → Unreachable
      → All Other (wakes false)
      → (invoke git true true wakes member cookie w).1 ≡ none
  unfolding invoke invoke_in_thread
  invoke-waits there h o =
      let got = git.get_interface cookie w in
      ground (
        arith,
        wait_loop-silent got.1 (wakes false) o,
        wait_loop-silent e_unexpected (wakes false) o,
      )
