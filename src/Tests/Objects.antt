-- ===== src/Tests/Objects.antt =====
-- References and connections of the host's objects.
use axhost.Common.{ℕ, true, ◌≡◌, ◌+◌, List, [], ◌∷◌, refl, arith}
use axhost.Unknown.{derived, other, External, add_ref, release, query_interface, knows}
use axhost.Unknown.Counting.{
  Use, adds, releases, queries, serve, counting, held_after, serve-counting,
}

-- A query that succeeds, one that does not, and three releases.
abbrev uses : List Use
uses = adds ∷ queries true derived ∷ queries true other ∷ releases ∷ releases ∷ releases ∷ []

serve-counting_example : serve uses (counting 1) ≡ counting (held_after uses 1)
serve-counting_example = serve-counting uses 1 (omega arith) (
    (
      omega arith,
      omega arith,
      (
        omega arith,
        omega arith,
        (
          omega arith,
          omega arith,
          (omega arith, omega arith, (omega arith, omega arith, (omega arith, omega arith, tt))),
        ),
      ),
    ))

deleted_at_last : (serve uses (counting 1)).deleted ≡ true
unfolding serve add_ref release query_interface knows
deleted_at_last = refl

-- A control that counts connections by tens.
abbrev tens : External
tens = record {
  World = ℕ;
  add_connection = λ e r w. (w + 10, w + 10);
  release_connection = λ e r c w. (w, w);
  disconnect_object = λ w. 0;
}
