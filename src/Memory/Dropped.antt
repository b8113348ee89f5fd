-- ===== src/Memory/Dropped.antt =====
-- The release of one reference, up to the destructor.
use axhost.Common.{
  ℕ, ◌-◌, ◌^◌, ◌<◌, ◌≡◌, refl, true, false, ◌==◌, List, [], ◌∷◌, ◌++◌, some, get_elem?, arith,
  Bool-cases, inl, inr,
}
use axhost.Unknown.{Object, decrement, release}
use axhost.Memory.{Address, members, Cell, Memory, set, Run, ok, store, drop}
use axhost.Memory.Counts.{occ, occ-append}
use axhost.Memory.Balance.{Balanced, owned-count, load-Lives, recounted, set-Balanced}

release_more :
    (o : Object)
    → o.deleted ≡ false
    → 1 < o.ref
    → o.ref < 2 ^ 32
    → (release o).1 ≡ record { ref = o.ref - 1; deleted = false }
unfolding release
release_more o d h s =
    let n : decrement o.ref ≡ o.ref - 1 = omega arith in rw n ground (arith, d, h)

release_last : (o : Object) → o.ref ≡ 1 → (release o).1 ≡ record { ref = 0; deleted = true }
unfolding release
release_last o h = let n : decrement o.ref ≡ 0 = omega arith in rw n refl

pub drop_more :
    (j : Address) (m : Memory) (c : Cell)
    → get_elem? m j ≡ some c
    → c.object.deleted ≡ false
    → 1 < c.object.ref
    → c.object.ref < 2 ^ 32
    → drop j m ≡ ok [] (set m j (recounted c (c.object.ref - 1) false))
unfolding drop store
drop_more j m c e d h s = rw (load-Lives j m c e d) rw (release_more c.object d h s) refl

pub drop_last :
    (j : Address) (m : Memory) (c : Cell)
    → get_elem? m j ≡ some c
    → c.object.deleted ≡ false
    → c.object.ref ≡ 1
    → drop j m ≡ ok (members c.kind) (set m j (recounted c 0 true))
unfolding drop store
drop_last j m c e d h = rw (load-Lives j m c e d) rw (release_last c.object h) refl

-- What a release of one reference does to one object: the last one deletes it, and its members'
-- references are released in turn.
pub data Dropped (j : Address) (m : Memory) (c : Cell) : Run (List Address) → Type 0 where
  more : 1 < c.object.ref → Dropped j m c (ok [] (set m j (recounted c (c.object.ref - 1) false)))
  last : c.object.ref ≡ 1 → Dropped j m c (ok (members c.kind) (set m j (recounted c 0 true)))

pub drop-Dropped :
    (n : ℕ) (owners : List Address) (m : Memory) (j : Address) (c : Cell)
    → get_elem? m j ≡ some c
    → Balanced n (j ∷ owners) m
    → Dropped j m c (drop j m)
drop-Dropped n owners m j c e b =
    let own : 0 < occ j (j ∷ owners) = ground arith in
    let counts = owned-count n (j ∷ owners) m j c b e own in
    let fits = b.room j c e in
    elim (Bool-cases (c.object.ref == 1)) [
      | inl one ↦
          let same : c.object.ref ≡ 1 = ground (arith, one) in
          rw (drop_last j m c e counts.0 same) (last same)
      | inr rest ↦
          let many : 1 < c.object.ref = ground (arith, rest, counts, own) in
          rw (drop_more j m c e counts.0 many (omega (arith, fits))) (more many)
    ]

pub more-Balanced :
    (n : ℕ) (owners : List Address) (m : Memory) (j : Address) (c : Cell)
    → get_elem? m j ≡ some c
    → c.object.deleted ≡ false
    → 1 < c.object.ref
    → Balanced n (j ∷ owners) m
    → Balanced n owners (set m j (recounted c (c.object.ref - 1) false))
more-Balanced n owners m j c e d h b =
    set-Balanced n n (j ∷ owners) owners m j c _ e (omega (arith, b.room j c e)) (omega arith)
      (λ i. ground (arith, d, h)) b

pub last-Balanced :
    (n : ℕ) (owners : List Address) (m : Memory) (j : Address) (c : Cell)
    → get_elem? m j ≡ some c
    → c.object.deleted ≡ false
    → c.object.ref ≡ 1
    → Balanced n (j ∷ owners) m
    → Balanced n (members c.kind ++ owners) (set m j (recounted c 0 true))
last-Balanced n owners m j c e d h b =
    set-Balanced n n (j ∷ owners) (members c.kind ++ owners) m j c _ e (omega (arith, b.room j c e))
      (omega arith) (λ i. ground (arith, d, h, occ-append i (members c.kind) owners)) b
