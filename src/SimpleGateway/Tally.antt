-- ===== src/SimpleGateway/Tally.antt =====
-- How many broadcasts each vehicle has received, as the list of counts in m_count.
use ns3_cosim.Common.{
  ℕ, zero, suc, ◌+◌, ◌%◌, ◌^◌, ◌<◌, ◌≡◌, refl, ap, true, false, List, [], ◌∷◌, some, ◌==◌, ==_iff,
  length, set, get_elem?, replicate, arith,
}
use ns3_cosim.SimpleGateway.Counts.{occurrences}

-- What each of `left` vehicles, from `i` on, has received, as a uint16_t.
unfoldable pub tally : ℕ → ℕ → List ℕ → List ℕ
tally zero i ids = []
tally (suc left) i ids = occurrences i ids % 2 ^ 16 ∷ tally left (suc i) ids

pub tally_none : (left i : ℕ) → tally left i [] ≡ replicate left 0
unfolding tally occurrences
tally_none zero i = refl
tally_none (suc left) i = ap (λ l. 0 ∷ l) (tally_none left (suc i))

pub length-tally : (left i : ℕ) (ids : List ℕ) → length (tally left i ids) ≡ left
unfolding tally
length-tally zero i ids = refl
length-tally (suc left) i ids = ap suc (length-tally left (suc i) ids)

tally_before : (left i j : ℕ) (ids : List ℕ) → j < i → tally left i (j ∷ ids) ≡ tally left i ids
unfolding tally occurrences
tally_before zero i j ids l = refl
tally_before (suc left) i j ids l =
    rw (differs, tally_before left (suc i) j ids (omega (arith, l))) refl
  where
    differs : j == i ≡ false
    differs = ground (arith, l)

pub get_elem?-tally :
    (left i k j : ℕ) (ids : List ℕ)
    → i + k ≡ j
    → k < left
    → get_elem? (tally left i ids) k ≡ some (occurrences j ids % 2 ^ 16)
unfolding tally
get_elem?-tally zero i k j ids e l = absurd (omega (arith, l))
get_elem?-tally (suc left) i zero j ids e l =
    ap (λ n. some (occurrences n ids % 2 ^ 16)) (omega (arith, e))
get_elem?-tally (suc left) i (suc k) j ids e l =
    get_elem?-tally left (suc i) k j ids (omega (arith, e)) (omega (arith, l))

one_more : (c : ℕ) → (c % 2 ^ 16 + 1) % 2 ^ 16 ≡ suc c % 2 ^ 16
one_more c = omega arith

occurrences_self : (j : ℕ) (ids : List ℕ) → occurrences j (j ∷ ids) ≡ suc (occurrences j ids)
unfolding occurrences
occurrences_self j ids = rw same refl
  where
    same : j == j ≡ true
    same = (==_iff j j).1 refl

occurrences_other : (i j : ℕ) (ids : List ℕ) → i < j → occurrences i (j ∷ ids) ≡ occurrences i ids
unfolding occurrences
occurrences_other i j ids l = rw other refl
  where
    other : j == i ≡ false
    other = ground (arith, l)

-- One more broadcast, to the vehicle `j` at index `k`.
pub set-tally :
    (left i k j : ℕ) (ids : List ℕ)
    → i + k ≡ j
    → set (tally left i ids) k ((occurrences j ids % 2 ^ 16 + 1) % 2 ^ 16) ≡ tally left i (j ∷ ids)
unfolding tally
set-tally zero i k j ids e = refl
set-tally (suc left) i zero j ids e =
    let here : i ≡ j = omega (arith, e) in
    rw
      (
        here,
        one_more (occurrences j ids),
        occurrences_self j ids,
        tally_before left (suc j) j ids (omega arith),
      )
      refl
set-tally (suc left) i (suc k) j ids e =
    rw
      (
        occurrences_other i j ids (omega (arith, e)),
        set-tally left (suc i) k j ids (omega (arith, e)),
      )
      refl
