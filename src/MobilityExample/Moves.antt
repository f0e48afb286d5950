-- ===== src/MobilityExample/Moves.antt =====
-- The nodes that UpdateMobility moves, and those that it leaves.
use ns3_cosim.Common.{
  Option, ℕ, zero, suc, ◌≡◌, ◌≢◌, refl, ap, ◌∙◌, Bool, false, List, [], ◌∷◌, some, none, ◌==◌,
  get_elem?, set, get_elem?-set_self, get_elem?-set_ne,
}
use ns3_cosim.Mobility.{Mobility}
use ns3_cosim.SimpleGateway.Moves.{some-bound}
use ns3_cosim.MobilityExample.{Call, update_mobility, stop_simulation, shift, shift_nodes}

-- One node, with the arguments of its calls of UpdateMobility.
pub record Group (Vector : Type 0) : Type 0 where
  pub index : ℕ
  pub delta : Vector
  pub period : ℕ

abbrev pub call_of : {Vector : Type 0} → Group Vector → Call Vector
call_of g = update_mobility (g.index ∷ []) g.delta g.delta g.period

abbrev pub is_for : {Vector : Type 0} → ℕ → Call Vector → Bool
is_for n (update_mobility (i ∷ is') p v t) = i == n
is_for n (update_mobility [] p v t) = false
is_for n stop_simulation = false

module _ {Vector : Type 0} (differ : Vector → Vector → Bool) (plus : Vector → Vector → Vector) where
  -- Moved `k` times.
  unfoldable pub shifted : ℕ → Vector → Mobility Vector → Mobility Vector
  shifted zero d m = m
  shifted (suc k) d m = shift differ plus d d (shifted k d m)

  pub shifted_other :
      (o : Group Vector) {n : ℕ}
      → o.index ≢ n
      → (ms : List (Mobility Vector))
      → get_elem? (shift_nodes differ plus (o.index ∷ []) o.delta o.delta ms) n ≡ get_elem? ms n
  unfolding shift_nodes
  shifted_other o {n} ne ms = go (get_elem? ms o.index)
    where
      go :
          (found : Option (Mobility Vector))
          → get_elem?
              (elim found [
                | none ↦ ms
                | some v ↦ set ms o.index (shift differ plus o.delta o.delta v)
              ])
              n
            ≡ get_elem? ms n
      go none = refl
      go (some v) = get_elem?-set_ne ms _ ne

  pub shifted_own :
      (o : Group Vector) (ms : List (Mobility Vector)) (v : Mobility Vector)
      → get_elem? ms o.index ≡ some v
      → get_elem? (shift_nodes differ plus (o.index ∷ []) o.delta o.delta ms) o.index
        ≡ some (shift differ plus o.delta o.delta v)
  unfolding shift_nodes
  shifted_own o ms v e =
      ap
        (λ found.
          get_elem?
            (elim found [
              | none ↦ ms
              | some v ↦ set ms o.index (shift differ plus o.delta o.delta v)
            ])
            o.index)
        e
      ∙ get_elem?-set_self ms o.index _ (some-bound ms o.index v e)
