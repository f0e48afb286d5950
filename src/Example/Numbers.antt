-- ===== src/Example/Numbers.antt =====
-- The values of a message of the server, as SimpleGateway::DoUpdate reads them for one vehicle.
use ns3_cosim.Common.{
  false, ℕ, zero, suc, ◌+◌, ◌*◌, ◌^◌, ◌<◌, ◌≡◌, refl, sym, ap, ◌∙◌, Bool, List, [], ◌∷◌, ◌++◌, some,
  need, Bytes, ℤ, pos, length, get_elem?, done, done-injective, arith, All,
}
use ns3_cosim.Text.Decimal.{Reads}
use ns3_cosim.Mobility.{Mobility, do_get_position, do_get_velocity, moved_exactly}
use ns3_cosim.Server.{Node}
use ns3_cosim.Server.Message.{node_numbers, nodes_numbers, nodes_values, IsNode, values-Reads}
use ns3_cosim.SimpleGateway.{int_at, invalid_number}
use ns3_cosim.SimpleGateway.Effect.{IsDriven}

int_at-Reads :
    (zs : List ℤ) (ds : List Bytes) (i : ℕ) (z : ℤ)
    → Reads zs ds
    → get_elem? zs i ≡ some z
    → int_at ds i ≡ done z
unfolding int_at
int_at-Reads [] ds i z r h = cc
int_at-Reads (y ∷ zs) [] i z r h = absurd r
int_at-Reads (y ∷ zs) (d ∷ ds) zero z r h = ap (λ o. need o invalid_number) (r.0 ∙ h)
int_at-Reads (y ∷ zs) (d ∷ ds) (suc i) z r h = int_at-Reads zs ds i z r.1 h

get_elem?-append {ℓ} :
    {A : Type ℓ} (xs ys : List A) (k : ℕ) (z : A)
    → get_elem? xs k ≡ some z
    → get_elem? (xs ++ ys) k ≡ some z
get_elem?-append [] ys k z h = cc
get_elem?-append (x ∷ xs) ys zero z h = h
get_elem?-append (x ∷ xs) ys (suc k) z h = get_elem?-append xs ys k z h

pub some-same {ℓ} : {A : Type ℓ} (x y : A) → some x ≡ some y → x ≡ y
some-same x y e = cc

seven_more : (j k : ℕ) → suc j * 7 + k ≡ suc (suc (suc (suc (suc (suc (suc (j * 7 + k)))))))
seven_more j k = omega arith

-- The numbers of node `j` begin at 7 j.
get_elem?-nodes_numbers :
    (n j k : ℕ) (vs : List Node) (v : Node) (z : ℤ)
    → get_elem? vs j ≡ some v
    → get_elem? (node_numbers (n + j) v) k ≡ some z
    → get_elem? (nodes_numbers n vs) (j * 7 + k) ≡ some z
get_elem?-nodes_numbers n j k [] v z e h = cc
get_elem?-nodes_numbers n zero k (w ∷ vs) v z e h =
    let here : n + 0 ≡ n = omega arith in
    let first : 0 * 7 + k ≡ k = omega arith in
    ap (get_elem? (nodes_numbers n (w ∷ vs))) first
    ∙ get_elem?-append (node_numbers n w) (nodes_numbers (suc n) vs) k z (
        ap (λ u. get_elem? (node_numbers n u) k) (some-same w v e)
        ∙ ap (λ i. get_elem? (node_numbers i v) k) (sym here)
        ∙ h)
get_elem?-nodes_numbers n (suc j) k (w ∷ vs) v z e h =
    ap (get_elem? (nodes_numbers n (w ∷ vs))) (seven_more j k)
    ∙ get_elem?-nodes_numbers (suc n) j k vs v z e
        (ap (λ i. get_elem? (node_numbers i v) k) (omega arith) ∙ h)

module _ {Vector : Type 0} (differ : Vector → Vector → Bool) (vector : ℤ → ℤ → ℤ → Vector)
    (same : (a b : Vector) → differ a b ≡ false → a ≡ b) where
  -- Vehicle `i` is where the node is, with its velocity.
  pub record IsAt (i : ℕ) (v : Node) (m : Mobility Vector) : Type 0 where
    pub position : do_get_position differ m ≡ vector (pos v.position) (pos i) (pos 0)
    pub velocity : do_get_velocity differ m ≡ vector (pos v.velocity) (pos 0) (pos 0)

  module _ (j : ℕ) (vs : List Node) (v : Node) (small : length vs < 2 ^ 16) (nodes : All IsNode vs)
      (e : get_elem? vs j ≡ some v) where
    read :
        (k : ℕ) (y z : ℤ)
        → get_elem? (node_numbers (0 + j) v) k ≡ some z
        → int_at (nodes_values 0 vs) (j * 7 + k) ≡ done y
        → y ≡ z
    read k y z h d = done-injective (
        sym d
        ∙ int_at-Reads (nodes_numbers 0 vs) (nodes_values 0 vs) (j * 7 + k) z
            (values-Reads 0 vs (omega (arith, small)) nodes)
            (get_elem?-nodes_numbers 0 j k vs v z e h))

    pub IsDriven-IsAt :
        (m m' : Mobility Vector) → IsDriven differ vector (nodes_values 0 vs) j m m' → IsAt j v m'
    IsDriven-IsAt m m' d =
        let zeroth : j * 7 + 0 ≡ j * 7 = omega arith in
        let here : 0 + j ≡ j = omega arith in
        let px : d.px ≡ pos v.position =
          read 0 d.px _ refl (ap (int_at (nodes_values 0 vs)) zeroth ∙ d.at_px) in
        let py : d.py ≡ pos j = read 1 d.py _ refl d.at_py ∙ ap pos here in
        let pz : d.pz ≡ pos 0 = read 2 d.pz _ refl d.at_pz in
        let vx : d.vx ≡ pos v.velocity = read 3 d.vx _ refl d.at_vx in
        let vy : d.vy ≡ pos 0 = read 4 d.vy _ refl d.at_vy in
        let vz : d.vz ≡ pos 0 = read 5 d.vz _ refl d.at_vz in
        let (p, u) = moved_exactly differ (vector d.px d.py d.pz) (vector d.vx d.vy d.vz) m same in
        record {
          position = ap (do_get_position differ) d.driven ∙ p ∙ (λ i. vector (px i) (py i) (pz i));
          velocity = ap (do_get_velocity differ) d.driven ∙ u ∙ (λ i. vector (vx i) (vy i) (vz i));
        }
