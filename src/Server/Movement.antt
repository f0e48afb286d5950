-- ===== src/Server/Movement.antt =====
-- How the server moves the nodes.
use ns3_cosim.Common.{
  ℕ, ◌+◌, ◌%◌, ◌^◌, ◌≤◌, ◌<◌, ◌≡◌, ◌≢◌, refl, false, List, [], ◌∷◌, ◌==◌, arith, All, done,
}
use native.Mathlib.Nat.{mod-lt}
use ns3_cosim.Server.{Node, Config, move_node, move_nodes}
use ns3_cosim.Server.Message.{IsNode}

-- A node moves by its new velocity, between 1 and the largest one; a uint16_t wraps around.
pub record Moves (c : Config) (i : ℕ) (v w : Node) : Type 0 where
  pub forward : 1 ≤ w.velocity
  pub within : w.velocity ≤ c.position_delta
  pub position : w.position ≡ (v.position + w.velocity) % 2 ^ 16
  pub broadcast : w.broadcast ≤ 1
  pub silent : i % 5 ≢ 0 → w.broadcast ≡ 0

abbrev pub MovesAll : Config → ℕ → List Node → List Node → Type 0
MovesAll c i [] [] = Unit {0}
MovesAll c i (v ∷ vs) (w ∷ ws) = Moves c i v w × MovesAll c i vs ws
MovesAll c i [] (w ∷ ws) = ⊥
MovesAll c i (v ∷ vs) [] = ⊥

module _ {Rand : Type 0} (rand : Rand → ℕ × Rand) (c : Config) where
  move_node-Moves :
      (i : ℕ) (v : Node) (g : Rand)
      → 0 < c.position_delta
      → c.position_delta < 2 ^ 16
      → Moves c i v (move_node rand c i v g).0 × IsNode (move_node rand c i v g).0
  move_node-Moves i v g p l =
      let drawn = mod-lt (rand g).0 p in
      let moved = move_node rand c i v g in
      let velocity : moved.0.velocity ≡ (rand g).0 % c.position_delta + 1 =
        omega (arith, drawn, l) in
      (
        record {
          forward = omega (arith, velocity);
          within = omega (arith, velocity, drawn);
          position = refl;
          broadcast = ground arith;
          silent = λ ne. ground arith;
        },
        record {
          velocity = omega (arith, velocity, drawn, l);
          position = omega arith;
          broadcast = ground arith;
        },
      )

  pub move_nodes-MovesAll :
      (i : ℕ) (vs : List Node) (g : Rand)
      → 0 < c.position_delta
      → c.position_delta < 2 ^ 16
      → (ws : List Node) × (g' : Rand) × (move_nodes rand c i vs g ≡ done (ws, g'))
        × MovesAll c i vs ws
        × All IsNode ws
  unfolding move_nodes
  move_nodes-MovesAll i [] g p l = ([], g, refl, tt, tt)
  move_nodes-MovesAll i (v ∷ vs) g p l =
      let nonzero : (c.position_delta == 0) ≡ false = ground arith in
      let moved = move_node rand c i v g in
      let (ws, g', e, m, h) = move_nodes-MovesAll i vs moved.1 p l in
      let (m0, h0) = move_node-Moves i v g p l in
      (moved.0 ∷ ws, g', rw (nonzero, e) refl, (m0, m), (h0, h))
