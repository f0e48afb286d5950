-- ===== src/Example/Placed.antt =====
-- The server of examples/simple-gateway-server.cc and the program of examples/simple-gateway.cc
-- together: the nodes of the one and the vehicles of the other.
use ns3_cosim.Common.{false, ℕ, suc, ◌≡◌, Bool, List, [], ◌∷◌, Bytes, ℤ}
use ns3_cosim.Simulator.{Simulator}
use ns3_cosim.Mobility.{Mobility}
use ns3_cosim.Server.{Node, Server}
use ns3_cosim.Server.Message.{nodes_values}
use ns3_cosim.SimpleGateway.{SimpleGateway}
use ns3_cosim.Example.Driven.{Driven}
use ns3_cosim.Example.Numbers.{IsAt}

-- The values of the messages, and the nodes in the last one.
abbrev pub values_all : List (List Node) → List (List Bytes)
values_all [] = []
values_all (vs ∷ vss) = nodes_values 0 vs ∷ values_all vss

abbrev pub final : List Node → List (List Node) → List Node
final vs [] = vs
final vs (ws ∷ wss) = final ws wss

module _ {Vector : Type 0} (differ : Vector → Vector → Bool) (vector : ℤ → ℤ → ℤ → Vector)
    (same : (a b : Vector) → differ a b ≡ false → a ≡ b) where
  -- The vehicles from `i` on are where the nodes are, with their velocities.
  abbrev pub Placed : ℕ → List Node → List (Mobility Vector) → Type 0
  Placed i [] [] = Unit {0}
  Placed i (v ∷ vs) (m ∷ ms) = IsAt differ vector same i v m × Placed (suc i) vs ms
  Placed i [] (m ∷ ms) = ⊥
  Placed i (v ∷ vs) [] = ⊥
