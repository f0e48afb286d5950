-- ===== src/Server/Tests/Driven/Vehicles.antt =====
-- A run in which the server and the program answer each other, with one node and one vehicle that
-- broadcasts.

use ns3_cosim.Common.{
  ℕ, zero, suc, ◌+◌, ◌≡◌, ◌≢◌, refl, List, [], ◌∷◌, ◌++◌, codes, arith, Bool, false, not, ◌&&◌,
  ◌==◌, none, some, done, ℤ, pos_part, Bytes,
}
use ns3_cosim.Text.Number.{to_string}
use ns3_cosim.Simulator.Clock.{Clock}
use ns3_cosim.Gateway.{Call, World, ok, Action, stop}
use ns3_cosim.Gateway.Handlers.{execute}
use ns3_cosim.CoSim.{
  System, received, run_thread, initial, taken, thread, event, Reach, start, later,
}
use ns3_cosim.CoSim.Tests.{
  simulator, fresh_world, fresh_world-IsFresh, network, connected_world, connects,
}
use ns3_cosim.Mobility.{new}
use ns3_cosim.SimpleGateway.{SimpleGateway}
use ns3_cosim.Example.{Runs, Performs}
use ns3_cosim.Server.{Node, Server, next_message, terminate_message, move_nodes, run_server}
use ns3_cosim.Server.Message.{crlf, nodes_values}
use ns3_cosim.Server.Tests.{config, sockets, replies, first_message}
use ns3_cosim.Server.Tests.Driven.{after}

abbrev pub Vector : Type 0
Vector = ℕ × ℕ × ℕ

abbrev pub vector : ℤ → ℤ → ℤ → Vector
vector x y z = (pos_part x, pos_part y, pos_part z)

abbrev pub differ : Vector → Vector → Bool
differ (a, b, c) (x, y, z) = not (a == x && b == y && c == z)

same_part :
    (a b c x y z : ℕ) → not (a == x && b == y && c == z) ≡ false → (a ≡ x) × (b ≡ y) × (c ≡ z)
same_part a b c x y z h = ground arith

pub same : (a b : Vector) → differ a b ≡ false → a ≡ b
same (a, b, c) (x, y, z) h = let (p, q, r) = same_part a b c x y z h in cc (p, q, r)

-- std::rand gives 8 every time, so the node is told to broadcast.
abbrev pub eights : ℕ → ℕ × ℕ
eights drawn = (8, drawn + 1)

abbrev pub moved_on : Node
moved_on = record { velocity = 9; position = 9; broadcast = 1 }

abbrev pub broadcast_message : Bytes
broadcast_message = codes "7 0 9 0 0 9 0 0 1"

abbrev pub telling : Server ℕ
telling = record {
  nodes = moved_on ∷ [];
  rand_state = 2;
  sent = (first_message ++ crlf) ∷ (broadcast_message ++ crlf) ∷ terminate_message ∷ [];
}

pub tells : run_server eights config sockets replies 0 ≡ done telling
unfolding run_server next_message to_string move_nodes
tells = refl

abbrev pub moved_values : List Bytes
moved_values = nodes_values 0 (moved_on ∷ [])

abbrev pub vehicle : SimpleGateway Vector
vehicle = record {
  gateway = connected_world.gateway;
  vehicles = new (0, 0, 0) ∷ [];
  counts = 0 ∷ [];
  sends = [];
  sent = [];
}

-- A run of the program that ends in `s`, with the derived class `v`.
abbrev pub Program : SimpleGateway Vector → System (Clock Call) → Type 0
Program v s = (r : Reach simulator s) × Runs differ vector simulator vehicle r v

pub begins : Program vehicle (initial simulator connected_world)
unfolding Runs
begins = (start network fresh_world connected_world fresh_world-IsFresh connects, refl)

abbrev pub threads : ℕ → Bytes → System (Clock Call) → System (Clock Call)
threads zero bytes s = s
threads (suc n) bytes s = threads n bytes (run_thread simulator (received bytes) s)

pub threads-Program :
    (n : ℕ) (bytes : Bytes) (v : SimpleGateway Vector) (s : System (Clock Call))
    → Program v s
    → Program v (threads n bytes s)
unfolding Runs
threads-Program zero bytes v s p = p
threads-Program (suc n) bytes v s (r, h) =
    threads-Program n bytes v (run_thread simulator (received bytes) s)
      (later r (thread (received bytes)), (v, h, refl))

pub event-Program :
    (c : Call) (actions : List Action) (sim : Clock Call) (w : World (Clock Call))
    (s : System (Clock Call)) (v v' : SimpleGateway Vector)
    → c ≢ stop
    → s.joining ≡ none
    → simulator.next s.sim ≡ some (c, sim)
    → execute simulator c actions (taken simulator s sim) ≡ ok w
    → Performs differ vector simulator c actions (taken simulator s sim) v v'
    → Program v s
    → Program v' (after s c w)
unfolding Runs
event-Program c actions sim w s v v' ne j n x k (r, h) =
    (later r (event c actions sim w j ne n x), (v, h, k))

-- The gateway and the socket behind the responses `sent` of the one vehicle, which no broadcast has
-- reached.
abbrev pub answering : List Bytes → World (Clock Call) → World (Clock Call)
answering sent w = record w {
  gateway = record (w.gateway) { values = codes "0" ∷ [] };
  sent = sent;
}

abbrev pub with_queue : List Bytes → Clock Call → System (Clock Call) → System (Clock Call)
with_queue ms sim s = record s {
  world = record (s.world) { gateway = record (s.gateway) { message_queue = ms }; sim = sim };
}
