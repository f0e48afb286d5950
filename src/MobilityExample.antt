-- ===== src/MobilityExample.antt =====
-- examples/external-mobility-example.cc: UpdateMobility and the simulation that `main` sets up. The sum
-- of two vectors is ns-3's. A node is its mobility model. Times are nanoseconds.
pub mod Moves
pub mod Times
pub mod Steps
pub mod Run
pub mod Ending
pub mod Limit
mod Tests
use ns3_cosim.Common.{ℕ, ◌≡◌, refl, Bool, false, List, [], ◌∷◌, Option, none, some, set, get_elem?}
use ns3_cosim.Simulator.{Simulator}
use ns3_cosim.Mobility.{Mobility, set_velocity, do_set_position, do_get_position, do_get_velocity}

-- The functions that are scheduled: UpdateMobility with its arguments, its nodes as indices, and the end
-- of the simulation.
pub data Call (Vector : Type 0) : Type 0 where
  update_mobility : List ℕ → Vector → Vector → ℕ → Call Vector
  stop_simulation : Call Vector

pub record World (Vector Sim : Type 0) : Type 0 where
  pub nodes : List (Mobility Vector)
  pub sim : Sim

module _ {Vector : Type 0} (differ : Vector → Vector → Bool) (plus : Vector → Vector → Vector) where
  -- The body of the loop of UpdateMobility.
  unfoldable pub shift : Vector → Vector → Mobility Vector → Mobility Vector
  shift position_delta velocity_delta m =
      let m' = do_set_position differ (plus (do_get_position differ m) position_delta) m in
      set_velocity differ (plus (do_get_velocity differ m') velocity_delta) m'

  -- An index that names no node stands for no node.
  unfoldable pub shift_nodes :
      List ℕ → Vector → Vector → List (Mobility Vector) → List (Mobility Vector)
  unfolding shift
  shift_nodes [] position_delta velocity_delta ms = ms
  shift_nodes (i ∷ is') position_delta velocity_delta ms =
      shift_nodes is' position_delta velocity_delta (elim (get_elem? ms i) [
        | none ↦ ms
        | some m ↦ set ms i (shift position_delta velocity_delta m)
      ])

  module _ (S : Simulator (Call Vector)) where
    open S use {Sim, schedule, next}

    unfoldable pub execute : Call Vector → World Vector Sim → World Vector Sim
    unfolding shift_nodes
    execute (update_mobility nodes position_delta velocity_delta time_delta) w = record {
      nodes = shift_nodes nodes position_delta velocity_delta w.nodes;
      sim =
          (schedule w.sim time_delta
            (update_mobility nodes position_delta velocity_delta time_delta)).0;
    }
    execute stop_simulation w = record w { sim = S.stop w.sim }

    -- The calls of Simulator::Schedule and Simulator::Stop in `main`, for nodesA and nodesB.
    unfoldable pub set_up : Vector → Vector → World Vector Sim → World Vector Sim
    set_up a b w =
        let s1 = (schedule w.sim 2000000000 (update_mobility (0 ∷ []) a a 2000000000)).0 in
        let s2 = (schedule s1 1000000000 (update_mobility (1 ∷ []) b b 1000000000)).0 in
        record w { sim = (schedule s2 10000000000 stop_simulation).0 }

    -- The states between two events of Simulator::Run, which ends when it is stopped, where the simulator
    -- is `sim` at first and the two nodes are alike.
    pub data Reach (a b : Vector) (m : Mobility Vector) (sim : Sim)
        : World Vector Sim → Type 0 where
      start : Reach a b m sim (set_up a b (record { nodes = m ∷ m ∷ []; sim = sim }))
      later :
          (w : World Vector Sim) (c : Call Vector) (sim' : Sim)
          → Reach a b m sim w
          → S.stopped w.sim ≡ false
          → next w.sim ≡ some (c, sim')
          → Reach a b m sim (execute c (record w { sim = sim' }))
