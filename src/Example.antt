-- ===== src/Example.antt =====
-- The program examples/simple-gateway.cc: the two threads of the gateway where the derived class is
-- SimpleGateway. The other events of the simulated network schedule events and call HandleReceive for the
-- broadcasts that the vehicles receive, and do not call the gateway.
pub mod Driven
pub mod Numbers
pub mod Placed
pub mod Callback
use ns3_cosim.Common.{
  ℕ, ◌≡◌, List, [], ◌∷◌, All, Result, ◌>>=◌, Bytes, Bool, ℤ, length, done, if◌then◌else◌,
}
use ns3_cosim.Simulator.{Simulator}
use ns3_cosim.Gateway.{
  Call, World, Action, stop, wait_for_next_update, forward_up, do_initialize, handle_update, model,
  is_time, sets, sends, schedules, stops,
}
use ns3_cosim.Gateway.Handlers.{schedule_wait}
use ns3_cosim.CoSim.{
  System, Step, thread, event, stop_event, destroy, joined, Reach, start, later, taken,
}
use ns3_cosim.SimpleGateway.{SimpleGateway, Error, handle_receive, do_update}
use ns3_cosim.SimpleGateway
use ns3_cosim.SimpleGateway.Actions.{update_actions}

module _ {Vector : Type 0} (differ : Vector → Vector → Bool) (vector : ℤ → ℤ → ℤ → Vector)
    (S : Simulator Call) where
  open S use {Sim, now}

  -- The derived class, whose base is the gateway of the world.
  abbrev pub in_place : World Sim → SimpleGateway Vector → SimpleGateway Vector
  in_place w v = record v { gateway = w.gateway; sent = w.sent }

  -- HandleUpdate, up to the call of DoUpdate.
  abbrev pub before_update : World Sim → World Sim
  before_update w = if is_time w.gateway.time_pause (now w.sim) then schedule_wait S w else w

  -- The calls of HandleReceive for the packets that arrive in one event.
  unfoldable pub receive_all :
      List Bytes → SimpleGateway Vector → Result Error (SimpleGateway Vector)
  receive_all [] v = done v
  receive_all (id ∷ ids) v = handle_receive differ vector id v >>= λ v'. receive_all ids v'

  -- What an event of the network does besides: it schedules others, as Send, SendPacket and the
  -- channel do.
  abbrev pub IsSchedule : Action → Type 0
  IsSchedule (schedules d n) = Unit {0}
  IsSchedule (sets i value) = ⊥
  IsSchedule sends = ⊥
  IsSchedule stops = ⊥

  -- `v'` is the derived class behind an event, and `actions` what the event does with the gateway
  -- and with the simulator.
  abbrev pub Performs :
      Call → List Action → World Sim → SimpleGateway Vector → SimpleGateway Vector → Type 0
  Performs (do_initialize values) actions w v v' =
      ((request : ℕ → ℕ) × (actions ≡ update_actions request (length v.vehicles) 0 values v.counts))
      × (SimpleGateway.do_initialize differ vector values (in_place w v) ≡ done v')
  Performs (handle_update values) actions w v v' =
      ((request : ℕ → ℕ) × (actions ≡ update_actions request (length v.vehicles) 0 values v.counts))
      × (do_update differ vector values (in_place (before_update w) v) ≡ done v')
  Performs (model n) actions w v v' =
      All IsSchedule actions × ((ids : List Bytes) × (receive_all ids (in_place w v) ≡ done v'))
  Performs stop actions w v v' = v' ≡ v
  Performs wait_for_next_update actions w v v' = v' ≡ v
  Performs forward_up actions w v v' = v' ≡ v

  abbrev pub PerformsStep :
      {s t : System Sim} → Step S s t → SimpleGateway Vector → SimpleGateway Vector → Type 0
  PerformsStep {s} (event c actions sim w j ns n x) v v' = Performs c actions (taken S s sim) v v'
  PerformsStep (thread r) v v' = v' ≡ v
  PerformsStep (stop_event sim j n) v v' = v' ≡ v
  PerformsStep (destroy j) v v' = v' ≡ v
  PerformsStep (joined b j e) v v' = v' ≡ v

  -- The run `r` is one of the program; it begins with the derived class `v0` and ends with `v`.
  unfoldable pub Runs :
      SimpleGateway Vector → {s : System Sim} → Reach S s → SimpleGateway Vector → Type 0
  Runs v0 (start net w w' f e) v = v ≡ v0
  Runs v0 (later r st) v = (u : SimpleGateway Vector) × Runs v0 r u × PerformsStep st u v
