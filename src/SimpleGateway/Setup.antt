-- ===== src/SimpleGateway/Setup.antt =====
-- examples/simple-gateway.cc: the constructor of SimpleGateway, and what `main` does with the vehicles,
-- their applications and the gateway before Simulator::Run. MobilityHelper::Install gives each vehicle a mobility model
-- and sets its position to the next one of the allocator; the nodes and their network are ns-3's.
use ns3_cosim.Common.{
  Bytes, ℕ, zero, suc, ◌+◌, ◌%◌, ◌^◌, List, [], ◌∷◌, Bool, codes, length, replicate, Result, done,
  ◌>>=◌, ℤ, pos,
}
use ns3_cosim.Simulator.{Simulator}
use ns3_cosim.Gateway.{Call, Network}
use ns3_cosim.Gateway.Handlers
use ns3_cosim.Mobility.{Mobility, do_set_position}
use ns3_cosim.Mobility
use ns3_cosim.Text.Number.{to_string}
use ns3_cosim.TriggeredSend.{Address, Application}
use ns3_cosim.TriggeredSend.Helper.{helper}
use ns3_cosim.SimpleGateway.{SimpleGateway, Error, from_gateway}

-- What is installed on a vehicle: the application that sends, its start, and the identifier under
-- which the packet sink of the vehicle calls HandleReceive.
pub record Installed : Type 0 where
  pub application : Application
  pub start_time : ℕ
  pub receive_id : Bytes

-- The loop of `main` over the vehicles, for `left` of them from `i` on; 100 ms in nanoseconds.
unfoldable pub install_applications : Address → ℕ → ℕ → List Installed
install_applications broadcast zero i = []
install_applications broadcast (suc left) i =
    record {
      application = record (helper broadcast) { packet_interval = 100000000 };
      start_time = 0;
      receive_id = to_string i;
    }
    ∷ install_applications broadcast left (suc i)

module _ {Vector : Type 0} (differ : Vector → Vector → Bool) (vector : ℤ → ℤ → ℤ → Vector) where
  -- The positions for `left` vehicles from `i` on; `i` is a uint16_t.
  unfoldable pub initial_positions : ℕ → ℕ → List Vector
  initial_positions zero i = []
  initial_positions (suc left) i =
      vector (pos 0) (pos i) (pos 0) ∷ initial_positions left ((i + 1) % 2 ^ 16)

  -- `mobility.Install(vehicles)`
  unfoldable pub install : List Vector → List (Mobility Vector)
  install [] = []
  install (p ∷ ps) =
      do_set_position differ p (Mobility.new (vector (pos 0) (pos 0) (pos 0))) ∷ install ps

  module _ (S : Simulator Call) where
    open S use {Sim}

    -- The constructor of SimpleGateway, with the default delimiters of Gateway.
    unfoldable pub new : List (Mobility Vector) → Result Error (SimpleGateway Vector)
    new vehicles = do
      g ← from_gateway (Handlers.new S (length vehicles) (codes " ") (codes "\r\n"))
      done (record {
        gateway = g;
        vehicles = vehicles;
        counts = replicate (length vehicles) 0;
        sends = [];
        sent = [];
      })

    -- From the construction of the gateway to the call of Connect.
    unfoldable pub launch :
        Network
        → Address
        → List (Mobility Vector)
        → Sim
        → Result Error (SimpleGateway Vector × List Installed × Sim)
    unfolding new
    launch net broadcast vehicles sim = do
      s ← new vehicles
      w ←
          from_gateway
            (Handlers.connect S net (record { gateway = s.gateway; sim = sim; sent = [] }))
      done (
        record s { gateway = w.gateway },
        install_applications broadcast (length vehicles) 0,
        w.sim,
      )
