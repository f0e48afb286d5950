-- ===== src/SimpleGateway/Tests/Launch.antt =====
-- Two vehicles from the start of the program, and the calls that a message leads to.
use ns3_cosim.Example.Callback.{IsPerformed, callback-IsPerformed}
use ns3_cosim.Common.{
  some, get_elem?, ◌<◌, ℕ, inr, ◌≡◌, refl, false, List, [], ◌∷◌, codes, pos, arith, done,
}
use ns3_cosim.Simulator.Clock.{Clock, clock}
use ns3_cosim.Protocol.{join}
use ns3_cosim.Text.Number.{stoi, to_string}
use ns3_cosim.TriggeredSend.{inet}
use ns3_cosim.Gateway.{schedules, World, handle_update, Call, Network, ok, sets, sends}
use ns3_cosim.Gateway.Handlers.{run_actions}
use ns3_cosim.SimpleGateway.{int_at, SimpleGateway, do_update}
use ns3_cosim.SimpleGateway.Counts.{occurrences}
use ns3_cosim.SimpleGateway.Tally.{tally}
use ns3_cosim.SimpleGateway.Setup.{Installed, initial_positions, install, launch}
use ns3_cosim.SimpleGateway.Session.{Input, reception, responses, run_inputs}
use ns3_cosim.SimpleGateway.Session
use ns3_cosim.SimpleGateway.Launch.{placed_at, installed_on, launch_responds}
use ns3_cosim.SimpleGateway.Actions.{
  update_actions, in_world, report_actions, do_update-run_actions,
}
use ns3_cosim.SimpleGateway.Moves.{do_update_moves}
use ns3_cosim.SimpleGateway.Tests.{
  Vector, vector, differ, two_vehicles, message, message-Readable, two_vehicles-IsReady,
}

abbrev network : Network
network = record { socket_result = pos 3; pton_result = pos 1; connect_result = pos 0 }

abbrev idle : Clock Call
idle = record { time_now = 0; pending = []; at_destroy = []; next_uid = 1; ended = false }

abbrev inputs : List Input
inputs =
    Session.message message ∷ reception 1 ∷ reception 0 ∷ reception 1 ∷ Session.message message ∷ []

launch_responds_example :
    (s : SimpleGateway Vector) × (installed : List Installed) × (sim : Clock Call)
    × (s' : SimpleGateway Vector) × (launch differ vector
          (clock Call)
          network
          (inet 255)
          (install differ vector (initial_positions differ vector 2 0))
          idle
        ≡ done (s, installed, sim))
    × (run_inputs differ vector installed inputs s ≡ done s')
    × (s'.sent ≡ responses 2 [] inputs)
    × ((i : ℕ)
        → i < 2
        → (get_elem? installed i ≡ some (installed_on (inet 255) i))
          × (get_elem? s.vehicles i ≡ some (placed_at differ vector i)))
launch_responds_example =
    launch_responds differ vector (clock Call) network (inet 255) 2 idle inputs (omega arith) refl
      refl refl
      (
        (message-Readable, omega arith),
        (omega arith, (omega arith, (omega arith, ((message-Readable, omega arith), tt)))),
      )

two_responses : responses 2 [] inputs ≡ codes "0 0\r\n" ∷ codes "1 2\r\n" ∷ []
unfolding responses tally occurrences to_string join
two_responses = refl

second_vehicle :
    initial_positions differ vector 2 0 ≡ (pos 0, pos 0, pos 0) ∷ (pos 0, pos 1, pos 0) ∷ []
unfolding initial_positions
second_vehicle = refl

updated : (s' : SimpleGateway Vector) × (do_update differ vector message two_vehicles ≡ done s')
updated =
    let (s', e, same_size, driven, calls) =
      do_update_moves differ vector message two_vehicles message-Readable (omega arith)
        (omega arith) two_vehicles-IsReady refl in
    (s', e)

do_update-run_actions_example :
    run_actions
      (clock Call)
      (report_actions 2 0 (3 ∷ 120 ∷ []))
      (in_world differ vector (clock Call) idle two_vehicles)
    ≡ ok (in_world differ vector (clock Call) idle updated.0)
do_update-run_actions_example =
    do_update-run_actions differ vector (clock Call) idle message two_vehicles updated.0
      (omega arith) updated.1

counts_set :
    report_actions 2 0 (3 ∷ 120 ∷ []) ≡ sets 0 (codes "3") ∷ sets 1 (codes "120") ∷ sends ∷ []
unfolding report_actions to_string
counts_set = refl

abbrev callback_world : World (Clock Call)
callback_world = in_world differ vector (clock Call) idle two_vehicles

-- `message` tells the first vehicle to broadcast.
callback-IsPerformed_example :
    (w' : World (Clock Call)) × (v' : SimpleGateway Vector) × IsPerformed differ vector
      (clock Call)
      (λ i. i)
      (handle_update message)
      message
      callback_world
      two_vehicles
      w'
      v'
callback-IsPerformed_example =
    callback-IsPerformed differ vector (clock Call) (λ i. i) message callback_world two_vehicles
      message-Readable (omega arith) (omega arith) two_vehicles-IsReady refl (handle_update message)
      (inr refl)

broadcasting :
    update_actions (λ i. i) 2 0 message (3 ∷ 120 ∷ [])
    ≡ schedules 0 0 ∷ sets 0 (codes "3") ∷ sets 1 (codes "120") ∷ sends ∷ []
unfolding update_actions to_string int_at stoi
broadcasting = refl
