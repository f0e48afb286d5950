-- ===== src/Server/Tests/Driven/Events.antt =====
-- The events of the simulator in that run, and the theorem on it.
use ns3_cosim.Common.{◌≡◌, refl, [], ◌∷◌, codes, true, false, some, pos, ◌+ℤ◌, ◌-ℤ◌}
use ns3_cosim.Text.{find, starts_with}
use ns3_cosim.Text.Number.{stoi, stol, to_string}
use ns3_cosim.Protocol.{split}
use ns3_cosim.Simulator.{insert_event, without, has_uid}
use ns3_cosim.Simulator.Clock.{Clock, take_next}
use ns3_cosim.Gateway.{
  Call, World, ok, wait_for_next_update, forward_up, do_initialize, handle_update,
}
use ns3_cosim.Gateway.Handlers.{
  open_connection, execute, wait_update, timestamp, read_header, schedule_wait,
}
use ns3_cosim.CoSim.{System, taken}
use ns3_cosim.CoSim.Tests.{simulator}
use ns3_cosim.Server.Tests.{first_message, second_message}
use ns3_cosim.Server.Tests.Driven.{
  call_at, queued, wait, forward, first_values, second_values, initializes, updates_at, sim_with,
  world_with, after, no_start,
}

-- WaitForNextUpdate
abbrev pub world1 : World (Clock Call)
world1 =
    world_with 6 no_start (pos 0) (first_message ∷ second_message ∷ codes "-1 0" ∷ [])
      (sim_with 0 (forward 3 ∷ forward 4 ∷ forward 5 ∷ wait 6 ∷ []) 7 false)

abbrev pub system1 : System (Clock Call)
system1 = after queued wait_for_next_update world1

abbrev pub sim1 : Clock Call
sim1 = sim_with 0 (forward 3 ∷ forward 4 ∷ forward 5 ∷ []) 6 false

pub next1 : simulator.next queued.sim ≡ some (wait_for_next_update, sim1)
unfolding take_next open_connection
next1 = refl

pub runs1 : execute simulator wait_for_next_update [] (taken simulator queued sim1) ≡ ok world1
unfolding execute wait_update schedule_wait open_connection insert_event without has_uid
runs1 = refl

-- ForwardUp, on the first message
abbrev pub world2 : World (Clock Call)
world2 =
    world_with 6 (pos 5000000000) (pos 0) (second_message ∷ codes "-1 0" ∷ [])
      (sim_with 0 (forward 4 ∷ forward 5 ∷ wait 6 ∷ initializes ∷ []) 8 false)

abbrev pub system2 : System (Clock Call)
system2 = after system1 (forward_up) world2

abbrev pub sim2 : Clock Call
sim2 = sim_with 0 (forward 4 ∷ forward 5 ∷ wait 6 ∷ []) 7 false

pub next2 : simulator.next system1.sim ≡ some (forward_up, sim2)
unfolding take_next open_connection
next2 = refl

pub runs2 : execute simulator (forward_up) [] (taken simulator system1 sim2) ≡ ok world2
unfolding execute read_header split find starts_with stoi stol timestamp ◌+ℤ◌ ◌-ℤ◌ open_connection
    insert_event without has_uid to_string
runs2 = refl

-- ForwardUp, on the second one
abbrev pub world3 : World (Clock Call)
world3 =
    world_with 6 (pos 5000000000) (pos 2000000000) (codes "-1 0" ∷ [])
      (sim_with 0 (forward 5 ∷ initializes ∷ updates_at ∷ []) 9 false)

abbrev pub system3 : System (Clock Call)
system3 = after system2 (forward_up) world3

abbrev pub sim3 : Clock Call
sim3 = sim_with 0 (forward 5 ∷ wait 6 ∷ initializes ∷ []) 8 false

pub next3 : simulator.next system2.sim ≡ some (forward_up, sim3)
unfolding take_next open_connection
next3 = refl

pub runs3 : execute simulator (forward_up) [] (taken simulator system2 sim3) ≡ ok world3
unfolding execute read_header split find starts_with stoi stol timestamp ◌+ℤ◌ ◌-ℤ◌ open_connection
    insert_event without has_uid to_string
runs3 = refl

-- ForwardUp, on the terminate message
abbrev pub world4 : World (Clock Call)
world4 =
    world_with 6 (pos 5000000000) (pos 2000000000) []
      (sim_with 0 (initializes ∷ updates_at ∷ []) 9 true)

abbrev pub system4 : System (Clock Call)
system4 = after system3 (forward_up) world4

abbrev pub sim4 : Clock Call
sim4 = sim_with 0 (initializes ∷ updates_at ∷ []) 9 false

pub next4 : simulator.next system3.sim ≡ some (forward_up, sim4)
unfolding take_next open_connection
next4 = refl

pub runs4 : execute simulator (forward_up) [] (taken simulator system3 sim4) ≡ ok world4
unfolding execute read_header split find starts_with stoi stol timestamp ◌+ℤ◌ ◌-ℤ◌ open_connection
    insert_event without has_uid to_string
runs4 = refl

-- DoInitialize
abbrev pub world5 : World (Clock Call)
world5 = world_with 6 (pos 5000000000) (pos 2000000000) [] (sim_with 0 (updates_at ∷ []) 9 true)

abbrev system5 : System (Clock Call)
system5 = after system4 (do_initialize first_values) world5

abbrev pub sim5 : Clock Call
sim5 = sim_with 0 (updates_at ∷ []) 9 true

-- HandleUpdate
abbrev pub world6 : World (Clock Call)
world6 =
    world_with 9 (pos 5000000000) (pos 2000000000) []
      (sim_with 2000000000 (call_at 2000000000 9 wait_for_next_update ∷ []) 10 true)

abbrev system6 : System (Clock Call)
system6 = after system5 (handle_update second_values) world6

abbrev pub sim6 : Clock Call
sim6 = sim_with 2000000000 [] 9 true
