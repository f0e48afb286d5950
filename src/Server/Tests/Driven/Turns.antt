-- ===== src/Server/Tests/Driven/Turns.antt =====
-- The gateway and the server take turns: each message is handled, and the response sent, before the next
-- one arrives. Up to the message that tells the vehicle to broadcast.
use ns3_cosim.Common.{ℕ, ◌≡◌, refl, subst, [], ◌∷◌, ◌++◌, codes, false, some, done, pos, ◌+ℤ◌, ◌-ℤ◌}
use ns3_cosim.Text.{find, starts_with}
use ns3_cosim.Text.Number.{stoi, stol, to_string}
use ns3_cosim.Protocol.{join, split}
use ns3_cosim.Simulator.{Event, insert_event, without, has_uid}
use ns3_cosim.Simulator.Clock.{Clock, take_next}
use ns3_cosim.Gateway.{
  Call, World, ok, wait_for_next_update, forward_up, do_initialize, handle_update, model, set_value,
  send_response,
}
use ns3_cosim.Gateway.Handlers.{
  open_connection, execute, act, run_actions, update, schedule_wait, wait_update, read_header,
  timestamp,
}
use ns3_cosim.CoSim.{System, run_thread, initial, taken}
use ns3_cosim.CoSim.Tests.{simulator, connected_world}
use ns3_cosim.Mobility.{new, set_velocity, do_set_position}
use ns3_cosim.SimpleGateway
use ns3_cosim.SimpleGateway.{SimpleGateway, do_update, int_at}
use ns3_cosim.SimpleGateway.Actions.{update_actions}
use ns3_cosim.Example.{receive_all}
use ns3_cosim.Server.Message.{crlf}
use ns3_cosim.Server.Tests.{first_message}
use ns3_cosim.Server.Tests.Driven.Vehicles.{
  Vector, vector, differ, broadcast_message, moved_values, vehicle, Program, begins, threads,
  threads-Program, event-Program, answering, with_queue,
}
use ns3_cosim.Server.Tests.Driven.{
  call_at, wait, forward, first_values, sim_with, world_with, after, no_start,
}

-- ProcessSendRequest, and then SendPacket.
abbrev pub request_at : ℕ → ℕ → Event Call
request_at t u = call_at t u (model 0)

abbrev pub packet_at : ℕ → ℕ → Event Call
packet_at t u = call_at t u (model 1)

abbrev pub late : ℕ → Event Call
late u = call_at 2000000000 u wait_for_next_update

abbrev initializes_at : Event Call
initializes_at = call_at 0 5 (do_initialize first_values)

abbrev updates_on : Event Call
updates_on = call_at 2000000000 9 (handle_update moved_values)

-- The thread has queued the first message.
abbrev queued1 : System (Clock Call)
queued1 = record (initial simulator connected_world) {
  world =
      (with_queue (first_message ∷ [])
        (sim_with 0 (call_at 0 2 wait_for_next_update ∷ forward 3 ∷ []) 4 false)
        (initial simulator connected_world)).world;
  stream = first_message ++ crlf;
}

queued1-threads : threads 4 (first_message ++ crlf) (initial simulator connected_world) ≡ queued1
unfolding run_thread find starts_with open_connection insert_event
queued1-threads = refl

queued1-Program : Program vehicle queued1
queued1-Program =
    subst (Program vehicle) queued1-threads
      (threads-Program 4 (first_message ++ crlf) vehicle (initial simulator connected_world) begins)

abbrev world1 : World (Clock Call)
world1 =
    world_with 4 no_start (pos 0) (first_message ∷ [])
      (sim_with 0 (forward 3 ∷ wait 4 ∷ []) 5 false)

abbrev sim1 : Clock Call
sim1 = (sim_with 0 (forward 3 ∷ []) 4 false)

abbrev system1 : System (Clock Call)
system1 = after queued1 wait_for_next_update world1

next1 : simulator.next queued1.sim ≡ some (wait_for_next_update, sim1)
unfolding take_next open_connection
next1 = refl

runs1 : execute simulator wait_for_next_update [] (taken simulator queued1 sim1) ≡ ok world1
unfolding execute wait_update schedule_wait open_connection insert_event without has_uid
runs1 = refl

system1-Program : Program vehicle system1
unfolding receive_all SimpleGateway.do_initialize schedule_wait open_connection
system1-Program =
    event-Program wait_for_next_update [] sim1 world1 queued1 vehicle vehicle (λ e. cc) refl next1
      runs1 refl queued1-Program

abbrev world2 : World (Clock Call)
world2 =
    world_with 4 (pos 5000000000) (pos 0) [] (sim_with 0 (wait 4 ∷ initializes_at ∷ []) 6 false)

abbrev sim2 : Clock Call
sim2 = (sim_with 0 (wait 4 ∷ []) 5 false)

abbrev system2 : System (Clock Call)
system2 = after system1 forward_up world2

next2 : simulator.next system1.sim ≡ some (forward_up, sim2)
unfolding take_next open_connection
next2 = refl

runs2 : execute simulator forward_up [] (taken simulator system1 sim2) ≡ ok world2
unfolding execute read_header split find starts_with stoi stol timestamp ◌+ℤ◌ ◌-ℤ◌ open_connection
    insert_event without has_uid to_string
runs2 = refl

system2-Program : Program vehicle system2
unfolding receive_all SimpleGateway.do_initialize schedule_wait open_connection
system2-Program =
    event-Program forward_up [] sim2 world2 system1 vehicle vehicle (λ e. cc) refl next2 runs2 refl
      system1-Program

abbrev world3 : World (Clock Call)
world3 =
    world_with 6 (pos 5000000000) (pos 0) [] (sim_with 0 (initializes_at ∷ wait 6 ∷ []) 7 false)

abbrev sim3 : Clock Call
sim3 = (sim_with 0 (initializes_at ∷ []) 6 false)

abbrev system3 : System (Clock Call)
system3 = after system2 wait_for_next_update world3

next3 : simulator.next system2.sim ≡ some (wait_for_next_update, sim3)
unfolding take_next open_connection
next3 = refl

runs3 : execute simulator wait_for_next_update [] (taken simulator system2 sim3) ≡ ok world3
unfolding execute wait_update schedule_wait open_connection insert_event without has_uid
runs3 = refl

system3-Program : Program vehicle system3
unfolding receive_all SimpleGateway.do_initialize schedule_wait open_connection
system3-Program =
    event-Program wait_for_next_update [] sim3 world3 system2 vehicle vehicle (λ e. cc) refl next3
      runs3 refl system2-Program

abbrev world4 : World (Clock Call)
world4 =
    answering (codes "0\r\n" ∷ [])
      (world_with 6 (pos 5000000000) (pos 0) [] (sim_with 0 (wait 6 ∷ []) 7 false))

abbrev pub first_vehicle : SimpleGateway Vector
first_vehicle = record vehicle { gateway = world4.gateway; sent = world4.sent }

abbrev sim4 : Clock Call
sim4 = (sim_with 0 (wait 6 ∷ []) 7 false)

abbrev system4 : System (Clock Call)
system4 = after system3 (do_initialize first_values) world4

next4 : simulator.next system3.sim ≡ some ((do_initialize first_values), sim4)
unfolding take_next open_connection
next4 = refl

runs4 :
    execute simulator
      (do_initialize first_values)
      (update_actions (λ i. i) 1 0 first_values (0 ∷ []))
      (taken simulator system3 sim4)
    ≡ ok world4
unfolding execute run_actions update_actions update act set_value find starts_with to_string
    open_connection send_response insert_event join stoi int_at
runs4 = refl

updated4 :
    do_update differ vector first_values
      (record vehicle { gateway = system3.gateway; sent = system3.world.sent })
    ≡ done first_vehicle
unfolding do_update ns3_cosim.SimpleGateway.update_vehicle stoi set_value open_connection find
    send_response join new set_velocity do_set_position int_at to_string starts_with
updated4 = refl

system4-Program : Program first_vehicle system4
unfolding receive_all SimpleGateway.do_initialize schedule_wait open_connection
system4-Program =
    event-Program (do_initialize first_values) (update_actions (λ i. i) 1 0 first_values (0 ∷ []))
      sim4 world4 system3 vehicle first_vehicle (λ e. cc) refl next4 runs4
      ((λ i. i, refl), updated4) system3-Program

-- The thread has queued the second message.
abbrev queued2 : System (Clock Call)
queued2 =
    record (with_queue (broadcast_message ∷ []) (sim_with 0 (wait 6 ∷ forward 7 ∷ []) 8 false)
      system4) { stream = first_message ++ crlf ++ (broadcast_message ++ crlf) }

queued2-threads : threads 4 (broadcast_message ++ crlf) system4 ≡ queued2
unfolding run_thread find starts_with open_connection insert_event
queued2-threads = refl

queued2-Program : Program first_vehicle queued2
queued2-Program =
    subst (Program first_vehicle) queued2-threads
      (threads-Program 4 (broadcast_message ++ crlf) first_vehicle system4 system4-Program)

abbrev world5 : World (Clock Call)
world5 = answering (codes "0\r\n" ∷ []) (
    world_with 8 (pos 5000000000) (pos 0) (broadcast_message ∷ [])
      (sim_with 0 (forward 7 ∷ wait 8 ∷ []) 9 false))

abbrev sim5 : Clock Call
sim5 = (sim_with 0 (forward 7 ∷ []) 8 false)

abbrev system5 : System (Clock Call)
system5 = after queued2 wait_for_next_update world5

next5 : simulator.next queued2.sim ≡ some (wait_for_next_update, sim5)
unfolding take_next open_connection
next5 = refl

runs5 : execute simulator wait_for_next_update [] (taken simulator queued2 sim5) ≡ ok world5
unfolding execute wait_update schedule_wait open_connection insert_event without has_uid
runs5 = refl

system5-Program : Program first_vehicle system5
unfolding receive_all SimpleGateway.do_initialize schedule_wait open_connection
system5-Program =
    event-Program wait_for_next_update [] sim5 world5 queued2 first_vehicle first_vehicle (λ e. cc)
      refl next5 runs5 refl queued2-Program

abbrev world6 : World (Clock Call)
world6 =
    answering (codes "0\r\n" ∷ [])
      (world_with 8 (pos 5000000000) (pos 2000000000) [] (sim_with 0 (updates_on ∷ []) 10 false))

abbrev sim6 : Clock Call
sim6 = (sim_with 0 (wait 8 ∷ []) 9 false)

abbrev pub system6 : System (Clock Call)
system6 = after system5 forward_up world6

next6 : simulator.next system5.sim ≡ some (forward_up, sim6)
unfolding take_next open_connection
next6 = refl

runs6 : execute simulator forward_up [] (taken simulator system5 sim6) ≡ ok world6
unfolding execute read_header split find starts_with stoi stol timestamp ◌+ℤ◌ ◌-ℤ◌ open_connection
    insert_event without has_uid to_string
runs6 = refl

pub system6-Program : Program first_vehicle system6
unfolding receive_all SimpleGateway.do_initialize schedule_wait open_connection
system6-Program =
    event-Program forward_up [] sim6 world6 system5 first_vehicle first_vehicle (λ e. cc) refl next6
      runs6 refl system5-Program
