-- ===== src/Server/Tests/Driven.antt =====
-- The gateway on the messages of the short run.
mod Events
mod Vehicles
mod Turns
mod Broadcast
use ns3_cosim.Common.{
  ℕ, zero, suc, ◌≡◌, refl, subst, List, [], ◌∷◌, ◌++◌, Bytes, codes, arith, length, Bool, true,
  false, none, some, ℤ, pos, negsuc, ◌+ℤ◌, ◌-ℤ◌,
}
use ns3_cosim.Text.{find, starts_with}
use ns3_cosim.Text.Number.{stoi, stol, to_string}
use ns3_cosim.Protocol.{split}
use ns3_cosim.Simulator.{Event, insert_event, without, has_uid}
use ns3_cosim.Simulator.Clock.{Clock, take_next}
use ns3_cosim.Gateway.{
  Call, World, ok, first_of_queue, wait_for_next_update, forward_up, do_initialize, handle_update,
}
use ns3_cosim.Gateway.Handlers.{
  open_connection, execute, wait_update, timestamp, read_header, run_actions, update, schedule_wait,
}
use ns3_cosim.CoSim.{
  System, Recv, received, run_thread, taken, thread, event, initial, Reach, start, later,
}
use ns3_cosim.CoSim.Stream.{unread}
use ns3_cosim.CoSim.Updates.{updates}
use ns3_cosim.CoSim.Contract.{as_granted, handled}
use ns3_cosim.CoSim.Tests.{
  simulator, fresh_world, fresh_world-IsFresh, network, connected_world, connects,
}
use ns3_cosim.Server.{Node}
use ns3_cosim.Server.Message.{crlf, nodes_values}
use ns3_cosim.Server.Run.{Drives, at_rest}
use ns3_cosim.Server.Bodies.{flat, calls}
use ns3_cosim.Server.Tests.{
  config, sevens, sockets, sockets-IsOpened, replies, replies-IsAnswered, server, serves, moved,
  first_message, second_message,
}

abbrev pub all_bytes : Recv
all_bytes = received (flat server.sent)

abbrev pub steps : ℕ → System (Clock Call)
steps zero = initial simulator connected_world
steps (suc n) = run_thread simulator all_bytes (steps n)

steps-Reach : (n : ℕ) → Reach simulator (steps n)
steps-Reach zero = start network fresh_world connected_world fresh_world-IsFresh connects
steps-Reach (suc n) = later (steps-Reach n) (thread all_bytes)

abbrev pub call_at : ℕ → ℕ → Call → Event Call
call_at t u c = record { time = t; uid = u; call = c }

-- The thread has queued the three messages.
abbrev queued_world : World (Clock Call)
queued_world = record connected_world {
  gateway = record (connected_world.gateway) {
    message_queue = first_message ∷ second_message ∷ codes "-1 0" ∷ [];
  };
  sim = record (connected_world.sim) {
    pending =
        call_at 0 2 wait_for_next_update
        ∷ call_at 0 3 forward_up
        ∷ call_at 0 4 forward_up
        ∷ call_at 0 5 forward_up
        ∷ [];
    next_uid = 6;
  };
}

abbrev pub queued : System (Clock Call)
queued = record (initial simulator queued_world) { stream = flat server.sent }

pub queued-steps : steps 10 ≡ queued
unfolding run_thread find starts_with open_connection insert_event
queued-steps = refl

pub queued-Reach : Reach simulator queued
queued-Reach = subst (Reach simulator) queued-steps (steps-Reach 10)

abbrev pub wait : ℕ → Event Call
wait u = call_at 0 u wait_for_next_update

abbrev pub forward : ℕ → Event Call
forward u = call_at 0 u forward_up

abbrev pub first_values : List Bytes
first_values = nodes_values 0 (at_rest ∷ [])

abbrev pub second_values : List Bytes
second_values = nodes_values 0 (moved ∷ [])

abbrev pub initializes : Event Call
initializes = call_at 0 7 (do_initialize first_values)

abbrev pub updates_at : Event Call
updates_at = call_at 2000000000 8 (handle_update second_values)

-- The simulator behind an event: the clock, what is pending, the next number, and whether it was
-- stopped.
abbrev pub sim_with : ℕ → List (Event Call) → ℕ → Bool → Clock Call
sim_with t es u b = record (connected_world.sim) {
  time_now = t;
  pending = es;
  next_uid = u;
  ended = b;
}

-- The gateway behind an event: m_eventWait, m_timeStart (`first`), m_timePause and the queue.
abbrev pub world_with : ℕ → ℤ → ℤ → List Bytes → Clock Call → World (Clock Call)
world_with u first pause ms sim = record connected_world {
  gateway = record (connected_world.gateway) {
    event_wait = u;
    time_start = first;
    time_pause = pause;
    message_queue = ms;
  };
  sim = sim;
}

abbrev pub after : System (Clock Call) → Call → World (Clock Call) → System (Clock Call)
after s c w = record s {
  world = w;
  forwarded = s.forwarded ++ first_of_queue c s.gateway.message_queue;
}

abbrev pub no_start : ℤ
no_start = negsuc 999999999
