-- ===== src/CoSim/Tests/Run.antt =====
-- A run in which the thread receives two messages at once, and the main thread takes the first one.
mod Whole
mod Progress
use ns3_cosim.Common.{
  Bytes, false, ℕ, zero, suc, ◌≡◌, refl, [], ◌∷◌, ◌++◌, none, some, codes, pos, ◌+ℤ◌, ◌-ℤ◌, ◌≤ℤ◌,
  arith,
}
use ns3_cosim.Text.{find, starts_with}
use ns3_cosim.Text.Number.{stoi, stol}
use ns3_cosim.Protocol.{split}
use ns3_cosim.Simulator.{Event, insert_event, without, has_uid}
use ns3_cosim.Simulator.Clock.{Clock, take_next}
use ns3_cosim.Gateway.{
  is_connected, Call, World, ok, first_of_queue, wait_for_next_update, forward_up, do_initialize,
}
use ns3_cosim.Gateway.Handlers.{stop_begin, open_connection, execute, wait_update, timestamp}
use ns3_cosim.CoSim.{
  exited, System, Recv, received, run_thread, taken, thread, event, initial, Reach, start, later,
}
use ns3_cosim.CoSim.Exit.{thread_exits}
use ns3_cosim.CoSim.Updates.{add_update, updates}
use ns3_cosim.CoSim.Order.{updates_from_front, updates_to_back}
use ns3_cosim.CoSim.Tests.{
  simulator, fresh_world, fresh_world-IsFresh, network, connected_world, connects,
}

abbrev pub both : Recv
both = received (codes "5 0 7\r\n6 0 8\r\n")

abbrev pub steps : ℕ → System (Clock Call)
steps zero = initial simulator connected_world
steps (suc n) = run_thread simulator both (steps n)

steps-Reach : (n : ℕ) → Reach simulator (steps n)
steps-Reach zero = start network fresh_world connected_world fresh_world-IsFresh connects
steps-Reach (suc n) = later (steps-Reach n) (thread both)

-- Both messages are queued.
abbrev pub queued : System (Clock Call)
queued = steps 7

queued-messages : queued.gateway.message_queue ≡ codes "5 0 7" ∷ codes "6 0 8" ∷ []
unfolding run_thread find starts_with open_connection
queued-messages = refl

abbrev pub call_at : ℕ → Call → Event Call
call_at u c = record { time = 0; uid = u; call = c }

abbrev pub wait_taken : Clock Call
wait_taken = record (connected_world.sim) {
  pending = call_at 3 forward_up ∷ call_at 4 forward_up ∷ [];
  next_uid = 5;
}

queued-next : simulator.next queued.sim ≡ some (wait_for_next_update, wait_taken)
unfolding run_thread find starts_with open_connection insert_event take_next
queued-next = refl

abbrev pub waited : World (Clock Call)
waited = wait_update simulator (taken simulator queued wait_taken)

wait_runs :
    execute simulator wait_for_next_update [] (taken simulator queued wait_taken) ≡ ok waited
unfolding execute
wait_runs = refl

waits_in_front :
    updates (simulator.events queued.sim)
    ≡ add_update
        (simulator.now wait_taken)
        wait_for_next_update
        (updates (simulator.events waited.sim))
waits_in_front =
    updates_from_front simulator queued wait_for_next_update [] wait_taken waited (steps-Reach 7)
      (λ e. cc) (λ e. cc) queued-next wait_runs

abbrev pub at_first : System (Clock Call)
at_first = record queued {
  world = waited;
  forwarded = queued.forwarded ++ first_of_queue wait_for_next_update queued.gateway.message_queue;
}

pub queued-idle : queued.joining ≡ none
unfolding run_thread find starts_with open_connection
queued-idle = refl

at_first-Reach : Reach simulator at_first
at_first-Reach =
    later (steps-Reach 7)
      (event wait_for_next_update [] wait_taken waited queued-idle (λ e. cc) queued-next wait_runs)

abbrev pub first_taken : Clock Call
first_taken = record wait_taken {
  pending = call_at 4 forward_up ∷ call_at 5 wait_for_next_update ∷ [];
  next_uid = 6;
}

at_first-next : simulator.next at_first.sim ≡ some (forward_up, first_taken)
unfolding run_thread find starts_with open_connection insert_event take_next wait_update without
    has_uid
at_first-next = refl

abbrev pub started : World (Clock Call)
started = record waited {
  gateway = record (waited.gateway) {
    time_start = pos 5000000000;
    message_queue = codes "6 0 8" ∷ [];
  };
  sim = record first_taken {
    pending =
        call_at 4 forward_up
        ∷ call_at 5 wait_for_next_update
        ∷ call_at 6 (do_initialize (codes "7" ∷ []))
        ∷ [];
    next_uid = 7;
  };
}

first_runs : execute simulator forward_up [] (taken simulator at_first first_taken) ≡ ok started
unfolding run_thread find starts_with open_connection insert_event wait_update without has_uid
    execute split stoi stol ◌+ℤ◌ timestamp
first_runs = refl

abbrev pub at_second : System (Clock Call)
at_second = record at_first {
  world = started;
  forwarded = at_first.forwarded ++ first_of_queue forward_up at_first.gateway.message_queue;
}

pub at_second-Reach : Reach simulator at_second
at_second-Reach =
    later at_first-Reach
      (event forward_up [] first_taken started queued-idle (λ e. cc) at_first-next first_runs)

abbrev pub second_taken : Clock Call
second_taken = record (started.sim) {
  pending = call_at 5 wait_for_next_update ∷ call_at 6 (do_initialize (codes "7" ∷ [])) ∷ [];
}

pub at_second-next : simulator.next at_second.sim ≡ some (forward_up, second_taken)
unfolding take_next open_connection
at_second-next = refl

second_split :
    split at_second.gateway.delimiter_field (codes "6 0 8")
    ≡ some (codes "6" ∷ codes "0" ∷ codes "8" ∷ [])
unfolding run_thread find starts_with open_connection insert_event wait_update without has_uid split
second_split = refl

second_timestamp : timestamp simulator (stoi (codes "6")) (stol (codes "0")) ≡ ok (pos 6000000000)
unfolding stoi stol timestamp ◌+ℤ◌
second_timestamp = refl

at_or_after_now : pos (simulator.now second_taken) ≤ℤ pos 6000000000 -ℤ pos 5000000000
unfolding ◌-ℤ◌ open_connection
at_or_after_now = omega arith

updates_to_back_instance :
    (w' : World (Clock Call)) × (execute simulator forward_up []
        (taken simulator at_second second_taken)
      ≡ ok w')
    × ((p : ℕ) × (pos p ≡ pos 6000000000 -ℤ pos 5000000000)
        × (updates (simulator.events w'.sim)
            ≡ updates (simulator.events at_second.sim) ++ ((p, codes "8" ∷ []) ∷ [])))
updates_to_back_instance =
    updates_to_back simulator at_second [] second_taken (codes "6 0 8") (codes "6") (codes "0") []
      (codes "8" ∷ []) (pos 6000000000) at_second-Reach at_second-next refl second_split
      second_timestamp refl refl at_or_after_now ((λ e. cc), ((λ e. cc), tt))

-- Stop begins while the thread has pushed the second message, and the server closes the connection.
abbrev stopping_world : World (Clock Call)
stopping_world = stop_begin simulator (steps 6).world

abbrev stopping_system : System (Clock Call)
stopping_system = record (steps 6) { world = stopping_world }

not_connected : is_connected stopping_system.gateway.state ≡ false
unfolding stop_begin
not_connected = refl

thread_exits_example :
    (unread : Bytes) × ((run_thread simulator (received []) (
        run_thread simulator
          (received [])
          (run_thread simulator (received []) stopping_system))).thread
      ≡ exited unread)
thread_exits_example = thread_exits simulator (received []) stopping_system not_connected refl
