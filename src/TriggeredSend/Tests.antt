-- ===== src/TriggeredSend/Tests.antt =====
-- An application that sends packets of 512 bytes, 100 ns apart, and whose socket is connected.
mod Example
use ns3_cosim.Common.{ℕ, ◌≤◌, ◌≡◌, refl, true, false, [], ◌∷◌, ◌++◌, some, arith, pos}
use ns3_cosim.TriggeredSend.Start.{CanOpen, start_needs, start_opens, Outcomes, start_binds}
use ns3_cosim.TriggeredSend.{start_calls, is_incompatible, bind_result}
use ns3_cosim.Simulator.{Simulator, insert_event, has_uid}
use ns3_cosim.Simulator.Queue.{count}
use ns3_cosim.Simulator.Clock.{Clock, clock, take_next}
use ns3_cosim.TriggeredSend.{
  create_socket, bind, set_connect_callback, set_ip_tos, connect_peer, set_allow_broadcast,
  shutdown_recv, bind_call, Call, send_packet, process_send_request, Application, World, ok, inet,
  invalid, execute, stop_application, do_dispose, process_request, start_application,
  connection_succeeded, send,
}
use ns3_cosim.TriggeredSend.Pending.{is_send, IsSingle}
use ns3_cosim.TriggeredSend.Lifecycle.{
  Reach, here, later, event, sends, starts, connects, IsFresh, send_packet_safe, stop_ends_send,
}
use ns3_cosim.TriggeredSend.Burst.{IsSending, run, burst, send_times, spaced}
use ns3_cosim.TriggeredSend.Request.{request_replaces, request_starts}

abbrev simulator : Simulator Call
simulator = clock Call

abbrev application : Application
application = record {
  local_address = invalid;
  peer = inet 1;
  has_socket = true;
  connected = true;
  tos = 0;
  packet_interval = 100;
  packet_size = 512;
  packet_count = 2;
  send_event = 1;
}

abbrev sending : World (Clock Call)
sending = record {
  app = application;
  sim = record {
    time_now = 5;
    pending = record { time = 7; uid = 1; call = send_packet } ∷ [];
    at_destroy = [];
    next_uid = 2;
    ended = false;
  };
  calls = [];
}

sending-IsSending : IsSending simulator 7 2 sending
unfolding has_uid count
sending-IsSending = record {
  single = record {
    one = omega arith;
    named = ((λ e. refl), tt);
    only = ((λ e. refl), tt);
    below = (omega arith, tt);
    destroy_below = tt;
    no_destroy = refl;
    issued_above = omega arith;
  };
  pending = record { time = 7; uid = 1; call = send_packet };
  only_event = refl;
  is_send_packet = refl;
  at_time = refl;
  remaining = refl;
}

abbrev whole : ℕ → ℕ
whole k = 512

burst_example :
    (w' : World (Clock Call)) × (run simulator 3 whole sending ≡ ok w')
    × (send_times w'.calls ≡ send_times sending.calls ++ spaced 7 100 2)
    × (simulator.events w'.sim ≡ [])
    × (w'.app.packet_count ≡ 0)
burst_example = burst simulator 2 7 3 whole sending (omega arith) sending-IsSending

two_times : spaced 7 100 2 ≡ 7 ∷ 107 ∷ []
unfolding spaced
two_times = refl

request_replaces_example :
    (w' : World (Clock Call)) × (run simulator 4 whole (process_request simulator 3 sending)
      ≡ ok w')
    × (send_times w'.calls ≡ send_times sending.calls ++ spaced 7 100 3)
    × (simulator.events w'.sim ≡ [])
    × (w'.app.packet_count ≡ 0)
request_replaces_example =
    request_replaces simulator 7 2 3 4 whole sending (omega arith) refl refl sending-IsSending

abbrev idle : World (Clock Call)
idle = record sending {
  sim = record { time_now = 5; pending = []; at_destroy = []; next_uid = 2; ended = false };
}

idle-IsSingle : IsSingle simulator 1 idle.sim
unfolding has_uid count
idle-IsSingle = record {
  one = omega arith;
  named = tt;
  only = tt;
  below = tt;
  destroy_below = tt;
  no_destroy = refl;
  issued_above = omega arith;
}

request_begins :
    (w' : World (Clock Call)) × (run simulator 4 whole (process_request simulator 3 idle) ≡ ok w')
    × (send_times w'.calls ≡ send_times idle.calls ++ spaced 5 100 3)
    × (simulator.events w'.sim ≡ [])
    × (w'.app.packet_count ≡ 0)
request_begins = request_starts simulator 3 4 whole idle (omega arith) refl refl idle-IsSingle refl

-- A new application with an IPv4 peer, which starts, connects and is asked to send.
abbrev fresh : World (Clock Call)
fresh = record {
  app = record application {
    has_socket = false;
    connected = false;
    packet_count = 0;
    send_event = 0;
  };
  sim = record { time_now = 0; pending = []; at_destroy = []; next_uid = 1; ended = false };
  calls = [];
}

fresh-IsFresh : IsFresh simulator fresh
unfolding has_uid count
fresh-IsFresh = record {
  no_send = tt;
  unnamed = tt;
  below = tt;
  destroy_below = tt;
  no_destroy = refl;
  issued_above = omega arith;
}

abbrev started : World (Clock Call)
started = record fresh {
  app = record (fresh.app) { has_socket = true };
  calls =
      create_socket
      ∷ bind
      ∷ set_connect_callback
      ∷ set_ip_tos 0
      ∷ connect_peer (inet 1)
      ∷ set_allow_broadcast
      ∷ shutdown_recv
      ∷ [];
}

starts_up : start_application simulator (pos 0) fresh ≡ ok started
unfolding start_application has_uid bind_call
starts_up = refl

abbrev asked : World (Clock Call)
asked = send simulator 2 (connection_succeeded simulator started)

asked-Reach : Reach simulator fresh asked
asked-Reach = later (later (later here (starts (pos 0) started starts_up)) connects) (sends 2)

abbrev taken_request : Clock Call
taken_request = record (asked.sim) { pending = [] }

asked-next : simulator.next asked.sim ≡ some (process_send_request 2, taken_request)
unfolding send connection_succeeded take_next insert_event
asked-next = refl

abbrev requested : World (Clock Call)
requested = process_request simulator 2 (record asked { sim = taken_request })

runs_request :
    execute simulator (process_send_request 2) 512 (record asked { sim = taken_request })
    ≡ ok requested
unfolding execute
runs_request = refl

requested-Reach : Reach simulator fresh requested
requested-Reach =
    later asked-Reach
      (event (process_send_request 2) 512 taken_request requested asked-next runs_request)

abbrev taken_send : Clock Call
taken_send = record (requested.sim) { pending = [] }

requested-next : simulator.next requested.sim ≡ some (send_packet, taken_send)
unfolding process_request send connection_succeeded take_next insert_event has_uid
requested-next = refl

send_packet_safe_example :
    (count is_send (simulator.events requested.sim) ≤ 1)
    × (requested.app.has_socket ≡ true)
    × ((v : World (Clock Call)) × (execute simulator send_packet 512
            (record requested { sim = taken_send })
          ≡ ok v))
send_packet_safe_example =
    send_packet_safe simulator fresh requested 512 taken_send fresh-IsFresh requested-Reach
      requested-next

stop_ends_send_example :
    (count is_send (simulator.events (stop_application simulator requested).sim) ≡ 0)
    × (count is_send (simulator.events (do_dispose simulator requested).sim) ≡ 0)
stop_ends_send_example = stop_ends_send simulator fresh requested fresh-IsFresh requested-Reach

fresh-CanOpen : CanOpen simulator (pos 0) fresh.app
unfolding bind_call is_incompatible bind_result
fresh-CanOpen = record { has_peer = refl; compatible = refl; bound = refl }

start_needs_instance : CanOpen simulator (pos 0) fresh.app
start_needs_instance = start_needs simulator (pos 0) fresh started refl starts_up

start_opens_instance :
    (w' w'' : World (Clock Call)) × (start_application simulator (pos 0) fresh ≡ ok w')
    × (w'.app.has_socket ≡ true)
    × (w'.calls ≡ fresh.calls ++ start_calls fresh.app)
    × (start_application simulator (pos 1) w' ≡ ok w'')
    × (w''.calls ≡ w'.calls)
start_opens_instance = start_opens simulator (pos 0) (pos 1) fresh refl fresh-CanOpen

start_binds_example : Outcomes simulator (pos 0) fresh
start_binds_example = start_binds simulator (pos 0) fresh refl
