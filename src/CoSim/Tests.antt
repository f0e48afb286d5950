-- ===== src/CoSim/Tests.antt =====
-- A run of the gateway with its thread, and the theorems on it.
mod Run
use ns3_cosim.Common.{◌≡◌, refl, true, false, List, [], ◌∷◌, ◌++◌, none, some, codes, pos, negsuc}
use ns3_cosim.Text.{find, starts_with}
use ns3_cosim.Text.Border.{unbordered}
use ns3_cosim.Protocol.Split.{Lacks}
use ns3_cosim.Simulator.{Simulator, insert_event, without, has_uid}
use ns3_cosim.Simulator.Clock.{Clock, clock, take_next}
use ns3_cosim.Gateway.{
  Call, Gateway, World, ok, Network, created, is_connected, first_of_queue, model,
  wait_for_next_update, forward_up, Action, sets, schedules,
}
use ns3_cosim.Gateway.Handlers.{connect, open_connection, execute, wait_update}
use ns3_cosim.CoSim.{
  System, Recv, received, run_thread, taken, thread, event, IsFresh, initial, Reach, start, later,
}
use ns3_cosim.CoSim.Held.{Advance}
use ns3_cosim.CoSim.Stream.{framed, unread}
use ns3_cosim.CoSim.Safety.{time_held, forward_served, Ends}
use ns3_cosim.CoSim.Delivery.{bytes_accounted, all_delivered}

abbrev pub simulator : Simulator Call
simulator = clock Call

abbrev fresh_gateway : Gateway
fresh_gateway = record {
  event_wait = 0;
  event_destroy = 0;
  state = created;
  time_start = negsuc 999999999;
  time_pause = pos 0;
  socket = pos 0;
  socket_open = false;
  joinable = false;
  message_queue = [];
  delimiter_field = codes " ";
  delimiter_message = codes "\r\n";
  message_buffer = [];
  values = [] ∷ [];
}

abbrev pub fresh_world : World (Clock Call)
fresh_world = record {
  gateway = fresh_gateway;
  sim = record { time_now = 0; pending = []; at_destroy = []; next_uid = 1; ended = false };
  sent = [];
}

pub fresh_world-IsFresh : IsFresh simulator fresh_world
fresh_world-IsFresh = record {
  is_created = refl;
  no_start = refl;
  no_messages = refl;
  no_buffer = refl;
  has_field = cc;
  has_message = cc;
  ordered = tt;
  issued = tt;
  only_model = tt;
}

abbrev pub network : Network
network = record { socket_result = pos 3; pton_result = pos 1; connect_result = pos 0 }

abbrev pub connected_world : World (Clock Call)
connected_world = open_connection simulator (pos 3) fresh_world

pub connects : connect simulator network fresh_world ≡ ok connected_world
unfolding connect
connects = refl

-- The server sends a message and the beginning of another one.
abbrev arrives : Recv
arrives = received (codes "5 0 7\r\n6 0")

abbrev at_start : System (Clock Call)
at_start = initial simulator connected_world

abbrev at_search : System (Clock Call)
at_search = run_thread simulator arrives at_start

abbrev at_message : System (Clock Call)
at_message = run_thread simulator arrives at_search

abbrev at_pushed : System (Clock Call)
at_pushed = run_thread simulator arrives at_message

abbrev at_top : System (Clock Call)
at_top = run_thread simulator arrives at_pushed

at_top-Reach : Reach simulator at_top
at_top-Reach =
    later
      (later
        (later
          (later (start network fresh_world connected_world fresh_world-IsFresh connects)
            (thread arrives))
          (thread arrives))
        (thread arrives))
      (thread arrives)

-- The simulator runs WaitForNextUpdate, which schedules itself behind ForwardUp.
abbrev taken_wait : Clock Call
taken_wait = record (at_top.sim) { pending = record { time = 0; uid = 3; call = forward_up } ∷ [] }

at_top-next : simulator.next at_top.sim ≡ some (wait_for_next_update, taken_wait)
unfolding run_thread take_next find starts_with insert_event open_connection
at_top-next = refl

abbrev waited : World (Clock Call)
waited = wait_update simulator (taken simulator at_top taken_wait)

runs_wait :
    execute simulator wait_for_next_update [] (taken simulator at_top taken_wait) ≡ ok waited
unfolding execute
runs_wait = refl

abbrev at_forward : System (Clock Call)
at_forward = record at_top {
  world = waited;
  forwarded = at_top.forwarded ++ first_of_queue wait_for_next_update at_top.gateway.message_queue;
}

at_top-idle : at_top.joining ≡ none
unfolding run_thread find starts_with open_connection
at_top-idle = refl

at_forward-Reach : Reach simulator at_forward
at_forward-Reach =
    later at_top-Reach
      (event wait_for_next_update [] taken_wait waited at_top-idle (λ q. cc) at_top-next runs_wait)

abbrev taken_forward : Clock Call
taken_forward = record taken_wait {
  pending = record { time = 0; uid = 4; call = wait_for_next_update } ∷ [];
  next_uid = 5;
}

at_forward-next : simulator.next at_forward.sim ≡ some (forward_up, taken_forward)
unfolding run_thread take_next find starts_with insert_event open_connection wait_update without
    has_uid
at_forward-next = refl

at_top-connected : is_connected at_top.gateway.state ≡ true
unfolding run_thread find starts_with open_connection
at_top-connected = refl

time_held_example : Advance simulator at_top.gateway.time_pause at_top.sim taken_wait
time_held_example =
    time_held simulator at_top wait_for_next_update taken_wait at_top-Reach at_top-connected
      at_top-next

forward_served_example :
    Ends simulator (execute simulator forward_up [] (taken simulator at_forward taken_forward))
forward_served_example =
    forward_served simulator at_forward taken_forward [] at_forward-Reach at_forward-next

bytes_accounted_example :
    (at_forward.stream
      ≡ framed at_forward.gateway.delimiter_message
          (at_forward.forwarded ++ at_forward.gateway.message_queue)
        ++ unread at_forward.thread at_forward.gateway.message_buffer)
    × Lacks at_forward.gateway.delimiter_message
        (at_forward.forwarded ++ at_forward.gateway.message_queue)
bytes_accounted_example = bytes_accounted simulator at_forward at_forward-Reach

crlf-unbordered : unbordered at_top.gateway.delimiter_message ≡ true
unfolding unbordered starts_with run_thread find open_connection
crlf-unbordered = refl

sent_messages-Lacks : Lacks at_top.gateway.delimiter_message (codes "5 0 7" ∷ [])
unfolding starts_with run_thread find open_connection
sent_messages-Lacks = (refl, tt)

sent_rest : find at_top.gateway.delimiter_message (codes "6 0") ≡ none
unfolding starts_with run_thread find open_connection
sent_rest = refl

at_top-stream :
    at_top.stream ≡ framed at_top.gateway.delimiter_message (codes "5 0 7" ∷ []) ++ codes "6 0"
unfolding framed starts_with run_thread find open_connection
at_top-stream = refl

at_top-unread :
    find at_top.gateway.delimiter_message (unread at_top.thread at_top.gateway.message_buffer)
    ≡ none
unfolding starts_with run_thread find open_connection
at_top-unread = refl

all_delivered_example :
    (at_top.forwarded ++ at_top.gateway.message_queue ≡ codes "5 0 7" ∷ [])
    × (unread at_top.thread at_top.gateway.message_buffer ≡ codes "6 0")
all_delivered_example =
    all_delivered simulator at_top (codes "5 0 7" ∷ []) (codes "6 0") at_top-Reach crlf-unbordered
      sent_messages-Lacks sent_rest at_top-stream at_top-unread

abbrev script : List Action
script = sets 0 (codes "42") ∷ schedules 10 1 ∷ []

abbrev scripted : World (Clock Call)
scripted = record connected_world {
  gateway = record (connected_world.gateway) { values = codes "42" ∷ [] };
  sim = (simulator.schedule connected_world.sim 10 (model 1)).0;
}
