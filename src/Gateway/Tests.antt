-- ===== src/Gateway/Tests.antt =====
-- A gateway whose first timestamp was 10 s, with the default delimiters and
-- two values.
mod Width
use ns3_cosim.Common.{
  ℕ, ◌<◌, ◌≡◌, refl, ◌↔◌, true, false, List, [], ◌∷◌, ◌++◌, some, none, codes, length, set, take,
  get_elem?, if◌then◌else◌, ◌==◌, pos, negsuc, ◌+ℤ◌, ◌-ℤ◌, ◌≤ℤ◌, ◌<ℤ◌, arith,
}
use ns3_cosim.Text.{find, starts_with}
use ns3_cosim.Text.Number.{stoi, stol}
use ns3_cosim.Text.Border.{unbordered, Disjoint}
use ns3_cosim.Protocol.{join, split}
use ns3_cosim.Simulator.{Simulator}
use ns3_cosim.Simulator.Clock.{Clock, clock}
use ns3_cosim.Gateway.{
  Call, Gateway, World, ok, fatal, connected, created, time_not_increasing, Action, sets, sends,
  set_value, send_response, wait_for_next_update, is_negative,
}
use ns3_cosim.Gateway.Handlers.{new, process, forward, run_actions, stop_gateway}
use ns3_cosim.Gateway.Values.{
  IsSendable, set_value_iff, get_elem?-set_value, new-IsSendable, run_actions-IsSendable,
  send_response_read,
}
use ns3_cosim.Gateway.Timestamps.{
  target, IsGranted, process_grants, process_goes_back, forward_late,
}
use ns3_cosim.Gateway.Initial.{process_first}
use ns3_cosim.Simulator.{has_uid}
use ns3_cosim.Common.{Any}
use ns3_cosim.Gateway.{do_initialize}
use ns3_cosim.Gateway.Stopping.{IsStopped, stop_gateway-IsStopped, stop_gateway_twice}

abbrev simulator : Simulator Call
simulator = clock Call

abbrev second : ℕ
second = 1000000000

abbrev gateway : Gateway
gateway = record {
  event_wait = 1;
  event_destroy = 0;
  state = connected;
  time_start = pos 10000000000;
  time_pause = pos 5000000000;
  socket = pos 3;
  socket_open = true;
  joinable = true;
  message_queue = codes "11 0 8" ∷ [];
  delimiter_field = codes " ";
  delimiter_message = codes "\r\n";
  message_buffer = [];
  values = codes "4" ∷ codes "" ∷ [];
}

-- The clock stands at `time`, where WaitForNextUpdate is pending.
abbrev world : ℕ → World (Clock Call)
world time = record {
  gateway = gateway;
  sim = record {
    time_now = time;
    pending = record { time = time; uid = 1; call = wait_for_next_update } ∷ [];
    at_destroy = [];
    next_uid = 2;
    ended = false;
  };
  sent = [];
}

at_or_after_now : pos 5000000000 ≤ℤ target simulator (pos 16000000000) (world 5000000000)
unfolding ◌-ℤ◌
at_or_after_now = omega arith

earlier_at_or_after_now : pos 3000000000 ≤ℤ target simulator (pos 14000000000) (world 3000000000)
unfolding ◌-ℤ◌
earlier_at_or_after_now = omega arith

earlier_than_pause : target simulator (pos 14000000000) (world 3000000000) <ℤ pos 5000000000
unfolding ◌-ℤ◌
earlier_than_pause = omega arith

header_split : split (codes " ") (codes "11 0 8") ≡ some (codes "11" ∷ codes "0" ∷ codes "8" ∷ [])
unfolding split find starts_with
header_split = refl

seconds_read : stoi (codes "11") ≡ some (pos 11)
unfolding stoi
seconds_read = refl

nanoseconds_read : stol (codes "0") ≡ some (pos 0)
unfolding stol
nanoseconds_read = refl

stamp_not_negative :
    is_negative (simulator.seconds (pos 11) +ℤ simulator.nano_seconds (pos 0)) ≡ false
unfolding ◌+ℤ◌
stamp_not_negative = refl

stamp_before_now :
    (simulator.seconds (pos 11) +ℤ simulator.nano_seconds (pos 0)) -ℤ pos 10000000000
    <ℤ pos 5000000000
unfolding ◌+ℤ◌ ◌-ℤ◌
stamp_before_now = omega arith

process_grants_example :
    (w' : World (Clock Call)) × (process simulator
        (pos 16000000000)
        (codes "8" ∷ [])
        (world 5000000000)
      ≡ ok w')
    × IsGranted simulator (pos 16000000000) (codes "8" ∷ []) (world 5000000000) w'
process_grants_example =
    process_grants simulator (pos 16000000000) (codes "8" ∷ []) (world 5000000000) refl refl
      (omega arith) at_or_after_now

process_goes_back_instance :
    (w' : World (Clock Call)) × (process simulator (pos 14000000000) [] (world 3000000000) ≡ ok w')
    × (w'.gateway.time_pause <ℤ pos 5000000000)
process_goes_back_instance =
    process_goes_back simulator (pos 14000000000) [] (world 3000000000) refl refl (omega arith)
      earlier_at_or_after_now earlier_than_pause

-- The README's example: the gateway connects at 5 s, the first timestamp is 10 s and the next 11 s.
forward_late_example : forward simulator (world 5000000000) ≡ fatal time_not_increasing
forward_late_example =
    forward_late simulator (world 5000000000) (codes "11 0 8") (codes "11") (codes "0") []
      (codes "8" ∷ []) (pos 11) (pos 0) refl header_split seconds_read nanoseconds_read
      stamp_not_negative refl stamp_before_now

set_value_iff_example :
    (set_value 1 (codes "6") gateway ≡ ok (record gateway { values = codes "4" ∷ codes "6" ∷ [] }))
    ↔ ((1 < length gateway.values)
        × (find gateway.delimiter_field (codes "6") ≡ none)
        × (find gateway.delimiter_message (codes "6") ≡ none)
        × (record gateway { values = codes "4" ∷ codes "6" ∷ [] }
            ≡ record gateway { values = set gateway.values 1 (codes "6") }))
set_value_iff_example =
    set_value_iff 1 (codes "6") gateway (record gateway { values = codes "4" ∷ codes "6" ∷ [] })

six_stored :
    set_value 1 (codes "6") gateway ≡ ok (record gateway { values = codes "4" ∷ codes "6" ∷ [] })
unfolding set_value find starts_with
six_stored = refl

stored_value :
    get_elem? (codes "4" ∷ codes "6" ∷ []) 1
    ≡ (if 1 == 1 then some (codes "6") else get_elem? gateway.values 1)
stored_value =
    get_elem?-set_value 1 (codes "6") gateway
      (record gateway { values = codes "4" ∷ codes "6" ∷ [] }) 1 six_stored

abbrev fresh : Gateway
fresh = record gateway {
  event_wait = 0;
  state = created;
  time_start = negsuc 999999999;
  time_pause = pos 0;
  socket = pos 0;
  socket_open = false;
  joinable = false;
  message_queue = [];
  values = [] ∷ [] ∷ [];
}

fresh-new : new simulator 2 (codes " ") (codes "\r\n") ≡ ok fresh
unfolding new find starts_with
fresh-new = refl

new-IsSendable_example :
    IsSendable 2 fresh × (find fresh.delimiter_message fresh.delimiter_field ≡ none)
new-IsSendable_example = new-IsSendable simulator 2 (codes " ") (codes "\r\n") fresh fresh-new

gateway-IsSendable : IsSendable 2 gateway
unfolding find starts_with
gateway-IsSendable = record {
  has_field = λ e. cc;
  has_message = λ e. cc;
  lacks_field = (refl, (refl, tt));
  lacks_message = (refl, (refl, tt));
  size = refl;
}

abbrev script : List Action
script = sets 0 (codes "6") ∷ sends ∷ []

abbrev scripted : World (Clock Call)
scripted = record (world 5000000000) {
  gateway = record gateway { values = codes "6" ∷ [] ∷ [] };
  sent = codes "6 \r\n" ∷ [];
}

script_runs : run_actions simulator script (world 5000000000) ≡ ok scripted
unfolding run_actions set_value send_response find starts_with join
script_runs = refl

run_actions-IsSendable_example : IsSendable 2 scripted.gateway
run_actions-IsSendable_example =
    run_actions-IsSendable simulator 2 script (world 5000000000) scripted script_runs
      gateway-IsSendable

response : send_response gateway ≡ ok (codes "4 \r\n")
unfolding send_response join
response = refl

space-unbordered : unbordered (codes " ") ≡ true
unfolding unbordered starts_with
space-unbordered = refl

crlf-unbordered : unbordered (codes "\r\n") ≡ true
unfolding unbordered starts_with
crlf-unbordered = refl

crlf_space-Disjoint : Disjoint (codes "\r\n") (codes " ")
crlf_space-Disjoint = (((λ e. omega (arith, e)), ((λ e. omega (arith, e)), tt)), tt)

send_response_read_example :
    (i : ℕ) × (find (codes "\r\n") (codes "4 \r\n" ++ codes "9 9\r\n") ≡ some i)
    × (split (codes " ") (take i (codes "4 \r\n" ++ codes "9 9\r\n")) ≡ some gateway.values)
send_response_read_example =
    send_response_read 1 gateway (codes "4 \r\n") (codes "9 9\r\n") gateway-IsSendable
      space-unbordered crlf-unbordered crlf_space-Disjoint response

stop_gateway-IsStopped_example : IsStopped simulator true (stop_gateway simulator (world 0))
stop_gateway-IsStopped_example = stop_gateway-IsStopped simulator (world 0)

stopped_twice :
    stop_gateway simulator (stop_gateway simulator (world 0)) ≡ stop_gateway simulator (world 0)
stopped_twice = stop_gateway_twice simulator (world 0)

process_first_instance :
    (w' : World (Clock Call)) × (process simulator
        (pos 5000000000)
        (codes "7" ∷ [])
        (record (world 0) { gateway = fresh })
      ≡ ok w')
    × (w'.gateway ≡ record fresh { time_start = pos 5000000000 })
    × (simulator.now w'.sim ≡ 0)
    × Any (λ e. (e.call ≡ do_initialize (codes "7" ∷ [])) × (e.time ≡ 0)) (simulator.events w'.sim)
    × (has_uid 0 (simulator.events w'.sim) ≡ has_uid 0 (simulator.events (world 0).sim))
process_first_instance =
    process_first simulator (pos 5000000000) (codes "7" ∷ []) (record (world 0) { gateway = fresh })
      refl refl (omega arith)
