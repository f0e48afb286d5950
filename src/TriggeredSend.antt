-- ===== src/TriggeredSend.antt =====
-- model/triggered-send-application.h and .cc: the class TriggeredSendApplication. The socket is not
-- part of the repository: what its functions return is an argument, and the calls of them and of the
-- trace sources are listed in `calls`, the newest last.
pub mod Pending
pub mod Live
pub mod Lifecycle
pub mod Burst
pub mod Request
pub mod Interrupt
pub mod Example
pub mod Binding
pub mod Start
pub mod Helper
mod Tests
use ns3_cosim.Common.{
  ℕ, zero, suc, ◌+◌, ◌-◌, ◌≡◌, refl, Bool, true, false, not, ◌&&◌, ◌||◌, List, [], ◌∷◌, ◌++◌,
  Option, none, some, ◌==◌, if◌then◌else◌, ℤ, pos, negsuc,
}
use ns3_cosim.Simulator.{Simulator}

-- What the code asks of an Address: IsInvalid, and the address families that it matches.
pub data Address : Type 0 where
  invalid : Address
  inet inet6 packet_socket unknown : ℕ → Address

abbrev pub is_invalid : Address → Bool
is_invalid invalid = true
is_invalid _ = false

abbrev pub is_inet : Address → Bool
is_inet (inet n) = true
is_inet _ = false

abbrev pub is_inet6 : Address → Bool
is_inet6 (inet6 n) = true
is_inet6 _ = false

abbrev pub is_packet_socket : Address → Bool
is_packet_socket (packet_socket n) = true
is_packet_socket _ = false

pub data SocketCall : Type 0 where
  create_socket bind bind6 set_connect_callback set_allow_broadcast shutdown_recv close : SocketCall
  bind_local connect_peer : Address → SocketCall
  set_ip_tos : ℕ → SocketCall
  send_at : (time size : ℕ) → SocketCall
  tx_trace : (size : ℕ) → SocketCall
  tx_trace_with_addresses : (size : ℕ) → Address → SocketCall

pub data Error : Type 0 where
  remote_not_set incompatible_addresses bind_failed connection_failed event_not_expired : Error

pub data Outcome {ℓ} (A : Type ℓ) : Type ℓ where
  ok : A → Outcome A
  fatal : Error → Outcome A

-- The functions that the application hands to the simulator; `other` is any other event.
pub data Call : Type 0 where
  process_send_request : ℕ → Call
  send_packet : Call
  other : ℕ → Call

-- `has_socket` says that m_socket is not null; `send_event` is m_sendPacketEvent.
pub record Application : Type 0 where
  pub local_address : Address
  pub peer : Address
  pub has_socket : Bool
  pub connected : Bool
  pub tos : ℕ
  pub packet_interval : ℕ
  pub packet_size : ℕ
  pub packet_count : ℕ
  pub send_event : ℕ

pub record World (Sim : Type 0) : Type 0 where
  pub app : Application
  pub sim : Sim
  pub calls : List SocketCall

-- The defaults of GetTypeId (times in nanoseconds) and the constructor.
pub new : Application
new = record {
  local_address = invalid;
  peer = invalid;
  has_socket = false;
  connected = false;
  tos = 0;
  packet_interval = 100000000;
  packet_size = 512;
  packet_count = 0;
  send_event = 0;
}

-- The bind call of StartApplication; `none` leaves returnValue at -1.
unfoldable pub bind_call : Address → Address → Option SocketCall
bind_call local_address peer =
    if not (is_invalid local_address)
    then some (bind_local local_address)
    else if is_inet6 peer
    then some bind6
    else if is_inet peer || is_packet_socket peer
    then some bind
    else none

unfoldable pub is_incompatible : Address → Address → Bool
is_incompatible local_address peer =
    not (is_invalid local_address)
    && ((is_inet peer && is_inet6 local_address) || (is_inet6 peer && is_inet local_address))

-- `result` is what the bind call returns.
unfoldable pub bind_result : Option SocketCall → ℤ → ℤ
bind_result none result = negsuc 0
bind_result (some c) result = result

abbrev pub is_failure : ℤ → Bool
is_failure (negsuc zero) = true
is_failure _ = false

abbrev bind_calls : Option SocketCall → List SocketCall
bind_calls none = []
bind_calls (some c) = c ∷ []

unfoldable pub start_calls : Application → List SocketCall
start_calls a =
    create_socket ∷ bind_calls (bind_call a.local_address a.peer)
    ++ (set_connect_callback ∷ (if is_inet a.peer then set_ip_tos a.tos ∷ [] else [])
        ++ (connect_peer a.peer ∷ set_allow_broadcast ∷ shutdown_recv ∷ []))

-- The traces of a packet that was sent whole.
unfoldable pub trace_calls : Application → List SocketCall
trace_calls a =
    (if is_inet a.peer || is_inet6 a.peer
      then tx_trace_with_addresses a.packet_size a.peer ∷ []
      else [])
    ++ (tx_trace a.packet_size ∷ [])

module _ (S : Simulator Call) where
  open S use {Sim, now, schedule, cancel, is_pending}

  unfoldable pub send : ℕ → World Sim → World Sim
  send n w = if n == 0 then w else record w { sim = (schedule w.sim 0 (process_send_request n)).0 }

  unfoldable pub cancel_events : World Sim → World Sim
  cancel_events w =
      if is_pending w.sim w.app.send_event
      then record w { sim = cancel w.sim w.app.send_event }
      else w

  -- Without Application::DoDispose, which is not part of the repository.
  unfoldable pub do_dispose : World Sim → World Sim
  unfolding cancel_events
  do_dispose w =
      let w' = cancel_events w in record w' { app = record (w'.app) { has_socket = false } }

  pub open_socket : ℤ → World Sim → Outcome (World Sim)
  unfolding is_incompatible bind_result start_calls cancel_events
  open_socket result w =
      if is_invalid w.app.peer
      then fatal remote_not_set
      else if is_incompatible w.app.local_address w.app.peer
      then fatal incompatible_addresses
      else if is_failure (bind_result (bind_call w.app.local_address w.app.peer) result)
      then fatal bind_failed
      else ok (
          cancel_events (record w {
            app = record (w.app) { has_socket = true };
            calls = w.calls ++ start_calls w.app;
          }))

  unfoldable pub start_application : ℤ → World Sim → Outcome (World Sim)
  unfolding open_socket
  start_application result w =
      if w.app.has_socket then ok (cancel_events w) else open_socket result w

  unfoldable pub stop_application : World Sim → World Sim
  unfolding cancel_events
  stop_application w =
      let w' = cancel_events w in
      if w'.app.has_socket then record w' { calls = w'.calls ++ (close ∷ []) } else w'

  -- The callbacks of the socket.
  unfoldable pub connection_succeeded : World Sim → World Sim
  connection_succeeded w = record w { app = record (w.app) { connected = true } }

  unfoldable pub connection_failed_callback : World Sim → Outcome (World Sim)
  connection_failed_callback w = fatal connection_failed

  pub request : ℕ → World Sim → World Sim
  request n w =
      let counted = record w { app = record (w.app) { packet_count = n } } in
      if is_pending w.sim w.app.send_event
      then counted
      else let (s, u) = schedule w.sim 0 send_packet in
        record counted { app = record (counted.app) { send_event = u }; sim = s }

  -- ProcessSendRequest
  unfoldable pub process_request : ℕ → World Sim → World Sim
  unfolding request
  process_request n w = if w.app.has_socket && w.app.connected then request n w else w

  -- `sent` is what Socket::Send returns, as the unsigned number that it is compared as.
  pub transmit : ℕ → World Sim → World Sim
  unfolding trace_calls
  transmit sent w =
      let traces = if sent == w.app.packet_size then trace_calls w.app else [] in
      let (s, u) = schedule w.sim w.app.packet_interval send_packet in
      record w {
        app = record (w.app) { packet_count = w.app.packet_count - 1; send_event = u };
        sim = s;
        calls = w.calls ++ (send_at (now w.sim) w.app.packet_size ∷ traces);
      }

  -- SendPacket, with its NS_ASSERT.
  unfoldable pub send_one : ℕ → World Sim → Outcome (World Sim)
  unfolding transmit
  send_one sent w =
      if is_pending w.sim w.app.send_event
      then fatal event_not_expired
      else ok (if w.app.packet_count == 0 then w else transmit sent w)

  -- The event that the simulator runs; `other` events are not the application's.
  unfoldable pub execute : Call → ℕ → World Sim → Outcome (World Sim)
  unfolding process_request send_one
  execute (process_send_request n) sent w = ok (process_request n w)
  execute send_packet sent w = send_one sent w
  execute (other n) sent w = ok w
