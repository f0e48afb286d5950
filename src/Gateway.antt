-- ===== src/Gateway.antt =====
-- model/gateway.h and model/gateway.cc: the state of the class Gateway, and its functions SetValue
-- and SendResponse. The other functions are in Handlers, Gateway::RunThread is in CoSim. A `World`
-- is the gateway object, the simulator and what was handed to ::send. NS_FATAL_ERROR ends the program
-- and is the outcome `fatal`; the log macros are left out.
pub mod Handlers
pub mod Values
pub mod Timestamps
pub mod Stopping
pub mod Initial
pub mod Width
mod Tests
use ns3_cosim.Common.{
  ℕ, zero, suc, ◌+◌, ◌≡◌, refl, Bool, true, false, not, List, [], ◌∷◌, ◌++◌, Option, none, some,
  Bytes, codes, ◌==◌, leb, ltb, if◌then◌else◌, length, set, replicate, ℤ, pos, negsuc, pos_part,
  ◌+ℤ◌, ◌-ℤ◌,
}
use ns3_cosim.Text.{find}
use ns3_cosim.Text.Number.{stoi, stol}
use ns3_cosim.Protocol.{join, split}

-- enum STATE
pub data State : Type 0 where
  created connected stopping : State

pub data Error : Type 0 where
  empty_delimiter_field empty_delimiter_message delimiter_message_in_field : Error
  connect_twice socket_failed address_failed connection_failed : Error
  index_too_large value_has_delimiter_field value_has_delimiter_message : Error
  not_connected no_queued_messages invalid_header time_not_increasing : Error
  out_of_fuel : Error

pub data Outcome {ℓ} (A : Type ℓ) : Type ℓ where
  ok : A → Outcome A
  fatal : Error → Outcome A

infixl 5 ◌>>=◌ ◌>>◌
-- A fatal error ends the calls that would follow.
abbrev pub ◌>>=◌ {ℓ κ} :
    {Before : Type ℓ} {After : Type κ} → Outcome Before → (Before → Outcome After) → Outcome After
fatal error >>= continue = fatal error
ok value >>= continue = continue value

-- `if (test) { NS_FATAL_ERROR(e); }`
abbrev pub refuse : Bool → Error → Outcome (Unit {0})
refuse true e = fatal e
refuse false e = ok tt

abbrev pub or_fatal {ℓ} : {A : Type ℓ} → Option A → Error → Outcome A
or_fatal none e = fatal e
or_fatal (some a) e = ok a

abbrev pub ◌>>◌ {κ} : {After : Type κ} → Outcome (Unit {0}) → Outcome After → Outcome After
check >> continue = check >>= λ passed. continue

-- Inversion of a step that succeeded.
pub >>=-eq-ok {ℓ κ} :
    {Before : Type ℓ} {After : Type κ} (first : Outcome Before) (continue : Before → Outcome After)
    {result : After}
    → (first >>= continue) ≡ ok result
    → (value : Before) × (first ≡ ok value) × (continue value ≡ ok result)
>>=-eq-ok (ok value) continue h = (value, refl, h)
>>=-eq-ok (fatal error) continue h = cc

pub ok-injective {ℓ} : {A : Type ℓ} {a b : A} → ok a ≡ ok b → a ≡ b
ok-injective h = cc

pub refuse-eq-ok : (test : Bool) (e : Error) {u : Unit {0}} → refuse test e ≡ ok u → test ≡ false
refuse-eq-ok true e h = cc
refuse-eq-ok false e h = refl

-- The functions that the gateway hands to the simulator, with their arguments. `model` is any event
-- of the simulated network or of the derived class.
pub data Call : Type 0 where
  stop wait_for_next_update forward_up : Call
  do_initialize handle_update : List Bytes → Call
  model : ℕ → Call

abbrev pub is_model : Call → Bool
is_model (model n) = true
is_model _ = false

-- The message that a call of ForwardUp takes.
abbrev pub first_of_queue : Call → List Bytes → List Bytes
first_of_queue forward_up (m ∷ queue) = m ∷ []
first_of_queue _ _ = []

-- `values` is m_data. An EventId that was not assigned is 0. `joinable` is m_thread.joinable(), and
-- `socket_open` says that m_socket was not closed.
pub record Gateway : Type 0 where
  pub event_wait : ℕ
  pub event_destroy : ℕ
  pub state : State
  pub time_start : ℤ
  pub time_pause : ℤ
  pub socket : ℤ
  pub socket_open : Bool
  pub joinable : Bool
  pub message_queue : List Bytes
  pub delimiter_field : Bytes
  pub delimiter_message : Bytes
  pub message_buffer : Bytes
  pub values : List Bytes

pub record World (Sim : Type 0) : Type 0 where
  pub gateway : Gateway
  pub sim : Sim
  pub sent : List Bytes

abbrev pub is_empty {ℓ} : {A : Type ℓ} → List A → Bool
is_empty [] = true
is_empty (x ∷ xs) = false

abbrev pub is_found : Option ℕ → Bool
is_found none = false
is_found (some i) = true

abbrev pub is_created : State → Bool
is_created created = true
is_created _ = false

abbrev pub is_connected : State → Bool
is_connected connected = true
is_connected _ = false

abbrev pub is_stopping : State → Bool
is_stopping stopping = true
is_stopping _ = false

-- Time::IsStrictlyNegative, and the comparisons of an int with 0.
abbrev pub is_negative : ℤ → Bool
is_negative (pos n) = false
is_negative (negsuc n) = true

abbrev pub is_positive : ℤ → Bool
is_positive (pos zero) = false
is_positive (pos (suc n)) = true
is_positive (negsuc n) = false

abbrev pub is_time : ℤ → ℕ → Bool
is_time (pos n) t = n == t
is_time (negsuc n) t = false

-- What the calls of socket, inet_pton and connect return.
pub record Network : Type 0 where
  pub socket_result : ℤ
  pub pton_result : ℤ
  pub connect_result : ℤ

-- Gateway::SetValue
unfoldable pub set_value : ℕ → Bytes → Gateway → Outcome Gateway
set_value index value g = do
  refuse (leb (length g.values) index) index_too_large
  refuse (is_found (find g.delimiter_field value)) value_has_delimiter_field
  refuse (is_found (find g.delimiter_message value)) value_has_delimiter_message
  ok (record g { values = set g.values index value })

-- Gateway::SendResponse: the bytes handed to ::send. Its result only decides about a warning.
unfoldable pub send_response : Gateway → Outcome Bytes
send_response g = do
  refuse (not (is_connected g.state)) not_connected
  ok (join g.delimiter_field g.values ++ g.delimiter_message)

-- What a callback of the derived class, or an event of the model, may do to the gateway and to the
-- simulator: the public functions of Gateway, Simulator::Schedule and Simulator::Stop.
pub data Action : Type 0 where
  sets : ℕ → Bytes → Action
  sends : Action
  schedules : ℕ → ℕ → Action
  stops : Action
