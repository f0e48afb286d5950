-- ===== src/CoSim/Contract.antt =====
-- What the gateway promises its derived class, told without threads, queues and events: from the
-- messages alone, the calls of DoUpdate, each with its time and its values.
pub mod Terms
pub mod Forward
pub mod Tracks
pub mod Refines
pub mod Choices
pub mod Awaited
pub mod Called
pub mod Callbacks
use ns3_cosim.Common.{
  ℕ, ◌+◌, ◌≡◌, Bool, true, false, List, [], ◌∷◌, ◌++◌, Option, none, some, Bytes, if◌then◌else◌, ℤ,
  pos, ◌-ℤ◌, ◌≤ℤ◌, All,
}
use ns3_cosim.Protocol.{split}
use ns3_cosim.Simulator.{Simulator}
use ns3_cosim.Gateway.{Call, Outcome, ok, fatal, ◌>>=◌, or_fatal, out_of_fuel, is_negative}
use ns3_cosim.Gateway.Handlers.{read_header}
use ns3_cosim.CoSim.{System, Step, thread, event, stop_event, destroy, joined, Reach, start, later}
use ns3_cosim.CoSim.Updates.{callback_values, add_call, add_update}

-- A call of DoUpdate: its time, and the values.
abbrev pub Granted : Type 0
Granted = ℤ × List Bytes

-- The reference time behind a message, where `none` is none yet.
abbrev pub start_after : Outcome Granted → Option ℤ → Option ℤ
start_after (fatal e) reference = reference
start_after (ok (t, values)) none = if is_negative t then none else some t
start_after (ok (t, values)) (some reference) = some reference

-- What a message grants: nothing, where it ends the simulation or is the first one.
abbrev pub granted_by : Outcome Granted → Option ℤ → List Granted
granted_by (fatal e) reference = []
granted_by (ok (t, values)) none = []
granted_by (ok (t, values)) (some reference) =
    if is_negative t then [] else (t -ℤ reference, values) ∷ []

-- No call is earlier than one before it.
abbrev pub InOrder : List Granted → Type 0
InOrder [] = Unit {0}
InOrder (g ∷ gs) = All (λ h. g.0 ≤ℤ h.0) gs × InOrder gs

abbrev pub as_granted : List (ℕ × List Bytes) → List Granted
as_granted [] = []
as_granted ((t, values) ∷ l) = (pos t, values) ∷ as_granted l

-- The values that a message brings to the derived class.
abbrev pub delivered_by : Outcome Granted → List (List Bytes)
delivered_by (fatal e) = []
delivered_by (ok (t, values)) = if is_negative t then [] else values ∷ []

abbrev pub values_of : List (ℕ × List Bytes) → List (List Bytes)
values_of [] = []
values_of ((t, values) ∷ l) = values ∷ values_of l

module _ (S : Simulator Call) where
  open S use {Sim, now}

  -- The timestamp and the values of a message.
  abbrev pub header : Bytes → Bytes → Outcome Granted
  header delimiter m = or_fatal (split delimiter m) out_of_fuel >>= read_header S

  unfoldable pub start_of : Bytes → List Bytes → Option ℤ → Option ℤ
  start_of delimiter [] reference = reference
  start_of delimiter (m ∷ ms) reference =
      start_of delimiter ms (start_after (header delimiter m) reference)

  -- The calls of DoUpdate that the messages ask for.
  unfoldable pub granted : Bytes → List Bytes → Option ℤ → List Granted
  granted delimiter [] reference = []
  granted delimiter (m ∷ ms) reference =
      granted_by (header delimiter m) reference
      ++ granted delimiter ms (start_after (header delimiter m) reference)

  -- The values of the calls of DoInitialize and DoUpdate that the messages ask for.
  unfoldable pub delivered : Bytes → List Bytes → List (List Bytes)
  delivered delimiter [] = []
  delivered delimiter (m ∷ ms) = delivered_by (header delimiter m) ++ delivered delimiter ms

  -- The values of the calls of DoInitialize and DoUpdate in a run.
  abbrev pub called_in : {s t : System Sim} → Step S s t → List (List Bytes)
  called_in (event c actions sim w j ns n x) = values_of (add_call (now sim) (callback_values c) [])
  called_in (thread r) = []
  called_in (stop_event sim j n) = []
  called_in (destroy j) = []
  called_in (joined b j e) = []

  unfoldable pub called : {s : System Sim} → Reach S s → List (List Bytes)
  called (start net w w' f e) = []
  called (later r st) = called r ++ called_in st

  -- The calls of DoUpdate in a run, with the clock at which they were made.
  abbrev pub handled_in : {s t : System Sim} → Step S s t → List (ℕ × List Bytes)
  handled_in (event c actions sim w j ns n x) = add_update (now sim) c []
  handled_in (thread r) = []
  handled_in (stop_event sim j n) = []
  handled_in (destroy j) = []
  handled_in (joined b j e) = []

  unfoldable pub handled : {s : System Sim} → Reach S s → List (ℕ × List Bytes)
  handled (start net w w' f e) = []
  handled (later r st) = handled r ++ handled_in st
