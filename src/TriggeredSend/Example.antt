-- ===== src/TriggeredSend/Example.antt =====
-- examples/triggered-send-example.cc: the function Transmit, and the calls of it that `main` schedules.
-- Times are nanoseconds. The application is started, and its socket is connected.
use ns3_cosim.Common.{ℕ, zero, suc, List, [], ◌∷◌, Option, none, some}
use ns3_cosim.Simulator.{Simulator}
use ns3_cosim.TriggeredSend.{Call, other, Application, World, Outcome, ok, fatal, send, execute}

-- The attributes that `main` sets.
abbrev pub client : Application → Application
client a = record a { packet_size = 1024; packet_interval = 200000000 }

-- The times of the four cases.
abbrev pub transmit_times : List ℕ
transmit_times =
    3000000000 ∷ 4000000000 ∷ 4500000000 ∷ 6000000000 ∷ 6900000000 ∷ 8000000000 ∷ 8400000000 ∷ []

module _ (S : Simulator Call) where
  open S use {Sim, schedule, next}

  -- Transmit
  pub send_five : World Sim → World Sim
  send_five w = send S 5 w

  -- An `other` event is a call of Transmit.
  pub schedule_all : List ℕ → World Sim → World Sim
  schedule_all [] w = w
  schedule_all (t ∷ ts) w = schedule_all ts (record w { sim = (schedule w.sim t (other 0)).0 })

  pub execute_event : Call → ℕ → World Sim → Outcome (World Sim)
  unfolding send_five
  execute_event (other n) sent w = ok (send_five w)
  execute_event c sent w = execute S c sent w

  pub execute_next : Option (Call × Sim) → ℕ → World Sim → Outcome (World Sim)
  unfolding execute_event
  execute_next none sent w = ok w
  execute_next (some (c, sim)) sent w = execute_event c sent (record w { sim = sim })

  -- Simulator::Run, for at most `fuel` events; each call of Socket::Send returns `sent`.
  unfoldable pub run_events : ℕ → ℕ → World Sim → Outcome (World Sim)
  unfolding execute_next
  run_events zero sent w = ok w
  run_events (suc fuel) sent w = elim (execute_next (next w.sim) sent w) [
    | ok w' ↦ run_events fuel sent w'
    | fatal e ↦ fatal e
  ]

  unfoldable pub example : ℕ → ℕ → World Sim → Outcome (World Sim)
  unfolding schedule_all run_events
  example fuel sent w = run_events fuel sent (schedule_all transmit_times w)
