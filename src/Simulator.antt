-- ===== src/Simulator.antt =====
-- The interface of ns-3's Simulator, which is not part of this repository: the calls that the
-- sources make, and what they rely on. Times are whole nanoseconds (the resolution that
-- examples/simple-gateway.cc sets), and an EventId is known by its number. `events s` lists the
-- pending events in the order in which they will run: by time, and in the order of scheduling
-- among those of one time.
pub mod Queue
pub mod Clock
use ns3_cosim.Common.{
  ℕ, zero, suc, ◌+◌, ◌≤◌, ◌<◌, ◌≡◌, Bool, true, false, ◌||◌, List, [], ◌∷◌, Option, none, some,
  ◌==◌, leb, if◌then◌else◌, ℤ, pos, negsuc,
}

pub record Event (Call : Type 0) : Type 0 where
  pub time : ℕ
  pub uid : ℕ
  pub call : Call

module _ {Call : Type 0} where
  -- Behind every event of the same time.
  unfoldable pub insert_event : Event Call → List (Event Call) → List (Event Call)
  insert_event e [] = e ∷ []
  insert_event e (f ∷ es) =
      let later = insert_event e es in if leb f.time e.time then f ∷ later else e ∷ f ∷ es

  unfoldable pub without : ℕ → List (Event Call) → List (Event Call)
  without u [] = []
  without u (e ∷ es) = let rest = without u es in if e.uid == u then rest else e ∷ rest

  unfoldable pub has_uid : ℕ → List (Event Call) → Bool
  has_uid u [] = false
  has_uid u (e ∷ es) = e.uid == u || has_uid u es

-- `schedule s d c` is Schedule, ScheduleNow (d = 0) and ScheduleWithContext; it returns the EventId.
-- `next` takes the first pending event and sets the clock to its time. `issued` is above the number
-- of every EventId handed out so far.
pub record Simulator (Call : Type 0) : Type 1 where
  pub Sim : Type 0
  pub now : Sim → ℕ
  pub events : Sim → List (Event Call)
  pub destroy_events : Sim → List (Event Call)
  pub issued : Sim → ℕ
  pub stopped : Sim → Bool
  pub schedule : Sim → ℕ → Call → Sim × ℕ
  pub schedule_destroy : Sim → Call → Sim × ℕ
  pub cancel : Sim → ℕ → Sim
  pub is_pending : Sim → ℕ → Bool
  pub stop : Sim → Sim
  pub next : Sim → Option (Call × Sim)
  pub seconds : ℤ → ℤ
  pub nano_seconds : ℤ → ℤ
  pub schedule-now : (s : Sim) (d : ℕ) (c : Call) → now (schedule s d c).0 ≡ now s
  pub schedule-events :
      (s : Sim) (d : ℕ) (c : Call)
      → events (schedule s d c).0
        ≡ insert_event (record { time = now s + d; uid = (schedule s d c).1; call = c }) (events s)
  pub schedule-uid :
      (s : Sim) (d : ℕ) (c : Call)
      → (issued s ≤ (schedule s d c).1) × ((schedule s d c).1 < issued (schedule s d c).0)
  pub schedule_destroy-now : (s : Sim) (c : Call) → now (schedule_destroy s c).0 ≡ now s
  pub schedule_destroy-events : (s : Sim) (c : Call) → events (schedule_destroy s c).0 ≡ events s
  pub schedule_destroy-uid :
      (s : Sim) (c : Call)
      → (issued s ≤ (schedule_destroy s c).1)
        × ((schedule_destroy s c).1 < issued (schedule_destroy s c).0)
  pub cancel-now : (s : Sim) (u : ℕ) → now (cancel s u) ≡ now s
  pub cancel-events : (s : Sim) (u : ℕ) → events (cancel s u) ≡ without u (events s)
  pub cancel-issued : (s : Sim) (u : ℕ) → issued (cancel s u) ≡ issued s
  pub is_pending_lem :
      (s : Sim) (u : ℕ) → is_pending s u ≡ (has_uid u (events s) || has_uid u (destroy_events s))
  pub cancel-destroy_events :
      (s : Sim) (u : ℕ) → destroy_events (cancel s u) ≡ without u (destroy_events s)
  pub stop-now : (s : Sim) → now (stop s) ≡ now s
  pub stop-events : (s : Sim) → events (stop s) ≡ events s
  pub stop-stopped : (s : Sim) → stopped (stop s) ≡ true
  pub schedule-stopped : (s : Sim) (d : ℕ) (c : Call) → stopped (schedule s d c).0 ≡ stopped s
  pub next-stopped : (s s' : Sim) (c : Call) → next s ≡ some (c, s') → stopped s' ≡ stopped s
  pub stop-issued : (s : Sim) → issued (stop s) ≡ issued s
  pub next-events :
      (s s' : Sim) (c : Call)
      → next s ≡ some (c, s')
      → (e : Event Call) × (es : List (Event Call)) × (events s ≡ e ∷ es)
        × (e.call ≡ c)
        × (events s' ≡ es)
        × (now s' ≡ e.time)
        × (issued s' ≡ issued s)
  pub schedule-destroy_events :
      (s : Sim) (d : ℕ) (c : Call) → destroy_events (schedule s d c).0 ≡ destroy_events s
  pub next-destroy_events :
      (s s' : Sim) (c : Call) → next s ≡ some (c, s') → destroy_events s' ≡ destroy_events s
  pub next-cons :
      (s : Sim) (e : Event Call) (es : List (Event Call))
      → events s ≡ e ∷ es
      → (s' : Sim) × (next s ≡ some (e.call, s'))
  pub next-nil : (s : Sim) → events s ≡ [] → next s ≡ none
