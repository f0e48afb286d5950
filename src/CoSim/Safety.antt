-- ===== src/CoSim/Safety.antt =====
-- The simulated time, and the calls of Gateway::ForwardUp, in the reachable states.
use ns3_cosim.Common.{
  ℕ, suc, ◌+◌, ◌≡◌, ◌≢◌, refl, sym, subst, ◌⊎◌, inl, inr, true, List, [], ◌∷◌, Option, none, some,
  arith, Bool-cases, ℤ, pos, negsuc, length, Bytes,
}
use ns3_cosim.Simulator.{Simulator}
use ns3_cosim.Protocol.Split.{split_cuts}
use ns3_cosim.Gateway.{
  Call, World, Outcome, ok, fatal, or_fatal, ◌>>=◌, invalid_header, time_not_increasing,
  out_of_fuel, Action, forward_up, is_connected, is_negative,
}
use ns3_cosim.Gateway.Handlers.{
  execute, forward, forward_next, read_header, process, timestamp, advance, cancel_pending,
}
use ns3_cosim.Text.Number.{stoi, stol}
use ns3_cosim.CoSim.{System, Reach, taken}
use ns3_cosim.CoSim.Sound.{forwards}
use ns3_cosim.CoSim.Held.{Advance, next-Advance}
use ns3_cosim.CoSim.Stream.{in_flight}
use ns3_cosim.CoSim.Invariant.{Reach-Inv, next-IsTaken}

module _ (S : Simulator Call) where
  open S use {Sim, next}

  -- While the gateway is connected, the next event of the simulator lies at the current time, or a
  -- call of HandleUpdate is pending at m_timePause and the next event is no later than that: the
  -- simulation never passes the last timestamp that ForwardUp accepted, whatever the model and the
  -- derived class schedule and however the two threads interleave.
  pub time_held :
      (s : System Sim) (c : Call) (sim : Sim)
      → Reach S s
      → is_connected s.gateway.state ≡ true
      → next s.sim ≡ some (c, sim)
      → Advance S s.gateway.time_pause s.sim sim
  time_held s c sim r con n =
      let h = (Reach-Inv S r).main in next-Advance S _ _ _ s.sim sim c n h.sound (h.held con)

  -- How ForwardUp can end: it returns, or refuses the header or the timestamp of the message.
  abbrev pub Ends : Outcome (World Sim) → Type 0
  Ends (ok w) = Unit {0}
  Ends (fatal e) = (e ≡ invalid_header) ⊎ (e ≡ time_not_increasing)

  advance-Ends : (p d : ℤ) (values : List Bytes) (w : World Sim) → Ends (advance S p d values w)
  unfolding advance
  advance-Ends p (pos d) values w = tt
  advance-Ends p (negsuc d) values w = inr refl

  process-Ends : (t : ℤ) (values : List Bytes) (w : World Sim) → Ends (process S t values w)
  unfolding process
  process-Ends t values w = elim (Bool-cases (is_negative t)) [
    | inl e ↦ rw e tt
    | inr e ↦ elim (Bool-cases (is_negative w.gateway.time_start)) [
      | inl f ↦ rw (e, f) tt
      | inr f ↦ rw (e, f) (advance-Ends _ _ values (cancel_pending S w.gateway.event_wait w))
    ]
  ]

  header-Ends :
      (a b : Option ℤ) (values : List Bytes) (w : World Sim)
      → Ends (
          (timestamp S a b >>= λ t. ok (t, values)) >>= λ (h : ℤ × List Bytes). process S h.0 h.1 w)
  unfolding timestamp
  header-Ends none b values w = inl refl
  header-Ends (some a) none values w = inl refl
  header-Ends (some a) (some b) values w = process-Ends _ values w

  read-Ends :
      (l : List Bytes) (w : World Sim)
      → Ends (read_header S l >>= λ (h : ℤ × List Bytes). process S h.0 h.1 w)
  unfolding read_header
  read-Ends [] w = inl refl
  read-Ends (a ∷ []) w = inl refl
  read-Ends (a ∷ b ∷ values) w = header-Ends (stoi a) (stol b) values w

  forward-Ends :
      (w : World Sim) (m : Bytes) (q : List Bytes)
      → w.gateway.delimiter_field ≢ []
      → w.gateway.message_queue ≡ m ∷ q
      → Ends (forward S w)
  unfolding forward forward_next
  forward-Ends w m q ne e =
      let (v, vs, r, j, l) = split_cuts w.gateway.delimiter_field m ne in
      subst (λ l. Ends (forward_next S l w)) (sym e)
        (subst
          (λ o. Ends (
            or_fatal o out_of_fuel >>= λ values. read_header S values >>= λ (h : ℤ × List Bytes).
            process S h.0 h.1 (record w { gateway = record (w.gateway) { message_queue = q } })))
          (sym r) (read-Ends (v ∷ vs) _))

  counted_queue :
      (n k : ℕ) (l : List Bytes)
      → suc n + k ≡ length l
      → (m : Bytes) × (q : List Bytes) × (l ≡ m ∷ q)
  counted_queue n k [] h = absurd (omega arith)
  counted_queue n k (m ∷ q) h = (m, q, refl)

  -- When the simulator runs ForwardUp there is a message in the queue and the splitting loop ends:
  -- the function returns, or it refuses the message for its header or its timestamp.
  pub forward_served :
      (s : System Sim) (sim : Sim) (actions : List Action)
      → Reach S s
      → next s.sim ≡ some (forward_up, sim)
      → Ends (execute S forward_up actions (taken S s sim))
  unfolding execute
  forward_served s sim actions r n =
      let h = Reach-Inv S r in
      let k = next-IsTaken S (in_flight s.thread) forward_up s.world sim n h.main in
      let (m, q, e) = counted_queue (forwards S sim) (in_flight s.thread) _ k.counted in
      forward-Ends (taken S s sim) m q h.has_field e
