-- ===== src/CoSim/Order.antt =====
-- The order in which the updates reach the derived class.
use ns3_cosim.Common.{
  ℕ, ◌+◌, ◌≤◌, ◌≡◌, ◌≢◌, refl, sym, ap, subst, ◌∙◌, inl, inr, true, false, List, [], ◌∷◌, ◌++◌,
  some, Bytes, arith, Bool-cases, All, ℤ, pos, negsuc, ◌-ℤ◌, ◌≤ℤ◌, delay_reaches,
}
use ns3_cosim.Text.Number.{stoi, stol}
use ns3_cosim.Protocol.{split}
use ns3_cosim.Simulator.{Simulator, Event}
use ns3_cosim.Simulator.Queue.{All-without, All-map}
use ns3_cosim.Gateway.{
  Call, World, ok, ok-injective, Action, stop, forward_up, handle_update, is_negative,
}
use ns3_cosim.Gateway.Handlers.{
  cancel_pending, timestamp, read_header, advance, process, forward, forward_next, execute,
}
use ns3_cosim.Gateway.Timestamps.{target, process_grants}
use ns3_cosim.CoSim.{System, Reach, taken}
use ns3_cosim.CoSim.Sound.{next-IsSound}
use ns3_cosim.CoSim.Held.{is_update}
use ns3_cosim.CoSim.Main.{SoundWorld, cancel_wait-IsCancelled, IsCancelled-SoundWorld}
use ns3_cosim.CoSim.Updates.{
  Choice, update_values, IsForwardOnly, update_values-IsForwardOnly, is_update-update_values,
  add_call, add_update, chosen, updates, IsUpTo, chosen-insert_last,
}
use ns3_cosim.CoSim.Quiet.{execute-IsQuiet, cancel_wait-IsQuiet}
use ns3_cosim.CoSim.Invariant.{Reach-Inv}

pub pos-le : (m n : ℕ) → pos m ≤ℤ pos n → m ≤ n
pos-le m n h = omega (arith, h)

-- A chosen call is not later than `t`.
abbrev pub IsBefore : Choice → ℤ → Event Call → Type 0
IsBefore choice t e = (values : List Bytes) → choice e.call ≡ some values → pos e.time ≤ℤ t

module _ (S : Simulator Call) where
  open S use {Sim, now, events, schedule, cancel, is_pending, next}

  pub next-chosen :
      (choice : Choice) (s s' : Sim) (c : Call)
      → next s ≡ some (c, s')
      → chosen choice (events s) ≡ add_call (now s') (choice c) (chosen choice (events s'))
  unfolding chosen
  next-chosen choice s s' c n =
      let (e, es, l, call, rest, time, ids) = S.next-events s s' c n in
      ap (chosen choice) l
      ∙ (λ i. add_call (sym time i) (choice (call i)) (chosen choice (sym rest i)))

  pub taken-SoundWorld :
      (s : System Sim) (c : Call) (sim : Sim)
      → Reach S s
      → next s.sim ≡ some (c, sim)
      → SoundWorld S (taken S s sim)
  taken-SoundWorld s c sim r n = next-IsSound S _ _ s.sim sim c n (Reach-Inv S r).main.sound

  -- The pending calls of HandleUpdate, with their times and values, form a queue: in a reachable
  -- state an event that is neither a call of ForwardUp nor of Stop takes its own off the front, if it
  -- is one, and leaves the others as they are, whatever the derived class does in it.
  pub updates_from_front :
      (s : System Sim) (c : Call) (actions : List Action) (sim : Sim) (w' : World Sim)
      → Reach S s
      → c ≢ stop
      → c ≢ forward_up
      → next s.sim ≡ some (c, sim)
      → execute S c actions (taken S s sim) ≡ ok w'
      → updates (events s.sim) ≡ add_update (now sim) c (updates (events w'.sim))
  updates_from_front s c actions sim w' r ns nf n x =
      next-chosen update_values s.sim sim c n
      ∙ ap (add_update (now sim) c) (
          sym (
            (execute-IsQuiet S c actions (taken S s sim) w' ns nf (taken-SoundWorld s c sim r n)
                x).same_calls
              update_values update_values-IsForwardOnly))

  advance-chosen :
      (choice : Choice) (pause delta : ℤ) (values : List Bytes) (w w' : World Sim)
      → choice (handle_update values) ≡ some values
      → pause -ℤ pos (now w.sim) ≡ delta
      → advance S pause delta values w ≡ ok w'
      → SoundWorld S w
      → All (IsBefore choice pause) (events w.sim)
      → (p : ℕ) × (pos p ≡ pause)
        × (chosen choice (events w'.sim) ≡ chosen choice (events w.sim) ++ ((p, values) ∷ []))
  unfolding advance
  advance-chosen choice pause (negsuc d) values w w' u e h sound before = cc
  advance-chosen choice pause (pos d) values w w' u e h sound before =
      let q = delay_reaches pause (now w.sim) d e in
      (
        now w.sim + d,
        sym q,
        ap (λ v. chosen choice (events v.sim)) (sym (ok-injective h))
            ∙ ap (chosen choice) (S.schedule-events w.sim d (handle_update values))
            ∙ chosen-insert_last choice (now w.sim) _ values (events w.sim) u sound.ordered (
                All-map (IsBefore choice pause) (IsUpTo choice (now w.sim + d))
                  (λ f b v k. pos-le f.time _ (subst (λ z. pos f.time ≤ℤ z) q (b v k)))
                  (events w.sim) before),
      )

  cancel_wait-All :
      (P : Event Call → Type 0) (w : World Sim)
      → All P (events w.sim)
      → All P (events (cancel_pending S w.gateway.event_wait w).sim)
  unfolding cancel_pending
  cancel_wait-All P w h = elim (Bool-cases (is_pending w.sim w.gateway.event_wait)) [
    | inl e ↦
        rw (e, S.cancel-events w.sim w.gateway.event_wait)
          (All-without P w.gateway.event_wait (events w.sim) h)
    | inr e ↦ rw e h
  ]

  pub process-chosen :
      (choice : Choice) (t : ℤ) (values : List Bytes) (w w' : World Sim)
      → IsForwardOnly choice
      → choice (handle_update values) ≡ some values
      → is_negative t ≡ false
      → is_negative w.gateway.time_start ≡ false
      → process S t values w ≡ ok w'
      → SoundWorld S w
      → All (IsBefore choice (target S t w)) (events w.sim)
      → (p : ℕ) × (pos p ≡ target S t w)
        × (chosen choice (events w'.sim) ≡ chosen choice (events w.sim) ++ ((p, values) ∷ []))
  unfolding process
  process-chosen choice t values w w' f u a b h sound before =
      let v = cancel_pending S w.gateway.event_wait w in
      let c = cancel_wait-IsCancelled S w in
      let start = ap (λ g. target S t (record w { gateway = g })) c.same_gateway in
      let (p, at, back) =
        advance-chosen choice (target S t v) _ values v w' u refl (rw (a, b) at h)
          (IsCancelled-SoundWorld S w v c sound)
          (cancel_wait-All (IsBefore choice (target S t v)) w
            (subst (λ z. All (IsBefore choice z) (events w.sim)) (sym start) before)) in
      (
        p,
        at ∙ start,
        back
            ∙ ap (λ l. l ++ ((p, values) ∷ []))
                ((cancel_wait-IsQuiet S w sound).same_calls choice f),
      )

  forward_next-process :
      (w : World Sim) (m seconds nanoseconds : Bytes) (queue values : List Bytes) (t : ℤ)
      → w.gateway.message_queue ≡ m ∷ queue
      → split w.gateway.delimiter_field m ≡ some (seconds ∷ nanoseconds ∷ values)
      → timestamp S (stoi seconds) (stol nanoseconds) ≡ ok t
      → forward S w
        ≡ process S t values (record w { gateway = record (w.gateway) { message_queue = queue } })
  unfolding forward forward_next read_header
  forward_next-process w m seconds nanoseconds queue values t q e h =
      ap (λ l. forward_next S l w) q ∙ rw (e, h)

  -- Messages that arrive with timestamps that do not decrease reach the derived class in order: when
  -- ForwardUp takes a message whose timestamp is no negative one and not the first one, and whose time
  -- is neither before the clock nor before a pending update, it returns and puts the update with the
  -- message's values and time behind all pending ones, which stay as they are.
  pub updates_to_back :
      (s : System Sim) (actions : List Action) (sim : Sim) (m seconds nanoseconds : Bytes)
      (queue values : List Bytes) (t : ℤ)
      → Reach S s
      → next s.sim ≡ some (forward_up, sim)
      → s.gateway.message_queue ≡ m ∷ queue
      → split s.gateway.delimiter_field m ≡ some (seconds ∷ nanoseconds ∷ values)
      → timestamp S (stoi seconds) (stol nanoseconds) ≡ ok t
      → is_negative t ≡ false
      → is_negative s.gateway.time_start ≡ false
      → pos (now sim) ≤ℤ t -ℤ s.gateway.time_start
      → All (λ e. is_update e.call ≡ true → pos e.time ≤ℤ t -ℤ s.gateway.time_start) (events sim)
      → (w' : World Sim) × (execute S forward_up actions (taken S s sim) ≡ ok w')
        × ((p : ℕ) × (pos p ≡ t -ℤ s.gateway.time_start)
            × (updates (events w'.sim) ≡ updates (events s.sim) ++ ((p, values) ∷ [])))
  unfolding execute
  updates_to_back s actions sim m seconds nanoseconds queue values t r n q e h a b late before =
      let w = record (taken S s sim) { gateway = record (s.gateway) { message_queue = queue } } in
      let sound = taken-SoundWorld s forward_up sim r n in
      let (w', ran, granted) = process_grants S t values w a b sound.wait_issued late in
      let (p, at, back) =
        process-chosen update_values t values w w' update_values-IsForwardOnly refl a b ran sound (
          All-map (λ e. is_update e.call ≡ true → pos e.time ≤ℤ t -ℤ s.gateway.time_start)
            (IsBefore update_values (t -ℤ s.gateway.time_start))
            (λ e h v k. h (is_update-update_values e.call v k)) (events sim) before) in
      (
        w',
        forward_next-process (taken S s sim) m seconds nanoseconds queue values t q e h ∙ ran,
        (
          p,
          at,
          back
              ∙ ap (λ l. l ++ ((p, values) ∷ []))
                  (sym (next-chosen update_values s.sim sim forward_up n)),
        ),
      )
