-- ===== src/TriggeredSend/Lifecycle.antt =====
-- The application over its life: every call of its functions, in any order, and every event.
use ns3_cosim.Common.{
  ℕ, ◌≤◌, ◌<◌, ◌≡◌, ◌≢◌, refl, ap, ◌∙◌, inl, inr, true, false, some, arith, if◌then◌else◌,
  Bool-cases, All, ◌==◌, ℤ,
}
use ns3_cosim.Simulator.{Simulator, Event, has_uid}
use ns3_cosim.Simulator.Queue.{All-map, count, count-eq-zero}
use ns3_cosim.TriggeredSend.{
  Call, send_packet, other, World, ok, send, cancel_events, do_dispose, start_application,
  stop_application, connection_succeeded, send_one, execute, transmit,
}
use ns3_cosim.TriggeredSend.Live.{
  schedule-IsLive, send-IsLive, next-IsReady, execute-IsLive, start-IsLive, stop-IsLive,
  dispose-IsLive, connected-IsLive,
}
use ns3_cosim.TriggeredSend.Pending.{is_send, IsLive, cancel_events-IsLive}

module _ (S : Simulator Call) where
  open S use {Sim, now, events, destroy_events, issued, schedule, cancel, is_pending, next}

  -- One step: the simulator runs an event, or the model calls a function of the application.
  pub data Step (w : World Sim) : World Sim → Type 0 where
    event :
        (c : Call) (sent : ℕ) (sim : Sim) (w' : World Sim)
        → next w.sim ≡ some (c, sim)
        → execute S c sent (record w { sim = sim }) ≡ ok w'
        → Step w w'
    sends : (n : ℕ) → Step w (send S n w)
    schedules : (delay n : ℕ) → Step w (record w { sim = (schedule w.sim delay (other n)).0 })
    starts : (result : ℤ) (w' : World Sim) → start_application S result w ≡ ok w' → Step w w'
    connects : Step w (connection_succeeded S w)
    stops : Step w (stop_application S w)
    disposes : Step w (do_dispose S w)

  pub data Reach (w : World Sim) : World Sim → Type 0 where
    here : Reach w w
    later : {u v : World Sim} → Reach w u → Step u v → Reach w v

  Step-IsLive : {w w' : World Sim} → Step w w' → IsLive S w → IsLive S w'
  Step-IsLive {w} (event c sent sim w' n e) h = execute-IsLive S c sent w w' sim n e h
  Step-IsLive {w} (sends n) h = send-IsLive S n w h
  Step-IsLive {w} (schedules d n) h = schedule-IsLive S w d (other n) refl h
  Step-IsLive {w} (starts r w' e) h = start-IsLive S r w w' e h
  Step-IsLive {w} connects h = connected-IsLive S w h
  Step-IsLive {w} stops h = stop-IsLive S w h
  Step-IsLive {w} disposes h = dispose-IsLive S w h

  -- No call of SendPacket was scheduled yet, and m_sendPacketEvent names no event.
  pub record IsFresh (w : World Sim) : Type 0 where
    pub no_send : All (λ (e : Event Call). is_send e.call ≡ false) (events w.sim)
    pub unnamed : All (λ (e : Event Call). e.uid ≢ w.app.send_event) (events w.sim)
    pub below : All (λ (e : Event Call). e.uid < issued w.sim) (events w.sim)
    pub destroy_below : All (λ (e : Event Call). e.uid < issued w.sim) (destroy_events w.sim)
    pub no_destroy : has_uid w.app.send_event (destroy_events w.sim) ≡ false
    pub issued_above : w.app.send_event < issued w.sim

  IsFresh-IsLive : (w : World Sim) → IsFresh w → IsLive S w
  IsFresh-IsLive w f =
      let z = count-eq-zero is_send (events w.sim) f.no_send in
      record {
        single = record {
          one = omega (arith, z);
          named =
              All-map (λ e. is_send e.call ≡ false)
                (λ e. is_send e.call ≡ true → e.uid ≡ w.app.send_event)
                (λ e p q. absurd (cc (p, q))) (events w.sim) f.no_send;
          only =
              All-map (λ e. e.uid ≢ w.app.send_event)
                (λ e. e.uid ≡ w.app.send_event → is_send e.call ≡ true) (λ e p q. absurd (p q))
                (events w.sim) f.unnamed;
          below = f.below;
          destroy_below = f.destroy_below;
          no_destroy = f.no_destroy;
          issued_above = f.issued_above;
        };
        live = inr z;
      }

  pub Reach-IsLive : {w w' : World Sim} → IsFresh w → Reach w w' → IsLive S w'
  Reach-IsLive {w} f here = IsFresh-IsLive w f
  Reach-IsLive f (later r st) = Step-IsLive st (Reach-IsLive f r)

  -- In every state that the application can reach, at most one call of SendPacket is pending; when it
  -- runs, its assertion holds and m_socket is not null.
  pub send_packet_safe :
      (w w' : World Sim) (sent : ℕ) (sim : Sim)
      → IsFresh w
      → Reach w w'
      → next w'.sim ≡ some (send_packet, sim)
      → (count is_send (events w'.sim) ≤ 1)
        × (w'.app.has_socket ≡ true)
        × ((v : World Sim) × (execute S send_packet sent (record w' { sim = sim }) ≡ ok v))
  unfolding execute send_one
  send_packet_safe w w' sent sim f r n =
      let h = Reach-IsLive f r in
      let (k, q) = next-IsReady S w' sim n h in
      (
        h.single.one,
        k,
        (
          (let v = record w' { sim = sim } in
              if w'.app.packet_count == 0 then v else transmit S sent v),
          rw q.expired,
        ),
      )

  stop_application-sim : (w : World Sim) → (stop_application S w).sim ≡ (cancel_events S w).sim
  unfolding stop_application
  stop_application-sim w = elim (Bool-cases ((cancel_events S w).app.has_socket)) [
    | inl p ↦ rw p
    | inr p ↦ rw p
  ]

  do_dispose-sim : (w : World Sim) → (do_dispose S w).sim ≡ (cancel_events S w).sim
  unfolding do_dispose
  do_dispose-sim w = refl

  -- Stopping or disposing of the application, in any state that it can reach, ends the send in
  -- progress: no call of SendPacket is pending afterwards.
  pub stop_ends_send :
      (w w' : World Sim)
      → IsFresh w
      → Reach w w'
      → (count is_send (events (stop_application S w').sim) ≡ 0)
        × (count is_send (events (do_dispose S w').sim) ≡ 0)
  stop_ends_send w w' f r =
      let (s, z, e) = cancel_events-IsLive S w' (Reach-IsLive f r).single in
      (
        ap (λ u. count is_send (events u)) (stop_application-sim w') ∙ z,
        ap (λ u. count is_send (events u)) (do_dispose-sim w') ∙ z,
      )
