-- ===== src/TriggeredSend/Live.antt =====
-- What each function of the application does to the invariant: at most one call of SendPacket is
-- pending, m_sendPacketEvent names it, and the socket exists while it is.
use ns3_cosim.Common.{
  ℕ, suc, ◌≡◌, refl, sym, ap, subst, ◌∙◌, inl, inr, Bool, true, false, ◌&&◌, some, arith,
  if◌then◌else◌, Bool-cases, ◌==◌, ℤ,
}
use ns3_cosim.Simulator.{Simulator}
use ns3_cosim.Simulator.Queue.{count, count-cons, count-insert_event, has_uid-count_zero}
use ns3_cosim.TriggeredSend.{
  Call, process_send_request, send_packet, other, World, ok, send, cancel_events, do_dispose,
  start_application, stop_application, connection_succeeded, process_request, send_one, execute,
  request, transmit, open_socket, is_invalid, is_incompatible, is_failure, bind_result, bind_call,
}
use ns3_cosim.TriggeredSend.Pending.{
  is_send, IsSingle, IsLive, schedule-IsSingle, schedule_send-IsSingle, next-IsSingle,
  cancel_events-IsLive, not_pending-count,
}

pub ok-injective {ℓ} : {A : Type ℓ} {a b : A} → ok a ≡ ok b → a ≡ b
ok-injective h = cc

module _ (S : Simulator Call) where
  open S use {Sim, now, events, destroy_events, issued, schedule, cancel, is_pending, next}

  schedule-count :
      (s : Sim) (d : ℕ) (c : Call)
      → is_send c ≡ false
      → count is_send (events (schedule s d c).0) ≡ count is_send (events s)
  schedule-count s d c f = rw (S.schedule-events s d c, count-insert_event, f)

  pub schedule-IsLive :
      (w : World Sim) (d : ℕ) (c : Call)
      → is_send c ≡ false
      → IsLive S w
      → IsLive S (record w { sim = (schedule w.sim d c).0 })
  schedule-IsLive w d c f h = record {
    single = schedule-IsSingle S w.app.send_event w.sim d c f h.single;
    live = rw (schedule-count w.sim d c f) h.live;
  }

  pub send-IsLive : (n : ℕ) (w : World Sim) → IsLive S w → IsLive S (send S n w)
  unfolding send
  send-IsLive n w h = elim (Bool-cases (n == 0)) [
    | inl e ↦ rw e h
    | inr e ↦ rw e (schedule-IsLive w 0 (process_send_request n) refl h)
  ]

  request-IsLive :
      (n : ℕ) (w : World Sim) → w.app.has_socket ≡ true → IsLive S w → IsLive S (request S n w)
  unfolding request
  request-IsLive n w k h = elim (Bool-cases (is_pending w.sim w.app.send_event)) [
    | inl e ↦ rw e (record { single = h.single; live = h.live })
    | inr e ↦ rw e (record {
      single =
          schedule_send-IsSingle S w.app.send_event w.sim 0
            (not_pending-count S w.app.send_event w.sim h.single e) h.single;
      live = inl k;
    })
  ]

  process_request-IsLive : (n : ℕ) (w : World Sim) → IsLive S w → IsLive S (process_request S n w)
  unfolding process_request
  process_request-IsLive n w h = elim (Bool-cases (w.app.has_socket && w.app.connected)) [
    | inl e ↦ rw e (request-IsLive n w (ground arith) h)
    | inr e ↦ rw e h
  ]

  transmit-IsLive :
      (sent : ℕ) (w : World Sim)
      → w.app.has_socket ≡ true
      → count is_send (events w.sim) ≡ 0
      → IsLive S w
      → IsLive S (transmit S sent w)
  unfolding transmit
  transmit-IsLive sent w k z h = record {
    single = schedule_send-IsSingle S w.app.send_event w.sim w.app.packet_interval z h.single;
    live = inl k;
  }

  -- Before SendPacket runs: no other call of it is pending, and there is a socket.
  pub record IsReady (w : World Sim) : Type 0 where
    pub alive : IsLive S w
    pub expired : is_pending w.sim w.app.send_event ≡ false
    pub none_left : count is_send (events w.sim) ≡ 0

  pub pending-count :
      (u : ℕ) (s : Sim) → IsSingle S u s → count is_send (events s) ≡ 0 → is_pending s u ≡ false
  pending-count u s h z =
      rw (S.is_pending_lem s u, has_uid-count_zero is_send u (events s) z h.only) h.no_destroy

  send_one-IsLive :
      (sent : ℕ) (w w' : World Sim)
      → w.app.has_socket ≡ true
      → IsReady w
      → send_one S sent w ≡ ok w'
      → IsLive S w'
  unfolding send_one
  send_one-IsLive sent w w' k h e = subst (IsLive S) (ok-injective (rw h.expired at e)) next_state
    where
      next_state : IsLive S (if w.app.packet_count == 0 then w else transmit S sent w)
      next_state = elim (Bool-cases (w.app.packet_count == 0)) [
        | inl q ↦ rw q h.alive
        | inr q ↦ rw q (transmit-IsLive sent w k h.none_left h.alive)
      ]

  next-count :
      (s s' : Sim) (c : Call)
      → next s ≡ some (c, s')
      → count is_send (events s)
        ≡ (if is_send c then suc (count is_send (events s')) else count is_send (events s'))
  next-count s s' c n =
      let (e, es, q, call, rest, time, ids) = S.next-events s s' c n in
      ap (count is_send) q ∙ count-cons is_send e es ∙ (λ i.
        if is_send (call i) then suc (count is_send (sym rest i)) else count is_send (sym rest i))

  -- The simulator takes an event: what holds when its function begins.
  next-IsLive :
      (w : World Sim) (c : Call) (sim : Sim)
      → next w.sim ≡ some (c, sim)
      → IsLive S w
      → IsLive S (record w { sim = sim })
  next-IsLive w c sim n h = record {
    single = (next-IsSingle S w.app.send_event w.sim sim c n h.single).0;
    live = ground (arith, h.live, next-count w.sim sim c n);
  }

  -- When the simulator runs SendPacket there is a socket, and m_sendPacketEvent has expired.
  pub next-IsReady :
      (w : World Sim) (sim : Sim)
      → next w.sim ≡ some (send_packet, sim)
      → IsLive S w
      → (w.app.has_socket ≡ true) × IsReady (record w { sim = sim })
  next-IsReady w sim n h =
      let (single, z) = next-IsSingle S w.app.send_event w.sim sim send_packet n h.single in
      (
        ground (arith, h.live, next-count w.sim sim send_packet n),
        record {
          alive = next-IsLive w send_packet sim n h;
          expired = pending-count w.app.send_event sim single (z refl);
          none_left = z refl;
        },
      )

  pub execute-IsLive :
      (c : Call) (sent : ℕ) (w w' : World Sim) (sim : Sim)
      → next w.sim ≡ some (c, sim)
      → execute S c sent (record w { sim = sim }) ≡ ok w'
      → IsLive S w
      → IsLive S w'
  unfolding execute
  execute-IsLive (process_send_request m) sent w w' sim n e h =
      subst (IsLive S) (ok-injective e) (process_request-IsLive m _ (next-IsLive w _ sim n h))
  execute-IsLive send_packet sent w w' sim n e h =
      let (k, r) = next-IsReady w sim n h in send_one-IsLive sent _ w' k r e
  execute-IsLive (other m) sent w w' sim n e h =
      subst (IsLive S) (ok-injective e) (next-IsLive w _ sim n h)

  cancelled-IsLive : (w : World Sim) → IsLive S w → IsLive S (cancel_events S w)
  cancelled-IsLive w h =
      let (s, z, e) = cancel_events-IsLive S w h.single in
      record { single = rw (ap (λ a. a.send_event) e) s; live = inr z }

  open_socket-IsLive :
      (result : ℤ) (w w' : World Sim) → open_socket S result w ≡ ok w' → IsLive S w → IsLive S w'
  unfolding open_socket
  open_socket-IsLive result w w' e h = elim (Bool-cases (is_invalid w.app.peer)) [
    | inl p ↦ absurd (cc (rw p at e))
    | inr p ↦ elim (Bool-cases (is_incompatible w.app.local_address w.app.peer)) [
      | inl q ↦ absurd (cc (rw (p, q) at e))
      | inr q ↦
          elim (Bool-cases
            (is_failure (bind_result (bind_call w.app.local_address w.app.peer) result))) [
              | inl r ↦ absurd (cc (rw (p, q, r) at e))
              | inr r ↦
                  subst (IsLive S) (ok-injective (rw (p, q, r) at e))
                    (cancelled-IsLive _ (record { single = h.single; live = inl refl }))
            ]
    ]
  ]

  pub start-IsLive :
      (result : ℤ) (w w' : World Sim)
      → start_application S result w ≡ ok w'
      → IsLive S w
      → IsLive S w'
  unfolding start_application
  start-IsLive result w w' e h = start w.app.has_socket e
    where
      start :
          (b : Bool)
          → (if b then ok (cancel_events S w) else open_socket S result w) ≡ ok w'
          → IsLive S w'
      start true q = subst (IsLive S) (ok-injective q) (cancelled-IsLive w h)
      start false q = open_socket-IsLive result w w' q h

  pub stop-IsLive : (w : World Sim) → IsLive S w → IsLive S (stop_application S w)
  unfolding stop_application
  stop-IsLive w h =
      let k = cancelled-IsLive w h in
      elim (Bool-cases ((cancel_events S w).app.has_socket)) [
        | inl p ↦ rw p (record { single = k.single; live = k.live })
        | inr p ↦ rw p k
      ]

  pub dispose-IsLive : (w : World Sim) → IsLive S w → IsLive S (do_dispose S w)
  unfolding do_dispose
  dispose-IsLive w h =
      let (s, z, e) = cancel_events-IsLive S w h.single in
      record { single = rw (ap (λ a. a.send_event) e) s; live = inr z }

  pub connected-IsLive : (w : World Sim) → IsLive S w → IsLive S (connection_succeeded S w)
  unfolding connection_succeeded
  connected-IsLive w h = record { single = h.single; live = h.live }
