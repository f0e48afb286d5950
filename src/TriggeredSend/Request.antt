-- ===== src/TriggeredSend/Request.antt =====
-- ProcessSendRequest: a request starts a send, or takes the place of the one in progress.
use ns3_cosim.Common.{
  ℕ, ◌+◌, ◌<◌, ◌≡◌, refl, ap, subst, ◌∙◌, true, false, [], ◌∷◌, ◌++◌, arith, All,
}
use ns3_cosim.Simulator.{Simulator, Event, has_uid, insert_event}
use ns3_cosim.Simulator.Queue.{count, count-nil, insert_event-nil}
use ns3_cosim.TriggeredSend.{Call, World, ok, send_packet, process_request, request}
use ns3_cosim.TriggeredSend.Pending.{is_send, IsSingle, schedule_send-IsSingle}
use ns3_cosim.TriggeredSend.Live.{pending-count}
use ns3_cosim.TriggeredSend.Burst.{IsSending, run, burst, send_times, spaced}

module _ (S : Simulator Call) where
  open S use {Sim, now, events, destroy_events, schedule, is_pending}

  named_pending : (e : Event Call) (u : ℕ) → e.uid ≡ u → has_uid u (e ∷ []) ≡ true
  unfolding has_uid
  named_pending e u h = ground arith

  IsSending-pending :
      (t k : ℕ) (w : World Sim) → IsSending S t k w → is_pending w.sim w.app.send_event ≡ true
  IsSending-pending t k w h =
      let named =
        subst (All λ e. is_send e.call ≡ true → e.uid ≡ w.app.send_event) h.only_event
          h.single.named in
      let uid = named.0 (ap is_send h.is_send_packet) in
      let has = ap (has_uid w.app.send_event) h.only_event ∙ named_pending h.pending _ uid in
      S.is_pending_lem w.sim w.app.send_event ∙ ground (arith, has)

  accepted :
      (n : ℕ) (w : World Sim)
      → w.app.has_socket ≡ true
      → w.app.connected ≡ true
      → process_request S n w ≡ request S n w
  unfolding process_request
  accepted n w s c = rw (s, c)

  replaced :
      (n : ℕ) (w : World Sim)
      → is_pending w.sim w.app.send_event ≡ true
      → request S n w ≡ record w { app = record (w.app) { packet_count = n } }
  unfolding request
  replaced n w p = rw p

  started :
      (n : ℕ) (w : World Sim)
      → is_pending w.sim w.app.send_event ≡ false
      → request S n w ≡ record w {
        app = record (w.app) { packet_count = n; send_event = (schedule w.sim 0 send_packet).1 };
        sim = (schedule w.sim 0 send_packet).0;
      }
  unfolding request
  started n w p = rw p

  request-IsSending :
      (t k n : ℕ) (w : World Sim)
      → IsSending S t k w
      → IsSending S t n (record w { app = record (w.app) { packet_count = n } })
  request-IsSending t k n w h = record {
    single = h.single;
    pending = h.pending;
    only_event = h.only_event;
    is_send_packet = h.is_send_packet;
    at_time = h.at_time;
    remaining = refl;
  }

  -- A request for `n` packets that comes while `k` packets remain, with the next one due at `t`, takes
  -- the place of the send in progress: exactly `n` packets are sent from then on, the first at `t`
  -- and each one packet interval behind the one before, and then the application is idle. The socket
  -- is connected, and no other event disturbs.
  pub request_replaces :
      (t k n fuel : ℕ) (sent : ℕ → ℕ) (w : World Sim)
      → n < fuel
      → w.app.has_socket ≡ true
      → w.app.connected ≡ true
      → IsSending S t k w
      → (w' : World Sim) × (run S fuel sent (process_request S n w) ≡ ok w')
        × (send_times w'.calls ≡ send_times w.calls ++ spaced t w.app.packet_interval n)
        × (events w'.sim ≡ [])
        × (w'.app.packet_count ≡ 0)
  request_replaces t k n fuel sent w l s c h =
      let e = accepted n w s c ∙ replaced n w (IsSending-pending t k w h) in
      let (w', r, times, idle, none_left) =
        burst S n t fuel sent _ l (request-IsSending t k n w h) in
      (w', ap (run S fuel sent) e ∙ r, times, idle, none_left)

  abbrev first_scheduled : ℕ → World Sim → World Sim
  first_scheduled n w = record w {
    app = record (w.app) { packet_count = n; send_event = (schedule w.sim 0 send_packet).1 };
    sim = (schedule w.sim 0 send_packet).0;
  }

  first-IsSending :
      (n : ℕ) (w : World Sim)
      → IsSingle S w.app.send_event w.sim
      → events w.sim ≡ []
      → IsSending S (now w.sim) n (first_scheduled n w)
  first-IsSending n w single none = record {
    single =
        schedule_send-IsSingle S w.app.send_event w.sim 0
          (ap (count is_send) none ∙ count-nil is_send) single;
    pending = record {
      time = now w.sim + 0;
      uid = (schedule w.sim 0 send_packet).1;
      call = send_packet;
    };
    only_event =
        S.schedule-events w.sim 0 send_packet ∙ ap (insert_event _) none ∙ insert_event-nil _;
    is_send_packet = refl;
    at_time = omega arith;
    remaining = refl;
  }

  -- A request for `n` packets that finds the application idle, its socket connected, sends exactly
  -- `n` packets, the first at once and each one packet interval behind the one before, where no other
  -- event disturbs; then the application is idle again.
  pub request_starts :
      (n fuel : ℕ) (sent : ℕ → ℕ) (w : World Sim)
      → n < fuel
      → w.app.has_socket ≡ true
      → w.app.connected ≡ true
      → IsSingle S w.app.send_event w.sim
      → events w.sim ≡ []
      → (w' : World Sim) × (run S fuel sent (process_request S n w) ≡ ok w')
        × (send_times w'.calls ≡ send_times w.calls ++ spaced (now w.sim) w.app.packet_interval n)
        × (events w'.sim ≡ [])
        × (w'.app.packet_count ≡ 0)
  request_starts n fuel sent w l s c single none =
      let z = ap (count is_send) none ∙ count-nil is_send in
      let e = accepted n w s c ∙ started n w (pending-count S w.app.send_event w.sim single z) in
      let (w', r, times, idle, none_left) =
        burst S n (now w.sim) fuel sent (first_scheduled n w) l (first-IsSending n w single none) in
      (w', ap (run S fuel sent) e ∙ r, times, idle, none_left)
