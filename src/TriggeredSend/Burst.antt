-- ===== src/TriggeredSend/Burst.antt =====
-- How many packets are sent, and when.
use ns3_cosim.Common.{
  ℕ, zero, suc, ◌+◌, ◌<◌, ◌≡◌, refl, sym, ap, ◌∙◌, false, List, [], ◌∷◌, ◌++◌, append_assoc,
  append-nil, Option, none, some, arith, if◌then◌else◌, ◌==◌,
}
use ns3_cosim.Simulator.{Simulator, Event, insert_event}
use ns3_cosim.Simulator.Queue.{count, count-nil, insert_event-nil}
use ns3_cosim.TriggeredSend.Pending.{is_send, IsSingle, next-IsSingle, schedule_send-IsSingle}
use ns3_cosim.TriggeredSend.Live.{pending-count}
use ns3_cosim.TriggeredSend.{
  Call, send_packet, Application, World, Outcome, ok, fatal, send_one, execute, transmit,
  trace_calls, SocketCall, send_at,
}

-- The times at which packets were handed to the socket.
unfoldable pub send_times : List SocketCall → List ℕ
send_times [] = []
send_times (send_at t n ∷ cs) = t ∷ send_times cs
send_times (c ∷ cs) = send_times cs

-- `n` times from `t` on, `interval` apart.
unfoldable pub spaced : ℕ → ℕ → ℕ → List ℕ
spaced t interval zero = []
spaced t interval (suc n) = t ∷ spaced (t + interval) interval n

send_times-append :
    (xs ys : List SocketCall) → send_times (xs ++ ys) ≡ send_times xs ++ send_times ys
unfolding send_times
send_times-append [] ys = refl
send_times-append (send_at t n ∷ xs) ys = ap (◌∷◌ t) (send_times-append xs ys)
send_times-append (SocketCall.tx_trace n ∷ xs) ys = send_times-append xs ys
send_times-append (c ∷ xs) ys = send_times-append xs ys

-- The simulator runs until no event is left, at most `fuel` events; `sent k` is what the k-th last
-- call of Socket::Send returns.
module _ (S : Simulator Call) where
  open S use {Sim, now, events, destroy_events, issued, schedule, is_pending, next}

  pub run_next : Option (Call × Sim) → ℕ → World Sim → Outcome (World Sim)
  unfolding execute
  run_next none sent w = ok w
  run_next (some (c, sim)) sent w = execute S c sent (record w { sim = sim })

  unfoldable pub run : ℕ → (ℕ → ℕ) → World Sim → Outcome (World Sim)
  unfolding run_next
  run zero sent w = ok w
  run (suc fuel) sent w = elim (run_next (next w.sim) (sent fuel) w) [
    | ok w' ↦ run fuel sent w'
    | fatal e ↦ fatal e
  ]

  -- The one pending event is a call of SendPacket at `t`, and `n` packets remain to be sent.
  pub record IsSending (t n : ℕ) (w : World Sim) : Type 0 where
    pub single : IsSingle S w.app.send_event w.sim
    pub pending : Event Call
    pub only_event : events w.sim ≡ pending ∷ []
    pub is_send_packet : pending.call ≡ send_packet
    pub at_time : pending.time ≡ t
    pub remaining : w.app.packet_count ≡ n

  pub run_step :
      (fuel : ℕ) (sent : ℕ → ℕ) (w w' : World Sim)
      → run_next (next w.sim) (sent fuel) w ≡ ok w'
      → run (suc fuel) sent w ≡ run fuel sent w'
  unfolding run
  run_step fuel sent w w' e = rw (e, run)

  pub run_next_event :
      (c : Call) (s : Sim) (k : ℕ) (w : World Sim)
      → next w.sim ≡ some (c, s)
      → run_next (next w.sim) k w ≡ execute S c k (record w { sim = s })
  unfolding run_next
  run_next_event c s k w e = ap (λ o. run_next o k w) e

  run_next_none : (k : ℕ) (w : World Sim) → events w.sim ≡ [] → run_next (next w.sim) k w ≡ ok w
  unfolding run_next
  run_next_none k w e = ap (λ o. run_next o k w) (S.next-nil w.sim e)

  run_idle : (fuel : ℕ) (sent : ℕ → ℕ) (w : World Sim) → events w.sim ≡ [] → run fuel sent w ≡ ok w
  run_idle zero sent w e = unfold run in refl
  run_idle (suc fuel) sent w e =
      run_step fuel sent w w (run_next_none (sent fuel) w e) ∙ run_idle fuel sent w e

  -- The event is taken: nothing else is pending, and the clock shows its time.
  pub record IsCalled (t n : ℕ) (w : World Sim) : Type 0 where
    pub single : IsSingle S w.app.send_event w.sim
    pub no_event : events w.sim ≡ []
    pub clock : now w.sim ≡ t
    pub expired : is_pending w.sim w.app.send_event ≡ false
    pub remaining : w.app.packet_count ≡ n

  pub take_event :
      (t n : ℕ) (w : World Sim)
      → IsSending t n w
      → (s : Sim) × (next w.sim ≡ some (send_packet, s)) × IsCalled t n (record w { sim = s })
  take_event t n w h =
      let (s, q) = S.next-cons w.sim h.pending [] h.only_event in
      let n' = q ∙ λ i. some (h.is_send_packet i, s) in
      let (e, es, l, call, rest, time, ids) = S.next-events w.sim s send_packet n' in
      let (single, z) = next-IsSingle S w.app.send_event w.sim s send_packet n' h.single in
      let same = sym h.only_event ∙ l in
      (
        s,
        n',
        record {
          single = single;
          no_event = rest ∙ cc same;
          clock = time ∙ cc (same, h.at_time);
          expired = pending-count S w.app.send_event s single (z refl);
          remaining = h.remaining;
        },
      )

  trace_calls-times : (a : Application) → send_times (trace_calls a) ≡ []
  unfolding send_times trace_calls
  trace_calls-times a = ground arith

  traces-times :
      (sent : ℕ) (a : Application)
      → send_times (if sent == a.packet_size then trace_calls a else []) ≡ []
  unfolding send_times
  traces-times sent a = ground (arith, trace_calls-times a)

  pub transmit-times :
      (sent : ℕ) (w : World Sim)
      → send_times (transmit S sent w).calls ≡ send_times w.calls ++ (now w.sim ∷ [])
  unfolding transmit send_times
  transmit-times sent w =
      send_times-append w.calls _
      ∙ ap (λ l. send_times w.calls ++ (now w.sim ∷ l)) (traces-times sent w.app)

  pub transmit-IsSending :
      (sent t n : ℕ) (w : World Sim)
      → IsCalled t (suc n) w
      → IsSending (t + w.app.packet_interval) n (transmit S sent w)
  unfolding transmit
  transmit-IsSending sent t n w h =
      let interval = w.app.packet_interval in
      record {
        single =
            schedule_send-IsSingle S w.app.send_event w.sim interval
              (ap (count is_send) h.no_event ∙ count-nil is_send) h.single;
        pending = record {
          time = now w.sim + interval;
          uid = (schedule w.sim interval send_packet).1;
          call = send_packet;
        };
        only_event =
            S.schedule-events w.sim interval send_packet
            ∙ ap (insert_event _) h.no_event
            ∙ insert_event-nil _;
        is_send_packet = refl;
        at_time = ap (λ c. c + interval) h.clock;
        remaining = omega (arith, h.remaining);
      }

  send_last : (sent t : ℕ) (w : World Sim) → IsCalled t 0 w → execute S send_packet sent w ≡ ok w
  unfolding execute send_one
  send_last sent t w h = rw (h.expired, h.remaining)

  send_counted :
      (sent : ℕ) (w : World Sim)
      → is_pending w.sim w.app.send_event ≡ false
      → (w.app.packet_count == 0) ≡ false
      → send_one S sent w ≡ ok (transmit S sent w)
  unfolding send_one
  send_counted sent w e c = ground arith

  pub send_next :
      (sent t n : ℕ) (w : World Sim)
      → IsCalled t (suc n) w
      → execute S send_packet sent w ≡ ok (transmit S sent w)
  unfolding execute send_one
  send_next sent t n w h = send_counted sent w h.expired (ground (arith, h.remaining))

  -- Once a call of SendPacket is pending at `t` and `n` packets remain, and no other event disturbs,
  -- exactly `n` packets are handed to the socket, at `t` and then one packet interval apart, whatever
  -- the socket returns; then the application is idle. `n + 1` events suffice.
  pub burst :
      (n t fuel : ℕ) (sent : ℕ → ℕ) (w : World Sim)
      → n < fuel
      → IsSending t n w
      → (w' : World Sim) × (run fuel sent w ≡ ok w')
        × (send_times w'.calls ≡ send_times w.calls ++ spaced t w.app.packet_interval n)
        × (events w'.sim ≡ [])
        × (w'.app.packet_count ≡ 0)
  unfolding spaced transmit
  burst n t zero sent w l h = absurd (omega arith)
  burst zero t (suc fuel) sent w l h =
      let (s, e, c) = take_event t 0 w h in
      let v = record w { sim = s } in
      (
        v,
        run_step fuel sent w v
              (run_next_event send_packet s (sent fuel) w e ∙ send_last (sent fuel) t v c)
            ∙ run_idle fuel sent v c.no_event,
        sym (append-nil (send_times w.calls)),
        c.no_event,
        c.remaining,
      )
  burst (suc n) t (suc fuel) sent w l h =
      let (s, e, c) = take_event t (suc n) w h in
      let v = record w { sim = s } in
      let u = transmit S (sent fuel) v in
      let interval = w.app.packet_interval in
      let (w', r, times, idle, count) =
        burst n (t + interval) fuel sent u (omega arith) (transmit-IsSending (sent fuel) t n v c) in
      (
        w',
        run_step fuel sent w u
              (run_next_event send_packet s (sent fuel) w e ∙ send_next (sent fuel) t n v c)
            ∙ r,
        times
            ∙ ap (λ l. l ++ spaced (t + interval) interval n) (transmit-times (sent fuel) v)
            ∙ append_assoc (send_times w.calls) (now s ∷ []) (spaced (t + interval) interval n)
            ∙ ap (λ k. send_times w.calls ++ (k ∷ spaced (t + interval) interval n)) c.clock,
        idle,
        count,
      )
