-- ===== src/TriggeredSend/Interrupt.antt =====
-- A send that is interrupted by another one.
use ns3_cosim.Common.{
  ℕ, zero, suc, ◌+◌, ◌-◌, ◌*◌, ◌≤◌, ◌<◌, ◌≡◌, refl, sym, ap, subst, ◌∙◌, true, [], ◌∷◌, ◌++◌,
  append_assoc, append-nil, arith,
}
use ns3_cosim.Simulator.{Simulator}
use ns3_cosim.TriggeredSend.{Call, send_packet, World, ok, process_request, transmit}
use ns3_cosim.TriggeredSend.Burst.{
  send_times, spaced, run, IsSending, take_event, run_step, run_next_event, transmit-times,
  transmit-IsSending, send_next,
}
use ns3_cosim.TriggeredSend.Request.{request_replaces}

later : (t interval j : ℕ) → t + interval + j * interval ≡ t + suc j * interval
later t interval j = grind arith

none_sent : (t interval : ℕ) → t ≡ t + 0 * interval
none_sent t interval = omega arith

all_left : (n : ℕ) → n ≡ n - 0
all_left n = omega arith

one_less : (n j : ℕ) → n - j ≡ suc n - suc j
one_less n j = omega arith

spaced-add :
    (t interval j m : ℕ)
    → spaced t interval (j + m) ≡ spaced t interval j ++ spaced (t + j * interval) interval m
unfolding spaced
spaced-add t interval zero m =
    let all : 0 + m ≡ m = omega arith in
    ap (spaced t interval) all ∙ ap (λ t. spaced t interval m) (none_sent t interval)
spaced-add t interval (suc j) m =
    let first : suc j + m ≡ suc (j + m) = omega arith in
    ap (spaced t interval) first
    ∙ ap (λ l. t ∷ l) (spaced-add (t + interval) interval j m)
    ∙ ap (λ k. t ∷ (spaced (t + interval) interval j ++ spaced k interval m)) (later t interval j)

module _ (S : Simulator Call) where
  open S use {Sim, now, events}

  -- `j` of the `n` packets that remained have been sent, the first one at `t`.
  record IsSentTo (j n t : ℕ) (w v : World Sim) : Type 0 where
    sending : IsSending S (t + j * w.app.packet_interval) (n - j) v
    times : send_times v.calls ≡ send_times w.calls ++ spaced t w.app.packet_interval j
    same_interval : v.app.packet_interval ≡ w.app.packet_interval
    same_socket : v.app.has_socket ≡ w.app.has_socket
    same_connected : v.app.connected ≡ w.app.connected

  run-IsSentTo :
      (j n t : ℕ) (sent : ℕ → ℕ) (w : World Sim)
      → j ≤ n
      → IsSending S t n w
      → (v : World Sim) × (run S j sent w ≡ ok v) × IsSentTo j n t w v
  unfolding run spaced transmit
  run-IsSentTo zero n t sent w l h = (
    w,
    refl,
    record {
      sending =
          subst (λ t. IsSending S t (n - 0) w) (none_sent t w.app.packet_interval)
            (subst (λ n. IsSending S t n w) (all_left n) h);
      times = sym (append-nil (send_times w.calls));
      same_interval = refl;
      same_socket = refl;
      same_connected = refl;
    },
  )
  run-IsSentTo (suc j) zero t sent w l h = absurd (omega arith)
  run-IsSentTo (suc j) (suc n) t sent w l h =
      let (s, e, c) = take_event S t (suc n) w h in
      let w1 = record w { sim = s } in
      let u = transmit S (sent j) w1 in
      let interval = w.app.packet_interval in
      let (v, r, k) =
        run-IsSentTo j n (t + interval) sent u (omega arith)
          (transmit-IsSending S (sent j) t n w1 c) in
      (
        v,
        run_step S j sent w u
              (run_next_event S send_packet s (sent j) w e ∙ send_next S (sent j) t n w1 c)
            ∙ r,
        record {
          sending =
              subst (λ t. IsSending S t (suc n - suc j) v) (later t interval j)
                (subst (λ n. IsSending S (t + interval + j * interval) n v) (one_less n j)
                  k.sending);
          times =
              k.times
              ∙ ap (λ l. l ++ spaced (t + interval) interval j) (transmit-times S (sent j) w1)
              ∙ append_assoc (send_times w.calls) (now s ∷ []) (spaced (t + interval) interval j)
              ∙ ap (λ k. send_times w.calls ++ (k ∷ spaced (t + interval) interval j)) c.clock;
          same_interval = k.same_interval;
          same_socket = k.same_socket;
          same_connected = k.same_connected;
        },
      )

  -- A send of `n` packets, the first one due at `t`, that is interrupted by a request for `m` packets
  -- behind the first `j` of them: exactly the `j` packets and then `m` more are sent, all of them one
  -- packet interval apart, so that the request does not disturb the rhythm; then the application is
  -- idle. `j` is at most `n`; where they are equal, the request comes before the last interval is
  -- over. The socket is connected, and no other event disturbs.
  pub interrupted :
      (j n m t fuel : ℕ) (sent sent' : ℕ → ℕ) (w : World Sim)
      → j ≤ n
      → m < fuel
      → w.app.has_socket ≡ true
      → w.app.connected ≡ true
      → IsSending S t n w
      → (v : World Sim) × (w' : World Sim) × (run S j sent w ≡ ok v)
        × (run S fuel sent' (process_request S m v) ≡ ok w')
        × (send_times w'.calls ≡ send_times w.calls ++ spaced t w.app.packet_interval (j + m))
        × (events w'.sim ≡ [])
        × (w'.app.packet_count ≡ 0)
  interrupted j n m t fuel sent sent' w l f s c h =
      let (v, r, k) = run-IsSentTo j n t sent w l h in
      let interval = w.app.packet_interval in
      let (w', q, times, idle, none_left) =
        request_replaces S (t + j * interval) (n - j) m fuel sent' v f (k.same_socket ∙ s)
          (k.same_connected ∙ c) k.sending in
      (
        v,
        w',
        r,
        q,
        times
            ∙ ap (λ i. send_times v.calls ++ spaced (t + j * interval) i m) k.same_interval
            ∙ ap (λ l. l ++ spaced (t + j * interval) interval m) k.times
            ∙ append_assoc (send_times w.calls) (spaced t interval j) _
            ∙ ap (λ l. send_times w.calls ++ l) (sym (spaced-add t interval j m)),
        idle,
        none_left,
      )
