-- ===== src/CoSim/Forward.antt =====
-- WaitForNextUpdate and ForwardUp, and the main thread's part of the invariant.
use ns3_cosim.Common.{
  ℕ, suc, ◌+◌, ◌≡◌, refl, ap, subst, ◌∙◌, inl, inr, true, List, ◌∷◌, arith, Bool-cases, ℤ, pos,
  negsuc, ◌-ℤ◌, delay_reaches, length, Bytes,
}
use ns3_cosim.Simulator.{Simulator}
use ns3_cosim.Protocol.{split}
use ns3_cosim.Gateway.{
  Call, World, Outcome, ok, or_fatal, >>=-eq-ok, State, do_initialize, handle_update, is_connected,
  is_stopping, is_negative, connected, stopping, created,
}
use ns3_cosim.Gateway.Handlers.{
  schedule_wait, cancel_pending, wait_update, advance, process, read_header, forward_next, forward,
}
use ns3_cosim.CoSim.Sound.{forwards, schedule-IsSound, schedule-forwards}
use ns3_cosim.CoSim.Held.{schedule_update-IsHeld}
use ns3_cosim.CoSim.Client.{stop-IsLater, schedule-IsLater}
use ns3_cosim.CoSim.Main.{
  SoundWorld, HeldWorld, IsMain, IsStatic, schedule_wait-IsMain, IsCancelled,
  cancel_wait-IsCancelled, IsCancelled-SoundWorld, IsCancelled-counted,
}

stopping-connected : (st : State) → is_stopping st ≡ true → is_connected st ≡ true → ⊥
stopping-connected created a b = cc
stopping-connected connected a b = cc
stopping-connected stopping a b = cc

module _ (S : Simulator Call) where
  open S use {Sim, now, schedule}

  -- What a handler leaves in the world: the invariant, and a queue that is `queue`.
  pub record IsDone (k : ℕ) (queue : List Bytes) (w w' : World Sim) : Type 0 where
    pub main : IsMain S k w'
    pub static : IsStatic S w w'
    pub same_state : w'.gateway.state ≡ w.gateway.state
    pub same_queue : w'.gateway.message_queue ≡ queue

  pub ok-IsDone :
      (k : ℕ) (q : List Bytes) (u w w' : World Sim)
      → Outcome.ok u ≡ ok w'
      → IsDone k q w u
      → IsDone k q w w'
  ok-IsDone k q u w w' h d = subst (IsDone k q w) (ok_eq h) d
    where
      ok_eq : Outcome.ok u ≡ ok w' → u ≡ w'
      ok_eq e = cc

  pub wait_update-IsDone :
      (k : ℕ) (w : World Sim)
      → SoundWorld S w
      → forwards S w.sim + k ≡ length w.gateway.message_queue
      → IsDone k w.gateway.message_queue w (wait_update S w)
  unfolding wait_update
  wait_update-IsDone k w sound counted = elim (Bool-cases (is_stopping w.gateway.state)) [
    | inl e ↦ rw e (record {
      main = record {
        sound = sound;
        counted = counted;
        held = λ c. absurd (stopping-connected w.gateway.state e c);
      };
      static = record { same_field = refl; same_message = refl; same_buffer = refl };
      same_state = refl;
      same_queue = refl;
    })
    | inr e ↦ rw e (rearmed (cancel_pending S w.gateway.event_wait w) (cancel_wait-IsCancelled S w))
  ]
    where
      rearmed :
          (v : World Sim)
          → IsCancelled S w v
          → IsDone k w.gateway.message_queue w (schedule_wait S v)
      rearmed v c = record {
        main =
            schedule_wait-IsMain S k v (IsCancelled-SoundWorld S w v c sound)
              (IsCancelled-counted S k w v c sound counted);
        static = record {
          same_field = ap (λ g. g.delimiter_field) c.same_gateway;
          same_message = ap (λ g. g.delimiter_message) c.same_gateway;
          same_buffer = ap (λ g. g.message_buffer) c.same_gateway;
        };
        same_state = ap (λ g. g.state) c.same_gateway;
        same_queue = ap (λ g. g.message_queue) c.same_gateway;
      }

  advance-IsDone :
      (k : ℕ) (pause delta : ℤ) (values : List Bytes) (w w' : World Sim)
      → pause -ℤ pos (now w.sim) ≡ delta
      → advance S pause delta values w ≡ ok w'
      → SoundWorld S w
      → forwards S w.sim + k ≡ length w.gateway.message_queue
      → IsDone k w.gateway.message_queue w w'
  unfolding advance
  advance-IsDone k pause (negsuc d) values w w' e h sound counted = cc
  advance-IsDone k pause (pos d) values w w' e h sound counted =
      ok-IsDone k w.gateway.message_queue _ w w' h (record {
        main = record {
          sound = schedule-IsSound S _ _ w.sim d (handle_update values) sound;
          counted = omega (arith, counted, schedule-forwards S w.sim d (handle_update values));
          held = λ _.
              schedule_update-IsHeld S w.gateway.event_wait pause w.sim d values
                (delay_reaches pause (now w.sim) d e);
        };
        static = record { same_field = refl; same_message = refl; same_buffer = refl };
        same_state = refl;
        same_queue = refl;
      })

  module _ (k : ℕ) (t : ℤ) (values : List Bytes) (w : World Sim) (main : IsMain S k w) where
    terminated : IsDone k w.gateway.message_queue w (record w { sim = S.stop w.sim })
    terminated =
        let l = stop-IsLater S w.sim in
        record {
          main = record {
            sound = l.sound _ _ main.sound;
            counted = omega (arith, main.counted, l.same_forwards);
            held = λ c. l.held _ _ (main.held c);
          };
          static = record { same_field = refl; same_message = refl; same_buffer = refl };
          same_state = refl;
          same_queue = refl;
        }

    initialized : IsDone k w.gateway.message_queue w (record w {
      gateway = record (w.gateway) { time_start = t };
      sim = (schedule w.sim 0 (do_initialize values)).0;
    })
    initialized =
        let l = schedule-IsLater S w.sim 0 (do_initialize values) refl in
        record {
          main = record {
            sound = l.sound _ _ main.sound;
            counted = omega (arith, main.counted, l.same_forwards);
            held = λ c. l.held _ _ (main.held c);
          };
          static = record { same_field = refl; same_message = refl; same_buffer = refl };
          same_state = refl;
          same_queue = refl;
        }

    updated :
        (v w' : World Sim)
        → IsCancelled S w v
        → advance S
            (t -ℤ v.gateway.time_start)
            (t -ℤ v.gateway.time_start -ℤ pos (now v.sim))
            values
            v
          ≡ ok w'
        → IsDone k w.gateway.message_queue w w'
    updated v w' c h =
        let d =
          advance-IsDone k (t -ℤ v.gateway.time_start) _ values v w' refl h
            (IsCancelled-SoundWorld S w v c main.sound)
            (IsCancelled-counted S k w v c main.sound main.counted) in
        record {
          main = d.main;
          static = record {
            same_field = d.static.same_field ∙ ap (λ g. g.delimiter_field) c.same_gateway;
            same_message = d.static.same_message ∙ ap (λ g. g.delimiter_message) c.same_gateway;
            same_buffer = d.static.same_buffer ∙ ap (λ g. g.message_buffer) c.same_gateway;
          };
          same_state = d.same_state ∙ ap (λ g. g.state) c.same_gateway;
          same_queue = d.same_queue ∙ ap (λ g. g.message_queue) c.same_gateway;
        }

    pub process-IsDone :
        (w' : World Sim) → process S t values w ≡ ok w' → IsDone k w.gateway.message_queue w w'
    unfolding process
    process-IsDone w' h = elim (Bool-cases (is_negative t)) [
      | inl e ↦ ok-IsDone k w.gateway.message_queue _ w w' (rw e at h) terminated
      | inr e ↦ elim (Bool-cases (is_negative w.gateway.time_start)) [
        | inl f ↦ ok-IsDone k w.gateway.message_queue _ w w' (rw (e, f) at h) initialized
        | inr f ↦
            updated (cancel_pending S w.gateway.event_wait w) w' (cancel_wait-IsCancelled S w)
              (rw (e, f) at h)
      ]
    ]

  -- ForwardUp takes the first message off the queue, and the call that ran was one of those counted.
  pub forward-IsDone :
      (k : ℕ) (m : Bytes) (queue : List Bytes) (w w' : World Sim)
      → w.gateway.message_queue ≡ m ∷ queue
      → forward S w ≡ ok w'
      → SoundWorld S w
      → suc (forwards S w.sim) + k ≡ length w.gateway.message_queue
      → HeldWorld S w
      → IsDone k queue w w'
  unfolding forward forward_next
  forward-IsDone k m queue w w' q h sound counted held =
      let h' : forward_next S (m ∷ queue) w ≡ ok w' = subst (λ l. forward_next S l w ≡ ok w') q h in
      let (values, e, r) = >>=-eq-ok (or_fatal (split w.gateway.delimiter_field m) _) _ h' in
      let (header, e', r') = >>=-eq-ok (read_header S values) _ r in
      let v = record w { gateway = record (w.gateway) { message_queue = queue } } in
      let d =
        process-IsDone k header.0 header.1 v
          (record { sound = sound; counted = omega (arith, counted, ap length q); held = held }) w'
          r' in
      record {
        main = d.main;
        static = record {
          same_field = d.static.same_field;
          same_message = d.static.same_message;
          same_buffer = d.static.same_buffer;
        };
        same_state = d.same_state;
        same_queue = d.same_queue;
      }
