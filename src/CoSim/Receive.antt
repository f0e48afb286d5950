-- ===== src/CoSim/Receive.antt =====
-- Gateway::RunThread and the invariant.
use ns3_cosim.Common.{
  ℕ, suc, ◌+◌, ◌≡◌, refl, sym, ap, subst, ◌∙◌, inl, inr, List, [], ◌∷◌, ◌++◌, Option, none, some,
  arith, if◌then◌else◌, Bool-cases, length, Bytes, append_assoc, All-append, length-append, take,
  drop, take-length-append,
}
use ns3_cosim.Simulator.{Simulator}
use ns3_cosim.Text.{find}
use ns3_cosim.Text.Find.{find-Found, Found}
use ns3_cosim.Protocol.Split.{drop_past}
use ns3_cosim.Gateway.{Call, World, stop, forward_up, is_connected}
use ns3_cosim.CoSim.Sound.{is_forward, schedule-IsSound, schedule-forwards}
use ns3_cosim.CoSim.Held.{schedule-IsHeld}
use ns3_cosim.CoSim.Main.{IsMain}
use ns3_cosim.CoSim.{
  System, Thread, top, searching, pushed, exited, Recv, received, failed, schedule_call, receive,
  push, search_delimiter, loop_test, thread_step, run_thread,
}
use ns3_cosim.CoSim.Stream.{framed, framed-append_one, in_flight, unread, messages, Inv}

module _ (S : Simulator Call) where
  open S use {Sim, schedule}

  -- The thread schedules a call: k messages were waiting for theirs, and j are left.
  schedule_call-IsMain :
      (k j : ℕ) (c : Call) (w : World Sim)
      → (if is_forward c then suc j else j) ≡ k
      → IsMain S k w
      → IsMain S j (schedule_call S c w)
  unfolding schedule_call
  schedule_call-IsMain k j c w e h = record {
    sound = schedule-IsSound S _ _ w.sim 0 c h.sound;
    counted = ground (arith, h.counted, schedule-forwards S w.sim 0 c);
    held = λ con. schedule-IsHeld S _ _ w.sim 0 c (h.held con);
  }

  module _ (s : System Sim) (h : Inv S s) {t : Thread} (e : s.thread ≡ t) where
    IsMain-at : IsMain S (in_flight t) s.world
    IsMain-at = subst (λ u. IsMain S (in_flight u) s.world) e h.main

    bytes_at :
        s.stream
        ≡ framed s.gateway.delimiter_message (messages S s) ++ unread t s.gateway.message_buffer
    bytes_at =
        subst
          (λ u.
            s.stream
            ≡ framed s.gateway.delimiter_message (messages S s)
              ++ unread u s.gateway.message_buffer)
          e h.all_bytes

    -- The thread moves on to `t'` with the world as it is.
    move-Inv :
        (t' : Thread)
        → in_flight t' ≡ in_flight t
        → unread t' s.gateway.message_buffer ≡ unread t s.gateway.message_buffer
        → Inv S (record s { thread = t' })
    move-Inv t' f b = record {
      main = rw f IsMain-at;
      has_message = h.has_message;
      has_field = h.has_field;
      all_bytes = rw b bytes_at;
      lacks = h.lacks;
      stops = h.stops;
    }

    -- It schedules a call and moves on.
    call-Inv :
        (c : Call) (t' : Thread)
        → (if is_forward c then suc (in_flight t') else in_flight t') ≡ in_flight t
        → unread t' s.gateway.message_buffer ≡ unread t s.gateway.message_buffer
        → Inv S (record s { world = schedule_call S c s.world; thread = t' })
    unfolding schedule_call
    call-Inv c t' f b = record {
      main = schedule_call-IsMain (in_flight t) (in_flight t') c s.world f IsMain-at;
      has_message = h.has_message;
      has_field = h.has_field;
      all_bytes = rw b bytes_at;
      lacks = h.lacks;
      stops = h.stops;
    }

  receive-Inv :
      (r : Recv) (bytes : Bytes) (s : System Sim)
      → s.thread ≡ searching bytes
      → Inv S s
      → Inv S (receive S r bytes s)
  unfolding receive
  receive-Inv failed bytes s e h = call-Inv s h e stop (exited bytes) refl refl
  receive-Inv (received []) bytes s e h = call-Inv s h e stop (exited bytes) refl refl
  receive-Inv (received (b ∷ bs)) bytes s e h = record {
    main = IsMain-at s h e;
    has_message = h.has_message;
    has_field = h.has_field;
    all_bytes =
        ap (λ l. l ++ (b ∷ bs)) (bytes_at s h e)
        ∙ append_assoc (framed s.gateway.delimiter_message (messages S s)) bytes (b ∷ bs);
    lacks = h.lacks;
    stops = h.stops;
  }

  push-Inv :
      (bytes : Bytes) (i : ℕ) (s : System Sim)
      → s.thread ≡ searching bytes
      → find s.gateway.delimiter_message bytes ≡ some i
      → Inv S s
      → Inv S (push S bytes i s)
  unfolding push
  push-Inv bytes i s e f h = record {
    main = record {
      sound = m.sound;
      counted = omega (arith, m.counted, length-append queue (take i bytes ∷ []));
      held = m.held;
    };
    has_message = h.has_message;
    has_field = h.has_field;
    all_bytes = all_bytes;
    lacks =
        rw (← append_assoc s.forwarded queue (take i bytes ∷ []))
          (All-append _ (messages S s) (take i bytes ∷ []) h.lacks (rw head found.4, tt));
    stops = h.stops;
  }
    where
      d : Bytes
      d = s.gateway.delimiter_message

      queue : List Bytes
      queue = s.gateway.message_queue

      m : IsMain S 0 s.world
      m = IsMain-at s h e

      found : Found d bytes i
      found = find-Found d bytes i h.has_message f

      head : take i bytes ≡ found.0
      head = rw (found.2, ← found.3) (take-length-append found.0 (d ++ found.1))

      rest : drop (i + length d) bytes ≡ found.1
      rest = rw (found.2, ← found.3) (drop_past found.0 d found.1)

      all_bytes :
          s.stream
          ≡ framed d (s.forwarded ++ (queue ++ (take i bytes ∷ []))) ++ drop (i + length d) bytes
      all_bytes =
          bytes_at s h e
          ∙ ap (λ l. framed d (messages S s) ++ l) found.2
          ∙ sym (framed-append_one d found.0 found.1 (messages S s))
          ∙ ap (λ l. framed d l ++ found.1) (append_assoc s.forwarded queue (found.0 ∷ []))
          ∙ λ j. framed d (s.forwarded ++ (queue ++ (sym head j ∷ []))) ++ sym rest j

  search-Inv :
      (o : Option ℕ) (r : Recv) (bytes : Bytes) (s : System Sim)
      → s.thread ≡ searching bytes
      → find s.gateway.delimiter_message bytes ≡ o
      → Inv S s
      → Inv S (search_delimiter S o r bytes s)
  unfolding search_delimiter
  search-Inv none r bytes s e f h = receive-Inv r bytes s e h
  search-Inv (some i) r bytes s e f h = push-Inv bytes i s e f h

  loop_test-Inv : (s : System Sim) → s.thread ≡ top → Inv S s → Inv S (loop_test S s)
  unfolding loop_test
  loop_test-Inv s e h = elim (Bool-cases (is_connected s.gateway.state)) [
    | inl c ↦ rw c (move-Inv s h e (searching s.gateway.message_buffer) refl refl)
    | inr c ↦ rw c (move-Inv s h e (exited s.gateway.message_buffer) refl refl)
  ]

  thread_step-Inv :
      (t : Thread) (r : Recv) (s : System Sim)
      → s.thread ≡ t
      → Inv S s
      → Inv S (thread_step S t r s)
  unfolding thread_step
  thread_step-Inv top r s e h = loop_test-Inv s e h
  thread_step-Inv (searching bytes) r s e h = search-Inv _ r bytes s e refl h
  thread_step-Inv pushed r s e h = call-Inv s h e forward_up top refl refl
  thread_step-Inv (exited bytes) r s e h = h

  pub run_thread-Inv : (r : Recv) (s : System Sim) → Inv S s → Inv S (run_thread S r s)
  unfolding run_thread
  run_thread-Inv r s h = thread_step-Inv s.thread r s refl h
