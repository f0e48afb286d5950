-- ===== src/CoSim/Invariant.antt =====
-- The invariant of the two threads along the steps of `Reach`.
use ns3_cosim.Common.{
  ℕ, ◌+◌, ◌≡◌, ◌≢◌, refl, sym, ap, ◌∙◌, Bool, List, ◌++◌, none, some, length, append_assoc,
}
use ns3_cosim.Simulator.{Simulator}
use ns3_cosim.Gateway.{Call, World, ok, Action, stop, is_connected, first_of_queue}
use ns3_cosim.Gateway.Handlers.{execute, stop_begin, stop_end}
use ns3_cosim.CoSim.Sound.{forwards, next-IsSound, next-forwards}
use ns3_cosim.CoSim.Held.{next-Released}
use ns3_cosim.CoSim.Main.{SoundWorld, IsMain}
use ns3_cosim.CoSim.Execute.{IsTaken, execute-Done}
use ns3_cosim.CoSim.{
  System, Step, thread, event, stop_event, destroy, joined, Reach, start, later, taken,
}
use ns3_cosim.CoSim.Stream.{in_flight, Inv}
use ns3_cosim.CoSim.Receive.{run_thread-Inv}
use ns3_cosim.CoSim.Stop.{stop_begin-IsMain, stop_end-IsDone}
use ns3_cosim.CoSim.Start.{connect-Inv}

module _ (S : Simulator Call) where
  open S use {Sim, next}

  -- The simulator takes an event from a state with the invariant.
  pub next-IsTaken :
      (k : ℕ) (c : Call) (w : World Sim) (sim : Sim)
      → next w.sim ≡ some (c, sim)
      → IsMain S k w
      → IsTaken S k c (record w { sim = sim })
  next-IsTaken k c w sim n h = record {
    sound = next-IsSound S _ _ w.sim sim c n h.sound;
    counted = rw (← next-forwards S w.sim sim c n) h.counted;
    released = λ con. next-Released S _ _ _ w.sim sim c n h.sound (h.held con);
  }

  module _ (s : System Sim) (h : Inv S s) where
    event-Inv :
        (c : Call) (actions : List Action) (sim : Sim) (w : World Sim)
        → s.joining ≡ none
        → c ≢ stop
        → next s.sim ≡ some (c, sim)
        → execute S c actions (taken S s sim) ≡ ok w
        → Inv S (record s {
          world = w;
          forwarded = s.forwarded ++ first_of_queue c s.gateway.message_queue;
        })
    event-Inv c actions sim w j ns n x =
        let (q, eq, d) =
          execute-Done S (in_flight s.thread) c actions (taken S s sim) w ns x
            (next-IsTaken (in_flight s.thread) c s.world sim n h.main) in
        let same =
          append_assoc s.forwarded (first_of_queue c s.gateway.message_queue)
            w.gateway.message_queue
          ∙ ap (λ l. s.forwarded ++ l)
              (ap (λ l. first_of_queue c s.gateway.message_queue ++ l) d.same_queue ∙ sym eq) in
        record {
          main = d.main;
          has_message = λ e. h.has_message (sym d.static.same_message ∙ e);
          has_field = λ e. h.has_field (sym d.static.same_field ∙ e);
          all_bytes = rw (same, d.static.same_message, d.static.same_buffer) h.all_bytes;
          lacks = rw (same, d.static.same_message) h.lacks;
          stops = λ b e. cc (j, e);
        }

    stop_begin-Inv :
        (w : World Sim)
        → w.gateway ≡ s.gateway
        → SoundWorld S w
        → forwards S w.sim + in_flight s.thread ≡ length w.gateway.message_queue
        → Inv S (record s { world = stop_begin S w; joining = some (is_connected s.gateway.state) })
    unfolding stop_begin
    stop_begin-Inv w e sound counted = record {
      main = stop_begin-IsMain S (in_flight s.thread) w sound counted;
      has_message = rw e h.has_message;
      has_field = rw e h.has_field;
      all_bytes = rw e h.all_bytes;
      lacks = rw e h.lacks;
      stops = λ b _. refl;
    }

    joined-Inv :
        (b : Bool)
        → s.joining ≡ some b
        → Inv S (record s { world = stop_end S b s.world; joining = none })
    joined-Inv b j =
        let d =
          stop_end-IsDone S (in_flight s.thread) b s.world (h.stops b j) h.main.sound
            h.main.counted in
        record {
          main = d.main;
          has_message = λ e. h.has_message (sym d.static.same_message ∙ e);
          has_field = λ e. h.has_field (sym d.static.same_field ∙ e);
          all_bytes = rw (d.same_queue, d.static.same_message, d.static.same_buffer) h.all_bytes;
          lacks = rw (d.same_queue, d.static.same_message) h.lacks;
          stops = λ b e. cc;
        }

  pub Step-Inv : {s t : System Sim} → Step S s t → Inv S s → Inv S t
  Step-Inv {s} (thread r) h = run_thread-Inv S r s h
  Step-Inv {s} (event c actions sim w j ns n x) h = event-Inv s h c actions sim w j ns n x
  Step-Inv {s} (stop_event sim j n) h =
      let k = next-IsTaken (in_flight s.thread) stop s.world sim n h.main in
      stop_begin-Inv s h (taken S s sim) refl k.sound k.counted
  Step-Inv {s} (destroy j) h = stop_begin-Inv s h s.world refl h.main.sound h.main.counted
  Step-Inv {s} (joined b j x) h = joined-Inv s h b j

  pub Reach-Inv : {s : System Sim} → Reach S s → Inv S s
  Reach-Inv (start net w w' f h) = connect-Inv S net w w' f h
  Reach-Inv (later r st) = Step-Inv st (Reach-Inv r)
