-- ===== src/CoSim/Execute.antt =====
-- The events other than Stop, and the main thread's part of the invariant.
use ns3_cosim.Common.{
  ℕ, suc, ◌+◌, ◌≡◌, ◌≢◌, refl, ap, ◌∙◌, inl, inr, true, false, List, [], ◌∷◌, ◌++◌, arith,
  if◌then◌else◌, Bool-cases, ℤ, pos, length, Bytes,
}
use ns3_cosim.Simulator.{Simulator}
use ns3_cosim.Gateway.{
  Call, World, ok, Action, stop, wait_for_next_update, forward_up, do_initialize, handle_update,
  model, is_connected, is_time, first_of_queue,
}
use ns3_cosim.Gateway.Handlers.{schedule_wait, update, forward, forward_next, execute}
use ns3_cosim.CoSim.Sound.{is_forward, forwards}
use ns3_cosim.CoSim.Held.{IsHeld, Released, is_update}
use ns3_cosim.CoSim.Client.{Keeps, run_actions-Keeps}
use ns3_cosim.CoSim.Main.{
  SoundWorld, HeldWorld, IsMain, schedule_wait-IsMain, Keeps-IsMain, Keeps-IsStatic,
}
use ns3_cosim.CoSim.Forward.{IsDone, ok-IsDone, wait_update-IsDone, forward-IsDone}

is_time_lem : (p : ℤ) (t : ℕ) → is_time p t ≡ false → p ≢ pos t
is_time_lem p t h e = ground arith

module _ (S : Simulator Call) where
  open S use {Sim, now, schedule}

  Keeps-IsDone :
      (k : ℕ) (q : List Bytes) (u v w : World Sim)
      → IsDone S k q u v
      → Keeps S v w
      → IsDone S k q u w
  Keeps-IsDone k q u v w d keep =
      let st = Keeps-IsStatic S v w keep in
      record {
        main = Keeps-IsMain S k v w keep d.main;
        static = record {
          same_field = st.same_field ∙ d.static.same_field;
          same_message = st.same_message ∙ d.static.same_message;
          same_buffer = st.same_buffer ∙ d.static.same_buffer;
        };
        same_state = ap (λ g. g.state) keep.same_private ∙ d.same_state;
        same_queue = ap (λ g. g.message_queue) keep.same_private ∙ d.same_queue;
      }

  IsDone-refl : (k : ℕ) (w : World Sim) → IsMain S k w → IsDone S k w.gateway.message_queue w w
  IsDone-refl k w h = record {
    main = h;
    static = record { same_field = refl; same_message = refl; same_buffer = refl };
    same_state = refl;
    same_queue = refl;
  }

  -- The event has been taken: the others are counted, and the time is held or the event held it.
  pub record IsTaken (k : ℕ) (c : Call) (w : World Sim) : Type 0 where
    pub sound : SoundWorld S w
    pub counted :
        (if is_forward c then suc (forwards S w.sim) else forwards S w.sim) + k
        ≡ length w.gateway.message_queue
    pub released :
        is_connected w.gateway.state ≡ true
        → Released S w.gateway.event_wait w.gateway.time_pause w.sim c

  idle-IsMain :
      (k : ℕ) (c : Call) (w : World Sim)
      → is_forward c ≡ false
      → c ≢ wait_for_next_update
      → (is_update c ≡ true → w.gateway.time_pause ≢ pos (now w.sim))
      → IsTaken k c w
      → IsMain S k w
  idle-IsMain k c w nf nw nu h = record {
    sound = h.sound;
    counted = rw nf at h.counted;
    held = λ con. only (h.released con);
  }
    where
      only :
          Released S w.gateway.event_wait w.gateway.time_pause w.sim c
          → IsHeld S w.gateway.event_wait w.gateway.time_pause w.sim
      only (inl k) = k
      only (inr (inl e)) = absurd (nw e)
      only (inr (inr (u, p))) = absurd (nu u p)

  update-IsDone :
      (k : ℕ) (values : List Bytes) (actions : List Action) (w w' : World Sim)
      → update S actions w ≡ ok w'
      → IsTaken k (handle_update values) w
      → IsDone S k w.gateway.message_queue w w'
  unfolding update
  update-IsDone k values actions w w' h taken =
      Keeps-IsDone k w.gateway.message_queue w _ w' paused (run_actions-Keeps S actions _ w' h)
    where
      paused :
          IsDone S k w.gateway.message_queue w
            (if is_time w.gateway.time_pause (now w.sim) then schedule_wait S w else w)
      paused = elim (Bool-cases (is_time w.gateway.time_pause (now w.sim))) [
        | inl e ↦ rw e (record {
          main = schedule_wait-IsMain S k w taken.sound taken.counted;
          static = record { same_field = refl; same_message = refl; same_buffer = refl };
          same_state = refl;
          same_queue = refl;
        })
        | inr e ↦ rw e (
            IsDone-refl k w (
              idle-IsMain k (handle_update values) w refl (λ q. cc)
                (λ _. is_time_lem w.gateway.time_pause (now w.sim) e) taken))
      ]

  pub forward_queue :
      (w w' : World Sim)
      → forward S w ≡ ok w'
      → (m : Bytes) × (q : List Bytes) × (w.gateway.message_queue ≡ m ∷ q)
  unfolding forward
  forward_queue w w' h = go w.gateway.message_queue refl h
    where
      go :
          (l : List Bytes)
          → w.gateway.message_queue ≡ l
          → forward_next S l w ≡ ok w'
          → (m : Bytes) × (q : List Bytes) × (w.gateway.message_queue ≡ m ∷ q)
      go [] e r = cc
      go (m ∷ q) e r = (m, q, e)

  -- A handler that returns has taken at most the first message off the queue.
  abbrev pub Done : ℕ → Call → World Sim → World Sim → Type 0
  Done k c w w' =
      (q : List Bytes) × (w.gateway.message_queue ≡ first_of_queue c w.gateway.message_queue ++ q)
      × IsDone S k q w w'

  forward-Done :
      (k : ℕ) (w w' : World Sim)
      → forward S w ≡ ok w'
      → IsTaken k forward_up w
      → Done k forward_up w w'
  forward-Done k w w' h taken =
      let (m, q, e) = forward_queue w w' h in
      (q, rw e, forward-IsDone S k m q w w' e h taken.sound taken.counted held)
    where
      held : HeldWorld S w
      held c = elim (taken.released c) [
        | inl h ↦ h
        | inr (inl e) ↦ absurd (cc e)
        | inr (inr (u, p)) ↦ absurd (cc u)
      ]

  pub execute-Done :
      (k : ℕ) (c : Call) (actions : List Action) (w w' : World Sim)
      → c ≢ stop
      → execute S c actions w ≡ ok w'
      → IsTaken k c w
      → Done k c w w'
  unfolding execute
  execute-Done k stop actions w w' ns h taken = absurd (ns refl)
  execute-Done k wait_for_next_update actions w w' ns h taken = (
    w.gateway.message_queue,
    refl,
    ok-IsDone S k w.gateway.message_queue _ w w' h
        (wait_update-IsDone S k w taken.sound taken.counted),
  )
  execute-Done k forward_up actions w w' ns h taken = forward-Done k w w' h taken
  execute-Done k (do_initialize values) actions w w' ns h taken = (
    w.gateway.message_queue,
    refl,
    Keeps-IsDone k w.gateway.message_queue w w w'
        (IsDone-refl k w
          (idle-IsMain k (do_initialize values) w refl (λ q. cc) (λ q. absurd (cc q)) taken))
        (run_actions-Keeps S actions w w' h),
  )
  execute-Done k (handle_update values) actions w w' ns h taken =
      (w.gateway.message_queue, refl, update-IsDone k values actions w w' h taken)
  execute-Done k (model n) actions w w' ns h taken = (
    w.gateway.message_queue,
    refl,
    Keeps-IsDone k w.gateway.message_queue w w w'
        (IsDone-refl k w (idle-IsMain k (model n) w refl (λ q. cc) (λ q. absurd (cc q)) taken))
        (run_actions-Keeps S actions w w' h),
  )
