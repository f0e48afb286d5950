-- ===== src/CoSim/Main.antt =====
-- The part of the invariant that the main thread works on, under each primitive of the handlers.
use ns3_cosim.Common.{ℕ, ◌+◌, ◌≡◌, refl, sym, ap, ◌∙◌, inl, inr, true, arith, Bool-cases, length}
use ns3_cosim.Simulator.{Simulator}
use ns3_cosim.Gateway.{Call, World, wait_for_next_update, is_connected}
use ns3_cosim.Gateway.Handlers.{schedule_wait, cancel_pending}
use ns3_cosim.CoSim.Sound.{
  IsSound, forwards, schedule_wait-IsSound, cancel-IsSound, schedule-forwards, cancel_wait-forwards,
  cancel_destroy-forwards,
}
use ns3_cosim.CoSim.Held.{IsHeld, schedule_wait-IsHeld}
use ns3_cosim.CoSim.Client.{private, Keeps}

module _ (S : Simulator Call) where
  open S use {Sim, now, schedule, cancel, is_pending}

  abbrev pub SoundWorld : World Sim → Type 0
  SoundWorld w = IsSound S w.gateway.event_wait w.gateway.event_destroy w.sim

  abbrev pub HeldWorld : World Sim → Type 0
  HeldWorld w =
      is_connected w.gateway.state ≡ true → IsHeld S w.gateway.event_wait w.gateway.time_pause w.sim

  -- `k` messages are queued whose call of ForwardUp is not scheduled yet.
  pub record IsMain (k : ℕ) (w : World Sim) : Type 0 where
    pub sound : SoundWorld w
    pub counted : forwards S w.sim + k ≡ length w.gateway.message_queue
    pub held : HeldWorld w

  -- What the main thread leaves to the receiving thread.
  pub record IsStatic (w w' : World Sim) : Type 0 where
    pub same_field : w'.gateway.delimiter_field ≡ w.gateway.delimiter_field
    pub same_message : w'.gateway.delimiter_message ≡ w.gateway.delimiter_message
    pub same_buffer : w'.gateway.message_buffer ≡ w.gateway.message_buffer

  pub Keeps-IsMain : (k : ℕ) (w w' : World Sim) → Keeps S w w' → IsMain k w → IsMain k w'
  Keeps-IsMain k w w' keep h = record {
    sound =
        rw (ap (λ g. g.event_wait) p, ap (λ g. g.event_destroy) p) (keep.later.sound _ _ h.sound);
    counted =
        omega (arith, keep.later.same_forwards, ap (λ g. length g.message_queue) p, h.counted);
    held = λ c.
        rw (ap (λ g. g.event_wait) p, ap (λ g. g.time_pause) p)
          (keep.later.held _ _ (h.held (sym (ap (λ g. is_connected g.state) p) ∙ c)));
  }
    where
      p : private w'.gateway ≡ private w.gateway
      p = keep.same_private

  pub Keeps-IsStatic : (w w' : World Sim) → Keeps S w w' → IsStatic w w'
  Keeps-IsStatic w w' keep = record {
    same_field = ap (λ g. g.delimiter_field) keep.same_private;
    same_message = ap (λ g. g.delimiter_message) keep.same_private;
    same_buffer = ap (λ g. g.message_buffer) keep.same_private;
  }

  pub schedule_wait-IsMain :
      (k : ℕ) (w : World Sim)
      → SoundWorld w
      → forwards S w.sim + k ≡ length w.gateway.message_queue
      → IsMain k (schedule_wait S w)
  unfolding schedule_wait
  schedule_wait-IsMain k w sound counted = record {
    sound = schedule_wait-IsSound S _ _ w.sim sound;
    counted = omega (arith, counted, schedule-forwards S w.sim 0 wait_for_next_update);
    held = λ _. schedule_wait-IsHeld S w.gateway.time_pause w.sim;
  }

  -- Cancelling the event of m_eventWait or m_eventDestroy.
  pub record IsCancelled (w w' : World Sim) : Type 0 where
    pub same_gateway : w'.gateway ≡ w.gateway
    pub same_now : now w'.sim ≡ now w.sim
    pub sound : SoundWorld w → IsSound S w.gateway.event_wait w.gateway.event_destroy w'.sim
    pub same_forwards : SoundWorld w → forwards S w'.sim ≡ forwards S w.sim

  IsCancelled-refl : (w : World Sim) → IsCancelled w w
  IsCancelled-refl w = record {
    same_gateway = refl;
    same_now = refl;
    sound = λ h. h;
    same_forwards = λ h. refl;
  }

  cancel-IsCancelled :
      (u : ℕ) (w : World Sim)
      → (SoundWorld w → forwards S (cancel w.sim u) ≡ forwards S w.sim)
      → IsCancelled w (cancel_pending S u w)
  unfolding cancel_pending
  cancel-IsCancelled u w f = elim (Bool-cases (is_pending w.sim u)) [
    | inl e ↦ rw e (record {
      same_gateway = refl;
      same_now = S.cancel-now w.sim u;
      sound = cancel-IsSound S _ _ w.sim u;
      same_forwards = f;
    })
    | inr e ↦ rw e (IsCancelled-refl w)
  ]

  pub cancel_wait-IsCancelled :
      (w : World Sim) → IsCancelled w (cancel_pending S w.gateway.event_wait w)
  cancel_wait-IsCancelled w =
      cancel-IsCancelled w.gateway.event_wait w (cancel_wait-forwards S _ _ w.sim)

  pub cancel_destroy-IsCancelled :
      (w : World Sim) → IsCancelled w (cancel_pending S w.gateway.event_destroy w)
  cancel_destroy-IsCancelled w =
      cancel-IsCancelled w.gateway.event_destroy w (cancel_destroy-forwards S _ _ w.sim)

  pub IsCancelled-SoundWorld : (w w' : World Sim) → IsCancelled w w' → SoundWorld w → SoundWorld w'
  IsCancelled-SoundWorld w w' c h =
      rw (ap (λ g. g.event_wait) c.same_gateway, ap (λ g. g.event_destroy) c.same_gateway)
        (c.sound h)

  pub IsCancelled-counted :
      (k : ℕ) (w w' : World Sim)
      → IsCancelled w w'
      → SoundWorld w
      → forwards S w.sim + k ≡ length w.gateway.message_queue
      → forwards S w'.sim + k ≡ length w'.gateway.message_queue
  IsCancelled-counted k w w' c sound h =
      omega (arith, h, c.same_forwards sound, ap (λ g. length g.message_queue) c.same_gateway)

  pub IsCancelled-IsStatic : (w w' : World Sim) → IsCancelled w w' → IsStatic w w'
  IsCancelled-IsStatic w w' c = record {
    same_field = ap (λ g. g.delimiter_field) c.same_gateway;
    same_message = ap (λ g. g.delimiter_message) c.same_gateway;
    same_buffer = ap (λ g. g.message_buffer) c.same_gateway;
  }
