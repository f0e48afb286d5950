-- ===== src/CoSim/Stop.antt =====
-- Gateway::Stop and the main thread's part of the invariant.
use ns3_cosim.Common.{ℕ, ◌+◌, ◌≡◌, ◌≢◌, ap, ◌∙◌, Bool, true, false, length}
use ns3_cosim.Simulator.{Simulator}
use ns3_cosim.Gateway.{Call, World, State, created, connected, stopping, is_connected}
use ns3_cosim.Gateway.Handlers.{stop_begin, stop_end, cancel_pending}
use ns3_cosim.CoSim.Sound.{forwards}
use ns3_cosim.CoSim.Main.{
  SoundWorld, IsMain, IsCancelled, cancel_wait-IsCancelled, cancel_destroy-IsCancelled,
  IsCancelled-SoundWorld, IsCancelled-counted,
}
use ns3_cosim.CoSim.Forward.{IsDone}

not-connected : (st : State) → st ≡ stopping → is_connected st ≢ true
not-connected created e c = cc
not-connected connected e c = cc
not-connected stopping e c = cc

module _ (S : Simulator Call) where
  open S use {Sim}

  pub stop_begin-IsMain :
      (k : ℕ) (w : World Sim)
      → SoundWorld S w
      → forwards S w.sim + k ≡ length w.gateway.message_queue
      → IsMain S k (stop_begin S w)
  unfolding stop_begin
  stop_begin-IsMain k w sound counted = record { sound = sound; counted = counted; held = λ c. cc }

  -- The last two lines of Stop, one after the other.
  abbrev cancel_both : World Sim → World Sim
  cancel_both w =
      let v = cancel_pending S w.gateway.event_wait w in cancel_pending S v.gateway.event_destroy v

  IsCancelled-trans :
      (u v w : World Sim) → IsCancelled S u v → IsCancelled S v w → IsCancelled S u w
  IsCancelled-trans u v w h k = record {
    same_gateway = k.same_gateway ∙ h.same_gateway;
    same_now = k.same_now ∙ h.same_now;
    sound = λ x.
        rw (← ap (λ g. g.event_wait) h.same_gateway, ← ap (λ g. g.event_destroy) h.same_gateway)
          (k.sound (IsCancelled-SoundWorld S u v h x));
    same_forwards = λ x. k.same_forwards (IsCancelled-SoundWorld S u v h x) ∙ h.same_forwards x;
  }

  pub cancel_both-IsCancelled : (w : World Sim) → IsCancelled S w (cancel_both w)
  cancel_both-IsCancelled w =
      IsCancelled-trans w _ _ (cancel_wait-IsCancelled S w) (cancel_destroy-IsCancelled S _)

  IsCancelled-IsDone :
      (k : ℕ) (w v : World Sim)
      → IsCancelled S w v
      → w.gateway.state ≡ stopping
      → SoundWorld S w
      → forwards S w.sim + k ≡ length w.gateway.message_queue
      → IsDone S k w.gateway.message_queue w v
  IsCancelled-IsDone k w v c e sound counted = record {
    main = record {
      sound = IsCancelled-SoundWorld S w v c sound;
      counted = IsCancelled-counted S k w v c sound counted;
      held = λ h. absurd (not-connected v.gateway.state (ap (λ g. g.state) c.same_gateway ∙ e) h);
    };
    static = record {
      same_field = ap (λ g. g.delimiter_field) c.same_gateway;
      same_message = ap (λ g. g.delimiter_message) c.same_gateway;
      same_buffer = ap (λ g. g.message_buffer) c.same_gateway;
    };
    same_state = ap (λ g. g.state) c.same_gateway;
    same_queue = ap (λ g. g.message_queue) c.same_gateway;
  }

  pub stop_end-IsDone :
      (k : ℕ) (b : Bool) (w : World Sim)
      → w.gateway.state ≡ stopping
      → SoundWorld S w
      → forwards S w.sim + k ≡ length w.gateway.message_queue
      → IsDone S k w.gateway.message_queue w (stop_end S b w)
  unfolding stop_end
  stop_end-IsDone k false w e sound counted =
      IsCancelled-IsDone k w _ (cancel_both-IsCancelled w) e sound counted
  stop_end-IsDone k true w e sound counted =
      let d = IsCancelled-IsDone k closed _ (cancel_both-IsCancelled closed) e sound counted in
      record {
        main = d.main;
        static = record {
          same_field = d.static.same_field;
          same_message = d.static.same_message;
          same_buffer = d.static.same_buffer;
        };
        same_state = d.same_state;
        same_queue = d.same_queue;
      }
    where
      closed : World Sim
      closed = record w { gateway = record (w.gateway) { joinable = false; socket_open = false } }
