-- ===== src/CoSim/Quiet.antt =====
-- What leaves the pending calls of HandleUpdate and DoInitialize alone: the steps of Stop, and the
-- events other than ForwardUp. Thread is about the steps of the thread.
pub mod Thread
use ns3_cosim.Common.{
  arith, ◌≤◌, ℕ, ◌≡◌, ◌≢◌, refl, ap, subst, ◌∙◌, inl, inr, Bool, true, false, List, [], ◌∷◌, Option,
  none, some, Bytes, Bool-cases,
}
use ns3_cosim.Text.{find}
use ns3_cosim.Simulator.{Simulator}
use ns3_cosim.Simulator.Queue.{All-map}
use ns3_cosim.Gateway.{
  Call, World, ok, ok-injective, Action, stop, wait_for_next_update, forward_up, do_initialize,
  handle_update, model, is_stopping, is_time,
}
use ns3_cosim.Gateway.Handlers.{
  schedule_wait, cancel_pending, wait_update, run_actions, update, execute, stop_end,
}
use ns3_cosim.CoSim.{
  System, top, searching, pushed, exited, Recv, received, failed, schedule_call, receive, push,
  search_delimiter, loop_test, thread_step, run_thread,
}
use ns3_cosim.CoSim.Client.{run_actions-Keeps}
use ns3_cosim.CoSim.Main.{SoundWorld, cancel_wait-IsCancelled, IsCancelled-SoundWorld}
use ns3_cosim.CoSim.Updates.{
  Choice, IsForwardOnly, chosen, chosen-insert_other, chosen-without, chosen-absent,
}

module _ (S : Simulator Call) where
  open S use {Sim, now, events, schedule, cancel, is_pending}

  -- Neither the pending calls that ForwardUp schedules for the derived class nor what decides about them is changed.
  pub record IsQuiet (w w' : World Sim) : Type 0 where
    pub same_calls :
        (choice : Choice)
        → IsForwardOnly choice
        → chosen choice (events w'.sim) ≡ chosen choice (events w.sim)
    pub later_time : now w.sim ≤ now w'.sim
    pub same_start : w'.gateway.time_start ≡ w.gateway.time_start
    pub same_field : w'.gateway.delimiter_field ≡ w.gateway.delimiter_field

  pub IsQuiet-refl : (w : World Sim) → IsQuiet w w
  IsQuiet-refl w = record {
    same_calls = λ c f. refl;
    later_time = omega arith;
    same_start = refl;
    same_field = refl;
  }

  IsQuiet-trans : (u v w : World Sim) → IsQuiet u v → IsQuiet v w → IsQuiet u w
  IsQuiet-trans u v w h k = record {
    same_calls = λ c f. k.same_calls c f ∙ h.same_calls c f;
    later_time = omega (arith, h.later_time, k.later_time);
    same_start = k.same_start ∙ h.same_start;
    same_field = k.same_field ∙ h.same_field;
  }

  schedule_wait-IsQuiet : (w : World Sim) → IsQuiet w (schedule_wait S w)
  unfolding schedule_wait
  schedule_wait-IsQuiet w = record {
    same_calls = λ d f.
        ap (chosen d) (S.schedule-events w.sim 0 wait_for_next_update)
        ∙ chosen-insert_other d _ (events w.sim) f.no_wait;
    later_time = omega (arith, S.schedule-now w.sim 0 wait_for_next_update);
    same_start = refl;
    same_field = refl;
  }

  cancel-IsQuiet :
      (u : ℕ) (w : World Sim)
      → ((choice : Choice)
          → IsForwardOnly choice
          → chosen choice (events (cancel w.sim u)) ≡ chosen choice (events w.sim))
      → IsQuiet w (cancel_pending S u w)
  unfolding cancel_pending
  cancel-IsQuiet u w h = elim (Bool-cases (is_pending w.sim u)) [
    | inl e ↦ rw e (record {
      same_calls = h;
      later_time = omega (arith, S.cancel-now w.sim u);
      same_start = refl;
      same_field = refl;
    })
    | inr e ↦ rw e (IsQuiet-refl w)
  ]

  pub cancel_wait-IsQuiet :
      (w : World Sim) → SoundWorld S w → IsQuiet w (cancel_pending S w.gateway.event_wait w)
  cancel_wait-IsQuiet w h = cancel-IsQuiet w.gateway.event_wait w (λ c f.
      ap (chosen c) (S.cancel-events w.sim w.gateway.event_wait)
      ∙ chosen-without c w.gateway.event_wait (events w.sim) (
          All-map (λ e. e.uid ≡ w.gateway.event_wait → e.call ≡ wait_for_next_update)
            (λ e. e.uid ≡ w.gateway.event_wait → c e.call ≡ none) (λ e k q. ap c (k q) ∙ f.no_wait)
            (events w.sim) h.only_wait))

  pub cancel_destroy-IsQuiet :
      (w : World Sim) → SoundWorld S w → IsQuiet w (cancel_pending S w.gateway.event_destroy w)
  cancel_destroy-IsQuiet w h = cancel-IsQuiet w.gateway.event_destroy w (λ c f.
      ap (chosen c) (S.cancel-events w.sim w.gateway.event_destroy)
      ∙ chosen-absent c w.gateway.event_destroy (events w.sim) h.absent)

  -- The last two lines of Stop.
  cancel_both-IsQuiet :
      (w : World Sim)
      → SoundWorld S w
      → IsQuiet w (
          cancel_pending S
            (cancel_pending S w.gateway.event_wait w).gateway.event_destroy
            (cancel_pending S w.gateway.event_wait w))
  cancel_both-IsQuiet w h =
      let v = cancel_pending S w.gateway.event_wait w in
      IsQuiet-trans w v _ (cancel_wait-IsQuiet w h)
        (cancel_destroy-IsQuiet v (IsCancelled-SoundWorld S w v (cancel_wait-IsCancelled S w) h))

  pub stop_end-IsQuiet : (b : Bool) (w : World Sim) → SoundWorld S w → IsQuiet w (stop_end S b w)
  unfolding stop_end
  stop_end-IsQuiet true w h =
      let v = record w { gateway = record (w.gateway) { joinable = false; socket_open = false } } in
      IsQuiet-trans w v _
        (record {
          same_calls = λ c f. refl;
          later_time = omega arith;
          same_start = refl;
          same_field = refl;
        })
        (cancel_both-IsQuiet v h)
  stop_end-IsQuiet false w h = cancel_both-IsQuiet w h

  wait_update-IsQuiet : (w : World Sim) → SoundWorld S w → IsQuiet w (wait_update S w)
  unfolding wait_update
  wait_update-IsQuiet w h = elim (Bool-cases (is_stopping w.gateway.state)) [
    | inl e ↦ rw e (IsQuiet-refl w)
    | inr e ↦ rw e (
        IsQuiet-trans w _ _ (cancel_wait-IsQuiet w h)
          (schedule_wait-IsQuiet (cancel_pending S w.gateway.event_wait w)))
  ]

  pub actions-IsQuiet :
      (actions : List Action) (w w' : World Sim) → run_actions S actions w ≡ ok w' → IsQuiet w w'
  actions-IsQuiet actions w w' h =
      let k = run_actions-Keeps S actions w w' h in
      record {
        same_calls = k.same_calls;
        later_time = omega (arith, k.later.same_time);
        same_start = ap (λ g. g.time_start) k.same_private;
        same_field = ap (λ g. g.delimiter_field) k.same_private;
      }

  update-IsQuiet :
      (actions : List Action) (w w' : World Sim) → update S actions w ≡ ok w' → IsQuiet w w'
  unfolding update
  update-IsQuiet actions w w' h = elim (Bool-cases (is_time w.gateway.time_pause (now w.sim))) [
    | inl e ↦
        IsQuiet-trans w (schedule_wait S w) w' (schedule_wait-IsQuiet w)
          (actions-IsQuiet actions (schedule_wait S w) w' (rw e at h))
    | inr e ↦ actions-IsQuiet actions w w' (rw e at h)
  ]

  -- An event other than Stop and ForwardUp.
  pub execute-IsQuiet :
      (c : Call) (actions : List Action) (w w' : World Sim)
      → c ≢ stop
      → c ≢ forward_up
      → SoundWorld S w
      → execute S c actions w ≡ ok w'
      → IsQuiet w w'
  unfolding execute
  execute-IsQuiet stop actions w w' ns nf h x = absurd (ns refl)
  execute-IsQuiet wait_for_next_update actions w w' ns nf h x =
      subst (IsQuiet w) (ok-injective x) (wait_update-IsQuiet w h)
  execute-IsQuiet forward_up actions w w' ns nf h x = absurd (nf refl)
  execute-IsQuiet (do_initialize values) actions w w' ns nf h x = actions-IsQuiet actions w w' x
  execute-IsQuiet (handle_update values) actions w w' ns nf h x = update-IsQuiet actions w w' x
  execute-IsQuiet (model n) actions w w' ns nf h x = actions-IsQuiet actions w w' x
