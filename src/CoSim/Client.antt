-- ===== src/CoSim/Client.antt =====
-- What the callbacks of the derived class, and the other calls that only schedule, leave as it was.
use ns3_cosim.Common.{ℕ, ◌≡◌, refl, ap, subst, ◌∙◌, false, List, [], ◌∷◌, ◌++◌, arith, ℤ, Any}
use ns3_cosim.Simulator.{Simulator, Event}
use ns3_cosim.Simulator.Queue.{Any-insert_event}
use ns3_cosim.Gateway.{
  Call, Gateway, World, Outcome, ok, >>=-eq-ok, ok-injective, Action, sets, sends, schedules, stops,
  set_value, send_response, model,
}
use ns3_cosim.Gateway.Handlers.{act, run_actions}
use ns3_cosim.CoSim.Sound.{
  IsSound, is_forward, forwards, schedule-IsSound, stop-IsSound, schedule-forwards, stop-forwards,
}
use ns3_cosim.CoSim.Held.{IsHeld, schedule-IsHeld, stop-IsHeld}
use ns3_cosim.CoSim.Updates.{Choice, IsForwardOnly, chosen, chosen-insert_other}

-- All of the gateway but the values to send.
abbrev pub private : Gateway → Gateway
private g = record g { values = [] }

module _ (S : Simulator Call) where
  open S use {Sim, now, events, schedule}

  -- `s'` is `s` with more events, none of them a call of ForwardUp.
  pub record IsLater (s s' : Sim) : Type 0 where
    pub same_time : now s' ≡ now s
    pub sound : (u v : ℕ) → IsSound S u v s → IsSound S u v s'
    pub held : (u : ℕ) (p : ℤ) → IsHeld S u p s → IsHeld S u p s'
    pub same_forwards : forwards S s' ≡ forwards S s
    pub kept : (e : Event Call) → Any (λ f. f ≡ e) (events s) → Any (λ f. f ≡ e) (events s')

  pub IsLater-refl : (s : Sim) → IsLater s s
  IsLater-refl s = record {
    same_time = refl;
    sound = λ u v h. h;
    held = λ u p h. h;
    same_forwards = refl;
    kept = λ e h. h;
  }

  pub IsLater-trans : (r s t : Sim) → IsLater r s → IsLater s t → IsLater r t
  IsLater-trans r s t h k = record {
    same_time = k.same_time ∙ h.same_time;
    sound = λ u v x. k.sound u v (h.sound u v x);
    held = λ u p x. k.held u p (h.held u p x);
    same_forwards = k.same_forwards ∙ h.same_forwards;
    kept = λ e x. k.kept e (h.kept e x);
  }

  pub schedule-IsLater :
      (s : Sim) (d : ℕ) (c : Call) → is_forward c ≡ false → IsLater s (schedule s d c).0
  schedule-IsLater s d c f = record {
    same_time = S.schedule-now s d c;
    sound = λ u v. schedule-IsSound S u v s d c;
    held = λ u p. schedule-IsHeld S u p s d c;
    same_forwards = schedule-forwards S s d c ∙ rw f;
    kept = λ e x. rw (S.schedule-events s d c) (Any-insert_event (λ f. f ≡ e) _ (events s) x);
  }

  pub stop-IsLater : (s : Sim) → IsLater s (S.stop s)
  stop-IsLater s = record {
    same_time = S.stop-now s;
    sound = λ u v. stop-IsSound S u v s;
    held = λ u p. stop-IsHeld S u p s;
    same_forwards = stop-forwards S s;
    kept = λ e x. rw (S.stop-events s) x;
  }

  pub record Keeps (w w' : World Sim) : Type 0 where
    pub same_private : private w'.gateway ≡ private w.gateway
    pub later : IsLater w.sim w'.sim
    pub same_calls :
        (choice : Choice)
        → IsForwardOnly choice
        → chosen choice (events w'.sim) ≡ chosen choice (events w.sim)

  Keeps-trans : (u v w : World Sim) → Keeps u v → Keeps v w → Keeps u w
  Keeps-trans u v w h k = record {
    same_private = k.same_private ∙ h.same_private;
    later = IsLater-trans u.sim v.sim w.sim h.later k.later;
    same_calls = λ c f. k.same_calls c f ∙ h.same_calls c f;
  }

  ok-Keeps : (u w w' : World Sim) → Outcome.ok u ≡ ok w' → Keeps w u → Keeps w w'
  ok-Keeps u w w' h k = subst (Keeps w) (ok-injective h) k

  set_value-private :
      (i : ℕ) (v : List ℕ) (g g' : Gateway) → set_value i v g ≡ ok g' → private g' ≡ private g
  unfolding set_value
  set_value-private i v g g' h = ground arith

  act-Keeps : (a : Action) (w w' : World Sim) → act S a w ≡ ok w' → Keeps w w'
  unfolding act
  act-Keeps (sets i v) w w' h =
      let (g, e, r) = >>=-eq-ok (set_value i v w.gateway) _ h in
      ok-Keeps (record w { gateway = g }) w w' r
        (record {
          same_private = set_value-private i v w.gateway g e;
          later = IsLater-refl w.sim;
          same_calls = λ c f. refl;
        })
  act-Keeps sends w w' h =
      let (m, e, r) = >>=-eq-ok (send_response w.gateway) _ h in
      ok-Keeps (record w { sent = w.sent ++ (m ∷ []) }) w w' r
        (record { same_private = refl; later = IsLater-refl w.sim; same_calls = λ c f. refl })
  act-Keeps (schedules d n) w w' h =
      ok-Keeps (record w { sim = (schedule w.sim d (model n)).0 }) w w' h
        (record {
          same_private = refl;
          later = schedule-IsLater w.sim d (model n) refl;
          same_calls = λ c f.
              ap (chosen c) (S.schedule-events w.sim d (model n))
              ∙ chosen-insert_other c _ (events w.sim) (f.no_model n);
        })
  act-Keeps stops w w' h =
      ok-Keeps (record w { sim = S.stop w.sim }) w w' h
        (record {
          same_private = refl;
          later = stop-IsLater w.sim;
          same_calls = λ c f. ap (chosen c) (S.stop-events w.sim);
        })

  pub run_actions-Keeps :
      (as' : List Action) (w w' : World Sim) → run_actions S as' w ≡ ok w' → Keeps w w'
  unfolding run_actions
  run_actions-Keeps [] w w' h =
      ok-Keeps w w w' h
        (record { same_private = refl; later = IsLater-refl w.sim; same_calls = λ c f. refl })
  run_actions-Keeps (a ∷ as') w w' h =
      let (v, e, r) = >>=-eq-ok (act S a w) _ h in
      Keeps-trans w v w' (act-Keeps a w v e) (run_actions-Keeps as' v w' r)
