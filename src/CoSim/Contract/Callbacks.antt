-- ===== src/CoSim/Contract/Callbacks.antt =====
-- The calls that reach the derived class, along the runs of the two threads.
use ns3_cosim.CoSim.Contract.Called.{IsCalled, quiet-IsCalled, event-IsCalled, forward-IsCalled}
use ns3_cosim.CoSim.Contract.Choices.{init_values, init_values-IsForwardOnly}
use ns3_cosim.Common.{
  ◌≡◌, refl, sym, ap, subst, ◌∙◌, inl, inr, not, List, [], ◌++◌, none, some, Bytes, arith,
}
use ns3_cosim.Simulator.{Simulator}
use ns3_cosim.Gateway.{
  Call, World, ok, stop, Network, ok-injective, >>=-eq-ok, refuse, is_created, is_negative,
  is_positive, wait_for_next_update, first_of_queue,
}
use ns3_cosim.Gateway.Handlers.{connect, open_connection, schedule_wait, stop_begin, execute}
use ns3_cosim.CoSim.{
  System, Step, thread, event, stop_event, destroy, joined, Reach, start, later, run_thread,
  IsFresh, initial, taken,
}
use ns3_cosim.CoSim.Updates.{
  IsForwardOnly, Choice, callback_values, callback_values-IsForwardOnly, add_call, chosen,
  chosen-insert_other,
}
use ns3_cosim.CoSim.Quiet.Thread.{run_thread-IsQuiet, run_thread-forwarded}
use ns3_cosim.CoSim.Quiet.{stop_end-IsQuiet}
use ns3_cosim.CoSim.Invariant.{Reach-Inv}
use ns3_cosim.CoSim.Contract.{InOrder, granted, values_of, delivered, called_in, called}
use ns3_cosim.CoSim.Contract.Refines.{stop_taken-IsQuiet, is_forward_up, no_calls}

module _ (S : Simulator Call) where
  open S use {Sim, now, events, next}

  start-IsCalled :
      (net : Network) (w w' : World Sim)
      → IsFresh S w
      → connect S net w ≡ ok w'
      → IsCalled S [] (initial S w')
  unfolding connect open_connection schedule_wait delivered
  start-IsCalled net w w' f h =
      let (_, _, h1) = >>=-eq-ok (refuse (not (is_created w.gateway.state)) _) _ h in
      let (_, _, h2) = >>=-eq-ok (refuse (is_negative net.socket_result) _) _ h1 in
      let (_, _, h3) = >>=-eq-ok (refuse (not (is_positive net.pton_result)) _) _ h2 in
      let (_, _, h4) = >>=-eq-ok (refuse (is_negative net.connect_result) _) _ h3 in
      subst (λ v. IsCalled S [] (initial S v)) (ok-injective h4)
        (record {
          unset = λ b. none_pending callback_values callback_values-IsForwardOnly;
          soon = rw (none_pending init_values init_values-IsForwardOnly) tt;
          all_values =
              λ io. ap values_of (none_pending callback_values callback_values-IsForwardOnly);
        })
    where
      none_pending :
          (choice : Choice)
          → IsForwardOnly choice
          → chosen choice
              (events (S.schedule (S.schedule_destroy w.sim stop).0 0 wait_for_next_update).0)
            ≡ []
      none_pending choice k =
          ap (chosen choice) (S.schedule-events _ 0 wait_for_next_update)
          ∙ chosen-insert_other choice _ _ k.no_wait
          ∙ ap (chosen choice) (S.schedule_destroy-events w.sim stop)
          ∙ no_calls S choice (events w.sim) k f.only_model

  Step-IsCalled :
      (made : List (List Bytes)) {s t : System Sim} (st : Step S s t)
      → Reach S s
      → IsCalled S made s
      → IsCalled S (made ++ called_in S st) t
  unfolding stop_begin
  Step-IsCalled made {s} (thread r) reach h =
      quiet-IsCalled S made s (run_thread S r s) (run_thread-IsQuiet S r s)
        (run_thread-forwarded S r s) h
  Step-IsCalled made {s} (event c actions sim w j ns n x) reach h = elim (is_forward_up c) [
    | inl e ↦
        subst
          (λ c.
            IsCalled S (made ++ values_of (add_call (now sim) (callback_values c) [])) (record s {
              world = w;
              forwarded = s.forwarded ++ first_of_queue c s.gateway.message_queue;
            }))
          (sym e)
          (forward-IsCalled S made s actions sim w reach (n ∙ ap (λ c. some (c, sim)) e)
            (ap (λ c. execute S c actions (taken S s sim)) (sym e) ∙ x) h)
    | inr nf ↦ event-IsCalled S made s c actions sim w reach ns nf n x h
  ]
  Step-IsCalled made {s} (stop_event sim j n) reach h =
      quiet-IsCalled S made s _ (stop_taken-IsQuiet S s sim reach n) refl h
  Step-IsCalled made {s} (destroy j) reach h =
      quiet-IsCalled S made s _
        (record {
          same_calls = λ c f. refl;
          later_time = omega arith;
          same_start = refl;
          same_field = refl;
        })
        refl h
  Step-IsCalled made {s} (joined b j x) reach h =
      quiet-IsCalled S made s _ (stop_end-IsQuiet S b s.world (Reach-Inv S reach).main.sound) refl h

  Reach-IsCalled : {s : System Sim} (r : Reach S s) → IsCalled S (called S r) s
  unfolding called
  Reach-IsCalled (start net w w' f e) = start-IsCalled net w w' f e
  Reach-IsCalled (later r st) = Step-IsCalled (called S r) st r (Reach-IsCalled r)

  -- In every run, whatever the interleaving, whatever the pieces in which the bytes come and whatever
  -- the model and the derived class do: the values with which DoInitialize and DoUpdate have been
  -- called so far, followed by those of the calls that are still pending, are exactly the values of the
  -- messages that ForwardUp took, in order, less those with a negative timestamp: no message is lost,
  -- none reaches the derived class twice, and none overtakes another. The times that the messages grant
  -- are not earlier than one before them.
  pub called-delivered :
      (s : System Sim) (r : Reach S s)
      → InOrder (granted S s.gateway.delimiter_field s.forwarded none)
      → called S r ++ values_of (chosen callback_values (events s.sim))
        ≡ delivered S s.gateway.delimiter_field s.forwarded
  called-delivered s r io = (Reach-IsCalled r).all_values io
