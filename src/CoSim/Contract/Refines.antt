-- ===== src/CoSim/Contract/Refines.antt =====
-- The run of the two threads refines the contract.
use ns3_cosim.Common.{
  ◌≤◌, arith, ℕ, ◌≡◌, ◌≢◌, refl, sym, ap, subst, ◌∙◌, ◌⊎◌, inl, inr, true, not, List, [], ◌∷◌, ◌++◌,
  append-nil, none, some, Bytes, All,
}
use ns3_cosim.Text.{find}
use ns3_cosim.Text.Border.{unbordered}
use ns3_cosim.Protocol.Split.{Lacks}
use ns3_cosim.Simulator.{Simulator, Event}
use ns3_cosim.Simulator.Queue.{Ordered}
use ns3_cosim.Gateway.{
  Call, World, ok, ok-injective, >>=-eq-ok, refuse, Network, stop, wait_for_next_update, forward_up,
  do_initialize, handle_update, model, is_model, is_created, is_negative, is_positive,
  first_of_queue,
}
use ns3_cosim.Gateway.Handlers.{connect, open_connection, schedule_wait, stop_begin, execute}
use ns3_cosim.CoSim.{
  System, Step, thread, event, stop_event, destroy, joined, Reach, start, later, run_thread,
  IsFresh, initial, taken,
}
use ns3_cosim.CoSim.Updates.{
  Choice, IsForwardOnly, update_values, update_values-IsForwardOnly, add_update, add_call-other,
  chosen, updates, chosen-insert_other,
}
use ns3_cosim.CoSim.Quiet.Thread.{run_thread-IsQuiet, run_thread-forwarded}
use ns3_cosim.CoSim.Quiet.{IsQuiet, stop_end-IsQuiet}
use ns3_cosim.CoSim.Order.{next-chosen}
use ns3_cosim.CoSim.Stream.{framed, unread}
use ns3_cosim.CoSim.Invariant.{Reach-Inv}
use ns3_cosim.CoSim.Delivery.{all_delivered}
use ns3_cosim.CoSim.Contract.{InOrder, as_granted, start_of, granted, handled_in, handled}
use ns3_cosim.CoSim.Contract.Forward.{no_start}
use ns3_cosim.CoSim.Contract.Tracks.{Tracks, quiet-Tracks, event-Tracks, forward-Tracks}

pub is_forward_up : (c : Call) → (c ≡ forward_up) ⊎ (c ≢ forward_up)
is_forward_up forward_up = inl refl
is_forward_up stop = inr λ e. cc
is_forward_up wait_for_next_update = inr λ e. cc
is_forward_up (do_initialize values) = inr λ e. cc
is_forward_up (handle_update values) = inr λ e. cc
is_forward_up (model n) = inr λ e. cc

module _ (S : Simulator Call) where
  open S use {Sim, now, events, next}

  model-chosen :
      (choice : Choice) (c : Call) → IsForwardOnly choice → is_model c ≡ true → choice c ≡ none
  model-chosen choice (model n) f h = f.no_model n
  model-chosen choice forward_up f h = cc
  model-chosen choice stop f h = cc
  model-chosen choice wait_for_next_update f h = cc
  model-chosen choice (do_initialize v) f h = cc
  model-chosen choice (handle_update v) f h = cc

  pub no_calls :
      (choice : Choice) (es : List (Event Call))
      → IsForwardOnly choice
      → All (λ e. is_model e.call ≡ true) es
      → chosen choice es ≡ []
  unfolding chosen
  no_calls choice [] f h = refl
  no_calls choice (e ∷ es) f h =
      add_call-other e.time (choice e.call) (chosen choice es) (model-chosen choice e.call f h.0)
      ∙ no_calls choice es f h.1

  start-Tracks :
      (net : Network) (w w' : World Sim)
      → IsFresh S w
      → connect S net w ≡ ok w'
      → Tracks S [] (initial S w')
  unfolding connect open_connection schedule_wait start_of granted
  start-Tracks net w w' f h =
      let (_, _, h1) = >>=-eq-ok (refuse (not (is_created w.gateway.state)) _) _ h in
      let (_, _, h2) = >>=-eq-ok (refuse (is_negative net.socket_result) _) _ h1 in
      let (_, _, h3) = >>=-eq-ok (refuse (not (is_positive net.pton_result)) _) _ h2 in
      let (_, _, h4) = >>=-eq-ok (refuse (is_negative net.connect_result) _) _ h3 in
      subst (λ v. Tracks S [] (initial S v)) (ok-injective h4)
        (record {
          starts = no_start w.gateway.time_start f.no_start;
          all_calls = λ io. ap as_granted (
              ap updates (S.schedule-events _ 0 wait_for_next_update)
              ∙ chosen-insert_other update_values _ _ refl
              ∙ ap updates (S.schedule_destroy-events w.sim stop)
              ∙ no_calls update_values (events w.sim) update_values-IsForwardOnly f.only_model);
        })

  pub next-later_time :
      (s : System Sim) (sim : Sim) (c : Call)
      → Reach S s
      → next s.sim ≡ some (c, sim)
      → now s.sim ≤ now sim
  next-later_time s sim c r n =
      let (e, es, l, call, rest, time, ids) = S.next-events s.sim sim c n in
      let o = subst (Ordered (now s.sim)) l (Reach-Inv S r).main.sound.ordered in
      omega (arith, o.0, time)

  pub stop_taken-IsQuiet :
      (s : System Sim) (sim : Sim)
      → Reach S s
      → next s.sim ≡ some (stop, sim)
      → IsQuiet S s.world (stop_begin S (taken S s sim))
  unfolding stop_begin
  stop_taken-IsQuiet s sim r n = record {
    same_calls = λ c f. sym (next-chosen S c s.sim sim stop n ∙ add_call-other _ _ _ f.no_stop);
    later_time = next-later_time s sim stop r n;
    same_start = refl;
    same_field = refl;
  }

  Step-Tracks :
      (calls : List (ℕ × List Bytes)) {s t : System Sim} (st : Step S s t)
      → Reach S s
      → Tracks S calls s
      → Tracks S (calls ++ handled_in S st) t
  unfolding stop_begin
  Step-Tracks calls {s} (thread r) reach h =
      quiet-Tracks S calls s (run_thread S r s) (run_thread-IsQuiet S r s)
        (run_thread-forwarded S r s) h
  Step-Tracks calls {s} (event c actions sim w j ns n x) reach h = elim (is_forward_up c) [
    | inl e ↦
        subst
          (λ c. Tracks S (calls ++ add_update (now sim) c []) (record s {
            world = w;
            forwarded = s.forwarded ++ first_of_queue c s.gateway.message_queue;
          }))
          (sym e)
          (forward-Tracks S calls s actions sim w reach (n ∙ ap (λ c. some (c, sim)) e)
            (ap (λ c. execute S c actions (taken S s sim)) (sym e) ∙ x) h)
    | inr nf ↦ event-Tracks S calls s c actions sim w reach ns nf n x h
  ]
  Step-Tracks calls {s} (stop_event sim j n) reach h =
      quiet-Tracks S calls s _ (stop_taken-IsQuiet s sim reach n) refl h
  Step-Tracks calls {s} (destroy j) reach h =
      quiet-Tracks S calls s _
        (record {
          same_calls = λ c f. refl;
          later_time = omega arith;
          same_start = refl;
          same_field = refl;
        })
        refl h
  Step-Tracks calls {s} (joined b j x) reach h =
      quiet-Tracks S calls s _ (stop_end-IsQuiet S b s.world (Reach-Inv S reach).main.sound) refl h

  pub Reach-Tracks : {s : System Sim} (r : Reach S s) → Tracks S (handled S r) s
  unfolding handled
  Reach-Tracks (start net w w' f e) = start-Tracks net w w' f e
  Reach-Tracks (later r st) = Step-Tracks (handled S r) st r (Reach-Tracks r)

  -- In every run, whatever the interleaving, whatever the pieces in which the bytes come and whatever
  -- the model and the derived class do: the calls of DoUpdate made so far, each with the clock at which
  -- it was made and its values, followed by those still pending, are exactly the ones that the
  -- messages which ForwardUp took ask for, in order. The first message with a timestamp that is not
  -- negative sets the reference time; each such message behind it asks for one call, with the values
  -- behind its header, at its timestamp less the reference time. None of these times is earlier than
  -- one before it.
  pub handled-granted :
      (s : System Sim) (r : Reach S s)
      → InOrder (granted S s.gateway.delimiter_field s.forwarded none)
      → as_granted (handled S r ++ updates (events s.sim))
        ≡ granted S s.gateway.delimiter_field s.forwarded none
  handled-granted s r io = (Reach-Tracks r).all_calls io

  -- Where the server has sent whole messages and a part of another one, and none of them waits in the
  -- buffer or in the queue, ForwardUp has taken them all.
  pub forwarded_all :
      (s : System Sim) (r : Reach S s) (ms : List Bytes) (rest : Bytes)
      → unbordered s.gateway.delimiter_message ≡ true
      → Lacks s.gateway.delimiter_message ms
      → find s.gateway.delimiter_message rest ≡ none
      → s.stream ≡ framed s.gateway.delimiter_message ms ++ rest
      → find s.gateway.delimiter_message (unread s.thread s.gateway.message_buffer) ≡ none
      → s.gateway.message_queue ≡ []
      → s.forwarded ≡ ms
  forwarded_all s r ms rest b l f e g q =
      let (all, last) = all_delivered S s ms rest r b l f e g in
      sym (append-nil s.forwarded) ∙ ap (λ l. s.forwarded ++ l) (sym q) ∙ all

  -- From the bytes of the server to the calls of DoUpdate: when the server has sent the messages `ms`
  -- and the beginning `rest` of another one, the thread holds no whole message, the queue is empty and
  -- no call of HandleUpdate is pending, then the calls of DoUpdate that were made are exactly those that
  -- `ms` ask for, each at its time. The message delimiter is unbordered, neither a message nor `rest`
  -- holds it, and no timestamp behind the first one is earlier than one before it.
  pub stream_handled :
      (s : System Sim) (r : Reach S s) (ms : List Bytes) (rest : Bytes)
      → unbordered s.gateway.delimiter_message ≡ true
      → Lacks s.gateway.delimiter_message ms
      → find s.gateway.delimiter_message rest ≡ none
      → s.stream ≡ framed s.gateway.delimiter_message ms ++ rest
      → find s.gateway.delimiter_message (unread s.thread s.gateway.message_buffer) ≡ none
      → s.gateway.message_queue ≡ []
      → updates (events s.sim) ≡ []
      → InOrder (granted S s.gateway.delimiter_field ms none)
      → as_granted (handled S r) ≡ granted S s.gateway.delimiter_field ms none
  stream_handled s r ms rest b l f e g q u io =
      let same = forwarded_all s r ms rest b l f e g q in
      ap as_granted (sym (append-nil (handled S r)) ∙ ap (λ l. handled S r ++ l) (sym u))
      ∙ handled-granted s r
          (subst (λ l. InOrder (granted S s.gateway.delimiter_field l none)) (sym same) io)
      ∙ ap (λ l. granted S s.gateway.delimiter_field l none) same
