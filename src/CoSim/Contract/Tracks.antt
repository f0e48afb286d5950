-- ===== src/CoSim/Contract/Tracks.antt =====
-- The contract, kept by each kind of event.
use ns3_cosim.Common.{
  ℕ, ◌≡◌, ◌≢◌, refl, sym, ap, subst, ◌∙◌, List, [], ◌∷◌, ◌++◌, append_assoc, append-nil, none, some,
  Bytes, ◌≤ℤ◌, All,
}
use ns3_cosim.Simulator.{Simulator}
use ns3_cosim.Gateway.{
  Call, World, ok, Action, stop, wait_for_next_update, forward_up, do_initialize, handle_update,
  model, first_of_queue,
}
use ns3_cosim.Gateway.Handlers.{execute}
use ns3_cosim.CoSim.{System, Reach, taken}
use ns3_cosim.CoSim.Updates.{
  update_values, update_values-IsForwardOnly, add_update, add_call-append, updates,
}
use ns3_cosim.CoSim.Quiet.{IsQuiet, execute-IsQuiet}
use ns3_cosim.CoSim.Order.{next-chosen, taken-SoundWorld}
use ns3_cosim.CoSim.Execute.{forward_queue}
use ns3_cosim.CoSim.Contract.{
  Granted, start_after, granted_by, InOrder, as_granted, header, start_of, granted,
}
use ns3_cosim.CoSim.Contract.Terms.{
  as_granted-append, InOrder-append, InOrder-last, All-behind, start_of-append_one,
  granted-append_one,
}
use ns3_cosim.CoSim.Contract.Forward.{as_start, IsForwarded, forward-IsForwarded}

pub nothing_first : (c : Call) (q : List Bytes) → c ≢ forward_up → first_of_queue c q ≡ []
nothing_first stop q n = refl
nothing_first forward_up q n = absurd (n refl)
nothing_first wait_for_next_update q n = refl
nothing_first (do_initialize values) q n = refl
nothing_first (handle_update values) q n = refl
nothing_first (model k) q n = refl

module _ (S : Simulator Call) where
  open S use {Sim, now, events, next}

  -- The calls made so far and the pending ones are those that the forwarded messages grant.
  pub record Tracks (calls : List (ℕ × List Bytes)) (s : System Sim) : Type 0 where
    pub starts :
        as_start s.gateway.time_start ≡ start_of S s.gateway.delimiter_field s.forwarded none
    pub all_calls :
        InOrder (granted S s.gateway.delimiter_field s.forwarded none)
        → as_granted (calls ++ updates (events s.sim))
          ≡ granted S s.gateway.delimiter_field s.forwarded none

  -- A step that makes no call, takes no message and leaves the pending calls alone.
  pub quiet-Tracks :
      (calls : List (ℕ × List Bytes)) (s t : System Sim)
      → IsQuiet S s.world t.world
      → t.forwarded ≡ s.forwarded
      → Tracks calls s
      → Tracks (calls ++ []) t
  quiet-Tracks calls s t q f h = record {
    starts = rw (q.same_start, q.same_field, f) h.starts;
    all_calls =
        rw (q.same_calls update_values update_values-IsForwardOnly, q.same_field, f, append-nil)
          h.all_calls;
  }

  pub event-Tracks :
      (calls : List (ℕ × List Bytes)) (s : System Sim) (c : Call) (actions : List Action)
      (sim : Sim) (w : World Sim)
      → Reach S s
      → c ≢ stop
      → c ≢ forward_up
      → next s.sim ≡ some (c, sim)
      → execute S c actions (taken S s sim) ≡ ok w
      → Tracks calls s
      → Tracks (calls ++ add_update (now sim) c []) (record s {
        world = w;
        forwarded = s.forwarded ++ first_of_queue c s.gateway.message_queue;
      })
  event-Tracks calls s c actions sim w r ns nf n x h =
      let q =
        execute-IsQuiet S c actions (taken S s sim) w ns nf (taken-SoundWorld S s c sim r n) x in
      let same =
        ap (λ l. s.forwarded ++ l) (nothing_first c s.gateway.message_queue nf)
        ∙ append-nil s.forwarded in
      let moved =
        append_assoc calls (add_update (now sim) c []) (updates (events w.sim))
        ∙ ap (λ l. calls ++ l)
            (sym (add_call-append (now sim) (update_values c) [] (updates (events w.sim)))
              ∙ ap (add_update (now sim) c) (q.same_calls update_values update_values-IsForwardOnly)
              ∙ sym (next-chosen S update_values s.sim sim c n)) in
      record {
        starts = rw (q.same_start, q.same_field, same) h.starts;
        all_calls = rw (q.same_field, same, moved) h.all_calls;
      }

  module _ (calls : List (ℕ × List Bytes)) (s : System Sim) (sim : Sim) (m : Bytes)
      (same : updates (events s.sim) ≡ updates (events sim)) (h : Tracks calls s) where
    d : Bytes
    d = s.gateway.delimiter_field

    granted_now : List Granted
    granted_now = granted_by (header S d m) (as_start s.gateway.time_start)

    both : granted S d (s.forwarded ++ (m ∷ [])) none ≡ granted S d s.forwarded none ++ granted_now
    unfolding d granted_now
    both =
        granted-append_one S d m s.forwarded none
        ∙ ap (λ o. granted S d s.forwarded none ++ granted_by (header S d m) o) (sym h.starts)

    before :
        InOrder (granted S d (s.forwarded ++ (m ∷ [])) none)
        → as_granted (calls ++ updates (events sim)) ≡ granted S d s.forwarded none
    unfolding d
    before io =
        ap (λ l. as_granted (calls ++ l)) (sym same)
        ∙ h.all_calls (InOrder-append _ granted_now (subst InOrder both io))

    -- What the message grants comes no earlier than the pending calls.
    pub pending_before :
        InOrder (granted S s.gateway.delimiter_field (s.forwarded ++ (m ∷ [])) none)
        → (g : Granted)
        → granted_by (header S s.gateway.delimiter_field m) (as_start s.gateway.time_start) ≡ g ∷ []
        → All (λ (f : Granted). f.0 ≤ℤ g.0) (as_granted (updates (events sim)))
    unfolding d granted_now
    pending_before io g e = All-behind g.0 calls (updates (events sim)) (
        subst (All (λ (f : Granted). f.0 ≤ℤ g.0)) (sym (before io)) (
          InOrder-last (granted S d s.forwarded none) g
            (subst InOrder (both ∙ ap (λ l. granted S d s.forwarded none ++ l) e) io)))

    -- One more message, with what it grants behind the pending calls.
    one_more-Tracks :
        (w : World Sim)
        → IsForwarded S (header S s.gateway.delimiter_field m) (taken S s sim) w
        → Tracks calls (record s { world = w; forwarded = s.forwarded ++ (m ∷ []) })
    unfolding d granted_now
    one_more-Tracks w f = record {
      starts = rw f.same_field (
          f.starts
          ∙ ap (start_after (header S d m)) h.starts
          ∙ sym (start_of-append_one S d m s.forwarded none));
      all_calls = rw f.same_field λ io.
          as_granted-append calls (updates (events w.sim))
          ∙ ap (λ l. as_granted calls ++ l) (f.granted_last (pending_before io))
          ∙ sym (append_assoc (as_granted calls) (as_granted (updates (events sim))) granted_now)
          ∙ ap (λ l. l ++ granted_now)
              (sym (as_granted-append calls (updates (events sim))) ∙ before io)
          ∙ sym both;
    }

  pub forward-Tracks :
      (calls : List (ℕ × List Bytes)) (s : System Sim) (actions : List Action) (sim : Sim)
      (w : World Sim)
      → Reach S s
      → next s.sim ≡ some (forward_up, sim)
      → execute S forward_up actions (taken S s sim) ≡ ok w
      → Tracks calls s
      → Tracks (calls ++ []) (record s {
        world = w;
        forwarded = s.forwarded ++ first_of_queue forward_up s.gateway.message_queue;
      })
  unfolding execute
  forward-Tracks calls s actions sim w r n x h =
      let (m, queue, q) = forward_queue S (taken S s sim) w x in
      let f =
        forward-IsForwarded S m queue (taken S s sim) w q x
          (taken-SoundWorld S s forward_up sim r n) in
      rw (append-nil, q)
        (one_more-Tracks calls s sim m (next-chosen S update_values s.sim sim forward_up n) h w f)
