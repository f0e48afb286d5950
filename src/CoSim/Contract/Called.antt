-- ===== src/CoSim/Contract/Called.antt =====
-- The calls that reach the derived class, along one step of the two threads.
use ns3_cosim.CoSim.Contract.Choices.{
  init_values, init_values-IsForwardOnly, values_of-append, add_call-nil, before_later,
}
use ns3_cosim.Common.{
  ℕ, ◌≤◌, ◌≡◌, ◌≢◌, sym, ap, subst, ◌∙◌, List, [], ◌∷◌, ◌++◌, append_assoc, append-nil, none, some,
  Bytes, All, arith, pos, ◌≤ℤ◌,
}
use ns3_cosim.Simulator.{Simulator}
use ns3_cosim.Gateway.{Call, World, ok, Action, stop, forward_up, is_negative, first_of_queue}
use ns3_cosim.Gateway.Handlers.{execute}
use ns3_cosim.CoSim.{Option, System, Reach, taken}
use ns3_cosim.CoSim.Updates.{
  update_values, callback_values, callback_values-IsForwardOnly, add_call, add_call-append, chosen,
}
use ns3_cosim.CoSim.Quiet.{IsQuiet, execute-IsQuiet}
use ns3_cosim.CoSim.Order.{next-chosen, taken-SoundWorld}
use ns3_cosim.CoSim.Execute.{forward_queue}
use ns3_cosim.CoSim.Contract.{
  Granted, InOrder, as_granted, header, granted, values_of, delivered_by, delivered, handled,
}
use ns3_cosim.CoSim.Contract.Terms.{InOrder-append, granted-append_one}
use ns3_cosim.CoSim.Contract.Forward.{forward-IsForwarded}
use ns3_cosim.CoSim.Contract.Tracks.{nothing_first, pending_before}
use ns3_cosim.CoSim.Contract.Refines.{next-later_time, Reach-Tracks}
use ns3_cosim.CoSim.Contract.Awaited.{IsSoon, IsUnset, forward-IsAdded}

module _ (S : Simulator Call) where
  open S use {Sim, now, events, next}

  -- The values of the calls made so far and of the pending ones are those of the forwarded messages.
  pub record IsCalled (made : List (List Bytes)) (s : System Sim) : Type 0 where
    pub unset : IsUnset S s.world
    pub soon : IsSoon S s.sim
    pub all_values :
        InOrder (granted S s.gateway.delimiter_field s.forwarded none)
        → made ++ values_of (chosen callback_values (events s.sim))
          ≡ delivered S s.gateway.delimiter_field s.forwarded

  delivered-append_one :
      (d m : Bytes) (ms : List Bytes)
      → delivered S d (ms ++ (m ∷ [])) ≡ delivered S d ms ++ delivered_by (header S d m)
  unfolding delivered
  delivered-append_one d m [] = append-nil _
  delivered-append_one d m (n ∷ ms) =
      ap (λ l. delivered_by (header S d n) ++ l) (delivered-append_one d m ms)
      ∙ sym (append_assoc (delivered_by (header S d n)) _ _)

  pub quiet-IsCalled :
      (made : List (List Bytes)) (s t : System Sim)
      → IsQuiet S s.world t.world
      → t.forwarded ≡ s.forwarded
      → IsCalled made s
      → IsCalled (made ++ []) t
  quiet-IsCalled made s t q f h = record {
    unset = λ b.
        q.same_calls callback_values callback_values-IsForwardOnly
        ∙ h.unset (ap is_negative (sym q.same_start) ∙ b);
    soon =
        rw (q.same_calls init_values init_values-IsForwardOnly)
          (before_later (pos (now s.sim)) (pos (now t.sim)) _ (omega (arith, q.later_time)) h.soon);
    all_values =
        rw (q.same_calls callback_values callback_values-IsForwardOnly, q.same_field, f, append-nil)
          h.all_values;
  }

  -- The event `c` is taken: its own call, if it is one, is the first.
  record IsTaken (made : List (List Bytes)) (c : Call) (s : System Sim) (sim : Sim) : Type 0 where
    unset : IsUnset S (taken S s sim)
    soon : IsSoon S sim
    all_values :
        InOrder (granted S s.gateway.delimiter_field s.forwarded none)
        → (made ++ values_of (add_call (now sim) (callback_values c) []))
            ++ values_of (chosen callback_values (events sim))
          ≡ delivered S s.gateway.delimiter_field s.forwarded

  soon_behind :
      (n m t : ℕ) (o : Option (List Bytes)) (l : List (ℕ × List Bytes))
      → n ≤ m
      → All (λ (g : Granted). g.0 ≤ℤ pos n) (as_granted (add_call t o l))
      → All (λ (g : Granted). g.0 ≤ℤ pos m) (as_granted l)
  soon_behind n m t none l b a = before_later (pos n) (pos m) _ (omega (arith, b)) a
  soon_behind n m t (some v) l b a = before_later (pos n) (pos m) _ (omega (arith, b)) a.1

  next-IsTaken :
      (made : List (List Bytes)) (s : System Sim) (c : Call) (sim : Sim)
      → Reach S s
      → next s.sim ≡ some (c, sim)
      → IsCalled made s
      → IsTaken made c s sim
  next-IsTaken made s c sim r n h = record {
    unset = λ b. add_call-nil _ _ _ (sym first ∙ h.unset b);
    soon = soon_behind (now s.sim) (now sim) _ _ _ (next-later_time S s sim c r n) (
        subst (λ l. All (λ (g : Granted). g.0 ≤ℤ pos (now s.sim)) (as_granted l))
          (next-chosen S init_values s.sim sim c n) h.soon);
    all_values = λ io.
        append_assoc made _ _
        ∙ ap (λ l. made ++ l)
            (sym (
                values_of-append (add_call (now sim) (callback_values c) [])
                  (chosen callback_values (events sim)))
              ∙ ap values_of (
                  sym (
                    add_call-append (now sim) (callback_values c) []
                      (chosen callback_values (events sim)))
                  ∙ sym first))
        ∙ h.all_values io;
  }
    where
      first :
          chosen callback_values (events s.sim)
          ≡ add_call (now sim) (callback_values c) (chosen callback_values (events sim))
      first = next-chosen S callback_values s.sim sim c n

  pub event-IsCalled :
      (made : List (List Bytes)) (s : System Sim) (c : Call) (actions : List Action) (sim : Sim)
      (w : World Sim)
      → Reach S s
      → c ≢ stop
      → c ≢ forward_up
      → next s.sim ≡ some (c, sim)
      → execute S c actions (taken S s sim) ≡ ok w
      → IsCalled made s
      → IsCalled (made ++ values_of (add_call (now sim) (callback_values c) [])) (record s {
        world = w;
        forwarded = s.forwarded ++ first_of_queue c s.gateway.message_queue;
      })
  event-IsCalled made s c actions sim w r ns nf n x h =
      let k = next-IsTaken made s c sim r n h in
      let q =
        execute-IsQuiet S c actions (taken S s sim) w ns nf (taken-SoundWorld S s c sim r n) x in
      let same =
        ap (λ l. s.forwarded ++ l) (nothing_first c s.gateway.message_queue nf)
        ∙ append-nil s.forwarded in
      record {
        unset = λ b.
            q.same_calls callback_values callback_values-IsForwardOnly
            ∙ k.unset (ap is_negative (sym q.same_start) ∙ b);
        soon =
            rw (q.same_calls init_values init_values-IsForwardOnly) (
              before_later (pos (now sim)) (pos (now w.sim)) _ (omega (arith, q.later_time))
                k.soon);
        all_values =
            rw (q.same_calls callback_values callback_values-IsForwardOnly, q.same_field, same)
              k.all_values;
      }

  pub forward-IsCalled :
      (made : List (List Bytes)) (s : System Sim) (actions : List Action) (sim : Sim)
      (w : World Sim) (r : Reach S s)
      → next s.sim ≡ some (forward_up, sim)
      → execute S forward_up actions (taken S s sim) ≡ ok w
      → IsCalled made s
      → IsCalled (made ++ []) (record s {
        world = w;
        forwarded = s.forwarded ++ first_of_queue forward_up s.gateway.message_queue;
      })
  unfolding execute
  forward-IsCalled made s actions sim w r n x h =
      let k = next-IsTaken made s forward_up sim r n h in
      let sound = taken-SoundWorld S s forward_up sim r n in
      let (m, queue, q) = forward_queue S (taken S s sim) w x in
      let d = s.gateway.delimiter_field in
      let a = forward-IsAdded S m queue (taken S s sim) w q x sound in
      let f = forward-IsForwarded S m queue (taken S s sim) w q x sound in
      let same = next-chosen S update_values s.sim sim forward_up n in
      rw q (record {
        unset = a.unset k.unset;
        soon = a.soon k.unset k.soon;
        all_values = rw f.same_field λ io.
            ap (λ l. (made ++ []) ++ l)
              (a.added k.unset k.soon
                (pending_before S (handled S r) s sim m same (Reach-Tracks S r) io))
            ∙ sym (append_assoc (made ++ []) _ (delivered_by (header S d m)))
            ∙ ap (λ l. l ++ delivered_by (header S d m))
                (k.all_values (
                  InOrder-append (granted S d s.forwarded none) _
                    (subst InOrder (granted-append_one S d m s.forwarded none) io)))
            ∙ sym (delivered-append_one d m s.forwarded);
      })
