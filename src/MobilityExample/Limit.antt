-- ===== src/MobilityExample/Limit.antt =====
-- The end of the run of the example.
use ns3_cosim.Common.{
  ℕ, zero, suc, ◌+◌, ◌≤◌, ◌<◌, ◌≡◌, ◌≢◌, refl, sym, ap, subst, ◌∙◌, ◌⊎◌, inl, inr, Bool, true,
  false, List, [], ◌∷◌, some, get_elem?, arith,
}
use ns3_cosim.Simulator.{Simulator, Event}
use ns3_cosim.Mobility.{Mobility}
use ns3_cosim.MobilityExample.{Call, stop_simulation, World, execute, set_up, Reach, start, later}
use ns3_cosim.MobilityExample.Moves.{Group, call_of, shifted}
use ns3_cosim.MobilityExample.Times.{not_passed}
use ns3_cosim.MobilityExample.Run.{begins, apart, group_a, group_b, set_up-events}
use ns3_cosim.MobilityExample.Steps.{AreOnTime, step}
use ns3_cosim.MobilityExample.Ending.{Ends, Ends-insert_event, first_event}

true_not_false : true ≢ false
true_not_false e = cc

module _ {Vector : Type 0} (differ : Vector → Vector → Bool) (plus : Vector → Vector → Vector)
    (S : Simulator (Call Vector)) (m : Mobility Vector) (a b : Vector) where
  open S use {Sim, now, events, next}

  abbrev OnTime : ℕ → ℕ → World Vector Sim → Type 0
  OnTime = AreOnTime differ plus S m (group_a a) (group_b b) (apart a b)

  -- Before the end, the clock has not reached ten seconds.
  record IsRunning (w : World Vector Sim) : Type 0 where
    ends : Ends 10000000000 (events w.sim)
    early : now w.sim < 10000000000
    going : S.stopped w.sim ≡ false

  abbrev IsOver : World Vector Sim → Type 0
  IsOver w =
      (S.stopped w.sim ≡ true)
      × (now w.sim ≡ 10000000000)
      × (get_elem? w.nodes 0 ≡ some (shifted differ plus 4 a m))
      × (get_elem? w.nodes 1 ≡ some (shifted differ plus 9 b m))

  -- What an event makes of a state in which the nodes have been moved `i` and `j` times.
  abbrev Continues : ℕ → ℕ → World Vector Sim → Type 0
  Continues i j w =
      IsOver w ⊎ ((i' : ℕ) × (j' : ℕ) × OnTime i' j' w × IsRunning w × (i' + j' ≡ suc (i + j)))

  module _ (w : World Vector Sim) (sim : Sim) (e : Event (Call Vector))
      (es : List (Event (Call Vector))) (rest : events sim ≡ es) (time : now sim ≡ e.time)
      (h : Ends 10000000000 (e ∷ es)) where
    update-IsRunning :
        (o : Group Vector)
        → e.call ≡ call_of o
        → S.stopped sim ≡ false
        → IsRunning (execute differ plus S (call_of o) (record w { sim = sim }))
    unfolding execute Ends
    update-IsRunning o c going = next_end h
      where
        next_end :
            Ends 10000000000 (e ∷ es)
            → IsRunning (execute differ plus S (call_of o) (record w { sim = sim }))
        next_end (inl x) = cc
        next_end (inr (ne, below, later_end)) = record {
          ends =
              rw (S.schedule-events sim o.period (call_of o), rest)
                (Ends-insert_event _ _ es (λ x. cc) later_end);
          early = rw (S.schedule-now sim o.period (call_of o)) (omega (arith, time, below));
          going = S.schedule-stopped sim o.period (call_of o) ∙ going;
        }

    stop_time : e.call ≡ stop_simulation → now sim ≡ 10000000000
    unfolding Ends
    stop_time c = at_end h
      where
        at_end : Ends 10000000000 (e ∷ es) → now sim ≡ 10000000000
        at_end (inl x) = time ∙ x.1
        at_end (inr x) = absurd (x.0 c)

  over :
      (i j : ℕ) (w w' : World Vector Sim)
      → OnTime i j w
      → IsRunning w
      → OnTime i j w'
      → S.stopped w'.sim ≡ true
      → now w'.sim ≡ 10000000000
      → IsOver w'
  over i j w w' h r h' s t =
      let last_a = not_passed differ plus S m (group_a a) i w' h'.first in
      let last_b = not_passed differ plus S m (group_b b) j w' h'.second in
      let four : i ≡ 4 = omega (arith, h.first.low, r.early, last_a, t) in
      let nine : j ≡ 9 = omega (arith, h.second.low, r.early, last_b, t) in
      (
        s,
        t,
        h'.first.moved ∙ ap (λ k. some (shifted differ plus k a m)) four,
        h'.second.moved ∙ ap (λ k. some (shifted differ plus k b m)) nine,
      )

  continue :
      (i j : ℕ) (w : World Vector Sim) (c : Call Vector) (sim : Sim)
      → next w.sim ≡ some (c, sim)
      → OnTime i j w
      → IsRunning w
      → Continues i j (execute differ plus S c (record w { sim = sim }))
  unfolding execute
  continue i j w c sim n h r =
      let (e, es, l, call, rest, time, ids) = S.next-events w.sim sim c n in
      let (i', j', on_time, counts) =
        step differ plus S m (group_a a) (group_b b) (apart a b) i j w c sim n h in
      let ends = subst (Ends 10000000000) l r.ends in
      let run : Call Vector → World Vector Sim =
        λ c. execute differ plus S c (record w { sim = sim }) in
      elim counts [
        | inl (cs, qi, qj) ↦ inl (
            over i j w (run c) h r
              (subst (λ k. OnTime k j (run c)) qi (subst (λ k. OnTime i' k (run c)) qj on_time))
              (ap (λ c. S.stopped (run c).sim) cs ∙ S.stop-stopped sim)
              (ap (λ c. now (run c).sim) cs
                ∙ S.stop-now sim
                ∙ stop_time w sim e es rest time ends (call ∙ cs)))
        | inr (o, co, moved) ↦ inr (
          i',
          j',
          on_time,
          subst (λ c. IsRunning (run c)) (sym co)
              (update-IsRunning w sim e es rest time ends o (call ∙ co)
                (S.next-stopped w.sim sim c n ∙ r.going)),
          moved,
        )
      ]

  module _ (sim : Sim) (zero_now : now sim ≡ 0) (no_events : events sim ≡ [])
      (going : S.stopped sim ≡ false) where
    set_up-IsRunning :
        IsRunning (set_up differ plus S a b (record { nodes = m ∷ m ∷ []; sim = sim }))
    unfolding set_up Ends
    set_up-IsRunning =
        let (u, v, x, l, t) = set_up-events differ plus S m a b sim zero_now no_events in
        let s1 = (S.schedule sim 2000000000 (call_of (group_a a))).0 in
        let s2 = (S.schedule s1 1000000000 (call_of (group_b b))).0 in
        record {
          ends =
              rw l (inr ((λ q. cc), omega arith, inr ((λ q. cc), omega arith, inl (refl, refl))));
          early = rw t (omega arith);
          going =
              S.schedule-stopped s2 10000000000 stop_simulation
              ∙ S.schedule-stopped s1 1000000000 (call_of (group_b b))
              ∙ S.schedule-stopped sim 2000000000 (call_of (group_a a))
              ∙ going;
        }

    Reach-Continues :
        (w : World Vector Sim)
        → Reach differ plus S a b m sim w
        → IsOver w ⊎ ((i : ℕ) × (j : ℕ) × OnTime i j w × IsRunning w)
    Reach-Continues w start =
        inr (0, 0, begins differ plus S m a b sim zero_now no_events, set_up-IsRunning)
    Reach-Continues w (later v c sim' r on n) = elim (Reach-Continues v r) [
      | inl o ↦ absurd (true_not_false (sym o.0 ∙ on))
      | inr (i, j, h, k) ↦ elim (continue i j v c sim' n h k) [
        | inl o ↦ inl o
        | inr (i', j', h', k', moved) ↦ inr (i', j', h', k')
      ]
    ]

    finish :
        (n i j : ℕ) (w : World Vector Sim)
        → 14 ≤ n + (i + j)
        → Reach differ plus S a b m sim w
        → OnTime i j w
        → IsRunning w
        → (w' : World Vector Sim) × Reach differ plus S a b m sim w' × IsOver w'
    finish zero i j w enough reach h r =
        absurd (omega (arith, enough, h.first.low, h.second.low, r.early))
    finish (suc n) i j w enough reach h r =
        let (e, es, l) = first_event 10000000000 (events w.sim) r.ends in
        let (sim', q) = S.next-cons w.sim e es l in
        let reach' = later w e.call sim' reach r.going q in
        elim (continue i j w e.call sim' q h r) [
          | inl o ↦ (execute differ plus S e.call (record w { sim = sim' }), reach', o)
          | inr (i', j', h', r', moved) ↦
              finish n i' j' (execute differ plus S e.call (record w { sim = sim' }))
                (omega (arith, enough, moved)) reach' h' r'
        ]

    -- Let the simulation of the example begin with no events at the time 0, not stopped, and with two
    -- nodes that are alike. It reaches a state in which it is stopped, and in every such state that it
    -- reaches the clock stands at ten seconds, the first node is what 4 moves by `a` make of it, and the
    -- second what 9 moves by `b` make of it.
    pub simulation_ends :
        ((w : World Vector Sim) × Reach differ plus S a b m sim w × (S.stopped w.sim ≡ true))
        × ((w : World Vector Sim)
            → Reach differ plus S a b m sim w
            → S.stopped w.sim ≡ true
            → (now w.sim ≡ 10000000000)
              × (get_elem? w.nodes 0 ≡ some (shifted differ plus 4 a m))
              × (get_elem? w.nodes 1 ≡ some (shifted differ plus 9 b m)))
    simulation_ends =
        let (w, reach, o) =
          finish 14 0 0 _ (omega arith) start (begins differ plus S m a b sim zero_now no_events)
            set_up-IsRunning in
        (
          (w, reach, o.0),
          λ v r s. elim (Reach-Continues v r) [
            | inl x ↦ (x.1, x.2, x.3)
            | inr (i, j, h, k) ↦ absurd (true_not_false (sym s ∙ k.going))
          ],
        )
