-- ===== src/MobilityExample/Steps.antt =====
-- One event of the run of the example, with two nodes.
use ns3_cosim.Common.{
  ℕ, suc, ◌+◌, ◌≡◌, ◌≢◌, refl, sym, ap, subst, ◌∙◌, ◌⊎◌, inl, inr, Bool, false, List, ◌∷◌, some,
  ◌==◌, ==_iff, Bool-cases, All, arith,
}
use ns3_cosim.Simulator.{Simulator, Event}
use ns3_cosim.Simulator.Queue.{All-insert_event}
use ns3_cosim.Mobility.{Mobility}
use ns3_cosim.MobilityExample.{Call, stop_simulation, World, execute}
use ns3_cosim.MobilityExample.Moves.{Group, call_of, is_for}
use ns3_cosim.MobilityExample.Times.{IsOnTime, own, another, stopped}

module _ {Vector : Type 0} (differ : Vector → Vector → Bool) (plus : Vector → Vector → Vector)
    (S : Simulator (Call Vector)) (m : Mobility Vector) where
  open S use {Sim, now, events, next}

  -- Two nodes, and what is pending for them.
  module _ (f g : Group Vector) (ne : f.index ≢ g.index) where
    abbrev IsKnown : Event (Call Vector) → Type 0
    IsKnown e = (e.call ≡ call_of f) ⊎ (e.call ≡ call_of g) ⊎ (e.call ≡ stop_simulation)

    pub record AreOnTime (i j : ℕ) (w : World Vector Sim) : Type 0 where
      pub first : IsOnTime differ plus S m f i w
      pub second : IsOnTime differ plus S m g j w
      pub known : All IsKnown (events w.sim)

    other_call : (o p : Group Vector) → o.index ≢ p.index → is_for p.index (call_of o) ≡ false
    other_call o p n = elim (Bool-cases (o.index == p.index)) [
      | inl q ↦ absurd (n ((==_iff o.index p.index).0 q))
      | inr q ↦ q
    ]

    -- What a call does to the number of moves of both nodes.
    abbrev Counts : Call Vector → ℕ → ℕ → ℕ → ℕ → Type 0
    Counts c i j i' j' =
        ((c ≡ stop_simulation) × (i' ≡ i) × (j' ≡ j))
        ⊎ ((o : Group Vector) × (c ≡ call_of o) × (i' + j' ≡ suc (i + j)))

    abbrev Next : ℕ → ℕ → Call Vector → World Vector Sim → Sim → Type 0
    Next i j c w sim =
        (i' : ℕ) × (j' : ℕ) × AreOnTime i' j' (execute differ plus S c (record w { sim = sim }))
        × Counts c i j i' j'

    after_update :
        (o : Group Vector) (w : World Vector Sim) (sim : Sim)
        → ((call_of o ≡ call_of f) ⊎ (call_of o ≡ call_of g) ⊎ (call_of o ≡ stop_simulation))
        → All IsKnown (events sim)
        → All IsKnown (events (execute differ plus S (call_of o) (record w { sim = sim })).sim)
    unfolding execute
    after_update o w sim k a =
        rw (S.schedule-events sim o.period (call_of o))
          (All-insert_event IsKnown _ (events sim) k a)

    after_stop :
        (w : World Vector Sim) (sim : Sim)
        → All IsKnown (events sim)
        → All IsKnown (events (execute differ plus S stop_simulation (record w { sim = sim })).sim)
    unfolding execute
    after_stop w sim a = rw (S.stop-events sim) a

    step_on :
        (i j : ℕ) (w : World Vector Sim) (sim : Sim) (e : Event (Call Vector))
        (es : List (Event (Call Vector)))
        → events w.sim ≡ e ∷ es
        → events sim ≡ es
        → now sim ≡ e.time
        → IsKnown e
        → AreOnTime i j w
        → All IsKnown (events sim)
        → Next i j e.call w sim
    step_on i j w sim e es l rest time (inl q) h a =
        subst (λ c. Next i j c w sim) (sym q)
          (
            suc i,
            j,
            record {
              first = own differ plus S m f i w sim e es l rest time h.first q;
              second =
                  another differ plus S m g j w sim e es l rest time h.second
                    (ap (is_for g.index) q ∙ other_call f g ne) f ne;
              known = after_update f w sim (inl refl) a;
            },
            inr (f, refl, omega arith),
          )
    step_on i j w sim e es l rest time (inr (inl q)) h a =
        let en : g.index ≢ f.index = λ x. ne (sym x) in
        subst (λ c. Next i j c w sim) (sym q)
          (
            i,
            suc j,
            record {
              first =
                  another differ plus S m f i w sim e es l rest time h.first
                    (ap (is_for f.index) q ∙ other_call g f en) g en;
              second = own differ plus S m g j w sim e es l rest time h.second q;
              known = after_update g w sim (inr (inl refl)) a;
            },
            inr (g, refl, omega arith),
          )
    step_on i j w sim e es l rest time (inr (inr q)) h a =
        subst (λ c. Next i j c w sim) (sym q)
          (
            i,
            j,
            record {
              first =
                  stopped differ plus S m f i w sim e es l rest time h.first
                    (ap (is_for f.index) q);
              second =
                  stopped differ plus S m g j w sim e es l rest time h.second
                    (ap (is_for g.index) q);
              known = after_stop w sim a;
            },
            inl (refl, refl, refl),
          )

    pub step :
        (i j : ℕ) (w : World Vector Sim) (c : Call Vector) (sim : Sim)
        → next w.sim ≡ some (c, sim)
        → AreOnTime i j w
        → Next i j c w sim
    step i j w c sim n h =
        let (e, es, l, call, rest, time, ids) = S.next-events w.sim sim c n in
        let known = subst (All IsKnown) l h.known in
        subst (λ c. Next i j c w sim) call
          (step_on i j w sim e es l rest time known.0 h (subst (All IsKnown) (sym rest) known.1))
