-- ===== src/MobilityExample/Times.antt =====
-- How often UpdateMobility has moved a node, and when.
use ns3_cosim.Common.{
  ℕ, suc, ◌+◌, ◌*◌, ◌≤◌, ◌≡◌, ◌≢◌, refl, sym, ap, subst, ◌∙◌, inl, inr, Bool, true, false, List, [],
  ◌∷◌, some, ◌==◌, ==_iff, if◌then◌else◌, Bool-cases, get_elem?, All, arith,
}
use ns3_cosim.Simulator.{Simulator, Event}
use ns3_cosim.Simulator.Queue.{
  Ordered, Ordered-insert_event, All-insert_event, count, count-cons, count-nil, count-insert_event,
}
use ns3_cosim.Mobility.{Mobility}
use ns3_cosim.MobilityExample.{Call, stop_simulation, World, shift_nodes, execute}
use ns3_cosim.MobilityExample.Moves.{Group, call_of, is_for, shifted, shifted_own, shifted_other}

module _ {Vector : Type 0} (differ : Vector → Vector → Bool) (plus : Vector → Vector → Vector) where
  module _ (S : Simulator (Call Vector)) (m : Mobility Vector) where
    open S use {Sim, now, events, next}

    abbrev IsDue : Group Vector → ℕ → Event (Call Vector) → Type 0
    IsDue g k e = is_for g.index e.call ≡ true → (e.call ≡ call_of g) × (e.time ≡ g.period * suc k)

    -- The node has been moved `k` times, and its next call is the only one that is pending for it.
    pub record IsOnTime (g : Group Vector) (k : ℕ) (w : World Vector Sim) : Type 0 where
      pub moved : get_elem? w.nodes g.index ≡ some (shifted differ plus k g.delta m)
      pub due : All (IsDue g k) (events w.sim)
      pub one : count (is_for g.index) (events w.sim) ≡ 1
      pub ordered : Ordered (now w.sim) (events w.sim)
      pub low : g.period * k ≤ now w.sim

    none-IsDue :
        (g : Group Vector) (k j : ℕ) (es : List (Event (Call Vector)))
        → count (is_for g.index) es ≡ 0
        → All (IsDue g j) es
    unfolding count
    none-IsDue g k j [] h = tt
    none-IsDue g k j (e ∷ es) h = elim (Bool-cases (is_for g.index e.call)) [
      | inl q ↦ let bad = rw q at h in absurd (omega (arith, bad))
      | inr q ↦ ((λ t. cc (q, t)), none-IsDue g k j es (rw q at h))
    ]

    rest_one : (b : Bool) (n : ℕ) → b ≡ false → (if b then suc n else n) ≡ 1 → n ≡ 1
    rest_one true n q x = cc q
    rest_one false n q x = x

    self : (n : ℕ) → n == n ≡ true
    self n = (==_iff n n).1 refl

    later_period : (p k : ℕ) → p * suc k + p ≡ p * suc (suc k)
    later_period p k = grind arith

    -- Taking the first event, and scheduling `c` again.
    module _ (g : Group Vector) (k : ℕ) (w : World Vector Sim) (sim : Sim) (e : Event (Call Vector))
        (es : List (Event (Call Vector))) (l : events w.sim ≡ e ∷ es) (rest : events sim ≡ es)
        (time : now sim ≡ e.time) (h : IsOnTime g k w) where
      first-IsDue : All (IsDue g k) (e ∷ es)
      first-IsDue = subst (All (IsDue g k)) l h.due

      counted : count (is_for g.index) (e ∷ es) ≡ 1
      counted = ap (count (is_for g.index)) (sym l) ∙ h.one

      no_earlier : (now w.sim ≤ now sim) × Ordered (now sim) es
      no_earlier =
          let o = subst (Ordered (now w.sim)) l h.ordered in
          (omega (arith, o.0, time), subst (λ t. Ordered t es) (sym time) o.1)

      rescheduled-Ordered :
          (d : ℕ) (c : Call Vector)
          → Ordered (now (S.schedule sim d c).0) (events (S.schedule sim d c).0)
      rescheduled-Ordered d c =
          rw (S.schedule-now sim d c, S.schedule-events sim d c, rest)
            (Ordered-insert_event (now sim) _ es (omega arith) no_earlier.1)

      module _ (c : e.call ≡ call_of g) where
        is_own : is_for g.index e.call ≡ true
        is_own = ap (is_for g.index) c ∙ self g.index

        others : count (is_for g.index) es ≡ 0
        others = omega (
          arith,
          only (is_for g.index e.call) is_own (sym (count-cons (is_for g.index) e es) ∙ counted),
        )
          where
            only :
                (b : Bool)
                → b ≡ true
                → (if b then suc (count (is_for g.index) es) else count (is_for g.index) es) ≡ 1
                → suc (count (is_for g.index) es) ≡ 1
            only true q x = x
            only false q x = cc q

        time_now : now sim ≡ g.period * suc k
        time_now = time ∙ (first-IsDue.0 is_own).1

        pub own : IsOnTime g (suc k) (execute differ plus S (call_of g) (record w { sim = sim }))
        unfolding execute shift_nodes shifted
        own = record {
          moved = shifted_own differ plus g w.nodes (shifted differ plus k g.delta m) h.moved;
          due =
              rw (S.schedule-events sim g.period (call_of g), rest)
                (All-insert_event (IsDue g (suc k)) _ es
                  (λ q. (refl, omega (arith, time_now, later_period g.period k)))
                  (none-IsDue g k (suc k) es others));
          one =
              ap (count (is_for g.index)) (S.schedule-events sim g.period (call_of g))
              ∙ count-insert_event (is_for g.index) _ (events sim)
              ∙ rw (self g.index, rest, others) refl;
          ordered = rescheduled-Ordered g.period (call_of g);
          low = rw (S.schedule-now sim g.period (call_of g)) (omega (arith, time_now));
        }

      -- The event of another call.
      module _ (c : is_for g.index e.call ≡ false) where
        still : count (is_for g.index) es ≡ 1
        still =
            rest_one (is_for g.index e.call) (count (is_for g.index) es) c
              (sym (count-cons (is_for g.index) e es) ∙ counted)

        pub stopped : IsOnTime g k (execute differ plus S stop_simulation (record w { sim = sim }))
        unfolding execute
        stopped = record {
          moved = h.moved;
          due = rw (S.stop-events sim, rest) first-IsDue.1;
          one = rw (S.stop-events sim, rest) still;
          ordered = rw (S.stop-events sim, S.stop-now sim, rest) no_earlier.1;
          low = rw (S.stop-now sim) (omega (arith, h.low, no_earlier.0));
        }

        pub another :
            (o : Group Vector)
            → o.index ≢ g.index
            → IsOnTime g k (execute differ plus S (call_of o) (record w { sim = sim }))
        unfolding execute shift_nodes
        another o ne = record {
          moved = shifted_other differ plus o ne w.nodes ∙ h.moved;
          due =
              rw (S.schedule-events sim o.period (call_of o), rest)
                (All-insert_event (IsDue g k) _ es (λ q. absurd (ne ((==_iff o.index g.index).0 q)))
                  first-IsDue.1);
          one =
              ap (count (is_for g.index)) (S.schedule-events sim o.period (call_of o))
              ∙ count-insert_event (is_for g.index) _ (events sim)
              ∙ rw (different, rest) still;
          ordered = rescheduled-Ordered o.period (call_of o);
          low = rw (S.schedule-now sim o.period (call_of o)) (omega (arith, h.low, no_earlier.0));
        }
          where
            different : o.index == g.index ≡ false
            different = elim (Bool-cases (o.index == g.index)) [
              | inl q ↦ absurd (ne ((==_iff o.index g.index).0 q))
              | inr q ↦ q
            ]

    -- While its next call is pending, the clock has not passed it.
    pub not_passed :
        (g : Group Vector) (k : ℕ) (w : World Vector Sim)
        → IsOnTime g k w
        → now w.sim ≤ g.period * suc k
    not_passed g k w h = bound (now w.sim) (events w.sim) h.one h.due h.ordered
      where
        bound :
            (t : ℕ) (es : List (Event (Call Vector)))
            → count (is_for g.index) es ≡ 1
            → All (IsDue g k) es
            → Ordered t es
            → t ≤ g.period * suc k
        bound t [] c d o =
            let none_left = count-nil (is_for {Vector = Vector} g.index) in
            absurd (omega (arith, none_left, c))
        bound t (e ∷ es) c d o = elim (Bool-cases (is_for g.index e.call)) [
          | inl q ↦ omega (arith, o.0, (d.0 q).1)
          | inr q ↦ omega (
            arith,
            o.0,
            bound e.time es
                (rest_one (is_for g.index e.call) (count (is_for g.index) es) q
                  (sym (count-cons (is_for g.index) e es) ∙ c))
                d.1 o.1,
          )
        ]
