-- ===== src/MobilityExample/Run.antt =====
-- The whole run of the example.
use ns3_cosim.Common.{
  ℕ, suc, ◌*◌, ◌≤◌, ◌≡◌, ◌≢◌, refl, ◌∙◌, inl, inr, Bool, [], ◌∷◌, some, get_elem?, arith,
}
use ns3_cosim.Simulator.{insert_event, Simulator}
use ns3_cosim.Simulator.Queue.{count}
use ns3_cosim.Mobility.{Mobility}
use ns3_cosim.MobilityExample.{Call, stop_simulation, World, set_up, Reach, start, later}
use ns3_cosim.MobilityExample.Moves.{Group, call_of, shifted}
use ns3_cosim.MobilityExample.Times.{not_passed}
use ns3_cosim.MobilityExample.Steps.{AreOnTime, step}

abbrev pub group_a : {Vector : Type 0} → Vector → Group Vector
group_a d = record { index = 0; delta = d; period = 2000000000 }

abbrev pub group_b : {Vector : Type 0} → Vector → Group Vector
group_b d = record { index = 1; delta = d; period = 1000000000 }

pub apart : {Vector : Type 0} (a b : Vector) → (group_a a).index ≢ (group_b b).index
apart a b e = cc

module _ {Vector : Type 0} (differ : Vector → Vector → Bool) (plus : Vector → Vector → Vector)
    (S : Simulator (Call Vector)) (m : Mobility Vector) where
  open S use {Sim, now, events, next}

  module _ (a b : Vector) where
    pub set_up-events :
        (sim : Sim)
        → now sim ≡ 0
        → events sim ≡ []
        → let w = set_up differ plus S a b (record { nodes = m ∷ m ∷ []; sim = sim }) in
          (u : ℕ) × (v : ℕ) × (x : ℕ) × (events w.sim
            ≡ record { time = 1000000000; uid = v; call = call_of (group_b b) }
              ∷ record { time = 2000000000; uid = u; call = call_of (group_a a) }
              ∷ record { time = 10000000000; uid = x; call = stop_simulation }
              ∷ [])
          × (now w.sim ≡ 0)
    unfolding set_up insert_event
    set_up-events sim t e =
        let (s1, u) = S.schedule sim 2000000000 (call_of (group_a a)) in
        let (s2, v) = S.schedule s1 1000000000 (call_of (group_b b)) in
        let (s3, x) = S.schedule s2 10000000000 stop_simulation in
        (
          u,
          v,
          x,
          rw
              (
                S.schedule-events s2 10000000000 stop_simulation,
                S.schedule-now s1 1000000000 (call_of (group_b b)),
                S.schedule-events s1 1000000000 (call_of (group_b b)),
                S.schedule-now sim 2000000000 (call_of (group_a a)),
                S.schedule-events sim 2000000000 (call_of (group_a a)),
                t,
                e,
              )
              refl,
          S.schedule-now s2 10000000000 stop_simulation
              ∙ S.schedule-now s1 1000000000 (call_of (group_b b))
              ∙ S.schedule-now sim 2000000000 (call_of (group_a a))
              ∙ t,
        )

    pub begins :
        (sim : Sim)
        → now sim ≡ 0
        → events sim ≡ []
        → AreOnTime differ plus S m
            (group_a a)
            (group_b b)
            (apart a b)
            0
            0
            (set_up differ plus S a b (record { nodes = m ∷ m ∷ []; sim = sim }))
    unfolding set_up shifted count
    begins sim t e =
        let (u, v, x, l, zero_now) = set_up-events sim t e in
        record {
          first = record {
            moved = refl;
            due = rw l ((λ q. cc q), ((λ q. (refl, refl)), ((λ q. cc q), tt)));
            one = rw l refl;
            ordered = rw (l, zero_now) (omega arith, (omega arith, (omega arith, tt)));
            low = rw zero_now (omega arith);
          };
          second = record {
            moved = refl;
            due = rw l ((λ q. (refl, refl)), ((λ q. cc q), ((λ q. cc q), tt)));
            one = rw l refl;
            ordered = rw (l, zero_now) (omega arith, (omega arith, (omega arith, tt)));
            low = rw zero_now (omega arith);
          };
          known = rw l (inr (inl refl), (inl refl, (inr (inr refl), tt)));
        }

    module _ (sim : Sim) (zero_now : now sim ≡ 0) (no_events : events sim ≡ []) where
      Reach-AreOnTime :
          (w : World Vector Sim)
          → Reach differ plus S a b m sim w
          → (i : ℕ) × (j : ℕ) × AreOnTime differ plus S m (group_a a) (group_b b) (apart a b) i j w
      Reach-AreOnTime w start = (0, 0, begins sim zero_now no_events)
      Reach-AreOnTime w (later v c sim' r going n) =
          let (i, j, h) = Reach-AreOnTime v r in
          let (i', j', on_time, counts) =
            step differ plus S m (group_a a) (group_b b) (apart a b) i j v c sim' n h in
          (i', j', on_time)

      -- Let the simulation of the example begin with no events at the time 0, and with two nodes that are
      -- alike. In every state that it reaches between two events there are `i` and `j` with which the first
      -- node is what `i` moves by `a` make of it, the second what `j` moves by `b` make of it, and the clock
      -- stands between `i` and `i + 1` periods of two seconds, and between `j` and `j + 1` of one second.
      pub set_up-IsPeriodic :
          (w : World Vector Sim)
          → Reach differ plus S a b m sim w
          → (i : ℕ) × (j : ℕ) × (get_elem? w.nodes 0 ≡ some (shifted differ plus i a m))
            × (get_elem? w.nodes 1 ≡ some (shifted differ plus j b m))
            × (2000000000 * i ≤ now w.sim)
            × (now w.sim ≤ 2000000000 * suc i)
            × (1000000000 * j ≤ now w.sim)
            × (now w.sim ≤ 1000000000 * suc j)
      set_up-IsPeriodic w r =
          let (i, j, h) = Reach-AreOnTime w r in
          (
            i,
            j,
            h.first.moved,
            h.second.moved,
            h.first.low,
            not_passed differ plus S m (group_a a) i w h.first,
            h.second.low,
            not_passed differ plus S m (group_b b) j w h.second,
          )
