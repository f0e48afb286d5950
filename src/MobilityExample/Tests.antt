-- ===== src/MobilityExample/Tests.antt =====
-- The example with numbers as vectors, after the first move of the second node.
use ns3_cosim.Common.{
  true, false, List, suc, ℕ, ◌+◌, ◌*◌, ◌≤◌, ◌≡◌, refl, Bool, not, [], ◌∷◌, some, ◌==◌, get_elem?,
}
use ns3_cosim.Simulator.{Event, insert_event}
use ns3_cosim.Simulator.Clock.{Clock, clock, take_next}
use ns3_cosim.Mobility.{
  notify_course_change, do_get_velocity, do_get_position, do_set_position, set_velocity, new,
}
use ns3_cosim.MobilityExample.{
  shift, shift_nodes, Call, update_mobility, World, set_up, execute, Reach, start, later,
}
use ns3_cosim.MobilityExample.Moves.{shifted}
use ns3_cosim.MobilityExample.Run.{set_up-IsPeriodic}
use ns3_cosim.MobilityExample.Limit.{simulation_ends}

abbrev differ : ℕ → ℕ → Bool
differ u v = not (u == v)

abbrev plus : ℕ → ℕ → ℕ
plus u v = u + v

abbrev idle : Clock (Call ℕ)
idle = record { time_now = 0; pending = []; at_destroy = []; next_uid = 1; ended = false }

abbrev begun : World ℕ (Clock (Call ℕ))
begun = set_up differ plus (clock (Call ℕ)) 3 5 (record { nodes = new 0 ∷ new 0 ∷ []; sim = idle })

abbrev second_node : Call ℕ
second_node = update_mobility (1 ∷ []) 5 5 1000000000

abbrev taken : Clock (Call ℕ)
taken = record begun.sim { time_now = 1000000000; pending = rest begun.sim.pending }
  where
    rest : List (Event (Call ℕ)) → List (Event (Call ℕ))
    rest [] = []
    rest (e ∷ es) = es

abbrev moved_once : World ℕ (Clock (Call ℕ))
moved_once = execute differ plus (clock (Call ℕ)) second_node (record begun { sim = taken })

moved_once-Reach : Reach differ plus (clock (Call ℕ)) 3 5 (new 0) idle moved_once
unfolding set_up insert_event take_next
moved_once-Reach = later begun second_node taken start refl refl

moved_once-nodes :
    (get_elem? moved_once.nodes 0 ≡ some (new 0))
    × (get_elem? moved_once.nodes 1
        ≡ some (record { position = 5; velocity = 5; notified = (5, 5) ∷ [] }))
unfolding set_up execute shift_nodes shift new set_velocity do_set_position do_get_position
    do_get_velocity notify_course_change insert_event
moved_once-nodes = (refl, refl)

set_up-IsPeriodic_example :
    (i : ℕ) × (j : ℕ) × (get_elem? moved_once.nodes 0 ≡ some (shifted differ plus i 3 (new 0)))
    × (get_elem? moved_once.nodes 1 ≡ some (shifted differ plus j 5 (new 0)))
    × (2000000000 * i ≤ moved_once.sim.time_now)
    × (moved_once.sim.time_now ≤ 2000000000 * suc i)
    × (1000000000 * j ≤ moved_once.sim.time_now)
    × (moved_once.sim.time_now ≤ 1000000000 * suc j)
set_up-IsPeriodic_example =
    set_up-IsPeriodic differ plus (clock (Call ℕ)) (new 0) 3 5 idle refl refl moved_once
      moved_once-Reach

simulation_ends_example :
    ((w : World ℕ (Clock (Call ℕ))) × Reach differ plus (clock (Call ℕ)) 3 5 (new 0) idle w
      × (w.sim.ended ≡ true))
    × ((w : World ℕ (Clock (Call ℕ)))
        → Reach differ plus (clock (Call ℕ)) 3 5 (new 0) idle w
        → w.sim.ended ≡ true
        → (w.sim.time_now ≡ 10000000000)
          × (get_elem? w.nodes 0 ≡ some (shifted differ plus 4 3 (new 0)))
          × (get_elem? w.nodes 1 ≡ some (shifted differ plus 9 5 (new 0))))
simulation_ends_example =
    simulation_ends differ plus (clock (Call ℕ)) (new 0) 3 5 idle refl refl refl

-- Four moves by 3 from the origin.
moved_by_three :
    shifted differ plus 4 3 (new 0)
    ≡ record { position = 12; velocity = 12; notified = (3, 3) ∷ (6, 6) ∷ (9, 9) ∷ (12, 12) ∷ [] }
unfolding shifted shift new set_velocity do_set_position do_get_position do_get_velocity
    notify_course_change
moved_by_three = refl
