-- ===== src/Mobility/Tests.antt =====
-- The model on vectors in the plane.
use ns3_cosim.Common.{ℕ, ◌≡◌, refl, ◌⊎◌, Bool, false, not, ◌&&◌, [], ◌∷◌, ◌++◌, if◌then◌else◌, ◌==◌}
use ns3_cosim.Mobility.{
  Mobility, new, set_velocity, do_set_position, do_get_position, do_get_velocity, moves, turns,
  change_all, seen_velocity, move_notifies, observer_velocity,
}

abbrev differ : ℕ × ℕ → ℕ × ℕ → Bool
differ u v = not (u.0 == v.0 && u.1 == v.1)

abbrev still : Mobility (ℕ × ℕ)
still = new (0, 0)

move_notifies_example :
    ((set_velocity differ (2, 0) (do_set_position differ (1, 1) still)).notified
      ≡ still.notified
        ++ (if differ (2, 0) still.velocity
            then (
              do_get_position differ
                  (set_velocity differ (2, 0) (do_set_position differ (1, 1) still)),
              (2, 0),
            )
              ∷ []
            else []))
    × ((do_get_position differ (set_velocity differ (2, 0) (do_set_position differ (1, 1) still))
          ≡ (1, 1))
        ⊎ ((do_get_position differ
                (set_velocity differ (2, 0) (do_set_position differ (1, 1) still))
              ≡ still.position)
            × (differ (1, 1) still.position ≡ false)))
move_notifies_example = move_notifies differ (1, 1) (2, 0) still

observed_velocity :
    seen_velocity differ
      (0, 0)
      (change_all differ (turns (3, 4) ∷ moves (5, 6) ∷ turns (3, 4) ∷ []) (new (0, 0))).notified
    ≡ do_get_velocity differ
        (change_all differ (turns (3, 4) ∷ moves (5, 6) ∷ turns (3, 4) ∷ []) (new (0, 0)))
observed_velocity =
    observer_velocity differ (0, 0) (turns (3, 4) ∷ moves (5, 6) ∷ turns (3, 4) ∷ [])

-- The callback of a turn that comes before its move sees the old position.
stale_position :
    (do_set_position differ (1, 1) (set_velocity differ (2, 0) still)).notified
    ≡ ((0, 0), (2, 0)) ∷ []
unfolding do_set_position set_velocity new
stale_position = refl
