-- ===== src/Mobility.antt =====
-- model/external-mobility-model.h and .cc: the class ExternalMobilityModel. Vector and the operator
-- `!=` on it are not part of the repository, so they are parameters.
mod Tests
use ns3_cosim.Common.{
  ◌≡◌, refl, ap, sym, append-nil, ◌⊎◌, inl, inr, Bool, true, false, List, [], ◌∷◌, ◌++◌,
  if◌then◌else◌, Bool-cases, ◌∙◌, ℕ,
}

-- `notified` is not in the program: the position and the velocity that a CourseChange callback saw,
-- the newest call last.
pub record Mobility (Vector : Type 0) : Type 0 where
  pub position : Vector
  pub velocity : Vector
  pub notified : List (Vector × Vector)

-- The constructor of the class, where `zero` is the Vector (0, 0, 0).
unfoldable pub new : {Vector : Type 0} → Vector → Mobility Vector
new zero = record { position = zero; velocity = zero; notified = [] }

module _ {Vector : Type 0} (differ : Vector → Vector → Bool) where
  unfoldable pub notify_course_change : Mobility Vector → Mobility Vector
  notify_course_change m = record m { notified = m.notified ++ ((m.position, m.velocity) ∷ []) }

  unfoldable pub set_velocity : Vector → Mobility Vector → Mobility Vector
  unfolding notify_course_change
  set_velocity velocity m =
      if differ velocity m.velocity
      then notify_course_change (record m { velocity = velocity })
      else m

  unfoldable pub do_set_position : Vector → Mobility Vector → Mobility Vector
  do_set_position position m =
      if differ position m.position then record m { position = position } else m

  unfoldable pub do_get_position : Mobility Vector → Vector
  do_get_position m = m.position

  unfoldable pub do_get_velocity : Mobility Vector → Vector
  do_get_velocity m = m.velocity

  set_position-position :
      (p : Vector) (m : Mobility Vector)
      → (do_get_position (do_set_position p m) ≡ p)
        ⊎ ((do_get_position (do_set_position p m) ≡ m.position) × (differ p m.position ≡ false))
  unfolding do_set_position do_get_position
  set_position-position p m = elim (Bool-cases (differ p m.position)) [
    | inl e ↦ rw e (inl refl)
    | inr e ↦ inr ((rw e refl), e)
  ]

  set_position-kept :
      (p : Vector) (m : Mobility Vector)
      → ((do_set_position p m).velocity ≡ m.velocity)
        × ((do_set_position p m).notified ≡ m.notified)
  unfolding do_set_position
  set_position-kept p m = elim (Bool-cases (differ p m.position)) [
    | inl e ↦ (rw e refl, rw e refl)
    | inr e ↦ (rw e refl, rw e refl)
  ]

  -- Where vectors that do not differ are the same, the model has the position and the velocity set.
  pub moved_exactly :
      (p v : Vector) (m : Mobility Vector)
      → ((a b : Vector) → differ a b ≡ false → a ≡ b)
      → let m' = set_velocity v (do_set_position p m) in
        (do_get_position m' ≡ p) × (do_get_velocity m' ≡ v)
  unfolding set_velocity do_get_position do_get_velocity do_set_position notify_course_change
  moved_exactly p v m same = elim (Bool-cases (differ p m.position)) [
    | inl e ↦ elim (Bool-cases (differ v m.velocity)) [
      | inl f ↦ rw (e, f) (refl, refl)
      | inr f ↦ rw (e, f) (refl, sym (same v m.velocity f))
    ]
    | inr e ↦ elim (Bool-cases (differ v m.velocity)) [
      | inl f ↦ rw (e, f) (sym (same p m.position e), refl)
      | inr f ↦ rw (e, f) (sym (same p m.position e), sym (same v m.velocity f))
    ]
  ]

  -- Setting the position and then the velocity makes one CourseChange callback where the velocity
  -- differs from the old one, and none otherwise; the callback sees the new velocity and the position
  -- that is current from then on, which is the new one or an old one that it does not differ from.
  pub move_notifies :
      (p v : Vector) (m : Mobility Vector)
      → let m' = set_velocity v (do_set_position p m) in
        (m'.notified
          ≡ m.notified ++ (if differ v m.velocity then (do_get_position m', v) ∷ [] else []))
        × ((do_get_position m' ≡ p)
            ⊎ ((do_get_position m' ≡ m.position) × (differ p m.position ≡ false)))
  unfolding set_velocity do_get_position do_set_position notify_course_change
  move_notifies p v m = elim (Bool-cases (differ p m.position)) [
    | inl e ↦ elim (Bool-cases (differ v m.velocity)) [
      | inl f ↦ rw (e, f) (refl, inl refl)
      | inr f ↦ rw (e, f) (sym (append-nil m.notified), inl refl)
    ]
    | inr e ↦ elim (Bool-cases (differ v m.velocity)) [
      | inl f ↦ rw (e, f) (refl, inr (refl, refl))
      | inr f ↦ rw (e, f) (sym (append-nil m.notified), inr (refl, refl))
    ]
  ]

  -- The calls that an external process makes.
  pub data Change : Type 0 where
    moves turns : Vector → Change

  pub change : Change → Mobility Vector → Mobility Vector
  unfolding set_velocity do_set_position
  change (moves position) m = do_set_position position m
  change (turns velocity) m = set_velocity velocity m

  pub change_all : List Change → Mobility Vector → Mobility Vector
  unfolding change
  change_all [] m = m
  change_all (c ∷ cs) m = change_all cs (change c m)

  -- The velocity that the callbacks saw last, if there was one, else `first`.
  pub seen_velocity : Vector → List (Vector × Vector) → Vector
  seen_velocity first [] = first
  seen_velocity first (n ∷ ns) = seen_velocity n.1 ns

  seen_velocity-append :
      (first : Vector) (ns : List (Vector × Vector)) (n : Vector × Vector)
      → seen_velocity first (ns ++ (n ∷ [])) ≡ n.1
  unfolding seen_velocity
  seen_velocity-append first [] n = refl
  seen_velocity-append first (m ∷ ns) n = seen_velocity-append m.1 ns n

  change-seen :
      (first : Vector) (c : Change) (m : Mobility Vector)
      → seen_velocity first m.notified ≡ m.velocity
      → seen_velocity first (change c m).notified ≡ (change c m).velocity
  unfolding change set_velocity do_set_position notify_course_change
  change-seen first (moves p) m h = elim (Bool-cases (differ p m.position)) [
    | inl e ↦ rw e h
    | inr e ↦ rw e h
  ]
  change-seen first (turns v) m h = elim (Bool-cases (differ v m.velocity)) [
    | inl e ↦ rw e (seen_velocity-append first m.notified (m.position, v))
    | inr e ↦ rw e h
  ]

  change_all-seen :
      (first : Vector) (cs : List Change) (m : Mobility Vector)
      → seen_velocity first m.notified ≡ m.velocity
      → seen_velocity first (change_all cs m).notified ≡ do_get_velocity (change_all cs m)
  unfolding change_all do_get_velocity
  change_all-seen first [] m h = h
  change_all-seen first (c ∷ cs) m h =
      change_all-seen first cs (change c m) (change-seen first c m h)

  -- After any sequence of calls on a new model, an observer of the CourseChange callbacks knows the
  -- velocity: it is the one the last callback saw, or zero where there was no callback.
  pub observer_velocity :
      (zero : Vector) (cs : List Change)
      → let m = change_all cs (new zero) in seen_velocity zero m.notified ≡ do_get_velocity m
  unfolding new seen_velocity
  observer_velocity zero cs = change_all-seen zero cs (new zero) refl
