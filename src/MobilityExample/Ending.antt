-- ===== src/MobilityExample/Ending.antt =====
-- The end of the simulation among the pending events.
use ns3_cosim.Common.{ℕ, ◌<◌, ◌≡◌, ◌≢◌, refl, ◌⊎◌, inl, inr, List, [], ◌∷◌, leb, Bool-cases, arith}
use ns3_cosim.Simulator.{insert_event, Event}
use ns3_cosim.MobilityExample.{Call, stop_simulation}

module _ {Vector : Type 0} where
  -- The end of the simulation is pending at the time `t`, behind events of earlier times only.
  unfoldable pub Ends : ℕ → List (Event (Call Vector)) → Type 0
  Ends t [] = ⊥
  Ends t (e ∷ es) =
      ((e.call ≡ stop_simulation) × (e.time ≡ t))
      ⊎ ((e.call ≢ stop_simulation) × (e.time < t) × Ends t es)

  pub Ends-insert_event :
      (t : ℕ) (e : Event (Call Vector)) (es : List (Event (Call Vector)))
      → e.call ≢ stop_simulation
      → Ends t es
      → Ends t (insert_event e es)
  unfolding insert_event Ends
  Ends-insert_event t e [] ne h = absurd h
  Ends-insert_event t e (f ∷ es) ne (inl h) = elim (Bool-cases (leb f.time e.time)) [
    | inl q ↦ rw q (inl h)
    | inr q ↦ rw q (inr (ne, ground (arith, q, h.1), inl h))
  ]
  Ends-insert_event t e (f ∷ es) ne (inr (nf, below, h)) = elim (Bool-cases (leb f.time e.time)) [
    | inl q ↦ rw q (inr (nf, below, Ends-insert_event t e es ne h))
    | inr q ↦ rw q (inr (ne, ground (arith, q, below), inr (nf, below, h)))
  ]

  pub first_event :
      (t : ℕ) (es : List (Event (Call Vector)))
      → Ends t es
      → (e : Event (Call Vector)) × (rest : List (Event (Call Vector))) × (es ≡ e ∷ rest)
  unfolding Ends
  first_event t [] h = absurd h
  first_event t (e ∷ es) h = (e, es, refl)
