-- ===== src/CoSim/Updates.antt =====
-- The pending calls of HandleUpdate, or of another choice of functions, with their times, in the order
-- in which they will run.
use ns3_cosim.Common.{
  ℕ, suc, ◌≤◌, ◌≡◌, ◌≢◌, refl, sym, ap, ◌∙◌, inl, inr, true, false, List, [], ◌∷◌, ◌++◌, Option,
  none, some, arith, leb, ◌==◌, ==_iff, Bool-cases, All, Bytes,
}
use ns3_cosim.Simulator.{Event, insert_event, without}
use ns3_cosim.Simulator.Queue.{Ordered, Ordered-le, All-map}
use ns3_cosim.Gateway.{
  Call, handle_update, wait_for_next_update, stop, forward_up, do_initialize, model,
}
use ns3_cosim.CoSim.Held.{is_update}

-- The values of a call that is chosen.
abbrev pub Choice : Type 0
Choice = Call → Option (List Bytes)

abbrev pub update_values : Choice
update_values (handle_update values) = some values
update_values _ = none

-- The calls that reach the derived class with a message.
abbrev pub callback_values : Choice
callback_values (handle_update values) = some values
callback_values (do_initialize values) = some values
callback_values _ = none

-- No call is chosen that anything but ForwardUp schedules.
pub record IsForwardOnly (choice : Choice) : Type 0 where
  pub no_stop : choice stop ≡ none
  pub no_wait : choice wait_for_next_update ≡ none
  pub no_forward : choice forward_up ≡ none
  pub no_model : (n : ℕ) → choice (model n) ≡ none

pub update_values-IsForwardOnly : IsForwardOnly update_values
update_values-IsForwardOnly = record {
  no_stop = refl;
  no_wait = refl;
  no_forward = refl;
  no_model = λ n. refl;
}

pub callback_values-IsForwardOnly : IsForwardOnly callback_values
callback_values-IsForwardOnly = record {
  no_stop = refl;
  no_wait = refl;
  no_forward = refl;
  no_model = λ n. refl;
}

pub is_update-update_values :
    (c : Call) (values : List Bytes) → update_values c ≡ some values → is_update c ≡ true
is_update-update_values (handle_update v) values h = refl
is_update-update_values stop values h = cc
is_update-update_values wait_for_next_update values h = cc
is_update-update_values forward_up values h = cc
is_update-update_values (do_initialize v) values h = cc
is_update-update_values (model n) values h = cc

abbrev pub add_call : ℕ → Option (List Bytes) → List (ℕ × List Bytes) → List (ℕ × List Bytes)
add_call t none l = l
add_call t (some values) l = (t, values) ∷ l

abbrev pub add_update : ℕ → Call → List (ℕ × List Bytes) → List (ℕ × List Bytes)
add_update t c l = add_call t (update_values c) l

unfoldable pub chosen : Choice → List (Event Call) → List (ℕ × List Bytes)
chosen choice [] = []
chosen choice (e ∷ es) = add_call e.time (choice e.call) (chosen choice es)

abbrev pub updates : List (Event Call) → List (ℕ × List Bytes)
updates es = chosen update_values es

pub add_call-append :
    (t : ℕ) (o : Option (List Bytes)) (l m : List (ℕ × List Bytes))
    → add_call t o (l ++ m) ≡ add_call t o l ++ m
add_call-append t none l m = refl
add_call-append t (some values) l m = refl

pub add_call-other :
    (t : ℕ) (o : Option (List Bytes)) (l : List (ℕ × List Bytes)) → o ≡ none → add_call t o l ≡ l
add_call-other t o l h = rw h refl

module _ (choice : Choice) where
  -- No event with a call that is chosen is later than `t`.
  abbrev pub IsUpTo : ℕ → Event Call → Type 0
  IsUpTo t e = (values : List Bytes) → choice e.call ≡ some values → e.time ≤ t

  -- Another event changes nothing, wherever it is put.
  pub chosen-insert_other :
      (e : Event Call) (es : List (Event Call))
      → choice e.call ≡ none
      → chosen choice (insert_event e es) ≡ chosen choice es
  unfolding chosen insert_event
  chosen-insert_other e [] h = add_call-other e.time (choice e.call) [] h
  chosen-insert_other e (f ∷ es) h = elim (Bool-cases (leb f.time e.time)) [
    | inl l ↦ rw l (ap (add_call f.time (choice f.call)) (chosen-insert_other e es h))
    | inr l ↦ rw l (add_call-other e.time (choice e.call) (chosen choice (f ∷ es)) h)
  ]

  pub chosen-without :
      (u : ℕ) (es : List (Event Call))
      → All (λ e. e.uid ≡ u → choice e.call ≡ none) es
      → chosen choice (without u es) ≡ chosen choice es
  unfolding chosen without
  chosen-without u [] h = refl
  chosen-without u (e ∷ es) h = elim (Bool-cases (e.uid == u)) [
    | inl q ↦ rw q (
        chosen-without u es h.1
        ∙ sym
            (add_call-other e.time (choice e.call) (chosen choice es) (h.0 ((==_iff e.uid u).0 q))))
    | inr q ↦ rw q (ap (add_call e.time (choice e.call)) (chosen-without u es h.1))
  ]

  pub chosen-absent :
      (u : ℕ) (es : List (Event Call))
      → All (λ e. e.uid ≢ u) es
      → chosen choice (without u es) ≡ chosen choice es
  chosen-absent u es h = chosen-without u es (
      All-map (λ e. e.uid ≢ u) (λ e. e.uid ≡ u → choice e.call ≡ none) (λ e n q. absurd (n q)) es h)

  -- None is pending behind the latest one.
  chosen_none :
      (t : ℕ) (es : List (Event Call))
      → Ordered (suc t) es
      → All (IsUpTo t) es
      → chosen choice es ≡ []
  unfolding chosen
  chosen_none t [] o h = refl
  chosen_none t (e ∷ es) o h =
      go (choice e.call) refl (chosen_none t es (Ordered-le es o.0 o.1) h.1)
    where
      go :
          (c : Option (List Bytes))
          → choice e.call ≡ c
          → chosen choice es ≡ []
          → add_call e.time c (chosen choice es) ≡ []
      go none q rest = rest
      go (some values) q rest = absurd (omega (arith, h.0 values q, o.0))

  -- One that is no earlier than the pending ones runs behind them.
  pub chosen-insert_last :
      (n : ℕ) (e : Event Call) (values : List Bytes) (es : List (Event Call))
      → choice e.call ≡ some values
      → Ordered n es
      → All (IsUpTo e.time) es
      → chosen choice (insert_event e es) ≡ chosen choice es ++ ((e.time, values) ∷ [])
  unfolding chosen insert_event
  chosen-insert_last n e values [] q o h = ap (λ c. add_call e.time c []) q
  chosen-insert_last n e values (f ∷ es) q o h = elim (Bool-cases (leb f.time e.time)) [
    | inl l ↦ rw l (
        ap (add_call f.time (choice f.call)) (chosen-insert_last f.time e values es q o.1 h.1)
        ∙ add_call-append f.time (choice f.call) (chosen choice es) ((e.time, values) ∷ []))
    | inr l ↦ rw l (
        ap (λ c. add_call e.time c (chosen choice (f ∷ es))) q
        ∙ (λ i. (e.time, values) ∷ none_left l i)
        ∙ (λ i. sym (none_left l) i ++ ((e.time, values) ∷ [])))
  ]
    where
      later_time : leb f.time e.time ≡ false → suc e.time ≤ f.time
      later_time l = ground arith

      none_left : leb f.time e.time ≡ false → chosen choice (f ∷ es) ≡ []
      none_left l = chosen_none e.time (f ∷ es) (later_time l, o.1) h
