-- ===== src/CoSim/Contract/Terms.antt =====
-- The terms of the contract: lists of calls, and one more message.
use ns3_cosim.Common.{
  none, some, ℕ, ◌≡◌, refl, sym, ap, ◌∙◌, List, [], ◌∷◌, ◌++◌, append_assoc, append-nil, Option,
  Bytes, ℤ, pos, ◌≤ℤ◌, All,
}
use ns3_cosim.Simulator.{Simulator, Event}
use ns3_cosim.Gateway.{Call}
use ns3_cosim.CoSim.Updates.{Choice, add_call, chosen}
use ns3_cosim.CoSim.Order.{IsBefore}
use ns3_cosim.CoSim.Contract.{
  some, Granted, start_after, granted_by, InOrder, as_granted, header, start_of, granted,
}

pub as_granted-append :
    (l m : List (ℕ × List Bytes)) → as_granted (l ++ m) ≡ as_granted l ++ as_granted m
as_granted-append [] m = refl
as_granted-append ((t, values) ∷ l) m = ap (◌∷◌ (pos t, values)) (as_granted-append l m)

pub InOrder-append : (l m : List Granted) → InOrder (l ++ m) → InOrder l
InOrder-append [] m h = tt
InOrder-append (g ∷ l) m h = (front l h.0, InOrder-append l m h.1)
  where
    front : (l : List Granted) → All (λ h. g.0 ≤ℤ h.0) (l ++ m) → All (λ h. g.0 ≤ℤ h.0) l
    front [] a = tt
    front (x ∷ l) a = (a.0, front l a.1)

-- The last call is no earlier than the others.
pub InOrder-last :
    (l : List Granted) (g : Granted) → InOrder (l ++ (g ∷ [])) → All (λ h. h.0 ≤ℤ g.0) l
InOrder-last [] g h = tt
InOrder-last (x ∷ l) g h = (last l h.0, InOrder-last l g h.1)
  where
    last : (l : List Granted) → All (λ h. x.0 ≤ℤ h.0) (l ++ (g ∷ [])) → x.0 ≤ℤ g.0
    last [] a = a.0
    last (y ∷ l) a = last l a.1

pub All-behind :
    (p : ℤ) (l m : List (ℕ × List Bytes))
    → All (λ (h : Granted). h.0 ≤ℤ p) (as_granted (l ++ m))
    → All (λ (h : Granted). h.0 ≤ℤ p) (as_granted m)
All-behind p [] m a = a
All-behind p ((t, values) ∷ l) m a = All-behind p l m a.1

add_call-bound :
    (p : ℤ) (t : ℕ) (o : Option (List Bytes)) (l : List (ℕ × List Bytes))
    → All (λ (h : Granted). h.0 ≤ℤ p) (as_granted (add_call t o l))
    → ((values : List Bytes) → o ≡ some values → pos t ≤ℤ p)
      × All (λ (h : Granted). h.0 ≤ℤ p) (as_granted l)
add_call-bound p t none l a = ((λ v e. cc), a)
add_call-bound p t (some values) l a = ((λ v e. a.0), a.1)

-- A bound on the pending calls, read as one on the pending events.
pub All-chosen :
    (choice : Choice) (p : ℤ) (es : List (Event Call))
    → All (λ (h : Granted). h.0 ≤ℤ p) (as_granted (chosen choice es))
    → All (IsBefore choice p) es
unfolding chosen
All-chosen choice p [] a = tt
All-chosen choice p (e ∷ es) a =
    let (first, rest) = add_call-bound p e.time (choice e.call) (chosen choice es) a in
    (first, All-chosen choice p es rest)

module _ (S : Simulator Call) where
  pub start_of-append_one :
      (d m : Bytes) (ms : List Bytes) (start : Option ℤ)
      → start_of S d (ms ++ (m ∷ [])) start ≡ start_after (header S d m) (start_of S d ms start)
  unfolding start_of
  start_of-append_one d m [] start = refl
  start_of-append_one d m (n ∷ ms) start =
      start_of-append_one d m ms (start_after (header S d n) start)

  pub granted-append_one :
      (d m : Bytes) (ms : List Bytes) (start : Option ℤ)
      → granted S d (ms ++ (m ∷ [])) start
        ≡ granted S d ms start ++ granted_by (header S d m) (start_of S d ms start)
  unfolding granted start_of
  granted-append_one d m [] start = append-nil _
  granted-append_one d m (n ∷ ms) start =
      ap (λ l. granted_by (header S d n) start ++ l)
        (granted-append_one d m ms (start_after (header S d n) start))
      ∙ sym (append_assoc (granted_by (header S d n) start) _ _)
