-- ===== src/CoSim/Contract/Choices.antt =====
-- The pending calls of DoInitialize among those of DoInitialize and DoUpdate.
use ns3_cosim.Common.{
  ℕ, ◌≡◌, refl, sym, ap, subst, List, [], ◌∷◌, ◌++◌, Option, none, some, Bytes, arith, ℤ, pos, ◌≤ℤ◌,
  All,
}
use ns3_cosim.Simulator.{Event}
use ns3_cosim.Gateway.{
  Call, do_initialize, handle_update, stop, wait_for_next_update, forward_up, model,
}
use ns3_cosim.CoSim.Updates.{
  Choice, IsForwardOnly, update_values, callback_values, add_call, chosen,
}
use ns3_cosim.CoSim.Order.{IsBefore}
use ns3_cosim.CoSim.Contract.{Granted, as_granted, values_of}
use ns3_cosim.CoSim.Contract.Terms.{All-chosen}

-- DoInitialize alone.
abbrev pub init_values : Choice
init_values (do_initialize values) = some values
init_values _ = none

pub init_values-IsForwardOnly : IsForwardOnly init_values
init_values-IsForwardOnly = record {
  no_stop = refl;
  no_wait = refl;
  no_forward = refl;
  no_model = λ n. refl;
}

pub values_of-append :
    (l m : List (ℕ × List Bytes)) → values_of (l ++ m) ≡ values_of l ++ values_of m
values_of-append [] m = refl
values_of-append ((t, values) ∷ l) m = ap (◌∷◌ values) (values_of-append l m)

pub add_call-nil :
    (t : ℕ) (o : Option (List Bytes)) (l : List (ℕ × List Bytes)) → add_call t o l ≡ [] → l ≡ []
add_call-nil t none l h = h
add_call-nil t (some values) l h = cc

-- No call at all, so none of DoInitialize.
init-nil :
    (t : ℕ) (c : Call) (l m : List (ℕ × List Bytes))
    → add_call t (callback_values c) l ≡ []
    → m ≡ []
    → add_call t (init_values c) m ≡ []
init-nil t (handle_update v) l m h k = cc
init-nil t (do_initialize v) l m h k = cc
init-nil t stop l m h k = k
init-nil t wait_for_next_update l m h k = k
init-nil t forward_up l m h k = k
init-nil t (model n) l m h k = k

pub no_init : (es : List (Event Call)) → chosen callback_values es ≡ [] → chosen init_values es ≡ []
unfolding chosen
no_init [] h = refl
no_init (e ∷ es) h =
    init-nil e.time e.call (chosen callback_values es) (chosen init_values es) h
      (no_init es (add_call-nil e.time (callback_values e.call) _ h))

pub no_bound :
    (choice : Choice) (p : ℤ) (es : List (Event Call))
    → chosen choice es ≡ []
    → All (IsBefore choice p) es
no_bound choice p es h =
    All-chosen choice p es (subst (λ l. All (λ (g : Granted). g.0 ≤ℤ p) (as_granted l)) (sym h) tt)

both_before :
    (p : ℤ) (c : Call) (t : ℕ)
    → ((v : List Bytes) → init_values c ≡ some v → pos t ≤ℤ p)
    → ((v : List Bytes) → update_values c ≡ some v → pos t ≤ℤ p)
    → (v : List Bytes) → callback_values c ≡ some v
    → pos t ≤ℤ p
both_before p (handle_update u) t h k v e = k v e
both_before p (do_initialize u) t h k v e = h v e
both_before p stop t h k v e = cc
both_before p wait_for_next_update t h k v e = cc
both_before p forward_up t h k v e = cc
both_before p (model n) t h k v e = cc

pub All-IsBefore :
    (p : ℤ) (es : List (Event Call))
    → All (IsBefore init_values p) es
    → All (IsBefore update_values p) es
    → All (IsBefore callback_values p) es
All-IsBefore p [] h k = tt
All-IsBefore p (e ∷ es) h k = (both_before p e.call e.time h.0 k.0, All-IsBefore p es h.1 k.1)

pub before_later :
    (p q : ℤ) (l : List Granted)
    → p ≤ℤ q
    → All (λ (g : Granted). g.0 ≤ℤ p) l
    → All (λ (g : Granted). g.0 ≤ℤ q) l
before_later p q [] h a = tt
before_later p q (g ∷ l) h a = (omega (arith, h, a.0), before_later p q l h a.1)
