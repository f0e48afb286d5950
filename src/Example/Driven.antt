-- ===== src/Example/Driven.antt =====
-- What becomes of the vehicles along a run of the program.
use ns3_cosim.Common.{
  ℕ, ◌*◌, ◌^◌, ◌<◌, ◌≡◌, refl, sym, ap, subst, ◌∙◌, Bool, List, [], ◌∷◌, ◌++◌, some, Bytes, ℤ,
  length, pos, negsuc, Result, failed, get_elem?, done, need, >>=-eq-done, done-injective, arith,
}
use ns3_cosim.Text.Number.{stoi}
use ns3_cosim.Simulator.{Simulator}
use ns3_cosim.Gateway.{
  Call, World, Action, stop, wait_for_next_update, forward_up, do_initialize, handle_update, model,
}
use ns3_cosim.CoSim.{
  System, Step, thread, event, stop_event, destroy, joined, Reach, start, later, taken,
}
use ns3_cosim.CoSim.Updates.{callback_values, add_call}
use ns3_cosim.CoSim.Contract.{values_of, called_in, called}
use ns3_cosim.Mobility.{Mobility}
use ns3_cosim.SimpleGateway.{Error, invalid_number, no_such_vehicle, SimpleGateway, handle_receive}
use ns3_cosim.SimpleGateway
use ns3_cosim.SimpleGateway.Effect.{IsDriven}
use ns3_cosim.SimpleGateway.Moves.{do_update-AllDriven}
use ns3_cosim.Example.{receive_all, Performs, PerformsStep, Runs, in_place, before_update}

module _ {Vector : Type 0} (differ : Vector → Vector → Bool) (vector : ℤ → ℤ → ℤ → Vector) where
  -- Each vehicle was driven by its seven values.
  abbrev pub Driven : List Bytes → List (Mobility Vector) → List (Mobility Vector) → Type 0
  Driven values ms ms' =
      (length ms' ≡ length ms)
      × ((j : ℕ)
          → j < length ms
          → (m : Mobility Vector) × (m' : Mobility Vector) × (get_elem? ms j ≡ some m)
            × (get_elem? ms' j ≡ some m')
            × IsDriven differ vector values j m m')

  -- One message after the other.
  abbrev pub AllDriven :
      List (List Bytes) → List (Mobility Vector) → List (Mobility Vector) → Type 0
  AllDriven [] ms ms' = ms' ≡ ms
  AllDriven (values ∷ rest) ms ms' =
      (mid : List (Mobility Vector)) × Driven values ms mid × AllDriven rest mid ms'

  AllDriven-size :
      (vs : List (List Bytes)) (ms ms' : List (Mobility Vector))
      → AllDriven vs ms ms'
      → length ms' ≡ length ms
  AllDriven-size [] ms ms' h = ap length h
  AllDriven-size (v ∷ vs) ms ms' (mid, d, h) = AllDriven-size vs mid ms' h ∙ d.0

  AllDriven-append :
      (vs ws : List (List Bytes)) (ms mid ms' : List (Mobility Vector))
      → AllDriven vs ms mid
      → AllDriven ws mid ms'
      → AllDriven (vs ++ ws) ms ms'
  AllDriven-append [] ws ms mid ms' h k = subst (λ l. AllDriven ws l ms') h k
  AllDriven-append (v ∷ vs) ws ms mid ms' (next, d, h) k =
      (next, d, AllDriven-append vs ws next mid ms' h k)

  receive_keeps :
      (id : Bytes) (s s' : SimpleGateway Vector)
      → handle_receive differ vector id s ≡ done s'
      → s'.vehicles ≡ s.vehicles
  unfolding handle_receive
  receive_keeps id s s' h =
      let (index, e, h1) = >>=-eq-done (need (stoi id) invalid_number) _ h in
      let (i, e1, h2) =
        >>=-eq-done
          (elim index as (λ z. Result Error ℕ) [
            | pos i ↦ done i
            | negsuc i ↦ failed no_such_vehicle
          ])
          _ h1 in
      let (count, e2, h3) = >>=-eq-done (need (get_elem? s.counts i) no_such_vehicle) _ h2 in
      sym (ap (λ s. s.vehicles) (done-injective h3))

  module _ (S : Simulator Call) where
    open S use {Sim, now}

    receive_all_keeps :
        (ids : List Bytes) (s s' : SimpleGateway Vector)
        → receive_all differ vector S ids s ≡ done s'
        → s'.vehicles ≡ s.vehicles
    unfolding receive_all
    receive_all_keeps [] s s' h = sym (ap (λ s. s.vehicles) (done-injective h))
    receive_all_keeps (id ∷ ids) s s' h =
        let (u, e, h1) = >>=-eq-done (handle_receive differ vector id s) _ h in
        receive_all_keeps ids u s' h1 ∙ receive_keeps id s u e

    performed :
        (c : Call) (actions : List Action) (w : World Sim) (v v' : SimpleGateway Vector) (t : ℕ)
        → length v.vehicles * 7 < 2 ^ 32
        → Performs differ vector S c actions w v v'
        → AllDriven (values_of (add_call t (callback_values c) [])) v.vehicles v'.vehicles
    unfolding SimpleGateway.do_initialize
    performed (do_initialize values) actions w v v' t b (a, h) =
        let (size, d, sends) =
          do_update-AllDriven differ vector values (in_place differ vector S w v) v' b h in
        (v'.vehicles, (size, d), refl)
    performed (handle_update values) actions w v v' t b (a, h) =
        let (size, d, sends) =
          do_update-AllDriven differ vector values
            (in_place differ vector S (before_update differ vector S w) v) v' b h in
        (v'.vehicles, (size, d), refl)
    performed (model n) actions w v v' t b (a, (ids, h)) =
        receive_all_keeps ids (in_place differ vector S w v) v' h
    performed stop actions w v v' t b h = ap (λ v. v.vehicles) h
    performed wait_for_next_update actions w v v' t b h = ap (λ v. v.vehicles) h
    performed forward_up actions w v v' t b h = ap (λ v. v.vehicles) h

    step-AllDriven :
        {s t : System Sim} (st : Step S s t) (v v' : SimpleGateway Vector)
        → length v.vehicles * 7 < 2 ^ 32
        → PerformsStep differ vector S st v v'
        → AllDriven (called_in S st) v.vehicles v'.vehicles
    step-AllDriven {s} (event c actions sim w j ns n x) v v' b h =
        performed c actions (taken S s sim) v v' (now sim) b h
    step-AllDriven (thread r) v v' b h = ap (λ v. v.vehicles) h
    step-AllDriven (stop_event sim j n) v v' b h = ap (λ v. v.vehicles) h
    step-AllDriven (destroy j) v v' b h = ap (λ v. v.vehicles) h
    step-AllDriven (joined c j e) v v' b h = ap (λ v. v.vehicles) h

    -- Along a run of the program the vehicles are driven by the values of the calls, in order.
    pub Runs-AllDriven :
        (v0 : SimpleGateway Vector) {s : System Sim} (r : Reach S s) (v : SimpleGateway Vector)
        → length v0.vehicles * 7 < 2 ^ 32
        → Runs differ vector S v0 r v
        → AllDriven (called S r) v0.vehicles v.vehicles
    unfolding Runs called
    Runs-AllDriven v0 (start net w w' f e) v b h = ap (λ v. v.vehicles) h
    Runs-AllDriven v0 (later r st) v b (u, h, k) =
        let before = Runs-AllDriven v0 r u b h in
        AllDriven-append (called S r) (called_in S st) v0.vehicles u.vehicles v.vehicles before (
          step-AllDriven st u v
            (omega (arith, b, AllDriven-size (called S r) v0.vehicles u.vehicles before)) k)
