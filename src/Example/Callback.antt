-- ===== src/Example/Callback.antt =====
-- The calls of DoInitialize and DoUpdate in the program, as events of the simulator.
use ns3_cosim.Common.{
  ℕ, zero, suc, [], ◌∷◌, ◌++◌, ◌*◌, ◌^◌, ◌≤◌, ◌<◌, ◌≡◌, refl, ap, ◌∙◌, ◌⊎◌, inl, inr, Bool, true,
  List, Bytes, ℤ, length, Bool-cases,
}
use ns3_cosim.Simulator.{Simulator}
use ns3_cosim.SimpleGateway.Moves.{broadcasts, do_update-AllDriven}
use ns3_cosim.SimpleGateway.Effect.{flag_at}
use ns3_cosim.Gateway.{model, Call, World, ok, do_initialize, handle_update, is_connected, is_time}
use ns3_cosim.Gateway.Handlers.{execute, update, schedule_wait}
use ns3_cosim.SimpleGateway.{SimpleGateway, do_update}
use ns3_cosim.SimpleGateway
use ns3_cosim.SimpleGateway.Round.{Readable, IsReady}
use ns3_cosim.SimpleGateway.Response.{do_update-IsResponse}
use ns3_cosim.SimpleGateway.Actions.{update_actions, requested, in_world, do_update-update_actions}
use ns3_cosim.Example.{in_place, before_update, Performs}

module _ {Vector : Type 0} (differ : Vector → Vector → Bool) (vector : ℤ → ℤ → ℤ → Vector)
    (S : Simulator Call) (request : ℕ → ℕ) where
  open S use {Sim, now}

  -- The simulator in which DoUpdate begins.
  abbrev begun : Call → World Sim → Sim
  begun (handle_update values) w = (before_update differ vector S w).sim
  begun _ w = w.sim

  -- The simulator behind calls of Send, each for a vehicle and a number of packets that is not 0.
  unfoldable pub ask_all : List (ℕ × ℕ) → Sim → Sim
  ask_all [] sim = sim
  ask_all ((i, n) ∷ calls) sim = ask_all calls (S.schedule sim 0 (model (request i))).0

  requested-ask_all :
      (left i : ℕ) (values : List Bytes) (sim : Sim)
      → requested differ vector S request left i values sim ≡ ask_all (broadcasts values left i) sim
  unfolding requested ask_all
  requested-ask_all zero i values sim = refl
  requested-ask_all (suc left) i values sim = elim (Bool-cases (flag_at values i)) [
    | inl e ↦
        let rest = requested-ask_all left (suc i) values (S.schedule sim 0 (model (request i))).0 in
        rw e rest
    | inr e ↦ let rest = requested-ask_all left (suc i) values sim in rw e rest
  ]

  -- The gateway and the vehicles behind the event of a call.
  pub record IsPerformed (c : Call) (values : List Bytes) (w : World Sim) (v : SimpleGateway Vector)
      (w' : World Sim) (v' : SimpleGateway Vector) : Type 0 where
    pub runs : execute S c (update_actions request (length v.vehicles) 0 values v.counts) w ≡ ok w'
    pub performs :
        Performs differ vector S c
          (update_actions request (length v.vehicles) 0 values v.counts)
          w
          v
          v'
    pub same_world : w' ≡ in_world differ vector S w'.sim v'
    pub sends : v'.sends ≡ v.sends ++ broadcasts values (length v.vehicles) 0
    pub same_sim : w'.sim ≡ ask_all (broadcasts values (length v.vehicles) 0) (begun c w)
    pub ready : IsReady differ vector v'
    pub same_counts : v'.counts ≡ v.counts
    pub same_size : length v'.vehicles ≡ length v.vehicles
    pub same_state : v'.gateway.state ≡ w.gateway.state

  before_update-IsReady :
      (w : World Sim) (v : SimpleGateway Vector)
      → IsReady differ vector (in_place differ vector S w v)
      → IsReady differ vector (in_place differ vector S (before_update differ vector S w) v)
  unfolding schedule_wait
  before_update-IsReady w v h = elim (Bool-cases (is_time w.gateway.time_pause (now w.sim))) [
    | inl e ↦
        rw e (record { counted = h.counted; sized = h.sized; field = h.field; message = h.message })
    | inr e ↦ rw e h
  ]

  before_update-state :
      (w : World Sim) → (before_update differ vector S w).gateway.state ≡ w.gateway.state
  unfolding schedule_wait
  before_update-state w = elim (Bool-cases (is_time w.gateway.time_pause (now w.sim))) [
    | inl e ↦ rw e refl
    | inr e ↦ rw e refl
  ]

  module _ (values : List Bytes) (w : World Sim) (v : SimpleGateway Vector) (r : Readable values)
      (b : length v.vehicles * 7 < 2 ^ 32) (l : length v.vehicles * 7 ≤ length values)
      (h : IsReady differ vector (in_place differ vector S w v))
      (con : is_connected w.gateway.state ≡ true) where
    initialize-IsPerformed :
        (w' : World Sim) × (v' : SimpleGateway Vector) × IsPerformed
          (do_initialize values)
          values
          w
          v
          w'
          v'
    unfolding execute SimpleGateway.do_initialize
    initialize-IsPerformed =
        let (v', e, k) =
          do_update-IsResponse differ vector values (in_place differ vector S w v) r b l h con in
        (
          in_world differ vector S
              (requested differ vector S request (length v.vehicles) 0 values w.sim) v',
          v',
          record {
            runs =
                do_update-update_actions differ vector S request w.sim values
                  (in_place differ vector S w v) v' b e;
            performs = ((request, refl), e);
            same_world = refl;
            sends =
                (do_update-AllDriven differ vector values (in_place differ vector S w v) v' b e).2;
            same_sim = requested-ask_all (length v.vehicles) 0 values w.sim;
            ready = k.ready;
            same_counts = k.same_counts;
            same_size = k.same_size;
            same_state = k.same_state;
          },
        )

    update-IsPerformed :
        (w' : World Sim) × (v' : SimpleGateway Vector) × IsPerformed
          (handle_update values)
          values
          w
          v
          w'
          v'
    unfolding execute update
    update-IsPerformed =
        let u = before_update differ vector S w in
        let (v', e, k) =
          do_update-IsResponse differ vector values (in_place differ vector S u v) r b l
            (before_update-IsReady w v h) (ap is_connected (before_update-state w) ∙ con) in
        (
          in_world differ vector S
              (requested differ vector S request (length v.vehicles) 0 values u.sim) v',
          v',
          record {
            runs =
                do_update-update_actions differ vector S request u.sim values
                  (in_place differ vector S u v) v' b e;
            performs = ((request, refl), e);
            same_world = refl;
            sends =
                (do_update-AllDriven differ vector values (in_place differ vector S u v) v' b e).2;
            same_sim = requested-ask_all (length v.vehicles) 0 values u.sim;
            ready = k.ready;
            same_counts = k.same_counts;
            same_size = k.same_size;
            same_state = k.same_state ∙ before_update-state w;
          },
        )

    -- In the program of the example the event of DoInitialize or of HandleUpdate returns. It leaves the
    -- gateway, the simulator and the socket as the calls of Send, SetValue and SendResponse in DoUpdate
    -- leave them: DoUpdate calls Send with three packets exactly for the vehicles whose seventh value is
    -- not 0, in order, and the simulator is the one in which DoUpdate began, with one call of
    -- ProcessSendRequest scheduled for the current time for each of those. The vehicles become those that DoUpdate makes; there is still one count and one value for each
    -- vehicle, and the counts and the state of the gateway are the same as before, so that the next
    -- message finds the same conditions. The message has seven numbers for each vehicle, readable as ints,
    -- there are so few vehicles that the index does not wrap around, there is one count and one value
    -- for each, the delimiters are the default ones, and the gateway is connected.
    pub callback-IsPerformed :
        (c : Call)
        → (c ≡ do_initialize values) ⊎ (c ≡ handle_update values)
        → (w' : World Sim) × (v' : SimpleGateway Vector) × IsPerformed c values w v w' v'
    callback-IsPerformed c (inl e) = rw e initialize-IsPerformed
    callback-IsPerformed c (inr e) = rw e update-IsPerformed
