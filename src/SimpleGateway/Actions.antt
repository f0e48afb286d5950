-- ===== src/SimpleGateway/Actions.antt =====
-- SimpleGateway::DoUpdate, seen from the gateway that it extends: the calls of SetValue and of
-- SendResponse.
use ns3_cosim.Common.{
  ℕ, zero, suc, ◌+◌, ◌*◌, ◌^◌, ◌<◌, ◌≡◌, sym, ap, ◌∙◌, List, [], ◌∷◌, ◌++◌, none, some, Option,
  Bool, Bool-cases, inl, inr, refl, if◌then◌else◌, done, >>=-eq-done, done-injective, Bytes, length,
  get_elem?, ℤ, arith,
}
use ns3_cosim.Simulator.{Simulator}
use ns3_cosim.Text.Number.{to_string}
use ns3_cosim.Gateway.{Call, World, ok, Action, sets, sends, schedules, model, send_response}
use ns3_cosim.Gateway.Handlers.{run_actions, act}
use ns3_cosim.SimpleGateway.{SimpleGateway, from_gateway, update_vehicle, update_loop, do_update}
use ns3_cosim.SimpleGateway.Effect.{IsStored, flag_at, update_vehicle-IsRound, from_gateway-eq-done}

-- `m_count[i]`
abbrev pub count_at : Option ℕ → ℕ
count_at none = 0
count_at (some c) = c

-- The calls for `left` vehicles from `i` on.
unfoldable pub report_actions : ℕ → ℕ → List ℕ → List Action
report_actions zero i counts = sends ∷ []
report_actions (suc left) i counts =
    sets i (to_string (count_at (get_elem? counts i))) ∷ report_actions left (suc i) counts

-- With the calls of Send where a vehicle is told to broadcast: `request i` numbers the event of its
-- ProcessSendRequest.
unfoldable pub update_actions : (ℕ → ℕ) → ℕ → ℕ → List Bytes → List ℕ → List Action
update_actions request zero i values counts = sends ∷ []
update_actions request (suc left) i values counts =
    let reports =
      sets i (to_string (count_at (get_elem? counts i)))
      ∷ update_actions request left (suc i) values counts in
    if flag_at values i then schedules 0 (request i) ∷ reports else reports

module _ {Vector : Type 0} (differ : Vector → Vector → Bool) (vector : ℤ → ℤ → ℤ → Vector) where
  module _ (S : Simulator Call) where
    open S use {Sim}

    -- The gateway in its simulation.
    abbrev pub in_world : Sim → SimpleGateway Vector → World Sim
    in_world sim s = record { gateway = s.gateway; sim = sim; sent = s.sent }

    sends_last :
        (sim : Sim) (s s' : SimpleGateway Vector) (message : Bytes)
        → send_response s.gateway ≡ ok message
        → record s { sent = s.sent ++ (message ∷ []) } ≡ s'
        → run_actions S (sends ∷ []) (in_world sim s) ≡ ok (in_world sim s')
    unfolding run_actions act
    sends_last sim s s' message e h = rw e (ap (λ t. ok (in_world sim t)) h)

    sets_first :
        (sim : Sim) (i : ℕ) (s v : SimpleGateway Vector) (actions : List Action)
        → IsStored differ vector i s v
        → run_actions S
            (sets i (to_string (count_at (get_elem? s.counts i))) ∷ actions)
            (in_world sim s)
          ≡ run_actions S actions (in_world sim v)
    unfolding run_actions act
    sets_first sim i s v actions h =
        rw (h.at_count, h.stored)
          (ap (λ l. run_actions S actions (record { gateway = v.gateway; sim = sim; sent = l }))
            (sym h.same_sent))

    -- The simulator behind the calls of Send.
    unfoldable pub requested : (ℕ → ℕ) → ℕ → ℕ → List Bytes → Sim → Sim
    requested request zero i values sim = sim
    requested request (suc left) i values sim =
        let broadcast = (S.schedule sim 0 (model (request i))).0 in
        requested request left (suc i) values (if flag_at values i then broadcast else sim)

    request_first :
        (request : ℕ → ℕ) (sim : Sim) (i : ℕ) (values : List Bytes) (s : SimpleGateway Vector)
        (actions : List Action)
        → run_actions S
            (if flag_at values i then schedules 0 (request i) ∷ actions else actions)
            (in_world sim s)
          ≡ run_actions S actions (
              in_world
                (if flag_at values i then (S.schedule sim 0 (model (request i))).0 else sim)
                s)
    unfolding run_actions act
    request_first request sim i values s actions = elim (Bool-cases (flag_at values i)) [
      | inl e ↦ rw e refl
      | inr e ↦ rw e refl
    ]

    loop-update_actions :
        (request : ℕ → ℕ) (sim : Sim) (left i : ℕ) (values : List Bytes)
        (s v s' : SimpleGateway Vector) (message : Bytes)
        → (i + left) * 7 < 2 ^ 32
        → update_loop differ vector left i values s ≡ done v
        → send_response v.gateway ≡ ok message
        → record v { sent = v.sent ++ (message ∷ []) } ≡ s'
        → run_actions S (update_actions request left i values s.counts) (in_world sim s)
          ≡ ok (in_world (requested request left i values sim) s')
    unfolding update_loop update_actions requested
    loop-update_actions request sim zero i values s v s' message b h e q =
        sends_last sim s s' message
          (ap (λ (t : SimpleGateway Vector). send_response t.gateway) (done-injective h) ∙ e)
          (ap (λ (t : SimpleGateway Vector). record t { sent = t.sent ++ (message ∷ []) })
              (done-injective h)
            ∙ q)
    loop-update_actions request sim (suc left) i values s v s' message b h e q =
        let (u, f, h1) = >>=-eq-done (update_vehicle differ vector i values s) _ h in
        let r = update_vehicle-IsRound differ vector values i s u (omega (arith, b)) f in
        let sim' : Sim =
          if flag_at values i then (S.schedule sim 0 (model (request i))).0 else sim in
        request_first request sim i values s _
        ∙ sets_first sim' i s u (update_actions request left (suc i) values s.counts) r.reported
        ∙ ap (λ c. run_actions S (update_actions request left (suc i) values c) (in_world sim' u))
            (sym r.reported.same_counts)
        ∙ loop-update_actions request sim' left (suc i) values u v s' message (omega (arith, b)) h1
            e q

    loop-run_actions :
        (sim : Sim) (left i : ℕ) (values : List Bytes) (s v s' : SimpleGateway Vector)
        (message : Bytes)
        → (i + left) * 7 < 2 ^ 32
        → update_loop differ vector left i values s ≡ done v
        → send_response v.gateway ≡ ok message
        → record v { sent = v.sent ++ (message ∷ []) } ≡ s'
        → run_actions S (report_actions left i s.counts) (in_world sim s) ≡ ok (in_world sim s')
    unfolding update_loop report_actions
    loop-run_actions sim zero i values s v s' message b h e q =
        sends_last sim s s' message
          (ap (λ (t : SimpleGateway Vector). send_response t.gateway) (done-injective h) ∙ e)
          (ap (λ (t : SimpleGateway Vector). record t { sent = t.sent ++ (message ∷ []) })
              (done-injective h)
            ∙ q)
    loop-run_actions sim (suc left) i values s v s' message b h e q =
        let (u, f, h1) = >>=-eq-done (update_vehicle differ vector i values s) _ h in
        let r = update_vehicle-IsRound differ vector values i s u (omega (arith, b)) f in
        sets_first sim i s u (report_actions left (suc i) s.counts) r.reported
        ∙ ap (λ c. run_actions S (report_actions left (suc i) c) (in_world sim u))
            (sym r.reported.same_counts)
        ∙ loop-run_actions sim left (suc i) values u v s' message (omega (arith, b)) h1 e q

    -- SimpleGateway is a client of the class Gateway: what DoUpdate does to the gateway and to the
    -- socket, where it returns, is what the calls of SetValue with the counts of all vehicles, in order,
    -- and of SendResponse behind them do. So the properties of a gateway that hold whatever calls its
    -- derived class makes hold for the example. There are so few vehicles that the index does not wrap
    -- around.
    pub do_update-run_actions :
        (sim : Sim) (values : List Bytes) (s s' : SimpleGateway Vector)
        → length s.vehicles * 7 < 2 ^ 32
        → do_update differ vector values s ≡ done s'
        → run_actions S (report_actions (length s.vehicles) 0 s.counts) (in_world sim s)
          ≡ ok (in_world sim s')
    unfolding do_update
    do_update-run_actions sim values s s' b h =
        let (v, e, h1) =
          >>=-eq-done (update_loop differ vector (length s.vehicles) 0 values s) _ h in
        let (message, f, h2) = >>=-eq-done (from_gateway (send_response v.gateway)) _ h1 in
        loop-run_actions sim (length s.vehicles) 0 values s v s' message (omega (arith, b)) e
          (from_gateway-eq-done (send_response v.gateway) f) (done-injective h2)

    -- The same with the calls of Send and with the simulator that they leave.
    pub do_update-update_actions :
        (request : ℕ → ℕ) (sim : Sim) (values : List Bytes) (s s' : SimpleGateway Vector)
        → length s.vehicles * 7 < 2 ^ 32
        → do_update differ vector values s ≡ done s'
        → run_actions S
            (update_actions request (length s.vehicles) 0 values s.counts)
            (in_world sim s)
          ≡ ok (in_world (requested request (length s.vehicles) 0 values sim) s')
    unfolding do_update
    do_update-update_actions request sim values s s' b h =
        let (v, e, h1) =
          >>=-eq-done (update_loop differ vector (length s.vehicles) 0 values s) _ h in
        let (message, f, h2) = >>=-eq-done (from_gateway (send_response v.gateway)) _ h1 in
        loop-update_actions request sim (length s.vehicles) 0 values s v s' message
          (omega (arith, b)) e (from_gateway-eq-done (send_response v.gateway) f)
          (done-injective h2)
