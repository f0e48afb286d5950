-- ===== src/SimpleGateway/Launch.antt =====
-- examples/simple-gateway.cc: what `main` sets up, and the callbacks behind it.
use ns3_cosim.Common.{
  arith, some, get_elem?, ◌≤◌, ℕ, zero, suc, ◌+◌, ◌%◌, ◌^◌, ◌<◌, ◌≡◌, refl, sym, ap, subst, ◌∙◌,
  Bool, true, false, List, [], ◌++◌, done, codes, length, length-replicate, replicate, ℤ, pos,
  negsuc, All,
}
use ns3_cosim.Text.{find, starts_with}
use ns3_cosim.Simulator.{Simulator}
use ns3_cosim.Gateway.{Call, World, created, Network, is_negative, is_positive}
use ns3_cosim.Gateway.Handlers
use ns3_cosim.TriggeredSend.{Address}
use ns3_cosim.Mobility.{Mobility, do_set_position}
use ns3_cosim.Mobility
use ns3_cosim.TriggeredSend.Helper.{helper}
use ns3_cosim.SimpleGateway.{to_string, SimpleGateway}
use ns3_cosim.SimpleGateway.Setup.{
  Installed, install_applications, initial_positions, install, new, launch,
}
use ns3_cosim.SimpleGateway.Tally.{tally_none}
use ns3_cosim.SimpleGateway.Session.{
  IsIndexed, install_applications-IsIndexed, Input, IsComplete, responses, run_inputs, IsRunning,
  run_inputs-responds,
}

-- What `main` installs on vehicle `i`: the application sends to the broadcast address, a packet every
-- 100 ms.
abbrev pub installed_on : Address → ℕ → Installed
installed_on broadcast i = record {
  application = record (helper broadcast) { packet_interval = 100000000 };
  start_time = 0;
  receive_id = to_string i;
}

installed_at :
    (broadcast : Address) (left i k : ℕ)
    → k < left
    → get_elem? (install_applications broadcast left i) k ≡ some (installed_on broadcast (i + k))
unfolding install_applications
installed_at broadcast zero i k l = absurd (omega (arith, l))
installed_at broadcast (suc left) i zero l = ap (λ n. some (installed_on broadcast n)) (omega arith)
installed_at broadcast (suc left) i (suc k) l =
    installed_at broadcast left (suc i) k (omega (arith, l))
    ∙ ap (λ n. some (installed_on broadcast n)) (omega arith)

module _ {Vector : Type 0} (differ : Vector → Vector → Bool) (vector : ℤ → ℤ → ℤ → Vector) where
  length-initial_positions :
      (left i : ℕ) → length (install differ vector (initial_positions differ vector left i)) ≡ left
  unfolding install initial_positions
  length-initial_positions zero i = refl
  length-initial_positions (suc left) i = ap suc (length-initial_positions left ((i + 1) % 2 ^ 16))

  -- The mobility model of vehicle `i`: new, and then set to (0, i, 0).
  abbrev pub placed_at : ℕ → Mobility Vector
  placed_at i =
      do_set_position differ (vector (pos 0) (pos i) (pos 0))
        (Mobility.new (vector (pos 0) (pos 0) (pos 0)))

  positioned_at :
      (left i k : ℕ)
      → k < left
      → i + left ≤ 2 ^ 16
      → get_elem? (install differ vector (initial_positions differ vector left i)) k
        ≡ some (placed_at (i + k))
  unfolding install initial_positions
  positioned_at zero i k l b = absurd (omega (arith, l))
  positioned_at (suc left) i zero l b = ap (λ n. some (placed_at n)) (omega arith)
  positioned_at (suc left) i (suc k) l b =
      let next : (i + 1) % 2 ^ 16 ≡ suc i = omega (arith, l, b) in
      positioned_at left ((i + 1) % 2 ^ 16) k (omega (arith, l)) (omega (arith, l, b, next))
      ∙ ap (λ n. some (placed_at n)) (omega (arith, next))

  launch-IsRunning :
      (S : Simulator Call) (net : Network) (broadcast : Address) (vehicles : List (Mobility Vector))
      (sim : S.Sim)
      → is_negative net.socket_result ≡ false
      → is_positive net.pton_result ≡ true
      → is_negative net.connect_result ≡ false
      → (s : SimpleGateway Vector) × (sim' : S.Sim) × (launch differ vector S net broadcast vehicles
            sim
          ≡ done (s, install_applications broadcast (length vehicles) 0, sim'))
        × IsRunning differ vector (length vehicles) [] s
        × (s.sent ≡ [])
        × (s.vehicles ≡ vehicles)
  unfolding launch new Handlers.new Handlers.connect Handlers.open_connection Handlers.schedule_wait
      find starts_with
  launch-IsRunning S net broadcast vehicles sim a b c = (
    record built { gateway = opened.gateway },
    opened.sim,
    rw (a, b, c) refl,
    record {
      ready = record {
        counted = length-replicate (length vehicles) 0;
        sized = length-replicate (length vehicles) [];
        field = refl;
        message = refl;
      };
      counts = sym (tally_none (length vehicles) 0);
      size = refl;
      open_state = refl;
    },
    refl,
    refl,
  )
    where
      built : SimpleGateway Vector
      built = record {
        gateway = record {
          event_wait = 0;
          event_destroy = 0;
          state = created;
          time_start = S.seconds (negsuc 0);
          time_pause = S.seconds (pos 0);
          socket = pos 0;
          socket_open = false;
          joinable = false;
          message_queue = [];
          delimiter_field = codes " ";
          delimiter_message = codes "\r\n";
          message_buffer = [];
          values = replicate (length vehicles) [];
        };
        vehicles = vehicles;
        counts = replicate (length vehicles) 0;
        sends = [];
        sent = [];
      }

      opened : World S.Sim
      opened =
          Handlers.open_connection S net.socket_result
            (record { gateway = built.gateway; sim = sim; sent = [] })

  -- What `main` of the example sets up for fewer than 2^16 vehicles, and what its callbacks then do
  -- while the gateway stays connected. Where the socket calls of Connect succeed, `main` constructs
  -- and connects the gateway; vehicle `i` starts as a new mobility model that is set to (0, i, 0), and
  -- on it stand an application that sends to the broadcast address, a packet every 100 ms, and a
  -- packet sink under the identifier `i`. Then calls of HandleReceive under these identifiers and of
  -- DoUpdate (the first by DoInitialize), in any order and number, made while the gateway is in the
  -- state CONNECTED, so before any call of Stop, all return, and each DoUpdate sends one response: it
  -- gives, in the order of the vehicles, how many broadcasts each has received before, modulo 2^16.
  -- Each message has a number that is readable as an int for each of its values, at least seven for
  -- each vehicle. When those calls come is left to the simulator.
  pub launch_responds :
      (S : Simulator Call) (net : Network) (broadcast : Address) (n : ℕ) (sim : S.Sim)
      (inputs : List Input)
      → n < 2 ^ 16
      → is_negative net.socket_result ≡ false
      → is_positive net.pton_result ≡ true
      → is_negative net.connect_result ≡ false
      → All (IsComplete n) inputs
      → (s : SimpleGateway Vector) × (installed : List Installed) × (sim' : S.Sim)
        × (s' : SimpleGateway Vector) × (launch differ vector S net broadcast
              (install differ vector (initial_positions differ vector n 0))
              sim
            ≡ done (s, installed, sim'))
        × (run_inputs differ vector installed inputs s ≡ done s')
        × (s'.sent ≡ responses n [] inputs)
        × ((i : ℕ)
            → i < n
            → (get_elem? installed i ≡ some (installed_on broadcast i))
              × (get_elem? s.vehicles i ≡ some (placed_at i)))
  launch_responds S net broadcast n sim inputs l a b c complete =
      let vehicles = install differ vector (initial_positions differ vector n 0) in
      let installed = install_applications broadcast (length vehicles) 0 in
      let (s, sim', launched, k, none_sent, same) =
        launch-IsRunning S net broadcast vehicles sim a b c in
      let size = length-initial_positions n 0 in
      let (s', e, sent) =
        run_inputs-responds differ vector installed n [] inputs s
          (subst (λ m. IsIndexed n (install_applications broadcast m 0)) (sym size)
            (install_applications-IsIndexed broadcast n))
          l complete (subst (λ m. IsRunning differ vector m [] s) size k) in
      (
        s,
        installed,
        sim',
        s',
        launched,
        e,
        sent ∙ ap (λ m. m ++ responses n [] inputs) none_sent,
        λ i few. (
          installed_at broadcast (length vehicles) 0 i (omega (arith, few, size))
              ∙ ap (λ k. some (installed_on broadcast k)) (omega arith),
          ap (λ vs. get_elem? vs i) same
              ∙ positioned_at n 0 i few (omega (arith, l))
              ∙ ap (λ k. some (placed_at k)) (omega arith),
        ),
      )
