-- ===== src/TriggeredSend/Tests/Example.antt =====
-- A send that is interrupted, and the cases of the example.
use ns3_cosim.Common.{ℕ, ◌+◌, ◌≡◌, refl, false, List, [], ◌∷◌, ◌++◌, arith}
use ns3_cosim.Simulator.{insert_event, has_uid}
use ns3_cosim.Simulator.Clock.{Clock, take_next}
use ns3_cosim.TriggeredSend.{Call, World, Outcome, ok, fatal, process_request, execute, send}
use ns3_cosim.TriggeredSend.Burst.{run, send_times, spaced}
use ns3_cosim.TriggeredSend.Interrupt.{interrupted}
use ns3_cosim.TriggeredSend.Example.{client, run_events, example}
use ns3_cosim.TriggeredSend.Tests.{simulator, application, sending, sending-IsSending}

interrupted_example :
    (v : World (Clock Call)) × (w' : World (Clock Call)) × (run simulator 1 (λ k. 512) sending
      ≡ ok v)
    × (run simulator 6 (λ k. 512) (process_request simulator 5 v) ≡ ok w')
    × (send_times w'.calls ≡ [] ++ spaced 7 100 (1 + 5))
    × (simulator.events w'.sim ≡ [])
    × (w'.app.packet_count ≡ 0)
unfolding send_times
interrupted_example =
    interrupted simulator 1 2 5 7 6 (λ k. 512) (λ k. 512) sending (omega arith) (omega arith) refl
      refl sending-IsSending

-- The example at time 0.
abbrev at_start : World (Clock Call)
at_start = record {
  app = record (client application) { packet_count = 0; send_event = 0 };
  sim = record { time_now = 0; pending = []; at_destroy = []; next_uid = 1; ended = false };
  calls = [];
}

abbrev times_of : Outcome (World (Clock Call)) → List ℕ
times_of (ok w) = send_times w.calls
times_of (fatal e) = []

-- The packets are sent at the times that the comments of the example give.
example_times :
    times_of (example simulator 60 1024 at_start)
    ≡ 3000000000 ∷ 3200000000 ∷ 3400000000 ∷ 3600000000 ∷ 3800000000 ∷ 4000000000 ∷ 4200000000
      ∷ 4400000000 ∷ 4600000000 ∷ 4800000000 ∷ 5000000000 ∷ 5200000000 ∷ 5400000000 ∷ 6000000000
      ∷ 6200000000 ∷ 6400000000 ∷ 6600000000 ∷ 6800000000 ∷ 7000000000 ∷ 7200000000 ∷ 7400000000
      ∷ 7600000000 ∷ 7800000000 ∷ 8000000000 ∷ 8200000000 ∷ 8400000000 ∷ 8600000000 ∷ 8800000000
      ∷ 9000000000 ∷ 9200000000 ∷ 9400000000 ∷ []
unfolding example run_events execute take_next insert_event send has_uid send_times
example_times = refl
