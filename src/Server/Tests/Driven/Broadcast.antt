-- ===== src/Server/Tests/Driven/Broadcast.antt =====
-- The rest of that run: the vehicle is moved and broadcasts, and the terminate message ends the run. Then the
-- theorem on the vehicles.
use ns3_cosim.Common.{[], ◌∷◌, codes, true, false, pos}
use ns3_cosim.Simulator.Clock.{Clock}
use ns3_cosim.Gateway.{Call, World, wait_for_next_update, forward_up, handle_update, model}
use ns3_cosim.CoSim.{System}
use ns3_cosim.SimpleGateway
use ns3_cosim.SimpleGateway.{SimpleGateway}
use ns3_cosim.Example.Placed.{Placed}
use ns3_cosim.Server.Bodies.{flat}
use ns3_cosim.Server.Tests.Driven.Vehicles.{
  Vector, telling, moved_values, vehicle, answering, with_queue,
}
use ns3_cosim.Server.Tests.Driven.{call_at, sim_with, world_with, after}
use ns3_cosim.Server.Tests.Driven.Turns.{request_at, packet_at, late, system6}

abbrev world7 : World (Clock Call)
world7 = answering (codes "0\r\n" ∷ codes "0\r\n" ∷ []) (
    world_with 10 (pos 5000000000) (pos 2000000000) []
      (sim_with 2000000000 (late 10 ∷ request_at 2000000000 11 ∷ []) 12 false))

abbrev moved_vehicle : SimpleGateway Vector
moved_vehicle = record vehicle {
  gateway = world7.gateway;
  vehicles =
      record { position = (9, 0, 0); velocity = (9, 0, 0); notified = ((9, 0, 0), (9, 0, 0)) ∷ [] }
      ∷ [];
  sends = (0, 3) ∷ [];
  sent = world7.sent;
}

abbrev sim7 : Clock Call
sim7 = (sim_with 2000000000 ([]) 10 false)

abbrev system7 : System (Clock Call)
system7 = after system6 (handle_update moved_values) world7

abbrev world8 : World (Clock Call)
world8 = answering (codes "0\r\n" ∷ codes "0\r\n" ∷ []) (
    world_with 12 (pos 5000000000) (pos 2000000000) []
      (sim_with 2000000000 (request_at 2000000000 11 ∷ late 12 ∷ []) 13 false))

abbrev sim8 : Clock Call
sim8 = (sim_with 2000000000 (request_at 2000000000 11 ∷ []) 12 false)

abbrev system8 : System (Clock Call)
system8 = after system7 wait_for_next_update world8

abbrev world9 : World (Clock Call)
world9 = answering (codes "0\r\n" ∷ codes "0\r\n" ∷ []) (
    world_with 12 (pos 5000000000) (pos 2000000000) []
      (sim_with 2000000000 (late 12 ∷ packet_at 2000000000 13 ∷ []) 14 false))

abbrev sent_vehicle9 : SimpleGateway Vector
sent_vehicle9 = record moved_vehicle { gateway = world8.gateway }

abbrev sim9 : Clock Call
sim9 = (sim_with 2000000000 (late 12 ∷ []) 13 false)

abbrev system9 : System (Clock Call)
system9 = after system8 (model 0) world9

abbrev world10 : World (Clock Call)
world10 = answering (codes "0\r\n" ∷ codes "0\r\n" ∷ []) (
    world_with 14 (pos 5000000000) (pos 2000000000) []
      (sim_with 2000000000 (packet_at 2000000000 13 ∷ late 14 ∷ []) 15 false))

abbrev sim10 : Clock Call
sim10 = (sim_with 2000000000 (packet_at 2000000000 13 ∷ []) 14 false)

abbrev system10 : System (Clock Call)
system10 = after system9 wait_for_next_update world10

abbrev world11 : World (Clock Call)
world11 = answering (codes "0\r\n" ∷ codes "0\r\n" ∷ []) (
    world_with 14 (pos 5000000000) (pos 2000000000) []
      (sim_with 2000000000 (late 14 ∷ packet_at 2100000000 15 ∷ []) 16 false))

abbrev sent_vehicle11 : SimpleGateway Vector
sent_vehicle11 = record moved_vehicle { gateway = world10.gateway }

abbrev sim11 : Clock Call
sim11 = (sim_with 2000000000 (late 14 ∷ []) 15 false)

abbrev system11 : System (Clock Call)
system11 = after system10 (model 1) world11

-- The thread has queued the third message.
abbrev queued3 : System (Clock Call)
queued3 =
    record (with_queue (codes "-1 0" ∷ [])
      (sim_with 2000000000
        (late 14 ∷ call_at 2000000000 16 forward_up ∷ packet_at 2100000000 15 ∷ []) 17 false)
      system11) { stream = flat telling.sent }

abbrev world12 : World (Clock Call)
world12 = answering (codes "0\r\n" ∷ codes "0\r\n" ∷ []) (
    world_with 17 (pos 5000000000) (pos 2000000000) (codes "-1 0" ∷ []) (
      sim_with 2000000000
        (call_at 2000000000 16 forward_up ∷ late 17 ∷ packet_at 2100000000 15 ∷ []) 18 false))

abbrev sim12 : Clock Call
sim12 =
    (sim_with 2000000000 (call_at 2000000000 16 forward_up ∷ packet_at 2100000000 15 ∷ []) 17 false)

abbrev system12 : System (Clock Call)
system12 = after queued3 wait_for_next_update world12

abbrev world13 : World (Clock Call)
world13 = answering (codes "0\r\n" ∷ codes "0\r\n" ∷ []) (
    world_with 17 (pos 5000000000) (pos 2000000000) []
      (sim_with 2000000000 (late 17 ∷ packet_at 2100000000 15 ∷ []) 18 true))

abbrev sim13 : Clock Call
sim13 = (sim_with 2000000000 (late 17 ∷ packet_at 2100000000 15 ∷ []) 18 false)

abbrev system13 : System (Clock Call)
system13 = after system12 forward_up world13
