-- ===== src/CoSim/Tests/Run/Progress.antt =====
-- The thread queues the two messages that it received at once.
use ns3_cosim.Common.{◌≡◌, refl, true, List, [], ◌∷◌, ◌++◌, Bytes, codes}
use ns3_cosim.Text.{find}
use ns3_cosim.Text.Border.{unbordered}
use ns3_cosim.Protocol.Split.{Lacks}
use ns3_cosim.Gateway.{is_connected}
use ns3_cosim.Gateway.Handlers.{open_connection}
use ns3_cosim.CoSim.{Recv, run_thread, searching, failed}
use ns3_cosim.CoSim.Stream.{framed}
use ns3_cosim.CoSim.Progress.{run_all, IsDelivered, thread_delivers}
use ns3_cosim.CoSim.Tests.{simulator}
use ns3_cosim.CoSim.Tests.Run.{steps}

abbrev two : List Bytes
two = codes "5 0 7" ∷ codes "6 0 8" ∷ []

abbrev six : List Recv
six = failed ∷ failed ∷ failed ∷ failed ∷ failed ∷ failed ∷ []

delimiter-unbordered : unbordered (steps 2).gateway.delimiter_message ≡ true
unfolding unbordered run_thread open_connection find
delimiter-unbordered = refl

two-Lacks : Lacks (steps 2).gateway.delimiter_message two
unfolding find run_thread open_connection
two-Lacks = (refl, (refl, tt))

two-connected : is_connected (steps 2).gateway.state ≡ true
unfolding run_thread open_connection find
two-connected = refl

two-held : (steps 2).thread ≡ searching (framed (steps 2).gateway.delimiter_message two ++ [])
unfolding run_thread framed open_connection find
two-held = refl

thread_delivers_example : IsDelivered simulator two [] (steps 2) (run_all simulator six (steps 2))
thread_delivers_example =
    thread_delivers simulator (steps 2) two [] six delimiter-unbordered two-Lacks two-connected
      two-held refl
