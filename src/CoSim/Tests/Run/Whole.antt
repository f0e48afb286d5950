-- ===== src/CoSim/Tests/Run/Whole.antt =====
-- The rest of the run, up to the call of DoUpdate for the second message.
use ns3_cosim.Common.{
  ◌≡◌, refl, true, List, [], ◌∷◌, ◌++◌, none, some, Bytes, codes, pos, ◌+ℤ◌, ◌-ℤ◌,
}
use ns3_cosim.Text.{find, starts_with}
use ns3_cosim.Text.Border.{unbordered}
use ns3_cosim.Text.Number.{stoi, stol}
use ns3_cosim.Protocol.{split}
use ns3_cosim.Protocol.Split.{Lacks}
use ns3_cosim.Simulator.{insert_event, without, has_uid}
use ns3_cosim.Simulator.Clock.{Clock, take_next}
use ns3_cosim.Gateway.{
  Call, World, ok, first_of_queue, forward_up, do_initialize, handle_update, is_time,
}
use ns3_cosim.Gateway.Handlers.{
  open_connection, execute, wait_update, read_header, timestamp, run_actions, update, schedule_wait,
}
use ns3_cosim.CoSim.{System, run_thread, taken, event, Reach, later}
use ns3_cosim.CoSim.Updates.{callback_values, chosen, updates}
use ns3_cosim.CoSim.Stream.{framed, unread}
use ns3_cosim.CoSim.Contract.{values_of, called, delivered, InOrder, as_granted, granted, handled}
use ns3_cosim.CoSim.Contract.Refines.{handled-granted, stream_handled}
use ns3_cosim.CoSim.Contract.Callbacks.{called-delivered}
use ns3_cosim.CoSim.Tests.{simulator}
use ns3_cosim.CoSim.Tests.Run.{
  call_at, at_second, second_taken, started, at_second-Reach, at_second-next, queued-idle,
}

abbrev granted_world : World (Clock Call)
granted_world = record started {
  gateway = record (started.gateway) { time_pause = pos 1000000000; message_queue = [] };
  sim = record second_taken {
    pending =
        call_at 6 (do_initialize (codes "7" ∷ []))
        ∷ record { time = 1000000000; uid = 7; call = handle_update (codes "8" ∷ []) }
        ∷ [];
    next_uid = 8;
  };
}

second_runs :
    execute simulator forward_up [] (taken simulator at_second second_taken) ≡ ok granted_world
unfolding run_thread find starts_with open_connection insert_event wait_update without has_uid
    execute split stoi stol ◌+ℤ◌ ◌-ℤ◌ timestamp
second_runs = refl

abbrev at_initialize : System (Clock Call)
at_initialize = record at_second {
  world = granted_world;
  forwarded = at_second.forwarded ++ first_of_queue forward_up at_second.gateway.message_queue;
}

at_initialize-Reach : Reach simulator at_initialize
at_initialize-Reach = later at_second-Reach (
    event forward_up [] second_taken granted_world queued-idle (λ e. cc) at_second-next second_runs)

at_initialize-InOrder :
    InOrder (granted simulator at_initialize.gateway.delimiter_field at_initialize.forwarded none)
unfolding granted run_thread find starts_with open_connection insert_event wait_update without
    has_uid split stoi stol ◌+ℤ◌ ◌-ℤ◌ timestamp read_header
at_initialize-InOrder = (tt, tt)

handled-granted_example :
    as_granted
      (handled simulator at_initialize-Reach ++ updates (simulator.events at_initialize.sim))
    ≡ granted simulator at_initialize.gateway.delimiter_field at_initialize.forwarded none
handled-granted_example =
    handled-granted simulator at_initialize at_initialize-Reach at_initialize-InOrder

called-delivered_example :
    called simulator at_initialize-Reach
      ++ values_of (chosen callback_values (simulator.events at_initialize.sim))
    ≡ delivered simulator at_initialize.gateway.delimiter_field at_initialize.forwarded
called-delivered_example =
    called-delivered simulator at_initialize at_initialize-Reach at_initialize-InOrder

-- DoInitialize is called, which does nothing here.
abbrev initialize_taken : Clock Call
initialize_taken = record (granted_world.sim) {
  pending = record { time = 1000000000; uid = 7; call = handle_update (codes "8" ∷ []) } ∷ [];
}

at_initialize-next :
    simulator.next at_initialize.sim ≡ some (do_initialize (codes "7" ∷ []), initialize_taken)
unfolding take_next open_connection
at_initialize-next = refl

abbrev initialized_world : World (Clock Call)
initialized_world = taken simulator at_initialize initialize_taken

initialize_runs :
    execute simulator
      (do_initialize (codes "7" ∷ []))
      []
      (taken simulator at_initialize initialize_taken)
    ≡ ok initialized_world
unfolding execute run_actions
initialize_runs = refl

abbrev at_update : System (Clock Call)
at_update = record at_initialize {
  world = initialized_world;
  forwarded =
      at_initialize.forwarded
      ++ first_of_queue (do_initialize (codes "7" ∷ [])) at_initialize.gateway.message_queue;
}

at_update-Reach : Reach simulator at_update
at_update-Reach = later at_initialize-Reach (
    event (do_initialize (codes "7" ∷ [])) [] initialize_taken initialized_world queued-idle
      (λ e. cc) at_initialize-next initialize_runs)

-- A second later DoUpdate is called, and the gateway waits for the next message.
abbrev update_taken : Clock Call
update_taken = record initialize_taken { time_now = 1000000000; pending = [] }

at_update-next : simulator.next at_update.sim ≡ some (handle_update (codes "8" ∷ []), update_taken)
unfolding take_next open_connection
at_update-next = refl

abbrev updated_world : World (Clock Call)
updated_world = schedule_wait simulator (taken simulator at_update update_taken)

update_runs :
    execute simulator (handle_update (codes "8" ∷ [])) [] (taken simulator at_update update_taken)
    ≡ ok updated_world
unfolding execute run_actions update is_time open_connection
update_runs = refl

abbrev at_end : System (Clock Call)
at_end = record at_update {
  world = updated_world;
  forwarded =
      at_update.forwarded
      ++ first_of_queue (handle_update (codes "8" ∷ [])) at_update.gateway.message_queue;
}

at_end-Reach : Reach simulator at_end
at_end-Reach = later at_update-Reach (
    event (handle_update (codes "8" ∷ [])) [] update_taken updated_world queued-idle (λ e. cc)
      at_update-next update_runs)

abbrev sent_messages : List Bytes
sent_messages = codes "5 0 7" ∷ codes "6 0 8" ∷ []

end-unbordered : unbordered at_end.gateway.delimiter_message ≡ true
unfolding unbordered run_thread find starts_with open_connection insert_event wait_update without
    has_uid
end-unbordered = refl

end-Lacks : Lacks at_end.gateway.delimiter_message sent_messages
unfolding find run_thread starts_with open_connection insert_event wait_update without has_uid
end-Lacks = (refl, (refl, tt))

end-rest : find at_end.gateway.delimiter_message [] ≡ none
unfolding find run_thread starts_with open_connection insert_event wait_update without has_uid
end-rest = refl

end-stream : at_end.stream ≡ framed at_end.gateway.delimiter_message sent_messages ++ []
unfolding find run_thread starts_with open_connection framed wait_update has_uid
end-stream = refl

end-thread :
    find at_end.gateway.delimiter_message (unread at_end.thread at_end.gateway.message_buffer)
    ≡ none
unfolding find run_thread starts_with open_connection wait_update has_uid
end-thread = refl

end-updates : updates (simulator.events at_end.sim) ≡ []
unfolding chosen insert_event schedule_wait
end-updates = refl

end-InOrder : InOrder (granted simulator at_end.gateway.delimiter_field sent_messages none)
unfolding granted run_thread find starts_with open_connection insert_event wait_update without
    has_uid split stoi stol ◌+ℤ◌ ◌-ℤ◌ timestamp read_header
end-InOrder = (tt, tt)

stream_handled_example :
    as_granted (handled simulator at_end-Reach)
    ≡ granted simulator at_end.gateway.delimiter_field sent_messages none
unfolding schedule_wait
stream_handled_example =
    stream_handled simulator at_end at_end-Reach sent_messages [] end-unbordered end-Lacks end-rest
      end-stream end-thread refl end-updates end-InOrder
