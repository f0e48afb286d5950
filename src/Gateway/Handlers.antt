-- ===== src/Gateway/Handlers.antt =====
-- model/gateway.cc: the constructor, Connect, Stop, WaitForNextUpdate, ForwardUp and HandleUpdate, and
-- `execute`, which is the simulator's call of the function of an event.
use ns3_cosim.Common.{
  ℕ, Bool, true, false, not, List, [], ◌∷◌, ◌++◌, Option, some, Bytes, if◌then◌else◌, replicate, ℤ,
  pos, negsuc, pos_part, ◌+ℤ◌, ◌-ℤ◌,
}
use ns3_cosim.Text.{find}
use ns3_cosim.Text.Number.{stoi, stol}
use ns3_cosim.Protocol.{split}
use ns3_cosim.Simulator.{Simulator}
use ns3_cosim.Gateway.{
  created, connected, stopping, empty_delimiter_field, empty_delimiter_message,
  delimiter_message_in_field, connect_twice, socket_failed, address_failed, connection_failed,
  no_queued_messages, invalid_header, time_not_increasing, out_of_fuel, Outcome, ok, fatal, ◌>>=◌,
  ◌>>◌, refuse, Call, stop, wait_for_next_update, forward_up, do_initialize, handle_update, model,
  Gateway, World, is_empty, is_found, is_created, is_connected, is_stopping, is_negative,
  is_positive, is_time, Network, or_fatal, set_value, send_response, Action, sets, sends, schedules,
  stops,
}

module _ (S : Simulator Call) where
  open S use {Sim, now, schedule, schedule_destroy, cancel, is_pending}

  -- The constructor of Gateway.
  unfoldable pub new : ℕ → Bytes → Bytes → Outcome Gateway
  new data_size delimiter_field delimiter_message = do
    refuse (is_empty delimiter_field) empty_delimiter_field
    refuse (is_empty delimiter_message) empty_delimiter_message
    refuse (is_found (find delimiter_message delimiter_field)) delimiter_message_in_field
    ok (record {
      event_wait = 0;
      event_destroy = 0;
      state = created;
      time_start = S.seconds (negsuc 0);
      time_pause = S.seconds (pos 0);
      socket = pos 0;
      socket_open = false;
      joinable = false;
      message_queue = [];
      delimiter_field = delimiter_field;
      delimiter_message = delimiter_message;
      message_buffer = [];
      values = replicate data_size [];
    })

  -- `m_eventWait = Simulator::ScheduleNow(&Gateway::WaitForNextUpdate, this)`
  unfoldable pub schedule_wait : World Sim → World Sim
  schedule_wait w =
      let (s, u) = schedule w.sim 0 wait_for_next_update in
      record w { gateway = record (w.gateway) { event_wait = u }; sim = s }

  -- `if (e.IsPending()) e.Cancel();`
  unfoldable pub cancel_pending : ℕ → World Sim → World Sim
  cancel_pending u w = if is_pending w.sim u then record w { sim = cancel w.sim u } else w

  unfoldable pub open_connection : ℤ → World Sim → World Sim
  unfolding schedule_wait
  open_connection socket w =
      let (s, u) = schedule_destroy w.sim stop in
      schedule_wait (record w {
        gateway = record (w.gateway) {
          socket = socket;
          socket_open = true;
          state = connected;
          event_destroy = u;
          joinable = true;
        };
        sim = s;
      })

  -- Gateway::Connect. The thread that it starts is in the module CoSim.
  unfoldable pub connect : Network → World Sim → Outcome (World Sim)
  unfolding open_connection
  connect net w = do
    refuse (not (is_created w.gateway.state)) connect_twice
    refuse (is_negative net.socket_result) socket_failed
    refuse (not (is_positive net.pton_result)) address_failed
    refuse (is_negative net.connect_result) connection_failed
    ok (open_connection net.socket_result w)

  -- Gateway::Stop, up to the call of m_thread.join().
  unfoldable pub stop_begin : World Sim → World Sim
  stop_begin w = record w { gateway = record (w.gateway) { state = stopping } }

  -- The rest of it; `was_connected` is the local variable `connected`.
  unfoldable pub stop_end : Bool → World Sim → World Sim
  unfolding cancel_pending
  stop_end was_connected w =
      let closed = record w {
        gateway = record (w.gateway) { joinable = false; socket_open = false };
      } in
      let w1 = if was_connected then closed else w in
      let w2 = cancel_pending w1.gateway.event_wait w1 in cancel_pending w2.gateway.event_destroy w2

  unfoldable pub stop_gateway : World Sim → World Sim
  unfolding stop_begin stop_end
  stop_gateway w = stop_end (is_connected w.gateway.state) (stop_begin w)

  -- Gateway::WaitForNextUpdate
  unfoldable pub wait_update : World Sim → World Sim
  unfolding schedule_wait cancel_pending
  wait_update w =
      if is_stopping w.gateway.state
      then w
      else schedule_wait (cancel_pending w.gateway.event_wait w)

  unfoldable pub timestamp : Option ℤ → Option ℤ → Outcome ℤ
  timestamp (some seconds) (some nanoseconds) = ok (S.seconds seconds +ℤ S.nano_seconds nanoseconds)
  timestamp _ _ = fatal invalid_header

  -- The timestamp header and the values behind it; `at` throws where one of the two is missing.
  unfoldable pub read_header : List Bytes → Outcome (ℤ × List Bytes)
  unfolding timestamp
  read_header [] = fatal invalid_header
  read_header (seconds ∷ []) = fatal invalid_header
  read_header (seconds ∷ nanoseconds ∷ values) = do
    t ← timestamp (stoi seconds) (stol nanoseconds)
    ok (t, values)

  unfoldable pub advance : ℤ → ℤ → List Bytes → World Sim → Outcome (World Sim)
  advance pause delta values w =
      if is_negative delta
      then fatal time_not_increasing
      else ok (record w {
        gateway = record (w.gateway) { time_pause = pause };
        sim = (schedule w.sim (pos_part delta) (handle_update values)).0;
      })

  -- The part of Gateway::ForwardUp that depends on the timestamp.
  unfoldable pub process : ℤ → List Bytes → World Sim → Outcome (World Sim)
  unfolding cancel_pending advance
  process t values w =
      let updated =
        let w1 = cancel_pending w.gateway.event_wait w in
        let pause = t -ℤ w1.gateway.time_start in
        advance pause (pause -ℤ pos (now w1.sim)) values w1 in
      if is_negative t
      then ok (record w { sim = S.stop w.sim })
      else if is_negative w.gateway.time_start
      then ok (record w {
        gateway = record (w.gateway) { time_start = t };
        sim = (schedule w.sim 0 (do_initialize values)).0;
      })
      else updated

  unfoldable pub forward_next : List Bytes → World Sim → Outcome (World Sim)
  unfolding process read_header
  forward_next [] w = fatal no_queued_messages
  forward_next (message ∷ queue) w = do
    values ← or_fatal (split w.gateway.delimiter_field message) out_of_fuel
    header ← read_header values
    process header.0 header.1 (record w { gateway = record (w.gateway) { message_queue = queue } })

  -- Gateway::ForwardUp
  unfoldable pub forward : World Sim → Outcome (World Sim)
  unfolding forward_next
  forward w = forward_next w.gateway.message_queue w

  unfoldable pub act : Action → World Sim → Outcome (World Sim)
  act (sets index value) w = do g ← set_value index value w.gateway; ok (record w { gateway = g })
  act sends w = do
    message ← send_response w.gateway
    ok (record w { sent = w.sent ++ (message ∷ []) })
  act (schedules delay n) w = ok (record w { sim = (schedule w.sim delay (model n)).0 })
  act stops w = ok (record w { sim = S.stop w.sim })

  -- The body of DoInitialize, DoUpdate or another event, as the list of what it does.
  unfoldable pub run_actions : List Action → World Sim → Outcome (World Sim)
  unfolding act
  run_actions [] w = ok w
  run_actions (a ∷ as') w = do w' ← act a w; run_actions as' w'

  -- Gateway::HandleUpdate, with the actions of DoUpdate.
  unfoldable pub update : List Action → World Sim → Outcome (World Sim)
  unfolding schedule_wait
  update actions w =
      run_actions actions (if is_time w.gateway.time_pause (now w.sim) then schedule_wait w else w)

  -- The event that the simulator runs. A pure virtual function is the actions of the derived class.
  unfoldable pub execute : Call → List Action → World Sim → Outcome (World Sim)
  unfolding stop_gateway wait_update forward update
  execute stop actions w = ok (stop_gateway w)
  execute wait_for_next_update actions w = ok (wait_update w)
  execute forward_up actions w = forward w
  execute (do_initialize values) actions w = run_actions actions w
  execute (handle_update values) actions w = update actions w
  execute (model n) actions w = run_actions actions w
