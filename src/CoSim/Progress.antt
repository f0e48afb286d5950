-- ===== src/CoSim/Progress.antt =====
-- The thread gets on: from the bytes that it holds to the messages in the queue.
use ns3_cosim.Common.{
  ◌+◌, ◌*◌, ◌≡◌, refl, sym, ap, subst, ◌∙◌, true, List, [], ◌∷◌, ◌++◌, append_assoc, append-nil,
  none, Bytes, arith, length, take-length-append,
}
use ns3_cosim.Text.{find}
use ns3_cosim.Text.Border.{unbordered, find-append}
use ns3_cosim.Protocol.Split.{Lacks, drop_past}
use ns3_cosim.Simulator.{Simulator}
use ns3_cosim.Gateway.{Call, is_connected, forward_up}
use ns3_cosim.CoSim.{
  System, searching, pushed, Recv, run_thread, thread_step, search_delimiter, push, schedule_call,
  loop_test,
}
use ns3_cosim.CoSim.Sound.{forwards, schedule-forwards}
use ns3_cosim.CoSim.Stream.{framed}
use ns3_cosim.CoSim.Delivery.{framed_head}
use ns3_cosim.CoSim.Exit.{at_thread}

module _ (S : Simulator Call) where
  open S use {Sim}

  -- Steps of the thread, with what ::recv would return in each.
  unfoldable pub run_all : List Recv → System Sim → System Sim
  run_all [] s = s
  run_all (r ∷ rs) s = run_all rs (run_thread S r s)

  -- The thread behind the push of `m`, where `rest` stands behind the delimiter.
  abbrev with_push : Bytes → Bytes → System Sim → System Sim
  with_push m rest s =
      let g = s.gateway in
      record s {
        world = record (s.world) {
          gateway = record g { message_buffer = rest; message_queue = g.message_queue ++ (m ∷ []) };
        };
        thread = pushed;
      }

  -- And at its next search.
  abbrev with_message : Bytes → Bytes → System Sim → System Sim
  with_message m rest s = record s {
    world = schedule_call S forward_up (with_push m rest s).world;
    thread = searching rest;
  }

  push_head :
      (m rest : Bytes) (s : System Sim)
      → push S (m ++ (s.gateway.delimiter_message ++ rest)) (length m) s ≡ with_push m rest s
  unfolding push
  push_head m rest s =
      rw
        (
          drop_past m s.gateway.delimiter_message rest,
          take-length-append m (s.gateway.delimiter_message ++ rest),
        )
        refl

  push_step :
      (m rest : Bytes) (r : Recv) (s : System Sim)
      → unbordered s.gateway.delimiter_message ≡ true
      → find s.gateway.delimiter_message m ≡ none
      → s.thread ≡ searching (m ++ (s.gateway.delimiter_message ++ rest))
      → run_thread S r s ≡ with_push m rest s
  unfolding thread_step search_delimiter
  push_step m rest r s b l e =
      at_thread S r s (searching (m ++ (s.gateway.delimiter_message ++ rest))) e
      ∙ ap (λ o. search_delimiter S o r (m ++ (s.gateway.delimiter_message ++ rest)) s)
          (find-append s.gateway.delimiter_message m rest b l)
      ∙ push_head m rest s

  message_steps :
      (m rest : Bytes) (q r t : Recv) (s : System Sim)
      → unbordered s.gateway.delimiter_message ≡ true
      → find s.gateway.delimiter_message m ≡ none
      → is_connected s.gateway.state ≡ true
      → s.thread ≡ searching (m ++ (s.gateway.delimiter_message ++ rest))
      → run_thread S t (run_thread S r (run_thread S q s)) ≡ with_message m rest s
  unfolding run_thread thread_step loop_test schedule_call
  message_steps m rest q r t s b l c e =
      ap (λ v. run_thread S t (run_thread S r v)) (push_step m rest q s b l e) ∙ rw c refl

  -- `ms` were queued, with a call of ForwardUp for each, and the thread searches `rest`.
  abbrev pub IsDelivered : List Bytes → Bytes → System Sim → System Sim → Type 0
  IsDelivered ms rest s s' =
      (s'.thread ≡ searching rest)
      × (s'.gateway.message_queue ≡ s.gateway.message_queue ++ ms)
      × (forwards S s'.sim ≡ forwards S s.sim + length ms)

  -- The thread cuts the messages `ms` off the bytes that it holds, queues them in order and schedules one
  -- call of ForwardUp for each, in three steps for each message and whatever ::recv would return; and
  -- then it is back at its search, with the bytes behind them. The gateway is connected, the message
  -- delimiter is unbordered and no message holds it.
  pub thread_delivers :
      (s : System Sim) (ms : List Bytes) (rest : Bytes) (rs : List Recv)
      → unbordered s.gateway.delimiter_message ≡ true
      → Lacks s.gateway.delimiter_message ms
      → is_connected s.gateway.state ≡ true
      → s.thread ≡ searching (framed s.gateway.delimiter_message ms ++ rest)
      → length rs ≡ 3 * length ms
      → IsDelivered ms rest s (run_all rs s)
  unfolding run_all framed schedule_call
  thread_delivers s [] rest [] b l c e n =
      (e, sym (append-nil s.gateway.message_queue), omega arith)
  thread_delivers s [] rest (r ∷ rs) b l c e n = absurd (omega (arith, n))
  thread_delivers s (m ∷ ms) rest [] b l c e n = absurd (omega (arith, n))
  thread_delivers s (m ∷ ms) rest (q ∷ []) b l c e n = absurd (omega (arith, n))
  thread_delivers s (m ∷ ms) rest (q ∷ r ∷ []) b l c e n = absurd (omega (arith, n))
  thread_delivers s (m ∷ ms) rest (q ∷ r ∷ t ∷ rs) b l c e n =
      let d = s.gateway.delimiter_message in
      let left = framed d ms ++ rest in
      let v = with_message m left s in
      let steps =
        message_steps m left q r t s b l.0 c (e ∙ ap searching (framed_head d m ms rest)) in
      let (at_rest, queue, calls) = thread_delivers v ms rest rs b l.1 c refl (omega (arith, n)) in
      let one = schedule-forwards S (with_push m left s).sim 0 forward_up in
      subst (λ w. IsDelivered (m ∷ ms) rest s (run_all rs w)) (sym steps)
        (
          at_rest,
          queue ∙ append_assoc s.gateway.message_queue (m ∷ []) ms,
          omega (arith, calls, one),
        )
