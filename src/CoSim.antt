-- ===== src/CoSim.antt =====
-- Gateway::RunThread of model/gateway.cc, and the program as two threads over one `World`: the main
-- thread, which runs the events of the simulator, and the thread that Gateway::Connect starts. Every
-- interleaving of their steps is a path of `Reach`.
pub mod Sound
pub mod Held
pub mod Client
pub mod Main
pub mod Forward
pub mod Execute
pub mod Stream
pub mod Stop
pub mod Receive
pub mod Start
pub mod Invariant
pub mod Safety
pub mod Delivery
pub mod Updates
pub mod Quiet
pub mod Order
pub mod Exit
pub mod Progress
pub mod Contract
pub mod Tests
use ns3_cosim.Common.{
  ℕ, zero, suc, ◌+◌, ◌<◌, ◌≡◌, ◌≢◌, refl, Bool, true, false, List, [], ◌∷◌, ◌++◌, Option, none,
  some, Bytes, if◌then◌else◌, length, take, drop, All, codes,
}
use ns3_cosim.Text.{find}
use ns3_cosim.Simulator.{Simulator, Event}
use ns3_cosim.Simulator.Queue.{Ordered}
use ns3_cosim.Gateway.{
  State, created, connected, Outcome, ok, Call, stop, forward_up, model, Gateway, World, is_empty,
  is_connected, is_negative, Network, Action, first_of_queue, is_model,
}
use ns3_cosim.Gateway.Handlers.{connect, stop_begin, stop_end, execute}

-- What ::recv returns: the bytes received, none of them when the server has closed the connection,
-- or an error.
pub data Recv : Type 0 where
  received : Bytes → Recv
  failed : Recv

-- Where the thread stands: at the test of the outer loop, at the test of the inner loop with
-- `receivedData`, between the push to the queue and the call of ScheduleWithContext, or behind the
-- loop, with what it drops.
pub data Thread : Type 0 where
  top : Thread
  searching : Bytes → Thread
  pushed : Thread
  exited : Bytes → Thread

-- `joining` is the local variable `connected` of Gateway::Stop while the main thread stands in it
-- at m_thread.join(). The last two fields are not in the program: all bytes that ::recv returned,
-- and the messages that Gateway::ForwardUp took from the queue.
pub record System (Sim : Type 0) : Type 0 where
  pub world : World Sim
  pub open world use {gateway, sim}
  pub thread : Thread
  pub joining : Option Bool
  pub stream : Bytes
  pub forwarded : List Bytes

module _ (S : Simulator Call) where
  open S use {Sim, schedule, next}

  pub schedule_call : Call → World Sim → World Sim
  schedule_call c w = record w { sim = (schedule w.sim 0 c).0 }

  -- The branches on bytesReceived.
  pub receive : Recv → Bytes → System Sim → System Sim
  unfolding schedule_call
  receive failed unread s = record s { world = schedule_call stop s.world; thread = exited unread }
  receive (received []) unread s = record s {
    world = schedule_call stop s.world;
    thread = exited unread;
  }
  receive (received (b ∷ bs)) unread s = record s {
    thread = searching (unread ++ (b ∷ bs));
    stream = s.stream ++ (b ∷ bs);
  }

  pub push : Bytes → ℕ → System Sim → System Sim
  push unread i s =
      let g = s.gateway in
      record s {
        world = record (s.world) {
          gateway = record g {
            message_buffer = drop (i + length g.delimiter_message) unread;
            message_queue = g.message_queue ++ (take i unread ∷ []);
          };
        };
        thread = pushed;
      }

  pub search_delimiter : Option ℕ → Recv → Bytes → System Sim → System Sim
  unfolding receive push
  search_delimiter none r unread s = receive r unread s
  search_delimiter (some i) r unread s = push unread i s

  pub loop_test : System Sim → System Sim
  loop_test s = record s {
    thread =
        if is_connected s.gateway.state
        then searching s.gateway.message_buffer
        else exited s.gateway.message_buffer;
  }

  pub thread_step : Thread → Recv → System Sim → System Sim
  unfolding search_delimiter loop_test schedule_call
  thread_step top r s = loop_test s
  thread_step (searching unread) r s =
      search_delimiter (find s.gateway.delimiter_message unread) r unread s
  thread_step pushed r s = record s { world = schedule_call forward_up s.world; thread = top }
  thread_step (exited unread) r s = s

  -- One step of Gateway::RunThread. `r` is used where the step calls ::recv.
  unfoldable pub run_thread : Recv → System Sim → System Sim
  unfolding thread_step
  run_thread r s = thread_step s.thread r s

  -- The world in which the function of an event begins: the simulator has taken the event.
  abbrev pub taken : System Sim → Sim → World Sim
  taken s sim = record (s.world) { sim = sim }

  -- The main thread runs an event that is no call of Stop, begins Stop (as an event, or from
  -- Simulator::Destroy) or ends it. It waits in join until the thread has left its loop.
  pub data Step (s : System Sim) : System Sim → Type 0 where
    thread : (r : Recv) → Step s (run_thread r s)
    event :
        (c : Call) (actions : List Action) (sim : Sim) (w : World Sim)
        → s.joining ≡ none
        → c ≢ stop
        → next s.sim ≡ some (c, sim)
        → execute S c actions (taken s sim) ≡ ok w
        → Step s (record s {
          world = w;
          forwarded = s.forwarded ++ first_of_queue c s.gateway.message_queue;
        })
    stop_event :
        (sim : Sim)
        → s.joining ≡ none
        → next s.sim ≡ some (stop, sim)
        → Step s (record s {
          world = stop_begin S (taken s sim);
          joining = some (is_connected s.gateway.state);
        })
    destroy :
        s.joining ≡ none
        → Step s (record s {
          world = stop_begin S s.world;
          joining = some (is_connected s.gateway.state);
        })
    joined :
        (was_connected : Bool)
        → s.joining ≡ some was_connected
        → (was_connected ≡ true → (unread : Bytes) × (s.thread ≡ exited unread))
        → Step s (record s { world = stop_end S was_connected s.world; joining = none })

  -- A constructed gateway before Connect, in a simulation without events of it.
  pub record IsFresh (w : World Sim) : Type 0 where
    pub is_created : w.gateway.state ≡ created
    pub no_start : is_negative w.gateway.time_start ≡ true
    pub no_messages : w.gateway.message_queue ≡ []
    pub no_buffer : w.gateway.message_buffer ≡ []
    pub has_field : w.gateway.delimiter_field ≢ []
    pub has_message : w.gateway.delimiter_message ≢ []
    pub ordered : Ordered (S.now w.sim) (S.events w.sim)
    pub issued : All (λ (e : Event Call). e.uid < S.issued w.sim) (S.events w.sim)
    pub only_model : All (λ (e : Event Call). is_model e.call ≡ true) (S.events w.sim)

  -- The state in which Connect returns.
  abbrev pub initial : World Sim → System Sim
  initial w = record { world = w; thread = top; joining = none; stream = []; forwarded = [] }

  pub data Reach : System Sim → Type 0 where
    start :
        (net : Network) (w w' : World Sim)
        → IsFresh w
        → connect S net w ≡ ok w'
        → Reach (initial w')
    later : {s t : System Sim} → Reach s → Step s t → Reach t
