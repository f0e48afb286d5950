-- ===== src/CoSim/Quiet/Thread.antt =====
-- The steps of the thread leave the pending calls of HandleUpdate and DoInitialize alone.
use ns3_cosim.Common.{arith, ℕ, ◌≡◌, refl, ap, ◌∙◌, [], ◌∷◌, Option, none, some, Bytes}
use ns3_cosim.Text.{find}
use ns3_cosim.Simulator.{Simulator}
use ns3_cosim.Gateway.{Call, World, stop, forward_up}
use ns3_cosim.CoSim.{
  System, Thread, top, searching, pushed, exited, Recv, received, failed, schedule_call, receive,
  push, search_delimiter, loop_test, thread_step, run_thread,
}
use ns3_cosim.CoSim.Updates.{Choice, IsForwardOnly, chosen, chosen-insert_other}
use ns3_cosim.CoSim.Quiet.{IsQuiet, IsQuiet-refl}

module _ (S : Simulator Call) where
  open S use {Sim, now, events, schedule, cancel, is_pending}

  schedule_call-IsQuiet :
      (c : Call) (w : World Sim)
      → ((choice : Choice) → IsForwardOnly choice → choice c ≡ none)
      → IsQuiet S w (schedule_call S c w)
  unfolding schedule_call
  schedule_call-IsQuiet c w h = record {
    same_calls = λ d f.
        ap (chosen d) (S.schedule-events w.sim 0 c)
        ∙ chosen-insert_other d _ (events w.sim) (h d f);
    later_time = omega (arith, S.schedule-now w.sim 0 c);
    same_start = refl;
    same_field = refl;
  }

  push-IsQuiet :
      (unread : Bytes) (i : ℕ) (s : System Sim) → IsQuiet S s.world (push S unread i s).world
  unfolding push
  push-IsQuiet unread i s = record {
    same_calls = λ c f. refl;
    later_time = omega arith;
    same_start = refl;
    same_field = refl;
  }

  search-IsQuiet :
      (o : Option ℕ) (r : Recv) (unread : Bytes) (s : System Sim)
      → IsQuiet S s.world (search_delimiter S o r unread s).world
  unfolding search_delimiter receive
  search-IsQuiet (some i) r unread s = push-IsQuiet unread i s
  search-IsQuiet none failed unread s = schedule_call-IsQuiet stop s.world (λ c f. f.no_stop)
  search-IsQuiet none (received []) unread s = schedule_call-IsQuiet stop s.world (λ c f. f.no_stop)
  search-IsQuiet none (received (b ∷ bs)) unread s = IsQuiet-refl S s.world

  step-IsQuiet :
      (t : Thread) (r : Recv) (s : System Sim) → IsQuiet S s.world (thread_step S t r s).world
  unfolding thread_step loop_test
  step-IsQuiet top r s = IsQuiet-refl S s.world
  step-IsQuiet (searching unread) r s =
      search-IsQuiet (find s.gateway.delimiter_message unread) r unread s
  step-IsQuiet pushed r s = schedule_call-IsQuiet forward_up s.world (λ c f. f.no_forward)
  step-IsQuiet (exited unread) r s = IsQuiet-refl S s.world

  pub run_thread-IsQuiet : (r : Recv) (s : System Sim) → IsQuiet S s.world (run_thread S r s).world
  unfolding run_thread
  run_thread-IsQuiet r s = step-IsQuiet s.thread r s

  forwarded_search :
      (o : Option ℕ) (r : Recv) (unread : Bytes) (s : System Sim)
      → (search_delimiter S o r unread s).forwarded ≡ s.forwarded
  unfolding search_delimiter receive push
  forwarded_search (some i) r unread s = refl
  forwarded_search none failed unread s = refl
  forwarded_search none (received []) unread s = refl
  forwarded_search none (received (b ∷ bs)) unread s = refl

  forwarded_step :
      (t : Thread) (r : Recv) (s : System Sim) → (thread_step S t r s).forwarded ≡ s.forwarded
  unfolding thread_step loop_test
  forwarded_step top r s = refl
  forwarded_step (searching unread) r s =
      forwarded_search (find s.gateway.delimiter_message unread) r unread s
  forwarded_step pushed r s = refl
  forwarded_step (exited unread) r s = refl

  pub run_thread-forwarded :
      (r : Recv) (s : System Sim) → (run_thread S r s).forwarded ≡ s.forwarded
  unfolding run_thread
  run_thread-forwarded r s = forwarded_step s.thread r s
