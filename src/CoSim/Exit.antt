-- ===== src/CoSim/Exit.antt =====
-- The end of the thread that Gateway::Stop waits for.
use ns3_cosim.Common.{
  ℕ, ◌≡◌, refl, sym, ap, subst, ◌∙◌, Bool, true, false, [], ◌∷◌, Option, none, some, Bytes,
  if◌then◌else◌,
}
use ns3_cosim.Text.{find}
use ns3_cosim.Simulator.{Simulator}
use ns3_cosim.Gateway.{Call, is_connected}
use ns3_cosim.CoSim.{
  System, Thread, top, searching, pushed, exited, Recv, received, failed, run_thread, thread_step,
  search_delimiter,
}

-- ::recv reports a closed connection or an error.
abbrev pub is_gone : Recv → Bool
is_gone failed = true
is_gone (received []) = true
is_gone (received (b ∷ bs)) = false

module _ (S : Simulator Call) where
  open S use {Sim}

  abbrev HasExited : System Sim → Type 0
  HasExited s = (unread : Bytes) × (s.thread ≡ exited unread)

  pub at_thread :
      (r : Recv) (s : System Sim) (t : Thread)
      → s.thread ≡ t
      → run_thread S r s ≡ thread_step S t r s
  unfolding run_thread
  at_thread r s t e = ap (λ t. thread_step S t r s) e

  exited_stays : (r : Recv) (s : System Sim) → HasExited s → HasExited (run_thread S r s)
  unfolding run_thread
  exited_stays r s (unread, e) = (unread, ap (λ s. s.thread) (at_thread r s (exited unread) e) ∙ e)

  top_exits :
      (r : Recv) (s : System Sim)
      → is_connected s.gateway.state ≡ false
      → s.thread ≡ top
      → HasExited (run_thread S r s)
  unfolding run_thread
  top_exits r s c e = (
    s.gateway.message_buffer,
    ap (λ s. s.thread) (at_thread r s top e)
        ∙ ap
            (λ b. if b then searching s.gateway.message_buffer else exited s.gateway.message_buffer)
            c,
  )

  pushed_exits :
      (r : Recv) (s : System Sim)
      → is_connected s.gateway.state ≡ false
      → s.thread ≡ pushed
      → HasExited (run_thread S r (run_thread S r s))
  unfolding run_thread
  pushed_exits r s c e =
      subst (λ v. HasExited (run_thread S r v)) (sym (at_thread r s pushed e))
        (top_exits r (thread_step S pushed r s) c refl)

  searching_exits :
      (r : Recv) (s : System Sim) (unread : Bytes)
      → is_connected s.gateway.state ≡ false
      → is_gone r ≡ true
      → s.thread ≡ searching unread
      → HasExited (run_thread S r (run_thread S r (run_thread S r s)))
  unfolding run_thread
  searching_exits r s unread c g e =
      subst (λ v. HasExited (run_thread S r (run_thread S r v)))
        (sym (at_thread r s (searching unread) e))
        (after (find s.gateway.delimiter_message unread) r g)
    where
      after :
          (o : Option ℕ) (q : Recv)
          → is_gone q ≡ true
          → HasExited (run_thread S r (run_thread S r (search_delimiter S o q unread s)))
      after none failed h =
          let v = search_delimiter S none failed unread s in
          exited_stays r (run_thread S r v) (exited_stays r v (unread, refl))
      after none (received []) h =
          let v = search_delimiter S none (received []) unread s in
          exited_stays r (run_thread S r v) (exited_stays r v (unread, refl))
      after none (received (b ∷ bs)) h = cc
      after (some i) q h = pushed_exits r (search_delimiter S (some i) q unread s) c refl

  -- Once Gateway::Stop has changed the state, the thread leaves its loop within three of its steps if
  -- ::recv reports that the connection is closed or broken where the thread asks, wherever the thread
  -- stands: so that the join of Stop ends.
  pub thread_exits :
      (r : Recv) (s : System Sim)
      → is_connected s.gateway.state ≡ false
      → is_gone r ≡ true
      → (unread : Bytes) × ((run_thread S r (run_thread S r (run_thread S r s))).thread
          ≡ exited unread)
  thread_exits r s c g = from s.thread refl
    where
      from :
          (t : Thread)
          → s.thread ≡ t
          → HasExited (run_thread S r (run_thread S r (run_thread S r s)))
      from top e = exited_stays r _ (exited_stays r _ (top_exits r s c e))
      from (searching unread) e = searching_exits r s unread c g e
      from pushed e = exited_stays r _ (pushed_exits r s c e)
      from (exited unread) e = exited_stays r _ (exited_stays r _ (exited_stays r s (unread, e)))
