-- ===== src/Gateway/Initial.antt =====
-- What ForwardUp does with the first message.
use ns3_cosim.Common.{ℕ, ◌<◌, ◌≡◌, refl, true, false, ◌||◌, List, arith, ◌==◌, Bytes, Any, ℤ}
use ns3_cosim.Simulator.{Simulator, has_uid}
use ns3_cosim.Simulator.Queue.{Any-insert_event_self, has_uid-insert_event}
use ns3_cosim.Gateway.{Call, World, ok, do_initialize, is_negative}
use ns3_cosim.Gateway.Handlers.{process}

module _ (S : Simulator Call) where
  open S use {Sim, now, events, schedule, issued}

  module _ (t : ℤ) (values : List Bytes) (w : World Sim) where
    first : World Sim
    first = record w {
      gateway = record (w.gateway) { time_start = t };
      sim = (schedule w.sim 0 (do_initialize values)).0;
    }

    processed_first :
        is_negative t ≡ false
        → is_negative w.gateway.time_start ≡ true
        → process S t values w ≡ ok first
    unfolding process first
    processed_first a b = rw (a, b)

    same_pending :
        w.gateway.event_wait < issued w.sim
        → has_uid w.gateway.event_wait (events first.sim)
          ≡ has_uid w.gateway.event_wait (events w.sim)
    unfolding first
    same_pending fresh =
        let (low, high) = S.schedule-uid w.sim 0 (do_initialize values) in
        rw (S.schedule-events w.sim 0 (do_initialize values), has_uid-insert_event)
          (other _ (omega (arith, fresh)))
      where
        other :
            (u : ℕ)
            → w.gateway.event_wait < u
            → (u == w.gateway.event_wait || has_uid w.gateway.event_wait (events w.sim))
              ≡ has_uid w.gateway.event_wait (events w.sim)
        other u l = ground arith

    -- The first message, with a timestamp that is not negative, sets the reference time and lets
    -- DoInitialize run at the current time with the message's values; unlike a later message it leaves
    -- the event of m_eventWait pending where it was, and m_timePause as it was.
    pub process_first :
        is_negative t ≡ false
        → is_negative w.gateway.time_start ≡ true
        → w.gateway.event_wait < issued w.sim
        → (w' : World Sim) × (process S t values w ≡ ok w')
          × (w'.gateway ≡ record (w.gateway) { time_start = t })
          × (now w'.sim ≡ now w.sim)
          × Any (λ e. (e.call ≡ do_initialize values) × (e.time ≡ now w.sim)) (events w'.sim)
          × (has_uid w.gateway.event_wait (events w'.sim)
              ≡ has_uid w.gateway.event_wait (events w.sim))
    unfolding first
    process_first a b fresh = (
      first,
      processed_first a b,
      refl,
      S.schedule-now w.sim 0 (do_initialize values),
      rw (S.schedule-events w.sim 0 (do_initialize values)) (
          Any-insert_event_self (λ e. (e.call ≡ do_initialize values) × (e.time ≡ now w.sim)) _
            (events w.sim) (refl, omega arith)),
      same_pending fresh,
    )
