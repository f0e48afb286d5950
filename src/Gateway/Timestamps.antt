-- ===== src/Gateway/Timestamps.antt =====
-- What ForwardUp does with a timestamp: when it lets the simulation go on, and to what time.
use ns3_cosim.Common.{
  ℕ, ◌-◌, ◌<◌, ◌≡◌, refl, sym, subst, ◌∙◌, inl, inr, Bool, true, false, ◌||◌, List, ◌∷◌, some,
  arith, Bool-cases, ℤ, pos, negsuc, ◌+ℤ◌, ◌-ℤ◌, ◌≤ℤ◌, ◌<ℤ◌, delay_reaches, Bytes, Any, ◌==◌,
}
use ns3_cosim.Text.Number.{stoi, stol}
use ns3_cosim.Protocol.{split}
use ns3_cosim.Simulator.{Simulator, has_uid}
use ns3_cosim.Simulator.Queue.{Any-insert_event_self, has_uid-without, has_uid-insert_event}
use ns3_cosim.Gateway.{Call, World, ok, fatal, time_not_increasing, handle_update, is_negative}
use ns3_cosim.Gateway.Handlers.{
  process, advance, cancel_pending, forward, forward_next, read_header, timestamp,
}

-- A difference of times is negative where the first one is the earlier one.
sub-negative : (p q : ℤ) → p <ℤ q → is_negative (p -ℤ q) ≡ true
unfolding ◌-ℤ◌
sub-negative p q h = ground arith

or-left : (a b : Bool) → (a || b) ≡ false → a ≡ false
or-left a b h = ground arith

sub-pos : (p : ℤ) (now : ℕ) → pos now ≤ℤ p → (d : ℕ) × (p -ℤ pos now ≡ pos d)
unfolding ◌-ℤ◌
sub-pos (pos p) now h = (p - now, ground arith)
sub-pos (negsuc p) now h = absurd (omega arith)

module _ (S : Simulator Call) where
  open S use {Sim, now, events, schedule, is_pending, cancel, issued}

  -- The time, relative to the first timestamp, to which an update is to be simulated.
  abbrev pub target : ℤ → World Sim → ℤ
  target t w = t -ℤ w.gateway.time_start

  module _ (t : ℤ) (values : List Bytes) (w : World Sim) where
    cancelled : World Sim
    unfolding cancel_pending
    cancelled = cancel_pending S w.gateway.event_wait w

    cancelled-gateway : cancelled.gateway ≡ w.gateway
    unfolding cancelled
    cancelled-gateway = ground arith

    cancelled-now : now cancelled.sim ≡ now w.sim
    unfolding cancelled
    cancelled-now = elim (Bool-cases (is_pending w.sim w.gateway.event_wait)) [
      | inl e ↦ rw e (S.cancel-now w.sim w.gateway.event_wait)
      | inr e ↦ rw e refl
    ]

    cancelled-pending : has_uid w.gateway.event_wait (events cancelled.sim) ≡ false
    unfolding cancelled
    cancelled-pending = elim (Bool-cases (is_pending w.sim w.gateway.event_wait)) [
      | inl e ↦
          rw (e, S.cancel-events w.sim w.gateway.event_wait)
            (has_uid-without w.gateway.event_wait (events w.sim))
      | inr e ↦ rw e (
          or-left (has_uid w.gateway.event_wait (events w.sim)) _
            (sym (S.is_pending_lem w.sim w.gateway.event_wait) ∙ e))
    ]

    cancelled-issued : issued cancelled.sim ≡ issued w.sim
    unfolding cancelled
    cancelled-issued = elim (Bool-cases (is_pending w.sim w.gateway.event_wait)) [
      | inl e ↦ rw e (S.cancel-issued w.sim w.gateway.event_wait)
      | inr e ↦ rw e refl
    ]

    normal :
        is_negative t ≡ false
        → is_negative w.gateway.time_start ≡ false
        → process S t values w
          ≡ advance S (target t w) (target t w -ℤ pos (now w.sim)) values cancelled
    unfolding process cancelled
    normal a b = elim (Bool-cases (is_pending w.sim w.gateway.event_wait)) [
      | inl e ↦ rw (a, b, e, S.cancel-now w.sim w.gateway.event_wait)
      | inr e ↦ rw (a, b, e)
    ]

    advanced : ℕ → World Sim
    advanced d = record cancelled {
      gateway = record (cancelled.gateway) { time_pause = target t w };
      sim = (schedule cancelled.sim d (handle_update values)).0;
    }

    advance_by :
        (d : ℕ) (delta : ℤ)
        → delta ≡ pos d
        → advance S (target t w) delta values cancelled ≡ ok (advanced d)
    unfolding advance advanced
    advance_by d delta e = rw e

    advance_back :
        (delta : ℤ)
        → is_negative delta ≡ true
        → advance S (target t w) delta values cancelled ≡ fatal time_not_increasing
    unfolding advance
    advance_back delta e = rw e

    -- The update is pending at the target, and m_eventWait no longer holds the time.
    pub record IsGranted (w' : World Sim) : Type 0 where
      pub pause : w'.gateway.time_pause ≡ target t w
      pub same_now : now w'.sim ≡ now w.sim
      pub due :
          Any (λ e. (e.call ≡ handle_update values) × (pos e.time ≡ target t w)) (events w'.sim)
      pub no_wait : has_uid w.gateway.event_wait (events w'.sim) ≡ false

    advanced-IsGranted :
        (d : ℕ)
        → w.gateway.event_wait < issued w.sim
        → target t w -ℤ pos (now w.sim) ≡ pos d
        → IsGranted (advanced d)
    unfolding advanced
    advanced-IsGranted d fresh e =
        let (low, high) = S.schedule-uid cancelled.sim d (handle_update values) in
        let q = S.schedule-events cancelled.sim d (handle_update values) in
        record {
          pause = refl;
          same_now = S.schedule-now cancelled.sim d (handle_update values) ∙ cancelled-now;
          due = rw q (
              Any-insert_event_self
                (λ f. (f.call ≡ handle_update values) × (pos f.time ≡ target t w)) _ _
                (refl, rw cancelled-now (sym (delay_reaches (target t w) (now w.sim) d e))));
          no_wait = rw (q, has_uid-insert_event) (other _ (omega (arith, cancelled-issued)));
        }
      where
        other :
            (u : ℕ)
            → w.gateway.event_wait < u
            → (u == w.gateway.event_wait || has_uid w.gateway.event_wait (events cancelled.sim))
              ≡ false
        other u l = ground (arith, cancelled-pending)

    -- An update that is not in the past of the simulation is granted: after ForwardUp the call of
    -- HandleUpdate is pending at the timestamp less the first timestamp, m_timePause is that time,
    -- the clock stands still, and the event of m_eventWait is no longer pending.
    pub process_grants :
        is_negative t ≡ false
        → is_negative w.gateway.time_start ≡ false
        → w.gateway.event_wait < issued w.sim
        → pos (now w.sim) ≤ℤ target t w
        → (w' : World Sim) × (process S t values w ≡ ok w') × IsGranted w'
    process_grants a b fresh l =
        let (d, e) = sub-pos (target t w) (now w.sim) l in
        (advanced d, normal a b ∙ advance_by d _ e, advanced-IsGranted d fresh e)

    process_late :
        is_negative t ≡ false
        → is_negative w.gateway.time_start ≡ false
        → target t w <ℤ pos (now w.sim)
        → process S t values w ≡ fatal time_not_increasing
    process_late a b l = normal a b ∙ advance_back _ (sub-negative (target t w) (pos (now w.sim)) l)

  -- An update whose timestamp lies before that of an update which is still pending is granted all
  -- the same, as long as the clock has not passed it: only the clock is compared, and m_timePause
  -- goes back.
  pub process_goes_back :
      (t : ℤ) (values : List Bytes) (w : World Sim)
      → is_negative t ≡ false
      → is_negative w.gateway.time_start ≡ false
      → w.gateway.event_wait < issued w.sim
      → pos (now w.sim) ≤ℤ target t w
      → target t w <ℤ w.gateway.time_pause
      → (w' : World Sim) × (process S t values w ≡ ok w')
        × (w'.gateway.time_pause <ℤ w.gateway.time_pause)
  process_goes_back t values w a b fresh l back =
      let (w', e, g) = process_grants t values w a b fresh l in
      (w', e, subst (λ p. p <ℤ w.gateway.time_pause) (sym g.pause) back)

  -- A message whose timestamp, less the first timestamp, lies before the clock of the simulation is
  -- refused as not increasing, also where it is later than every timestamp before it: so whenever
  -- the first message came at a clock later than zero and the second one advances by less than that.
  pub forward_late :
      (w : World Sim) (m seconds nanoseconds : Bytes) (queue values : List Bytes) (a b : ℤ)
      → w.gateway.message_queue ≡ m ∷ queue
      → split w.gateway.delimiter_field m ≡ some (seconds ∷ nanoseconds ∷ values)
      → stoi seconds ≡ some a
      → stol nanoseconds ≡ some b
      → is_negative (S.seconds a +ℤ S.nano_seconds b) ≡ false
      → is_negative w.gateway.time_start ≡ false
      → (S.seconds a +ℤ S.nano_seconds b) -ℤ w.gateway.time_start <ℤ pos (now w.sim)
      → forward S w ≡ fatal time_not_increasing
  unfolding forward forward_next read_header timestamp
  forward_late w m seconds nanoseconds queue values a b q e ea eb n k l =
      subst (λ l. forward_next S l w ≡ fatal time_not_increasing) (sym q)
        (rw (e, ea, timestamp, eb)
          (process_late (S.seconds a +ℤ S.nano_seconds b) values taken n k l))
    where
      taken : World Sim
      taken = record w { gateway = record (w.gateway) { message_queue = queue } }
