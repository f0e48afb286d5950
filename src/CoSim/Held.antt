-- ===== src/CoSim/Held.antt =====
-- What holds the simulated time back while the gateway is connected: the event of m_eventWait, which
-- is pending at the current time, or a call of HandleUpdate, which is pending at m_timePause.
use ns3_cosim.Common.{
  ℕ, ◌+◌, ◌≤◌, ◌≡◌, refl, sym, ap, subst, ◌∙◌, ◌⊎◌, inl, inr, Bool, true, false, List, [], ◌∷◌,
  some, arith, All, Any, ℤ, pos,
}
use ns3_cosim.Simulator.{Simulator, Event}
use ns3_cosim.Simulator.Queue.{Any-insert_event, Any-insert_event_self, Ordered, Ordered-Any}
use ns3_cosim.Gateway.{Call, wait_for_next_update, handle_update}
use ns3_cosim.CoSim.Sound.{IsSound}

abbrev pub is_update : Call → Bool
is_update (handle_update values) = true
is_update _ = false

pos_time : (n t : ℕ) {pause : ℤ} → pos n ≡ pause → pause ≡ pos t → n ≡ t
pos_time n t e p = ground arith

module _ (S : Simulator Call) where
  open S use {Sim, now, events, schedule, cancel, next}

  abbrev pub IsArmed : ℕ → ℕ → List (Event Call) → Type 0
  IsArmed wait t = Any λ e. (e.uid ≡ wait) × (e.time ≡ t)

  abbrev pub IsDue : ℤ → List (Event Call) → Type 0
  IsDue pause = Any λ e. (is_update e.call ≡ true) × (pos e.time ≡ pause)

  abbrev pub IsHeld : ℕ → ℤ → Sim → Type 0
  IsHeld wait pause s = IsArmed wait (now s) (events s) ⊎ IsDue pause (events s)

  pub schedule-IsHeld :
      (wait : ℕ) (pause : ℤ) (s : Sim) (d : ℕ) (c : Call)
      → IsHeld wait pause s
      → IsHeld wait pause (schedule s d c).0
  schedule-IsHeld wait pause s d c (inl a) =
      inl (rw (S.schedule-now s d c, S.schedule-events s d c) (Any-insert_event _ _ (events s) a))
  schedule-IsHeld wait pause s d c (inr a) =
      inr (rw (S.schedule-events s d c) (Any-insert_event _ _ (events s) a))

  pub stop-IsHeld :
      (wait : ℕ) (pause : ℤ) (s : Sim) → IsHeld wait pause s → IsHeld wait pause (S.stop s)
  stop-IsHeld wait pause s h = rw (S.stop-now s, S.stop-events s) h

  -- Scheduling WaitForNextUpdate holds the time where it is.
  pub schedule_wait-IsHeld :
      (pause : ℤ) (s : Sim) → let (s', u) = schedule s 0 wait_for_next_update in IsHeld u pause s'
  schedule_wait-IsHeld pause s = inl (
      rw (S.schedule-now s 0 wait_for_next_update, S.schedule-events s 0 wait_for_next_update)
        (Any-insert_event_self _ _ (events s) (refl, omega arith)))

  -- Scheduling HandleUpdate lets it go on to m_timePause.
  pub schedule_update-IsHeld :
      (wait : ℕ) (pause : ℤ) (s : Sim) (d : ℕ) (values : List (List ℕ))
      → pause ≡ pos (now s + d)
      → IsHeld wait pause (schedule s d (handle_update values)).0
  schedule_update-IsHeld wait pause s d values e = inr (
      rw (S.schedule-events s d (handle_update values)) (
        Any-insert_event_self (λ f. (is_update f.call ≡ true) × (pos f.time ≡ pause)) _ (events s)
          (refl, sym e)))

  -- After the simulator has taken an event: the time is held still, or the event was the one that
  -- held it.
  abbrev pub Released : ℕ → ℤ → Sim → Call → Type 0
  Released wait pause s c =
      IsHeld wait pause s
      ⊎ (c ≡ wait_for_next_update)
      ⊎ ((is_update c ≡ true) × (pause ≡ pos (now s)))

  armed_time :
      (wait t : ℕ) (es : List (Event Call)) (u : ℕ) → Ordered u es → IsArmed wait t es → u ≤ t
  armed_time wait t es u o a = Ordered-Any u t _ es (λ e p. p.1) o a

  pub next-Released :
      (wait destroy : ℕ) (pause : ℤ) (s s' : Sim) (c : Call)
      → next s ≡ some (c, s')
      → IsSound S wait destroy s
      → IsHeld wait pause s
      → Released wait pause s' c
  next-Released wait destroy pause s s' c n sound h =
      let (e, es, q, call, rest, time, ids) = S.next-events s s' c n in
      let o = subst (Ordered (now s)) q sound.ordered in
      let k =
        (subst (λ l. All (λ f. f.uid ≡ wait → f.call ≡ wait_for_next_update) l) q
          sound.only_wait).0 in
      go e es call rest time o k (subst (λ l. IsArmed wait (now s) l ⊎ IsDue pause l) q h)
    where
      go :
          (e : Event Call) (es : List (Event Call))
          → e.call ≡ c
          → events s' ≡ es
          → now s' ≡ e.time
          → (now s ≤ e.time) × Ordered e.time es
          → (e.uid ≡ wait → e.call ≡ wait_for_next_update)
          → IsArmed wait (now s) (e ∷ es) ⊎ IsDue pause (e ∷ es)
          → Released wait pause s' c
      go e es call rest time o k (inl (inl p)) = inr (inl (cc (call, k p.0)))
      go e es call rest time o k (inl (inr a)) =
          let same : now s' ≡ now s = omega (arith, armed_time wait (now s) es e.time o.1 a) in
          inl (inl (rw (rest, same) a))
      go e es call rest time o k (inr (inl p)) =
          inr (inr (rw (← call) p.0, sym p.1 ∙ ap pos (sym time)))
      go e es call rest time o k (inr (inr a)) = inl (inr (rw rest a))

  due_time : (pause : ℤ) (es : List (Event Call)) → IsDue pause es → (t : ℕ) × (pause ≡ pos t)
  due_time pause [] h = absurd h
  due_time pause (e ∷ es) (inl p) = (e.time, sym p.1)
  due_time pause (e ∷ es) (inr a) = due_time pause es a

  -- Where the time may go in one step of the simulator: nowhere, or up to m_timePause.
  abbrev pub Advance : ℤ → Sim → Sim → Type 0
  Advance pause s s' =
      (now s ≤ now s')
      × ((now s' ≡ now s) ⊎ ((t : ℕ) × (pause ≡ pos t) × (now s' ≤ t) × IsDue pause (events s)))

  pub next-Advance :
      (wait destroy : ℕ) (pause : ℤ) (s s' : Sim) (c : Call)
      → next s ≡ some (c, s')
      → IsSound S wait destroy s
      → IsHeld wait pause s
      → Advance pause s s'
  next-Advance wait destroy pause s s' c n sound h =
      let (e, es, q, call, rest, time, ids) = S.next-events s s' c n in
      let o = subst (Ordered (now s)) q sound.ordered in (omega (arith, o.0), reach e es q time o h)
    where
      reach :
          (e : Event Call) (es : List (Event Call))
          → events s ≡ e ∷ es
          → now s' ≡ e.time
          → (now s ≤ e.time) × Ordered e.time es
          → IsHeld wait pause s
          → (now s' ≡ now s) ⊎ ((t : ℕ) × (pause ≡ pos t) × (now s' ≤ t) × IsDue pause (events s))
      reach e es q time o (inl a) =
          let bound =
            armed_time wait (now s) (e ∷ es) e.time (omega arith, o.1)
              (subst (IsArmed wait (now s)) q a) in
          inl (omega arith)
      reach e es q time o (inr a) =
          let (t, p) = due_time pause (events s) a in
          let bound =
            Ordered-Any e.time t (λ f. (is_update f.call ≡ true) × (pos f.time ≡ pause)) (e ∷ es)
              (λ f k. pos_time f.time t k.1 p) (omega arith, o.1) (subst (IsDue pause) q a) in
          inr (t, p, omega arith, a)
