-- ===== src/CoSim/Sound.antt =====
-- What every call of the simulator keeps: the pending events are in order, and the EventIds that the
-- gateway holds name no event but its own.
use ns3_cosim.Common.{
  ℕ, suc, ◌+◌, ◌≤◌, ◌<◌, ◌≡◌, ◌≢◌, refl, ap, subst, Bool, true, false, List, some, arith,
  if◌then◌else◌, All,
}
use ns3_cosim.Simulator.{Simulator, Event}
use ns3_cosim.Simulator.Queue.{
  All-insert_event, All-without, All-map, count, count-eq-zero, count-cons, count-insert_event,
  count-without, Ordered, Ordered-insert_event, Ordered-without,
}
use ns3_cosim.Gateway.{Call, wait_for_next_update, forward_up}

abbrev pub is_forward : Call → Bool
is_forward forward_up = true
is_forward _ = false

module _ (S : Simulator Call) where
  open S use {Sim, now, events, issued, schedule, cancel, next}

  abbrev pub Below : ℕ → List (Event Call) → Type 0
  Below n = All λ e. e.uid < n

  -- An event of this number is a call of WaitForNextUpdate.
  abbrev pub OnlyWait : ℕ → List (Event Call) → Type 0
  OnlyWait u = All λ e. e.uid ≡ u → e.call ≡ wait_for_next_update

  abbrev pub Absent : ℕ → List (Event Call) → Type 0
  Absent u = All λ e. e.uid ≢ u

  -- `wait` is m_eventWait, and `destroy` is m_eventDestroy.
  pub record IsSound (wait destroy : ℕ) (s : Sim) : Type 0 where
    pub ordered : Ordered (now s) (events s)
    pub below : Below (issued s) (events s)
    pub wait_issued : wait < issued s
    pub destroy_issued : destroy < issued s
    pub only_wait : OnlyWait wait (events s)
    pub absent : Absent destroy (events s)

  Below-mono : (m n : ℕ) → m ≤ n → (es : List (Event Call)) → Below m es → Below n es
  Below-mono m n l = All-map (λ e. e.uid < m) (λ e. e.uid < n) (λ e h. omega arith)

  abbrev new_event : Sim → ℕ → Call → Event Call
  new_event s d c = record { time = now s + d; uid = (schedule s d c).1; call = c }

  pub schedule-IsSound :
      (wait destroy : ℕ) (s : Sim) (d : ℕ) (c : Call)
      → IsSound wait destroy s
      → IsSound wait destroy (schedule s d c).0
  schedule-IsSound wait destroy s d c h =
      let (low, high) = S.schedule-uid s d c in
      let e = new_event s d c in
      record {
        ordered =
            rw (S.schedule-now s d c, S.schedule-events s d c)
              (Ordered-insert_event (now s) e (events s) (omega arith) h.ordered);
        below = rw (S.schedule-events s d c) (
            All-insert_event _ e (events s) high
              (Below-mono (issued s) _ (omega arith) (events s) h.below));
        wait_issued = omega (arith, h.wait_issued);
        destroy_issued = omega (arith, h.destroy_issued);
        only_wait = rw (S.schedule-events s d c) (
            All-insert_event (λ f. f.uid ≡ wait → f.call ≡ wait_for_next_update) e (events s)
              (λ q. absurd (omega (arith, h.wait_issued))) h.only_wait);
        absent = rw (S.schedule-events s d c) (
            All-insert_event (λ f. f.uid ≢ destroy) e (events s)
              (λ q. absurd (omega (arith, h.destroy_issued))) h.absent);
      }

  -- The new event takes the place of m_eventWait.
  pub schedule_wait-IsSound :
      (wait destroy : ℕ) (s : Sim)
      → IsSound wait destroy s
      → let (s', u) = schedule s 0 wait_for_next_update in IsSound u destroy s'
  schedule_wait-IsSound wait destroy s h =
      let (low, high) = S.schedule-uid s 0 wait_for_next_update in
      let k = schedule-IsSound wait destroy s 0 wait_for_next_update h in
      let e = new_event s 0 wait_for_next_update in
      record {
        ordered = k.ordered;
        below = k.below;
        wait_issued = high;
        destroy_issued = k.destroy_issued;
        only_wait = rw (S.schedule-events s 0 wait_for_next_update) (
            All-insert_event (λ f. f.uid ≡ e.uid → f.call ≡ wait_for_next_update) e (events s)
              (λ _. refl)
              (All-map (λ f. f.uid < issued s) (λ f. f.uid ≡ e.uid → f.call ≡ wait_for_next_update)
                (λ f b q. absurd (omega arith)) (events s) h.below));
        absent = k.absent;
      }

  -- Where the gateway holds no EventId yet: the number of the destroy event is no other event's.
  pub schedule_destroy-IsSound :
      (s : Sim) (c : Call)
      → Ordered (now s) (events s)
      → Below (issued s) (events s)
      → let (s', u) = S.schedule_destroy s c in IsSound u u s'
  schedule_destroy-IsSound s c o b =
      let (low, high) = S.schedule_destroy-uid s c in
      let u = (S.schedule_destroy s c).1 in
      let none_of = λ (P : Event Call → Type 0) (f : (e : Event Call) → e.uid ≢ u → P e).
        All-map (λ e. e.uid < issued s) P (λ e l. f e (λ q. absurd (omega arith))) (events s) b in
      record {
        ordered = rw (S.schedule_destroy-now s c, S.schedule_destroy-events s c) o;
        below =
            rw (S.schedule_destroy-events s c) (Below-mono (issued s) _ (omega arith) (events s) b);
        wait_issued = high;
        destroy_issued = high;
        only_wait =
            rw (S.schedule_destroy-events s c)
              (none_of (λ e. e.uid ≡ u → e.call ≡ wait_for_next_update) (λ e n q. absurd (n q)));
        absent = rw (S.schedule_destroy-events s c) (none_of (λ e. e.uid ≢ u) (λ e n. n));
      }

  pub cancel-IsSound :
      (wait destroy : ℕ) (s : Sim) (u : ℕ)
      → IsSound wait destroy s
      → IsSound wait destroy (cancel s u)
  cancel-IsSound wait destroy s u h = record {
    ordered = rw (S.cancel-now s u, S.cancel-events s u) (Ordered-without _ u (events s) h.ordered);
    below = rw (S.cancel-issued s u, S.cancel-events s u) (All-without _ u (events s) h.below);
    wait_issued = rw (S.cancel-issued s u) h.wait_issued;
    destroy_issued = rw (S.cancel-issued s u) h.destroy_issued;
    only_wait = rw (S.cancel-events s u) (All-without _ u (events s) h.only_wait);
    absent = rw (S.cancel-events s u) (All-without _ u (events s) h.absent);
  }

  pub stop-IsSound :
      (wait destroy : ℕ) (s : Sim) → IsSound wait destroy s → IsSound wait destroy (S.stop s)
  stop-IsSound wait destroy s h = record {
    ordered = rw (S.stop-now s, S.stop-events s) h.ordered;
    below = rw (S.stop-issued s, S.stop-events s) h.below;
    wait_issued = rw (S.stop-issued s) h.wait_issued;
    destroy_issued = rw (S.stop-issued s) h.destroy_issued;
    only_wait = rw (S.stop-events s) h.only_wait;
    absent = rw (S.stop-events s) h.absent;
  }

  pub next-IsSound :
      (wait destroy : ℕ) (s s' : Sim) (c : Call)
      → next s ≡ some (c, s')
      → IsSound wait destroy s
      → IsSound wait destroy s'
  next-IsSound wait destroy s s' c n h =
      let (e, es, q, call, rest, time, ids) = S.next-events s s' c n in
      record {
        ordered = rw (rest, time) (subst (Ordered (now s)) q h.ordered).1;
        below = rw (rest, ids) (subst (Below (issued s)) q h.below).1;
        wait_issued = rw ids h.wait_issued;
        destroy_issued = rw ids h.destroy_issued;
        only_wait = rw rest (subst (OnlyWait wait) q h.only_wait).1;
        absent = rw rest (subst (Absent destroy) q h.absent).1;
      }

  -- The pending calls of ForwardUp.
  pub forwards : Sim → ℕ
  forwards s = count is_forward (events s)

  pub schedule-forwards :
      (s : Sim) (d : ℕ) (c : Call)
      → forwards (schedule s d c).0 ≡ (if is_forward c then suc (forwards s) else forwards s)
  unfolding forwards
  schedule-forwards s d c =
      rw (S.schedule-events s d c) (count-insert_event is_forward (new_event s d c) (events s))

  pub forwards-eq-zero :
      (s : Sim) → All (λ e. is_forward e.call ≡ false) (events s) → forwards s ≡ 0
  unfolding forwards
  forwards-eq-zero s h = count-eq-zero is_forward (events s) h

  pub schedule_destroy-forwards :
      (s : Sim) (c : Call) → forwards (S.schedule_destroy s c).0 ≡ forwards s
  unfolding forwards
  schedule_destroy-forwards s c = rw (S.schedule_destroy-events s c)

  pub stop-forwards : (s : Sim) → forwards (S.stop s) ≡ forwards s
  unfolding forwards
  stop-forwards s = rw (S.stop-events s)

  pub cancel_wait-forwards :
      (wait destroy : ℕ) (s : Sim) → IsSound wait destroy s → forwards (cancel s wait) ≡ forwards s
  unfolding forwards
  cancel_wait-forwards wait destroy s h = rw (S.cancel-events s wait) (
      count-without is_forward wait (events s) (
        All-map (λ e. e.uid ≡ wait → e.call ≡ wait_for_next_update)
          (λ e. e.uid ≡ wait → is_forward e.call ≡ false) (λ e f q. ap is_forward (f q)) (events s)
          h.only_wait))

  pub cancel_destroy-forwards :
      (wait destroy : ℕ) (s : Sim)
      → IsSound wait destroy s
      → forwards (cancel s destroy) ≡ forwards s
  unfolding forwards
  cancel_destroy-forwards wait destroy s h = rw (S.cancel-events s destroy) (
      count-without is_forward destroy (events s) (
        All-map (λ e. e.uid ≢ destroy) (λ e. e.uid ≡ destroy → is_forward e.call ≡ false)
          (λ e f q. absurd (f q)) (events s) h.absent))

  pub next-forwards :
      (s s' : Sim) (c : Call)
      → next s ≡ some (c, s')
      → forwards s ≡ (if is_forward c then suc (forwards s') else forwards s')
  unfolding forwards
  next-forwards s s' c n =
      let (e, es, q, call, rest, time, ids) = S.next-events s s' c n in
      rw (q, ← call, rest) (count-cons is_forward e es)
