-- ===== src/TriggeredSend/Pending.antt =====
-- At most one call of SendPacket is pending, and m_sendPacketEvent names it.
use ns3_cosim.Common.{
  ℕ, ◌≤◌, ◌<◌, ◌≡◌, refl, sym, ap, subst, ◌∙◌, ◌⊎◌, inl, inr, Bool, true, false, ◌||◌, List, [],
  ◌∷◌, some, arith, Bool-cases, All,
}
use ns3_cosim.Simulator.{Simulator, Event, has_uid}
use ns3_cosim.Simulator.Queue.{
  All-insert_event, All-without, All-map, has_uid-without, has_uid-without_other, count,
  count-insert_event, count-cons, count-without-le, has_uid-above, count_zero-has_uid,
}
use ns3_cosim.TriggeredSend.{Call, send_packet, World, cancel_events}

abbrev pub is_send : Call → Bool
is_send send_packet = true
is_send _ = false

module _ (S : Simulator Call) where
  open S use {Sim, now, events, destroy_events, issued, schedule, cancel, is_pending, next}

  -- `u` is m_sendPacketEvent.
  pub record IsSingle (u : ℕ) (s : Sim) : Type 0 where
    pub one : count is_send (events s) ≤ 1
    pub named : All (λ (e : Event Call). is_send e.call ≡ true → e.uid ≡ u) (events s)
    pub only : All (λ (e : Event Call). e.uid ≡ u → is_send e.call ≡ true) (events s)
    pub below : All (λ (e : Event Call). e.uid < issued s) (events s)
    pub destroy_below : All (λ (e : Event Call). e.uid < issued s) (destroy_events s)
    pub no_destroy : has_uid u (destroy_events s) ≡ false
    pub issued_above : u < issued s

  Below-mono :
      (m n : ℕ)
      → m ≤ n
      → (es : List (Event Call)) → All (λ e. e.uid < m) es
      → All (λ e. e.uid < n) es
  Below-mono m n l = All-map (λ e. e.uid < m) (λ e. e.uid < n) (λ e h. omega arith)

  -- An event that is no call of SendPacket is scheduled.
  pub schedule-IsSingle :
      (u : ℕ) (s : Sim) (d : ℕ) (c : Call)
      → is_send c ≡ false
      → IsSingle u s
      → IsSingle u (schedule s d c).0
  schedule-IsSingle u s d c f h =
      let (low, high) = S.schedule-uid s d c in
      let q = S.schedule-events s d c in
      let r = S.schedule-destroy_events s d c in
      record {
        one = rw (q, count-insert_event, f) h.one;
        named = rw q (
            All-insert_event (λ e. is_send e.call ≡ true → e.uid ≡ u) _ (events s)
              (λ t. absurd (cc (t, f))) h.named);
        only = rw q (
            All-insert_event (λ e. e.uid ≡ u → is_send e.call ≡ true) _ (events s)
              (λ t. absurd (omega (arith, h.issued_above))) h.only);
        below = rw q (
            All-insert_event _ _ (events s) high
              (Below-mono (issued s) _ (omega arith) (events s) h.below));
        destroy_below =
            rw r (Below-mono (issued s) _ (omega arith) (destroy_events s) h.destroy_below);
        no_destroy = rw r h.no_destroy;
        issued_above = omega (arith, h.issued_above);
      }

  -- A call of SendPacket is scheduled while none is pending, and takes the name.
  pub schedule_send-IsSingle :
      (u : ℕ) (s : Sim) (d : ℕ)
      → count is_send (events s) ≡ 0
      → IsSingle u s
      → let (s', u') = schedule s d send_packet in IsSingle u' s'
  schedule_send-IsSingle u s d z h =
      let (low, high) = S.schedule-uid s d send_packet in
      let u' = (schedule s d send_packet).1 in
      let q = S.schedule-events s d send_packet in
      let r = S.schedule-destroy_events s d send_packet in
      record {
        one = rw (q, count-insert_event, z) (omega arith);
        named = rw q (
            All-insert_event (λ e. is_send e.call ≡ true → e.uid ≡ u') _ (events s) (λ _. refl)
              (no_sends u' (events s) z));
        only = rw q (
            All-insert_event (λ e. e.uid ≡ u' → is_send e.call ≡ true) _ (events s) (λ _. refl)
              (All-map (λ e. e.uid < issued s) (λ e. e.uid ≡ u' → is_send e.call ≡ true)
                (λ e b t. absurd (omega arith)) (events s) h.below));
        below = rw q (
            All-insert_event _ _ (events s) high
              (Below-mono (issued s) _ (omega arith) (events s) h.below));
        destroy_below =
            rw r (Below-mono (issued s) _ (omega arith) (destroy_events s) h.destroy_below);
        no_destroy = rw r (has_uid-above u' (issued s) (destroy_events s) h.destroy_below low);
        issued_above = high;
      }
    where
      no_sends :
          (v : ℕ) (es : List (Event Call))
          → count is_send es ≡ 0
          → All (λ e. is_send e.call ≡ true → e.uid ≡ v) es
      no_sends v [] z = tt
      no_sends v (e ∷ es) z =
          let c = count-cons is_send e es in
          (λ t. absurd (ground arith), no_sends v es (ground arith))

  cancel-IsSingle : (u v : ℕ) (s : Sim) → IsSingle u s → IsSingle u (cancel s v)
  cancel-IsSingle u v s h =
      let q = S.cancel-events s v in
      let r = S.cancel-destroy_events s v in
      record {
        one = rw q (omega (arith, h.one, count-without-le is_send v (events s)));
        named = rw q (All-without _ v (events s) h.named);
        only = rw q (All-without _ v (events s) h.only);
        below = rw (q, S.cancel-issued s v) (All-without _ v (events s) h.below);
        destroy_below =
            rw (r, S.cancel-issued s v) (All-without _ v (destroy_events s) h.destroy_below);
        no_destroy = rw r (has_uid-without_other u v (destroy_events s) h.no_destroy);
        issued_above = rw (S.cancel-issued s v) h.issued_above;
      }

  pub next-IsSingle :
      (u : ℕ) (s s' : Sim) (c : Call)
      → next s ≡ some (c, s')
      → IsSingle u s
      → IsSingle u s' × (c ≡ send_packet → count is_send (events s') ≡ 0)
  next-IsSingle u s s' c n h =
      let (e, es, q, call, rest, time, ids) = S.next-events s s' c n in
      let k = S.next-destroy_events s s' c n in
      let one = subst (λ l. count is_send l ≤ 1) q h.one in
      (
        record {
          one = rw rest (omega (arith, one, count_cons-le e es));
          named = rw rest (subst (All (λ f. is_send f.call ≡ true → f.uid ≡ u)) q h.named).1;
          only = rw rest (subst (All (λ f. f.uid ≡ u → is_send f.call ≡ true)) q h.only).1;
          below = rw (rest, ids) (subst (All (λ f. f.uid < issued s)) q h.below).1;
          destroy_below = rw (k, ids) h.destroy_below;
          no_destroy = rw k h.no_destroy;
          issued_above = rw ids h.issued_above;
        },
        λ p. rw rest (taken e es (call ∙ p) one),
      )
    where
      count_cons-le :
          (e : Event Call) (es : List (Event Call)) → count is_send es ≤ count is_send (e ∷ es)
      count_cons-le e es = ground (arith, count-cons is_send e es)

      taken :
          (e : Event Call) (es : List (Event Call))
          → e.call ≡ send_packet
          → count is_send (e ∷ es) ≤ 1
          → count is_send es ≡ 0
      taken e es p l =
          let p' : is_send e.call ≡ true = ap is_send p in
          ground (arith, count-cons is_send e es, p')

  -- The application and its events. A pending call of SendPacket finds a socket.
  pub record IsLive (w : World Sim) : Type 0 where
    pub single : IsSingle w.app.send_event w.sim
    pub live : (w.app.has_socket ≡ true) ⊎ (count is_send (events w.sim) ≡ 0)

  pub not_pending-count :
      (u : ℕ) (s : Sim) → IsSingle u s → is_pending s u ≡ false → count is_send (events s) ≡ 0
  not_pending-count u s h p =
      count_zero-has_uid is_send u (events s) (or-left _ _ (sym (S.is_pending_lem s u) ∙ p)) h.named
    where
      or-left : (a b : Bool) → (a || b) ≡ false → a ≡ false
      or-left a b h = ground arith

  -- After CancelEvents no call of SendPacket is pending.
  pub cancel_events-IsLive :
      (w : World Sim)
      → IsSingle w.app.send_event w.sim
      → IsSingle w.app.send_event (cancel_events S w).sim
        × (count is_send (events (cancel_events S w).sim) ≡ 0)
        × ((cancel_events S w).app ≡ w.app)
  unfolding cancel_events
  cancel_events-IsLive w h = elim (Bool-cases (is_pending w.sim w.app.send_event)) [
    | inl e ↦ rw e (
      cancel-IsSingle w.app.send_event w.app.send_event w.sim h,
      rw (S.cancel-events w.sim w.app.send_event) (
          count_zero-has_uid is_send w.app.send_event _
            (has_uid-without w.app.send_event (events w.sim))
            (All-without _ w.app.send_event (events w.sim) h.named)),
      refl,
    )
    | inr e ↦ rw e (h, not_pending-count w.app.send_event w.sim h e, refl)
  ]
