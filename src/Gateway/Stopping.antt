-- ===== src/Gateway/Stopping.antt =====
-- Gateway::Stop: what it leaves, and a second call of it.
use ns3_cosim.Common.{
  ℕ, ◌≡◌, refl, sym, ap, subst, ◌∙◌, inl, inr, Bool, true, false, ◌||◌, arith, Bool-cases,
}
use ns3_cosim.Simulator.{Simulator}
use ns3_cosim.Simulator.Queue.{has_uid-without, has_uid-without_other}
use ns3_cosim.Gateway.{Call, World, stopping, is_connected}
use ns3_cosim.Gateway.Handlers.{stop_gateway, stop_begin, stop_end, cancel_pending}

module _ (S : Simulator Call) where
  open S use {Sim, now, events, destroy_events, is_pending, cancel}

  pending_cancelled : (s : Sim) (u : ℕ) → is_pending (cancel s u) u ≡ false
  pending_cancelled s u =
      rw
        (
          S.is_pending_lem (cancel s u) u,
          S.cancel-events s u,
          S.cancel-destroy_events s u,
          has_uid-without u (events s),
        )
        (has_uid-without u (destroy_events s))

  or-eq-false : (a b : Bool) → (a || b) ≡ false → (a ≡ false) × (b ≡ false)
  or-eq-false a b h = ground arith

  pending_other : (s : Sim) (u v : ℕ) → is_pending s u ≡ false → is_pending (cancel s v) u ≡ false
  pending_other s u v h =
      let (a, b) = or-eq-false _ _ (sym (S.is_pending_lem s u) ∙ h) in
      rw
        (
          S.is_pending_lem (cancel s v) u,
          S.cancel-events s v,
          S.cancel-destroy_events s v,
          has_uid-without_other u v (events s) a,
        )
        (has_uid-without_other u v (destroy_events s) b)

  -- Cancelling leaves the gateway alone and the event not pending.
  cancelled :
      (u : ℕ) (w : World Sim)
      → ((cancel_pending S u w).gateway ≡ w.gateway)
        × (is_pending (cancel_pending S u w).sim u ≡ false)
  unfolding cancel_pending
  cancelled u w = elim (Bool-cases (is_pending w.sim u)) [
    | inl e ↦ rw e (refl, pending_cancelled w.sim u)
    | inr e ↦ rw e (refl, e)
  ]

  stays_cancelled :
      (u v : ℕ) (w : World Sim)
      → is_pending w.sim u ≡ false
      → is_pending (cancel_pending S v w).sim u ≡ false
  unfolding cancel_pending
  stays_cancelled u v w h = elim (Bool-cases (is_pending w.sim v)) [
    | inl e ↦ rw e (pending_other w.sim u v h)
    | inr e ↦ rw e h
  ]

  not_pending : (u : ℕ) (w : World Sim) → is_pending w.sim u ≡ false → cancel_pending S u w ≡ w
  unfolding cancel_pending
  not_pending u w h = rw h

  -- What Stop leaves: neither of the gateway's events is pending, and where the gateway was connected
  -- the thread was joined and the socket closed.
  pub record IsStopped (was_connected : Bool) (w : World Sim) : Type 0 where
    pub stopped : w.gateway.state ≡ stopping
    pub no_wait : is_pending w.sim w.gateway.event_wait ≡ false
    pub no_destroy : is_pending w.sim w.gateway.event_destroy ≡ false
    pub closed :
        was_connected ≡ true → (w.gateway.joinable ≡ false) × (w.gateway.socket_open ≡ false)

  cancel_both : World Sim → World Sim
  cancel_both w =
      let v = cancel_pending S w.gateway.event_wait w in cancel_pending S v.gateway.event_destroy v

  cancel_both-gateway : (w : World Sim) → (cancel_both w).gateway ≡ w.gateway
  unfolding cancel_both
  cancel_both-gateway w = (cancelled _ _).0 ∙ (cancelled _ w).0

  cancel_both-pending :
      (w : World Sim)
      → (is_pending (cancel_both w).sim w.gateway.event_wait ≡ false)
        × (is_pending (cancel_both w).sim w.gateway.event_destroy ≡ false)
  unfolding cancel_both
  cancel_both-pending w =
      let v = cancel_pending S w.gateway.event_wait w in
      (
        stays_cancelled w.gateway.event_wait v.gateway.event_destroy v (cancelled _ w).1,
        subst (λ u. is_pending (cancel_pending S v.gateway.event_destroy v).sim u ≡ false)
            (ap (λ g. g.event_destroy) (cancelled w.gateway.event_wait w).0)
            (cancelled v.gateway.event_destroy v).1,
      )

  cancel_both-IsStopped :
      (b : Bool) (w : World Sim)
      → w.gateway.state ≡ stopping
      → (b ≡ true → (w.gateway.joinable ≡ false) × (w.gateway.socket_open ≡ false))
      → IsStopped b (cancel_both w)
  cancel_both-IsStopped b w e c =
      let (p, q) = cancel_both-pending w in
      record {
        stopped = ap (λ g. g.state) (cancel_both-gateway w) ∙ e;
        no_wait = rw (ap (λ g. g.event_wait) (cancel_both-gateway w)) p;
        no_destroy = rw (ap (λ g. g.event_destroy) (cancel_both-gateway w)) q;
        closed = λ t. (
          ap (λ g. g.joinable) (cancel_both-gateway w) ∙ (c t).0,
          ap (λ g. g.socket_open) (cancel_both-gateway w) ∙ (c t).1,
        );
      }

  stop_end-IsStopped :
      (b : Bool) (w : World Sim) → w.gateway.state ≡ stopping → IsStopped b (stop_end S b w)
  unfolding stop_end cancel_both
  stop_end-IsStopped true w e = cancel_both-IsStopped true _ e (λ _. (refl, refl))
  stop_end-IsStopped false w e = cancel_both-IsStopped false w e (λ t. cc)

  -- Stop leaves the gateway in the state STOPPING, with neither of its two events pending, and, where
  -- it was connected, with the thread joined and the socket closed.
  pub stop_gateway-IsStopped :
      (w : World Sim) → IsStopped (is_connected w.gateway.state) (stop_gateway S w)
  unfolding stop_gateway stop_begin
  stop_gateway-IsStopped w = stop_end-IsStopped (is_connected w.gateway.state) _ refl

  stop_end_again : (b : Bool) (w : World Sim) → IsStopped b w → stop_end S false w ≡ w
  unfolding stop_end
  stop_end_again b w h =
      ap (λ v. cancel_pending S v.gateway.event_destroy v)
        (not_pending w.gateway.event_wait w h.no_wait)
      ∙ not_pending w.gateway.event_destroy w h.no_destroy

  stopped_again : (b : Bool) (w : World Sim) → IsStopped b w → stop_gateway S w ≡ w
  unfolding stop_gateway stop_begin
  stopped_again b w h =
      (λ i.
        stop_end S (is_connected (h.stopped i))
          (record w { gateway = record (w.gateway) { state = sym h.stopped i } }))
      ∙ stop_end_again b w h

  -- Stop can be called any number of times: a second call changes nothing.
  pub stop_gateway_twice : (w : World Sim) → stop_gateway S (stop_gateway S w) ≡ stop_gateway S w
  stop_gateway_twice w = stopped_again _ (stop_gateway S w) (stop_gateway-IsStopped w)
