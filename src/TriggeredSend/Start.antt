-- ===== src/TriggeredSend/Start.antt =====
-- StartApplication: when it opens the socket, and a second call of it.
use ns3_cosim.Common.{
  ◌≡◌, ◌≢◌, ◌⊎◌, refl, sym, ap, ◌∙◌, inl, inr, true, false, ◌++◌, Option, some, none, Bool-cases, ℤ,
  negsuc,
}
use ns3_cosim.Simulator.{Simulator}
use ns3_cosim.TriggeredSend.{
  SocketCall, fatal, Error, remote_not_set, incompatible_addresses, bind_failed, Call, Application,
  World, ok, cancel_events, start_application, open_socket, start_calls, is_invalid,
  is_incompatible, is_failure, bind_result, bind_call,
}
use ns3_cosim.TriggeredSend.Binding.{
  binding, socket_calls, accepted, accepted-binding, start_calls-bound, failure-eq, no_failure-ne,
}

module _ (S : Simulator Call) where
  open S use {Sim, is_pending}

  cancel_events-kept :
      (w : World Sim) → ((cancel_events S w).app ≡ w.app) × ((cancel_events S w).calls ≡ w.calls)
  unfolding cancel_events
  cancel_events-kept w = elim (Bool-cases (is_pending w.sim w.app.send_event)) [
    | inl e ↦ rw e (refl, refl)
    | inr e ↦ rw e (refl, refl)
  ]

  -- What StartApplication asks of an application without a socket: a valid peer that fits the local
  -- address, and a bind that does not fail.
  pub record CanOpen (result : ℤ) (a : Application) : Type 0 where
    pub has_peer : is_invalid a.peer ≡ false
    pub compatible : is_incompatible a.local_address a.peer ≡ false
    pub bound : is_failure (bind_result (bind_call a.local_address a.peer) result) ≡ false

  opened : World Sim → World Sim
  opened w = record w {
    app = record (w.app) { has_socket = true };
    calls = w.calls ++ start_calls w.app;
  }

  open_socket-CanOpen :
      (result : ℤ) (w w' : World Sim) → open_socket S result w ≡ ok w' → CanOpen result w.app
  unfolding open_socket
  open_socket-CanOpen result w w' h = elim (Bool-cases (is_invalid w.app.peer)) [
    | inl a ↦ cc (rw a at h)
    | inr a ↦ elim (Bool-cases (is_incompatible w.app.local_address w.app.peer)) [
      | inl b ↦ cc (rw (a, b) at h)
      | inr b ↦
          elim (Bool-cases
            (is_failure (bind_result (bind_call w.app.local_address w.app.peer) result))) [
              | inl c ↦ cc (rw (a, b, c) at h)
              | inr c ↦ record { has_peer = a; compatible = b; bound = c }
            ]
    ]
  ]

  open_socket-opened :
      (result : ℤ) (w : World Sim)
      → CanOpen result w.app
      → open_socket S result w ≡ ok (cancel_events S (opened w))
  unfolding open_socket opened
  open_socket-opened result w h = rw (h.has_peer, h.compatible, h.bound) refl

  -- Where StartApplication returns for an application without a socket, the peer address was valid and
  -- fitted the local one, and the bind did not fail.
  pub start_needs :
      (result : ℤ) (w w' : World Sim)
      → w.app.has_socket ≡ false
      → start_application S result w ≡ ok w'
      → CanOpen result w.app
  unfolding start_application
  start_needs result w w' none_yet h = open_socket-CanOpen result w w' (rw none_yet at h)

  -- For an application without a socket whose peer address is valid and fits the local one, and whose
  -- bind does not fail, StartApplication returns, makes the calls of start_calls and leaves a socket;
  -- and a second StartApplication returns and makes no further call of the socket.
  pub start_opens :
      (result again : ℤ) (w : World Sim)
      → w.app.has_socket ≡ false
      → CanOpen result w.app
      → (w' w'' : World Sim) × (start_application S result w ≡ ok w')
        × (w'.app.has_socket ≡ true)
        × (w'.calls ≡ w.calls ++ start_calls w.app)
        × (start_application S again w' ≡ ok w'')
        × (w''.calls ≡ w'.calls)
  unfolding start_application opened
  start_opens result again w none_yet c =
      let w' = cancel_events S (opened w) in
      let (a, l) = cancel_events-kept (opened w) in
      let has = ap (λ a. a.has_socket) a in
      (
        w',
        cancel_events S w',
        rw none_yet (open_socket-opened result w c),
        has,
        l,
        rw has refl,
        (cancel_events-kept w').1,
      )

  abbrev Fails : ℤ → World Sim → Type 0
  Fails result w = (e : Error) × (start_application S result w ≡ fatal e)

  -- Started with the bind `b`; a second start, with any result of a bind, makes no call of the socket.
  pub record IsStarted (b : SocketCall) (result : ℤ) (w : World Sim) : Type 0 where
    pub opened_world : World Sim
    pub returns : start_application S result w ≡ ok opened_world
    pub has_socket : opened_world.app.has_socket ≡ true
    pub calls : opened_world.calls ≡ w.calls ++ socket_calls b w.app
    pub again :
        (other_result : ℤ)
        → (w'' : World Sim) × (start_application S other_result opened_world ≡ ok w'')
          × (w''.calls ≡ opened_world.calls)

  again_same :
      (r : ℤ) (v : World Sim)
      → v.app.has_socket ≡ true
      → (w'' : World Sim) × (start_application S r v ≡ ok w'') × (w''.calls ≡ v.calls)
  unfolding start_application
  again_same r v has = (cancel_events S v, rw has refl, (cancel_events-kept v).1)

  can-IsStarted :
      (result : ℤ) (b : SocketCall) (w : World Sim)
      → w.app.has_socket ≡ false
      → CanOpen result w.app
      → bind_call w.app.local_address w.app.peer ≡ some b
      → IsStarted b result w
  can-IsStarted result b w none_yet c e =
      let (w', w'', returns, has, calls, twice, same) = start_opens result result w none_yet c in
      record {
        opened_world = w';
        returns = returns;
        has_socket = has;
        calls = calls ∙ ap (λ l. w.calls ++ l) (start_calls-bound w.app b e);
        again = λ r. again_same r w' has;
      }

  abbrev pub Outcomes : ℤ → World Sim → Type 0
  Outcomes result w =
      ((binding w.app.local_address w.app.peer ≡ none) × Fails result w)
      ⊎ ((b : SocketCall) × (binding w.app.local_address w.app.peer ≡ some b)
          × (((result ≡ negsuc 0) × Fails result w) ⊎ ((result ≢ negsuc 0) × IsStarted b result w)))

  ended :
      (w : World Sim) (result : ℤ) {e : Error}
      → w.app.has_socket ≡ false
      → open_socket S result w ≡ fatal e
      → start_application S result w ≡ fatal e
  unfolding start_application
  ended w result none_yet h = rw none_yet h

  unbound :
      (w : World Sim) → is_invalid w.app.peer ≡ true → binding w.app.local_address w.app.peer ≡ none
  unfolding accepted
  unbound w a = sym (accepted-binding w.app.local_address w.app.peer) ∙ rw a refl

  unfit :
      (w : World Sim)
      → is_invalid w.app.peer ≡ false
      → is_incompatible w.app.local_address w.app.peer ≡ true
      → binding w.app.local_address w.app.peer ≡ none
  unfolding accepted
  unfit w a c = sym (accepted-binding w.app.local_address w.app.peer) ∙ rw (a, c) refl

  fit :
      (w : World Sim) {b : Option SocketCall}
      → is_invalid w.app.peer ≡ false
      → is_incompatible w.app.local_address w.app.peer ≡ false
      → bind_call w.app.local_address w.app.peer ≡ b
      → binding w.app.local_address w.app.peer ≡ b
  unfolding accepted
  fit w a c e = sym (accepted-binding w.app.local_address w.app.peer) ∙ rw (a, c) e

  with_bind :
      (result : ℤ) (w : World Sim)
      → w.app.has_socket ≡ false
      → is_invalid w.app.peer ≡ false
      → is_incompatible w.app.local_address w.app.peer ≡ false
      → (found : Option SocketCall) → bind_call w.app.local_address w.app.peer ≡ found
      → Outcomes result w
  unfolding bind_result open_socket
  with_bind result w none_yet a c none e =
      inl (fit w a c e, (bind_failed, ended w result none_yet (rw (a, c, e) refl)))
  with_bind result w none_yet a c (some b) e = elim (Bool-cases (is_failure result)) [
    | inl f ↦ inr (
      b,
      fit w a c e,
      inl (failure-eq result f, (bind_failed, ended w result none_yet (rw (a, c, e, f) refl))),
    )
    | inr f ↦ inr (
      b,
      fit w a c e,
      inr (
        no_failure-ne result f,
        can-IsStarted result b w none_yet
            (record { has_peer = a; compatible = c; bound = rw (e, f) refl }) e,
      ),
    )
  ]

  -- What StartApplication does for an application without a socket, for every local address, peer and
  -- result of the bind. Either `binding` has no bind for the two addresses and the program ends; or it
  -- has one, which returns -1, and the program ends; or it has one, which returns anything else, and
  -- then StartApplication returns with a socket, having made these calls of it, in order: the creation,
  -- that bind, the callbacks, for IPv4 the type of service, the connection to the peer, the permission
  -- to broadcast and the end of receiving; and a second StartApplication returns and makes no call.
  pub start_binds : (result : ℤ) (w : World Sim) → w.app.has_socket ≡ false → Outcomes result w
  unfolding open_socket
  start_binds result w none_yet = elim (Bool-cases (is_invalid w.app.peer)) [
    | inl a ↦ inl (unbound w a, (remote_not_set, ended w result none_yet (rw a refl)))
    | inr a ↦ elim (Bool-cases (is_incompatible w.app.local_address w.app.peer)) [
      | inl c ↦
          inl (unfit w a c, (incompatible_addresses, ended w result none_yet (rw (a, c) refl)))
      | inr c ↦ with_bind result w none_yet a c (bind_call w.app.local_address w.app.peer) refl
    ]
  ]
