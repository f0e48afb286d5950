-- ===== src/CoSim/Contract/Awaited.antt =====
-- Gateway::ForwardUp and the calls that reach the derived class: a message puts its values behind those
-- that are pending, in DoInitialize or in DoUpdate.
use ns3_cosim.CoSim.Contract.Choices.{
  init_values, init_values-IsForwardOnly, values_of-append, before_later, no_init, no_bound,
  All-IsBefore,
}
use ns3_cosim.Common.{
  ◌+◌, ◌≡◌, refl, sym, ap, subst, ◌∙◌, inl, inr, true, false, List, [], ◌∷◌, ◌++◌, append-nil, some,
  Bytes, arith, ℤ, pos, negsuc, ◌-ℤ◌, ◌≤ℤ◌, All, Bool-cases, delay_reaches,
}
use ns3_cosim.Protocol.{split}
use ns3_cosim.Simulator.{Simulator}
use ns3_cosim.Simulator.Queue.{All-map}
use ns3_cosim.Gateway.{
  Call, World, Outcome, ok, ok-injective, or_fatal, ◌>>=◌, >>=-eq-ok, is_negative, do_initialize,
  handle_update,
}
use ns3_cosim.Gateway.Handlers.{
  cancel_pending, advance, process, forward, forward_next, read_header,
}
use ns3_cosim.Gateway.Timestamps.{target}
use ns3_cosim.CoSim.Main.{cancel_wait-IsCancelled, SoundWorld}
use ns3_cosim.CoSim.Updates.{
  IsUpTo, Choice, update_values, callback_values, callback_values-IsForwardOnly, chosen, updates,
  chosen-insert_other, chosen-insert_last,
}
use ns3_cosim.CoSim.Quiet.{cancel_wait-IsQuiet}
use ns3_cosim.CoSim.Order.{pos-le, IsBefore, process-chosen}
use ns3_cosim.CoSim.Contract.{Granted, granted_by, as_granted, header, delivered_by, values_of}
use ns3_cosim.CoSim.Contract.Terms.{All-chosen}
use ns3_cosim.CoSim.Contract.Forward.{process-same, as_start}

one_granted :
    (t : ℤ) (values : List Bytes) (start : ℤ)
    → is_negative t ≡ false
    → is_negative start ≡ false
    → granted_by (ok (t, values)) (as_start start) ≡ (t -ℤ start, values) ∷ []
one_granted t values start a b = rw (b, a) refl

module _ (S : Simulator Call) where
  open S use {Sim, now, events, schedule}

  -- A call of DoInitialize is pending at a time that has come, and none at all without a reference time.
  abbrev pub IsSoon : Sim → Type 0
  IsSoon s = All (λ (g : Granted). g.0 ≤ℤ pos (now s)) (as_granted (chosen init_values (events s)))

  abbrev pub IsUnset : World Sim → Type 0
  IsUnset w = is_negative w.gateway.time_start ≡ true → chosen callback_values (events w.sim) ≡ []

  -- What a call of ForwardUp does to them, where the message grants no call that is earlier than a
  -- pending one.
  pub record IsAdded (h : Outcome Granted) (w w' : World Sim) : Type 0 where
    pub unset : IsUnset w → IsUnset w'
    pub soon : IsUnset w → IsSoon w.sim → IsSoon w'.sim
    pub added :
        IsUnset w
        → IsSoon w.sim
        → ((g : Granted)
            → granted_by h (as_start w.gateway.time_start) ≡ g ∷ []
            → All (λ (f : Granted). f.0 ≤ℤ g.0) (as_granted (updates (events w.sim))))
        → values_of (chosen callback_values (events w'.sim))
          ≡ values_of (chosen callback_values (events w.sim)) ++ delivered_by h

  module _ (t : ℤ) (values : List Bytes) (w w' : World Sim) (sound : SoundWorld S w) where
    ended :
        is_negative t ≡ true → record w { sim = S.stop w.sim } ≡ w' → IsAdded (ok (t, values)) w w'
    ended a e = subst (IsAdded (ok (t, values)) w) e (record {
      unset = λ u b. ap (chosen callback_values) (S.stop-events w.sim) ∙ u b;
      soon = λ u k. rw (S.stop-events w.sim, S.stop-now w.sim) k;
      added = λ u k g. rw (S.stop-events w.sim, a, append-nil) refl;
    })

    first_scheduled :
        (choice : Choice)
        → choice (do_initialize values) ≡ some values
        → chosen choice (events w.sim) ≡ []
        → chosen choice (events (schedule w.sim 0 (do_initialize values)).0)
          ≡ (now w.sim + 0, values) ∷ []
    first_scheduled choice c none_pending =
        ap (chosen choice) (S.schedule-events w.sim 0 (do_initialize values))
        ∙ chosen-insert_last choice (now w.sim) _ values (events w.sim) c sound.ordered (
            All-map (IsBefore choice (pos (now w.sim + 0))) (IsUpTo choice (now w.sim + 0))
              (λ e h v k. pos-le e.time _ (h v k)) (events w.sim)
              (no_bound choice (pos (now w.sim + 0)) (events w.sim) none_pending))
        ∙ ap (λ l. l ++ ((now w.sim + 0, values) ∷ [])) none_pending

    initialized :
        is_negative t ≡ false
        → is_negative w.gateway.time_start ≡ true
        → record w {
          gateway = record (w.gateway) { time_start = t };
          sim = (schedule w.sim 0 (do_initialize values)).0;
        }
          ≡ w'
        → IsAdded (ok (t, values)) w w'
    initialized a b e = subst (IsAdded (ok (t, values)) w) e (record {
      unset = λ u c. cc (a, c);
      soon = λ u k.
          rw
            (
              first_scheduled init_values refl (no_init (events w.sim) (u b)),
              S.schedule-now w.sim 0 (do_initialize values),
            )
            (omega arith, tt);
      added = λ u k g. rw (first_scheduled callback_values refl (u b), u b, a) refl;
    })

    -- A message behind the first one: the calls of DoInitialize stay as they are.
    advance_rest :
        (pause delta : ℤ) (v : World Sim)
        → pause -ℤ pos (now v.sim) ≡ delta
        → advance S pause delta values v ≡ ok w'
        → (chosen init_values (events w'.sim) ≡ chosen init_values (events v.sim))
          × (now w'.sim ≡ now v.sim)
          × (pos (now v.sim) ≤ℤ pause)
    unfolding advance
    advance_rest pause (negsuc d) v e h = cc
    advance_rest pause (pos d) v e h =
        let q = delay_reaches pause (now v.sim) d e in
        let same = sym (ok-injective h) in
        (
          ap (λ u. chosen init_values (events u.sim)) same
              ∙ ap (chosen init_values) (S.schedule-events v.sim d (handle_update values))
              ∙ chosen-insert_other init_values _ (events v.sim) refl,
          ap (λ u. now u.sim) same ∙ S.schedule-now v.sim d (handle_update values),
          subst (λ z. pos (now v.sim) ≤ℤ z) (sym q) (omega arith),
        )

    process_rest :
        is_negative t ≡ false
        → is_negative w.gateway.time_start ≡ false
        → process S t values w ≡ ok w'
        → (chosen init_values (events w'.sim) ≡ chosen init_values (events w.sim))
          × (now w'.sim ≡ now w.sim)
          × (pos (now w.sim) ≤ℤ target S t w)
    unfolding process
    process_rest a b h =
        let v = cancel_pending S w.gateway.event_wait w in
        let c = cancel_wait-IsCancelled S w in
        let start = ap (λ g. target S t (record w { gateway = g })) c.same_gateway in
        let (same, time, late) = advance_rest (target S t v) _ v refl (rw (a, b) at h) in
        (
          same ∙ (cancel_wait-IsQuiet S w sound).same_calls init_values init_values-IsForwardOnly,
          time ∙ c.same_now,
          subst (λ z. pos (now w.sim) ≤ℤ z) start
              (subst (λ n. pos n ≤ℤ target S t v) c.same_now late),
        )

    updated :
        is_negative t ≡ false
        → is_negative w.gateway.time_start ≡ false
        → process S t values w ≡ ok w'
        → IsAdded (ok (t, values)) w w'
    updated a b h =
        let (start, field) = process-same S t values w w' sound a b h in
        let (same, time, late) = process_rest a b h in
        record {
          unset = λ u c. cc (ap is_negative start, b, c);
          soon = λ u k. rw (same, time) k;
          added = λ u k g.
              let (p, at, back) =
                process-chosen S callback_values t values w w' callback_values-IsForwardOnly refl a
                  b h sound
                  (All-IsBefore (target S t w) (events w.sim)
                    (All-chosen init_values (target S t w) (events w.sim)
                      (before_later (pos (now w.sim)) (target S t w) _ late k))
                    (All-chosen update_values (target S t w) (events w.sim) (
                      g (target S t w, values) (one_granted t values w.gateway.time_start a b)))) in
              ap values_of back
              ∙ values_of-append (chosen callback_values (events w.sim)) ((p, values) ∷ [])
              ∙ ap (λ l. values_of (chosen callback_values (events w.sim)) ++ l) (sym (brought a));
        }
      where
        brought : is_negative t ≡ false → delivered_by (ok (t, values)) ≡ values ∷ []
        brought a = rw a refl

    process-IsAdded : process S t values w ≡ ok w' → IsAdded (ok (t, values)) w w'
    unfolding process
    process-IsAdded h = elim (Bool-cases (is_negative t)) [
      | inl a ↦ ended a (ok-injective (rw a at h))
      | inr a ↦ elim (Bool-cases (is_negative w.gateway.time_start)) [
        | inl b ↦ initialized a b (ok-injective (rw (a, b) at h))
        | inr b ↦ updated a b h
      ]
    ]

  -- The whole of ForwardUp, on the first message of the queue.
  pub forward-IsAdded :
      (m : Bytes) (queue : List Bytes) (w w' : World Sim)
      → w.gateway.message_queue ≡ m ∷ queue
      → forward S w ≡ ok w'
      → SoundWorld S w
      → IsAdded (header S w.gateway.delimiter_field m) w w'
  unfolding forward forward_next
  forward-IsAdded m queue w w' q h sound =
      let h' : forward_next S (m ∷ queue) w ≡ ok w' = subst (λ l. forward_next S l w ≡ ok w') q h in
      let (values, e, r) = >>=-eq-ok (or_fatal (split w.gateway.delimiter_field m) _) _ h' in
      let (read, e', r') = >>=-eq-ok (read_header S values) _ r in
      let v = record w { gateway = record (w.gateway) { message_queue = queue } } in
      let f = process-IsAdded read.0 read.1 v w' sound r' in
      subst (λ h. IsAdded h w w') (sym (ap (λ o. o >>= read_header S) e ∙ e'))
        (record { unset = f.unset; soon = f.soon; added = f.added })
