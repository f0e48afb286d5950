-- ===== src/CoSim/Contract/Forward.antt =====
-- Gateway::ForwardUp and the contract: a message grants what the contract says.
use ns3_cosim.Common.{
  ◌≡◌, refl, sym, ap, subst, ◌∙◌, inl, inr, true, false, List, [], ◌∷◌, ◌++◌, append-nil, Option,
  none, some, Bytes, ℤ, pos, negsuc, ◌-ℤ◌, ◌≤ℤ◌, All, Bool-cases, if◌then◌else◌,
}
use ns3_cosim.Protocol.{split}
use ns3_cosim.Simulator.{Simulator}
use ns3_cosim.Gateway.{
  Call, World, Outcome, ok, ok-injective, or_fatal, ◌>>=◌, >>=-eq-ok, is_negative, do_initialize,
}
use ns3_cosim.Gateway.Handlers.{
  cancel_pending, advance, process, forward, forward_next, read_header,
}
use ns3_cosim.Gateway.Timestamps.{target}
use ns3_cosim.CoSim.Main.{SoundWorld}
use ns3_cosim.CoSim.Updates.{
  update_values, update_values-IsForwardOnly, updates, chosen-insert_other,
}
use ns3_cosim.CoSim.Quiet.{cancel_wait-IsQuiet}
use ns3_cosim.CoSim.Order.{process-chosen}
use ns3_cosim.CoSim.Contract.{Granted, start_after, granted_by, as_granted, header}
use ns3_cosim.CoSim.Contract.Terms.{as_granted-append, All-chosen}

-- m_timeStart, where a negative time stands for none.
abbrev pub as_start : ℤ → Option ℤ
as_start t = if is_negative t then none else some t

end_keeps :
    (t : ℤ) (values : List Bytes) (o : Option ℤ)
    → is_negative t ≡ true
    → (start_after (ok (t, values)) o ≡ o) × (granted_by (ok (t, values)) o ≡ [])
end_keeps t values none a = (rw a refl, refl)
end_keeps t values (some reference) a = (refl, rw a refl)

pub no_start : (t : ℤ) → is_negative t ≡ true → as_start t ≡ none
no_start t a = rw a refl

some_start : (t : ℤ) → is_negative t ≡ false → as_start t ≡ some t
some_start t a = rw a refl

module _ (S : Simulator Call) where
  open S use {Sim, now, events, schedule}

  -- What a call of ForwardUp does to the calls that are pending: it puts those that the message grants
  -- behind them, provided that they come no earlier.
  pub record IsForwarded (h : Outcome Granted) (w w' : World Sim) : Type 0 where
    pub same_field : w'.gateway.delimiter_field ≡ w.gateway.delimiter_field
    pub starts : as_start w'.gateway.time_start ≡ start_after h (as_start w.gateway.time_start)
    pub granted_last :
        ((g : Granted)
          → granted_by h (as_start w.gateway.time_start) ≡ g ∷ []
          → All (λ (f : Granted). f.0 ≤ℤ g.0) (as_granted (updates (events w.sim))))
        → as_granted (updates (events w'.sim))
          ≡ as_granted (updates (events w.sim)) ++ granted_by h (as_start w.gateway.time_start)

  advance-same :
      (pause delta : ℤ) (values : List Bytes) (w w' : World Sim)
      → advance S pause delta values w ≡ ok w'
      → (w'.gateway.time_start ≡ w.gateway.time_start)
        × (w'.gateway.delimiter_field ≡ w.gateway.delimiter_field)
  unfolding advance
  advance-same pause (negsuc d) values w w' h = cc
  advance-same pause (pos d) values w w' h = (
    ap (λ v. v.gateway.time_start) (sym (ok-injective h)),
    ap (λ v. v.gateway.delimiter_field) (sym (ok-injective h)),
  )

  module _ (t : ℤ) (values : List Bytes) (w w' : World Sim) (sound : SoundWorld S w) where
    pub process-same :
        is_negative t ≡ false
        → is_negative w.gateway.time_start ≡ false
        → process S t values w ≡ ok w'
        → (w'.gateway.time_start ≡ w.gateway.time_start)
          × (w'.gateway.delimiter_field ≡ w.gateway.delimiter_field)
    unfolding process
    process-same a b h =
        let q = cancel_wait-IsQuiet S w sound in
        let (start, field) =
          advance-same _ _ values (cancel_pending S w.gateway.event_wait w) w' (rw (a, b) at h) in
        (start ∙ q.same_start, field ∙ q.same_field)

    terminated :
        is_negative t ≡ true
        → record w { sim = S.stop w.sim } ≡ w'
        → IsForwarded (ok (t, values)) w w'
    terminated a e =
        let (kept, none_granted) = end_keeps t values (as_start w.gateway.time_start) a in
        subst (IsForwarded (ok (t, values)) w) e (record {
          same_field = refl;
          starts = sym kept;
          granted_last = λ last.
              ap (λ l. as_granted (updates l)) (S.stop-events w.sim)
              ∙ sym (append-nil _)
              ∙ ap (λ l. as_granted (updates (events w.sim)) ++ l) (sym none_granted);
        })

    initialized :
        is_negative t ≡ false
        → is_negative w.gateway.time_start ≡ true
        → record w {
          gateway = record (w.gateway) { time_start = t };
          sim = (schedule w.sim 0 (do_initialize values)).0;
        }
          ≡ w'
        → IsForwarded (ok (t, values)) w w'
    initialized a b e =
        let before = no_start w.gateway.time_start b in
        let none_granted = ap (granted_by (ok (t, values))) before in
        subst (IsForwarded (ok (t, values)) w) e (record {
          same_field = refl;
          starts =
              some_start t a
              ∙ sym (some_first t a)
              ∙ ap (start_after (ok (t, values))) (sym before);
          granted_last = λ last.
              ap (λ l. as_granted (updates l)) (S.schedule-events w.sim 0 (do_initialize values))
              ∙ ap as_granted (chosen-insert_other update_values _ (events w.sim) refl)
              ∙ sym (append-nil _)
              ∙ ap (λ l. as_granted (updates (events w.sim)) ++ l) (sym none_granted);
        })
      where
        some_first : (t : ℤ) → is_negative t ≡ false → start_after (ok (t, values)) none ≡ some t
        some_first t a = rw a refl

    updated :
        is_negative t ≡ false
        → is_negative w.gateway.time_start ≡ false
        → process S t values w ≡ ok w'
        → IsForwarded (ok (t, values)) w w'
    updated a b h =
        let before = some_start w.gateway.time_start b in
        let one = ap (granted_by (ok (t, values))) before ∙ one_granted w.gateway.time_start a in
        let (same_start, same_field) = process-same a b h in
        record {
          same_field = same_field;
          starts = ap as_start same_start ∙ before ∙ ap (start_after (ok (t, values))) (sym before);
          granted_last = λ last.
              let (p, at, back) =
                process-chosen S update_values t values w w' update_values-IsForwardOnly refl a b h
                  sound
                  (All-chosen update_values (target S t w) (events w.sim)
                    (last (target S t w, values) one)) in
              ap as_granted back
              ∙ as_granted-append (updates (events w.sim)) ((p, values) ∷ [])
              ∙ ap (λ p. as_granted (updates (events w.sim)) ++ ((p, values) ∷ [])) at
              ∙ ap (λ l. as_granted (updates (events w.sim)) ++ l) (sym one);
        }
      where
        one_granted :
            (reference : ℤ)
            → is_negative t ≡ false
            → granted_by (ok (t, values)) (some reference) ≡ (t -ℤ reference, values) ∷ []
        one_granted reference a = rw a refl

    pub process-IsForwarded : process S t values w ≡ ok w' → IsForwarded (ok (t, values)) w w'
    unfolding process
    process-IsForwarded h = elim (Bool-cases (is_negative t)) [
      | inl a ↦ terminated a (ok-injective (rw a at h))
      | inr a ↦ elim (Bool-cases (is_negative w.gateway.time_start)) [
        | inl b ↦ initialized a b (ok-injective (rw (a, b) at h))
        | inr b ↦ updated a b h
      ]
    ]

  -- The whole of ForwardUp, on the first message of the queue.
  pub forward-IsForwarded :
      (m : Bytes) (queue : List Bytes) (w w' : World Sim)
      → w.gateway.message_queue ≡ m ∷ queue
      → forward S w ≡ ok w'
      → SoundWorld S w
      → IsForwarded (header S w.gateway.delimiter_field m) w w'
  unfolding forward forward_next
  forward-IsForwarded m queue w w' q h sound =
      let h' : forward_next S (m ∷ queue) w ≡ ok w' = subst (λ l. forward_next S l w ≡ ok w') q h in
      let (values, e, r) = >>=-eq-ok (or_fatal (split w.gateway.delimiter_field m) _) _ h' in
      let (read, e', r') = >>=-eq-ok (read_header S values) _ r in
      let v = record w { gateway = record (w.gateway) { message_queue = queue } } in
      let f = process-IsForwarded read.0 read.1 v w' sound r' in
      subst (λ h. IsForwarded h w w') (sym (ap (λ o. o >>= read_header S) e ∙ e'))
        (record { same_field = f.same_field; starts = f.starts; granted_last = f.granted_last })
