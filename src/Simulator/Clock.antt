-- ===== src/Simulator/Clock.antt =====
-- A simulator that meets the interface: the pending events as a list.
use ns3_cosim.Common.{
  ℕ, suc, ◌+◌, ◌≤◌, ◌<◌, ◌≡◌, refl, ap, Bool, true, ◌||◌, List, [], ◌∷◌, Option, none, some, arith,
  ℤ, pos_part, neg_part, sub_ℕ, ◌*◌,
}
use ns3_cosim.Simulator.{Event, insert_event, without, has_uid, Simulator}

pub record Clock (Call : Type 0) : Type 0 where
  pub time_now : ℕ
  pub pending : List (Event Call)
  pub at_destroy : List (Event Call)
  pub next_uid : ℕ
  pub ended : Bool

module _ {Call : Type 0} where
  abbrev pub schedule_in : Clock Call → ℕ → Call → Clock Call × ℕ
  schedule_in s d c = (
    record s {
      pending =
          insert_event (record { time = s.time_now + d; uid = s.next_uid; call = c }) s.pending;
      next_uid = suc s.next_uid;
    },
    s.next_uid,
  )

  abbrev pub schedule_at_destroy : Clock Call → Call → Clock Call × ℕ
  schedule_at_destroy s c = (
    record s {
      at_destroy = record { time = s.time_now; uid = s.next_uid; call = c } ∷ s.at_destroy;
      next_uid = suc s.next_uid;
    },
    s.next_uid,
  )

  abbrev pub cancel_uid : Clock Call → ℕ → Clock Call
  cancel_uid s u = record s { pending = without u s.pending; at_destroy = without u s.at_destroy }

  take_event : List (Event Call) → Clock Call → Option (Call × Clock Call)
  take_event [] s = none
  take_event (e ∷ es) s = some (e.call, record s { time_now = e.time; pending = es })

  unfoldable pub take_next : Clock Call → Option (Call × Clock Call)
  unfolding take_event
  take_next s = take_event s.pending s

  abbrev pub Takes : Clock Call → Clock Call → Call → Type 0
  Takes s s' c =
      (e : Event Call) × (es : List (Event Call)) × (s.pending ≡ e ∷ es)
      × (e.call ≡ c)
      × (s'.pending ≡ es)
      × (s'.time_now ≡ e.time)
      × (s'.next_uid ≡ s.next_uid)

  take_event-Takes :
      (l : List (Event Call)) (s s' : Clock Call) (c : Call)
      → s.pending ≡ l
      → take_event l s ≡ some (c, s')
      → Takes s s' c
  unfolding take_event
  take_event-Takes [] s s' c e h = cc
  take_event-Takes (e ∷ es) s s' c p h =
      (e, es, p, ground arith, ground arith, ground arith, ground arith)

  pub take_next-Takes : (s s' : Clock Call) (c : Call) → take_next s ≡ some (c, s') → Takes s s' c
  unfolding take_next
  take_next-Takes s s' c h = take_event-Takes s.pending s s' c refl h

  pub take_next-destroy :
      (s s' : Clock Call) (c : Call) → take_next s ≡ some (c, s') → s'.at_destroy ≡ s.at_destroy
  unfolding take_next
  take_next-destroy s s' c h = kept s.pending h
    where
      kept : (l : List (Event Call)) → take_event l s ≡ some (c, s') → s'.at_destroy ≡ s.at_destroy
      kept [] h = cc
      kept (e ∷ es) h = ground arith

  pub take_next-ended :
      (s s' : Clock Call) (c : Call) → take_next s ≡ some (c, s') → s'.ended ≡ s.ended
  unfolding take_next
  take_next-ended s s' c h = kept s.pending h
    where
      kept : (l : List (Event Call)) → take_event l s ≡ some (c, s') → s'.ended ≡ s.ended
      kept [] h = cc
      kept (e ∷ es) h = ground arith

  pub take_next-cons :
      (s : Clock Call) (e : Event Call) (es : List (Event Call))
      → s.pending ≡ e ∷ es
      → (s' : Clock Call) × (take_next s ≡ some (e.call, s'))
  unfolding take_next
  take_next-cons s e es h =
      (record s { time_now = e.time; pending = es }, ap (λ l. take_event l s) h)

  pub take_next-nil : (s : Clock Call) → s.pending ≡ [] → take_next s ≡ none
  unfolding take_next
  take_next-nil s h = ap (λ l. take_event l s) h

  pub uid-bounds : (s : Clock Call) → (s.next_uid ≤ s.next_uid) × (s.next_uid < suc s.next_uid)
  uid-bounds s = omega arith

-- Seconds in nanoseconds.
abbrev pub times_billion : ℤ → ℤ
times_billion v = sub_ℕ (pos_part v * 1000000000) (neg_part v * 1000000000)

abbrev pub clock : (Call : Type 0) → Simulator Call
clock Call = record {
  Sim = Clock Call;
  now = λ s. s.time_now;
  events = λ s. s.pending;
  destroy_events = λ s. s.at_destroy;
  issued = λ s. s.next_uid;
  stopped = λ s. s.ended;
  schedule = schedule_in;
  schedule_destroy = schedule_at_destroy;
  cancel = cancel_uid;
  is_pending = λ s u. has_uid u s.pending || has_uid u s.at_destroy;
  stop = λ s. record s { ended = true };
  next = take_next;
  seconds = times_billion;
  nano_seconds = λ v. v;
  schedule-now = λ s d c. refl;
  schedule-events = λ s d c. refl;
  schedule-uid = λ s d c. uid-bounds s;
  schedule_destroy-now = λ s c. refl;
  schedule_destroy-events = λ s c. refl;
  schedule_destroy-uid = λ s c. uid-bounds s;
  cancel-now = λ s u. refl;
  cancel-events = λ s u. refl;
  cancel-issued = λ s u. refl;
  is_pending_lem = λ s u. refl;
  cancel-destroy_events = λ s u. refl;
  stop-now = λ s. refl;
  stop-events = λ s. refl;
  stop-stopped = λ s. refl;
  schedule-stopped = λ s d c. refl;
  next-stopped = take_next-ended;
  stop-issued = λ s. refl;
  next-events = take_next-Takes;
  schedule-destroy_events = λ s d c. refl;
  next-destroy_events = take_next-destroy;
  next-cons = take_next-cons;
  next-nil = take_next-nil;
}
