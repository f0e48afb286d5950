-- ===== src/SimpleGateway/Round.antt =====
-- One round of the loop of SimpleGateway::DoUpdate.
use ns3_cosim.Common.{
  ℕ, zero, suc, ◌+◌, ◌*◌, ◌%◌, ◌^◌, ◌≤◌, ◌<◌, ◌≡◌, refl, sym, ap, ◌∙◌, inl, inr, Bool, false, List,
  [], ◌∷◌, some, done, need, Bytes, codes, ltb, Bool-cases, length, set, get_elem?, length-set, ℤ,
  arith, All,
}
use ns3_cosim.Text.{find}
use ns3_cosim.Text.Number.{stoi, to_string}
use ns3_cosim.Text.Decimal.{find-IsDigits, to_string-IsDigits}
use ns3_cosim.Gateway.{Gateway}
use ns3_cosim.Gateway.Values.{set_value_iff}
use ns3_cosim.Mobility.{set_velocity, do_set_position}
use ns3_cosim.SimpleGateway.{
  invalid_number, SimpleGateway, int_at, is_set, add_send, move, report, update_vehicle,
}

pub small_mod : (n : ℕ) → n < 2 ^ 32 → n % 2 ^ 32 ≡ n
small_mod n h = omega (arith, h)

abbrev pub Readable : List Bytes → Type 0
Readable = All λ d. (z : ℤ) × (stoi d ≡ some z)

read_at :
    (values : List Bytes) (j : ℕ)
    → Readable values
    → j < length values
    → (z : ℤ) × (int_at values j ≡ done z)
unfolding int_at
read_at [] j r l = absurd (omega arith)
read_at (d ∷ ds) zero r l = (r.0.0, ap (λ o. need o invalid_number) r.0.1)
read_at (d ∷ ds) (suc j) r l = read_at ds j r.1 (omega arith)

pub elem_at {ℓ} :
    {A : Type ℓ} (xs : List A) (i : ℕ) → i < length xs → (x : A) × (get_elem? xs i ≡ some x)
elem_at [] i l = absurd (omega arith)
elem_at (x ∷ xs) zero l = (x, refl)
elem_at (x ∷ xs) (suc i) l = elem_at xs i (omega arith)

module _ {Vector : Type 0} (differ : Vector → Vector → Bool) (vector : ℤ → ℤ → ℤ → Vector) where
  -- One value, one count and one vehicle each, and the default delimiters.
  pub record IsReady (s : SimpleGateway Vector) : Type 0 where
    pub counted : length s.counts ≡ length s.vehicles
    pub sized : length s.gateway.values ≡ length s.vehicles
    pub field : s.gateway.delimiter_field ≡ codes " "
    pub message : s.gateway.delimiter_message ≡ codes "\r\n"

  -- What the round of vehicle `i` does to the response.
  pub record IsReported (i : ℕ) (s s' : SimpleGateway Vector) : Type 0 where
    pub same_counts : s'.counts ≡ s.counts
    pub same_sent : s'.sent ≡ s.sent
    pub same_size : length s'.vehicles ≡ length s.vehicles
    pub count : ℕ
    pub at_count : get_elem? s.counts i ≡ some count
    pub changed :
        s'.gateway ≡ record (s.gateway) { values = set s.gateway.values i (to_string count) }

  report-IsReported :
      (i : ℕ) (s : SimpleGateway Vector)
      → i < length s.vehicles
      → IsReady s
      → (s' : SimpleGateway Vector) × (report differ vector i s ≡ done s') × IsReported i s s'
  unfolding report
  report-IsReported i s l h =
      let (count, e) = elem_at s.counts i (omega (arith, l, h.counted)) in
      let g = record (s.gateway) { values = set s.gateway.values i (to_string count) } in
      let high = to_string-IsDigits count in
      let stored = (set_value_iff i (to_string count) s.gateway g).1 (
        omega (arith, l, h.sized),
        ap (λ d. find d (to_string count)) h.field ∙ find-IsDigits 32 [] _ (omega arith) high,
        ap (λ d. find d (to_string count)) h.message
            ∙ find-IsDigits 13 (10 ∷ []) _ (omega arith) high,
        refl,
      ) in
      (
        record s { gateway = g },
        rw (e, stored) refl,
        record {
          same_counts = refl;
          same_sent = refl;
          same_size = refl;
          count = count;
          at_count = e;
          changed = refl;
        },
      )

  record IsMoved (s s' : SimpleGateway Vector) : Type 0 where
    same_gateway : s'.gateway ≡ s.gateway
    same_counts : s'.counts ≡ s.counts
    same_sent : s'.sent ≡ s.sent
    same_size : length s'.vehicles ≡ length s.vehicles

  move-IsMoved :
      (i : ℕ) (p v : Vector) (s : SimpleGateway Vector)
      → i < length s.vehicles
      → (s' : SimpleGateway Vector) × (move differ vector i p v s ≡ done s') × IsMoved s s'
  unfolding move
  move-IsMoved i p v s l =
      let (m, e) = elem_at s.vehicles i l in
      (
        record s {
          vehicles = set s.vehicles i (set_velocity differ v (do_set_position differ p m));
        },
        rw e refl,
        record {
          same_gateway = refl;
          same_counts = refl;
          same_sent = refl;
          same_size = length-set s.vehicles i _;
        },
      )

  add_send-IsMoved :
      (flag : ℤ) (i : ℕ) (s s' : SimpleGateway Vector)
      → IsMoved s s'
      → IsMoved s (add_send differ vector flag i s')
  add_send-IsMoved flag i s s' h = elim (Bool-cases (is_set flag)) [
    | inl e ↦ rw e (record {
      same_gateway = h.same_gateway;
      same_counts = h.same_counts;
      same_sent = h.same_sent;
      same_size = h.same_size;
    })
    | inr e ↦ rw e h
  ]

  IsMoved-IsReady : (s s' : SimpleGateway Vector) → IsMoved s s' → IsReady s → IsReady s'
  IsMoved-IsReady s s' m h = record {
    counted = omega (arith, ap length m.same_counts, m.same_size, h.counted);
    sized = omega (arith, ap (λ g. length g.values) m.same_gateway, m.same_size, h.sized);
    field = ap (λ g. g.delimiter_field) m.same_gateway ∙ h.field;
    message = ap (λ g. g.delimiter_message) m.same_gateway ∙ h.message;
  }

  moved-IsReported :
      (i : ℕ) (s s' s'' : SimpleGateway Vector)
      → IsMoved s s'
      → IsReported i s' s''
      → IsReported i s s''
  moved-IsReported i s s' s'' m h = record {
    same_counts = h.same_counts ∙ m.same_counts;
    same_sent = h.same_sent ∙ m.same_sent;
    same_size = h.same_size ∙ m.same_size;
    count = h.count;
    at_count = sym (ap (λ l. get_elem? l i) m.same_counts) ∙ h.at_count;
    changed =
        h.changed
        ∙ ap {A = Gateway} (λ g. record g { values = set g.values i (to_string h.count) })
            m.same_gateway;
  }

  pub vehicle-IsReported :
      (i : ℕ) (values : List Bytes) (s : SimpleGateway Vector)
      → Readable values
      → i * 7 + 7 < 2 ^ 32
      → i * 7 + 7 ≤ length values
      → i < length s.vehicles
      → IsReady s
      → (s' : SimpleGateway Vector) × (update_vehicle differ vector i values s ≡ done s')
        × IsReported i s s'
  unfolding update_vehicle
  vehicle-IsReported i values s r b c l h =
      let (px, e0) = read_at values (i * 7) r (omega (arith, c)) in
      let (py, e1) = read_at values (i * 7 + 1) r (omega (arith, c)) in
      let (pz, e2) = read_at values (i * 7 + 2) r (omega (arith, c)) in
      let (vx, e3) = read_at values (i * 7 + 3) r (omega (arith, c)) in
      let (vy, e4) = read_at values (i * 7 + 4) r (omega (arith, c)) in
      let (vz, e5) = read_at values (i * 7 + 5) r (omega (arith, c)) in
      let (flag, e6) = read_at values (i * 7 + 6) r (omega (arith, c)) in
      let (moved, em, m) = move-IsMoved i (vector px py pz) (vector vx vy vz) s l in
      let sends = add_send differ vector flag i moved in
      let m' = add_send-IsMoved flag i s moved m in
      let (s', er, rep) =
        report-IsReported i sends (omega (arith, l, m'.same_size)) (IsMoved-IsReady s sends m' h) in
      (
        s',
        rw
            (
              small_mod (i * 7) (omega (arith, b)),
              small_mod (i * 7 + 7) b,
              enough,
              e0,
              e1,
              e2,
              e3,
              e4,
              e5,
              em,
              e6,
            )
            er,
        moved-IsReported i s sends s' m' rep,
      )
    where
      enough : ltb (length values) (i * 7 + 7) ≡ false
      enough = ground (arith, c)
