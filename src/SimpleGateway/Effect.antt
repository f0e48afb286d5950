-- ===== src/SimpleGateway/Effect.antt =====
-- SimpleGateway::DoUpdate: what one round does to the vehicles.
use ns3_cosim.Common.{
  ℕ, ◌+◌, ◌*◌, ◌^◌, ◌<◌, ◌≡◌, refl, sym, ap, ◌∙◌, inl, inr, Bool, false, List, [], ◌∷◌, ◌++◌,
  append-nil, some, done, failed, need, >>=-eq-done, need-eq-done, done-injective, Bytes, ltb,
  if◌then◌else◌, Bool-cases, length, set, get_elem?, ℤ, arith,
}
use ns3_cosim.Text.Number.{to_string}
use ns3_cosim.Gateway.{Outcome, ok, fatal, set_value}
use ns3_cosim.Mobility.{Mobility, set_velocity, do_set_position}
use ns3_cosim.SimpleGateway.{
  SimpleGateway, no_such_vehicle, from_gateway, int_at, is_set, add_send, move, report,
  update_vehicle,
}
use ns3_cosim.SimpleGateway.Round.{small_mod}

-- Whether the values tell vehicle `i` to broadcast.
abbrev pub flag_at : List Bytes → ℕ → Bool
flag_at values i = elim (int_at values (i * 7 + 6)) [ done flag ↦ is_set flag | failed e ↦ false ]

pub from_gateway-eq-done {ℓ} :
    {A : Type ℓ} {a : A} (o : Outcome A) → from_gateway o ≡ done a → o ≡ ok a
from_gateway-eq-done (ok a) h = ap ok (done-injective h)
from_gateway-eq-done (fatal e) h = cc

module _ {Vector : Type 0} (differ : Vector → Vector → Bool) (vector : ℤ → ℤ → ℤ → Vector) where
  -- The mobility model `m` of vehicle `i` became `m'`: SetPosition with the first three of its values
  -- and then SetVelocity with the next three.
  pub record IsDriven (values : List Bytes) (i : ℕ) (m m' : Mobility Vector) : Type 0 where
    pub px : ℤ
    pub py : ℤ
    pub pz : ℤ
    pub vx : ℤ
    pub vy : ℤ
    pub vz : ℤ
    pub at_px : int_at values (i * 7) ≡ done px
    pub at_py : int_at values (i * 7 + 1) ≡ done py
    pub at_pz : int_at values (i * 7 + 2) ≡ done pz
    pub at_vx : int_at values (i * 7 + 3) ≡ done vx
    pub at_vy : int_at values (i * 7 + 4) ≡ done vy
    pub at_vz : int_at values (i * 7 + 5) ≡ done vz
    pub driven :
        m' ≡ set_velocity differ (vector vx vy vz) (do_set_position differ (vector px py pz) m)

  -- The call of SetValue with the count of vehicle `i`.
  pub record IsStored (i : ℕ) (s s' : SimpleGateway Vector) : Type 0 where
    pub count : ℕ
    pub at_count : get_elem? s.counts i ≡ some count
    pub stored : set_value i (to_string count) s.gateway ≡ ok s'.gateway
    pub same_counts : s'.counts ≡ s.counts
    pub same_sent : s'.sent ≡ s.sent

  -- What one round does to the vehicles, to the calls of Send and to the gateway.
  pub record IsRound (values : List Bytes) (i : ℕ) (s s' : SimpleGateway Vector) : Type 0 where
    pub m : Mobility Vector
    pub m' : Mobility Vector
    pub found : get_elem? s.vehicles i ≡ some m
    pub is_driven : IsDriven values i m m'
    pub vehicles : s'.vehicles ≡ set s.vehicles i m'
    pub sends : s'.sends ≡ s.sends ++ (if flag_at values i then (i, 3) ∷ [] else [])
    pub reported : IsStored i s s'

  report_keeps :
      (i : ℕ) (s s' : SimpleGateway Vector)
      → report differ vector i s ≡ done s'
      → (s'.vehicles ≡ s.vehicles) × (s'.sends ≡ s.sends) × IsStored i s s'
  unfolding report
  report_keeps i s s' h =
      let (count, e, h1) = >>=-eq-done (need (get_elem? s.counts i) no_such_vehicle) _ h in
      let (g, f, h2) = >>=-eq-done (from_gateway (set_value i (to_string count) s.gateway)) _ h1 in
      let same = sym (done-injective h2) in
      (
        ap (λ s. s.vehicles) same,
        ap (λ s. s.sends) same,
        record {
          count = count;
          at_count = need-eq-done _ _ e;
          stored =
              from_gateway-eq-done (set_value i (to_string count) s.gateway) f
              ∙ ap (λ (t : SimpleGateway Vector). ok t.gateway) (sym same);
          same_counts = ap (λ s. s.counts) same;
          same_sent = ap (λ s. s.sent) same;
        },
      )

  move_moves :
      (i : ℕ) (p v : Vector) (s s' : SimpleGateway Vector)
      → move differ vector i p v s ≡ done s'
      → (m : Mobility Vector) × (get_elem? s.vehicles i ≡ some m)
        × (s' ≡ record s {
          vehicles = set s.vehicles i (set_velocity differ v (do_set_position differ p m));
        })
  unfolding move
  move_moves i p v s s' h =
      let (m, e, h1) = >>=-eq-done (need (get_elem? s.vehicles i) no_such_vehicle) _ h in
      (m, need-eq-done _ _ e, sym (done-injective h1))

  sent_vehicles :
      (flag : ℤ) (i : ℕ) (s : SimpleGateway Vector)
      → (add_send differ vector flag i s).vehicles ≡ s.vehicles
  sent_vehicles flag i s = elim (Bool-cases (is_set flag)) [ inl e ↦ rw e refl | inr e ↦ rw e refl ]

  sent_sends :
      (values : List Bytes) (flag : ℤ) (i : ℕ) (s : SimpleGateway Vector)
      → int_at values (i * 7 + 6) ≡ done flag
      → (add_send differ vector flag i s).sends
        ≡ s.sends ++ (if flag_at values i then (i, 3) ∷ [] else [])
  sent_sends values flag i s h =
      rw (h, flag_at)
        (elim (Bool-cases (is_set flag)) [
          | inl e ↦ rw e refl
          | inr e ↦ rw e (sym (append-nil s.sends))
        ])

  sent_rest :
      (flag : ℤ) (i : ℕ) (s : SimpleGateway Vector)
      → ((add_send differ vector flag i s).gateway ≡ s.gateway)
        × ((add_send differ vector flag i s).counts ≡ s.counts)
        × ((add_send differ vector flag i s).sent ≡ s.sent)
  sent_rest flag i s = elim (Bool-cases (is_set flag)) [
    | inl e ↦ (rw e refl, rw e refl, rw e refl)
    | inr e ↦ (rw e refl, rw e refl, rw e refl)
  ]

  IsStored-earlier :
      (i : ℕ) (s moved s' : SimpleGateway Vector) (vs : List (Mobility Vector)) (flag : ℤ)
      → moved ≡ record s { vehicles = vs }
      → IsStored i (add_send differ vector flag i moved) s'
      → IsStored i s s'
  IsStored-earlier i s moved s' vs flag e h =
      let (g, c, t) = sent_rest flag i moved in
      let counts = c ∙ ap (λ s. s.counts) e in
      record {
        count = h.count;
        at_count = sym (ap (λ l. get_elem? l i) counts) ∙ h.at_count;
        stored = sym (ap (set_value i (to_string h.count)) (g ∙ ap (λ s. s.gateway) e)) ∙ h.stored;
        same_counts = h.same_counts ∙ counts;
        same_sent = h.same_sent ∙ t ∙ ap (λ s. s.sent) e;
      }

  from_steps :
      (values : List Bytes) (i : ℕ) (s moved s' : SimpleGateway Vector) (p v : Vector) (flag : ℤ)
      → ((m m' : Mobility Vector)
          → m' ≡ set_velocity differ v (do_set_position differ p m)
          → IsDriven values i m m')
      → move differ vector i p v s ≡ done moved
      → int_at values (i * 7 + 6) ≡ done flag
      → report differ vector i (add_send differ vector flag i moved) ≡ done s'
      → IsRound values i s s'
  from_steps values i s moved s' p v flag is_driven em e h =
      let (m, found, as_moved) = move_moves i p v s moved em in
      let (same_vehicles, same_sends, stored) =
        report_keeps i (add_send differ vector flag i moved) s' h in
      record {
        m = m;
        m' = set_velocity differ v (do_set_position differ p m);
        found = found;
        is_driven = is_driven m _ refl;
        vehicles = same_vehicles ∙ sent_vehicles flag i moved ∙ ap (λ t. t.vehicles) as_moved;
        sends =
            same_sends
            ∙ sent_sends values flag i moved e
            ∙ ap
                (λ (t : SimpleGateway Vector).
                  t.sends ++ (if flag_at values i then (i, 3) ∷ [] else []))
                as_moved;
        reported = IsStored-earlier i s moved s' _ flag as_moved stored;
      }

  pub update_vehicle-IsRound :
      (values : List Bytes) (i : ℕ) (s s' : SimpleGateway Vector)
      → i * 7 + 7 < 2 ^ 32
      → update_vehicle differ vector i values s ≡ done s'
      → IsRound values i s s'
  unfolding update_vehicle
  update_vehicle-IsRound values i s s' b h = elim (Bool-cases (ltb (length values) (i * 7 + 7))) [
    | inl e ↦
        let short = rw (small_mod (i * 7) (omega (arith, b)), small_mod (i * 7 + 7) b, e) at h in
        cc short
    | inr e ↦
        let h0 = rw (small_mod (i * 7) (omega (arith, b)), small_mod (i * 7 + 7) b, e) at h in
        let (px, e0, h1) = >>=-eq-done (int_at values (i * 7)) _ h0 in
        let (py, e1, h2) = >>=-eq-done (int_at values (i * 7 + 1)) _ h1 in
        let (pz, e2, h3) = >>=-eq-done (int_at values (i * 7 + 2)) _ h2 in
        let (vx, e3, h4) = >>=-eq-done (int_at values (i * 7 + 3)) _ h3 in
        let (vy, e4, h5) = >>=-eq-done (int_at values (i * 7 + 4)) _ h4 in
        let (vz, e5, h6) = >>=-eq-done (int_at values (i * 7 + 5)) _ h5 in
        let (moved, em, h7) =
          >>=-eq-done (move differ vector i (vector px py pz) (vector vx vy vz) s) _ h6 in
        let (flag, e6, h8) = >>=-eq-done (int_at values (i * 7 + 6)) _ h7 in
        from_steps values i s moved s' (vector px py pz) (vector vx vy vz) flag
          (λ m m' e. record {
            px = px;
            py = py;
            pz = pz;
            vx = vx;
            vy = vy;
            vz = vz;
            at_px = e0;
            at_py = e1;
            at_pz = e2;
            at_vx = e3;
            at_vy = e4;
            at_vz = e5;
            driven = e;
          })
          em e6 h8
  ]
