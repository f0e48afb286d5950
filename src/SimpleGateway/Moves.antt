-- ===== src/SimpleGateway/Moves.antt =====
-- SimpleGateway::DoUpdate: what becomes of the vehicles.
use ns3_cosim.Common.{
  ℕ, zero, suc, ◌+◌, ◌*◌, ◌^◌, ◌≤◌, ◌<◌, ◌≡◌, ◌≢◌, refl, sym, ap, subst, ◌∙◌, inl, inr, Bool, true,
  List, [], ◌∷◌, ◌++◌, append-nil, append_assoc, some, done, >>=-eq-done, done-injective, Bytes,
  ◌==◌, ==_iff, if◌then◌else◌, Bool-cases, length, get_elem?, length-set, get_elem?-set_self,
  get_elem?-set_ne, ℤ, arith,
}
use ns3_cosim.Gateway.{is_connected, send_response}
use ns3_cosim.Mobility.{Mobility}
use ns3_cosim.SimpleGateway.{SimpleGateway, from_gateway, update_vehicle, update_loop, do_update}
use ns3_cosim.SimpleGateway.Round.{Readable, IsReady}
use ns3_cosim.SimpleGateway.Response.{do_update_responds}
use ns3_cosim.SimpleGateway.Effect.{flag_at, IsDriven, IsRound, update_vehicle-IsRound}

-- The calls of Send, with three packets each, of the vehicles from `i` on.
abbrev pub broadcasts : List Bytes → ℕ → ℕ → List (ℕ × ℕ)
broadcasts values zero i = []
broadcasts values (suc left) i =
    (if flag_at values i then (i, 3) ∷ [] else []) ++ broadcasts values left (suc i)

pub some-bound {ℓ} :
    {A : Type ℓ} (xs : List A) (i : ℕ) (x : A) → get_elem? xs i ≡ some x → i < length xs
some-bound [] i x h = cc
some-bound (y ∷ xs) zero x h = omega arith
some-bound (y ∷ xs) (suc i) x h = omega (arith, some-bound xs i x h)

module _ {Vector : Type 0} (differ : Vector → Vector → Bool) (vector : ℤ → ℤ → ℤ → Vector) where
  -- What the loop does from vehicle `i` on, up to vehicle `n`.
  record IsLoop (values : List Bytes) (i n : ℕ) (s s' : SimpleGateway Vector) : Type 0 where
    same_size : length s'.vehicles ≡ length s.vehicles
    before : (j : ℕ) → j < i → get_elem? s'.vehicles j ≡ get_elem? s.vehicles j
    all_driven :
        (j : ℕ)
        → i ≤ j
        → j < n
        → (m : Mobility Vector) × (m' : Mobility Vector) × (get_elem? s.vehicles j ≡ some m)
          × (get_elem? s'.vehicles j ≡ some m')
          × IsDriven differ vector values j m m'

  round-IsLoop :
      (values : List Bytes) (i n : ℕ) (s v s' : SimpleGateway Vector)
      → IsRound differ vector values i s v
      → IsLoop values (suc i) n v s'
      → IsLoop values i n s s'
  round-IsLoop values i n s v s' r k = record {
    same_size = k.same_size ∙ ap length r.vehicles ∙ length-set s.vehicles i r.m';
    before = λ j l. k.before j (omega (arith, l)) ∙ other j (λ e. absurd (omega (arith, l, e)));
    all_driven = λ j l b. elim (Bool-cases (i == j)) [
      | inl e ↦
          subst
            (λ j.
              (m : Mobility Vector) × (m' : Mobility Vector) × (get_elem? s.vehicles j ≡ some m)
              × (get_elem? s'.vehicles j ≡ some m')
              × IsDriven differ vector values j m m')
            ((==_iff i j).0 e)
            (
              r.m,
              r.m',
              r.found,
              k.before i (omega arith)
                  ∙ ap (λ l. get_elem? l i) r.vehicles
                  ∙ get_elem?-set_self s.vehicles i r.m' (some-bound s.vehicles i r.m r.found),
              r.is_driven,
            )
      | inr e ↦
          let ne : i ≢ j = λ q. cc ((==_iff i j).1 q) in
          let (m, m', f, f', d) = k.all_driven j (omega (arith, l, ne)) b in
          (m, m', sym (other j ne) ∙ f, f', d)
    ];
  }
    where
      other : (j : ℕ) → i ≢ j → get_elem? v.vehicles j ≡ get_elem? s.vehicles j
      other j ne = ap (λ l. get_elem? l j) r.vehicles ∙ get_elem?-set_ne s.vehicles r.m' ne

  update_loop-IsLoop :
      (left i : ℕ) (values : List Bytes) (s s' : SimpleGateway Vector)
      → (i + left) * 7 < 2 ^ 32
      → update_loop differ vector left i values s ≡ done s'
      → IsLoop values i (i + left) s s' × (s'.sends ≡ s.sends ++ broadcasts values left i)
  unfolding update_loop
  update_loop-IsLoop zero i values s s' b h =
      subst (λ (t : SimpleGateway Vector). IsLoop values i (i + 0) s t × (t.sends ≡ s.sends ++ []))
        (done-injective h)
        (
          record {
            same_size = refl;
            before = λ j l. refl;
            all_driven = λ j l b. absurd (omega (arith, l, b));
          },
          sym (append-nil s.sends),
        )
  update_loop-IsLoop (suc left) i values s s' b h =
      let (v, e, h1) = >>=-eq-done (update_vehicle differ vector i values s) _ h in
      let r = update_vehicle-IsRound differ vector values i s v (omega (arith, b)) e in
      let (k, sends) = update_loop-IsLoop left (suc i) values v s' (omega (arith, b)) h1 in
      let bound : suc i + left ≡ i + suc left = omega arith in
      (
        subst (λ n. IsLoop values i n s s') bound (round-IsLoop values i (suc i + left) s v s' r k),
        sends
            ∙ ap (λ l. l ++ broadcasts values left (suc i)) r.sends
            ∙ append_assoc s.sends _ (broadcasts values left (suc i)),
      )

  -- Each vehicle was driven by its seven values.
  abbrev pub AllDriven : List Bytes → SimpleGateway Vector → SimpleGateway Vector → Type 0
  AllDriven values s s' =
      (j : ℕ)
      → j < length s.vehicles
      → (m : Mobility Vector) × (m' : Mobility Vector) × (get_elem? s.vehicles j ≡ some m)
        × (get_elem? s'.vehicles j ≡ some m')
        × IsDriven differ vector values j m m'

  do_update-loop :
      (values : List Bytes) (s s' : SimpleGateway Vector)
      → do_update differ vector values s ≡ done s'
      → (v : SimpleGateway Vector) × (update_loop differ vector (length s.vehicles) 0 values s
          ≡ done v)
        × (s'.vehicles ≡ v.vehicles)
        × (s'.sends ≡ v.sends)
  unfolding do_update
  do_update-loop values s s' h =
      let (v, e, h1) = >>=-eq-done (update_loop differ vector (length s.vehicles) 0 values s) _ h in
      let (message, f, h2) = >>=-eq-done (from_gateway (send_response v.gateway)) _ h1 in
      let same = done-injective h2 in
      (v, e, sym (ap (λ s. s.vehicles) same), sym (ap (λ s. s.sends) same))

  pub do_update-AllDriven :
      (values : List Bytes) (s s' : SimpleGateway Vector)
      → length s.vehicles * 7 < 2 ^ 32
      → do_update differ vector values s ≡ done s'
      → (length s'.vehicles ≡ length s.vehicles)
        × AllDriven values s s'
        × (s'.sends ≡ s.sends ++ broadcasts values (length s.vehicles) 0)
  do_update-AllDriven values s s' b e =
      let (v, f, vehicles, sends) = do_update-loop values s s' e in
      let (k, calls) = update_loop-IsLoop (length s.vehicles) 0 values s v (omega (arith, b)) f in
      (
        ap length vehicles ∙ k.same_size,
        subst
            (λ (vs : List (Mobility Vector)).
              (j : ℕ)
              → j < length s.vehicles
              → (m : Mobility Vector) × (m' : Mobility Vector) × (get_elem? s.vehicles j ≡ some m)
                × (get_elem? vs j ≡ some m')
                × IsDriven differ vector values j m m')
            (sym vehicles) (λ j l. k.all_driven j (omega arith) (omega (arith, l))),
        sends ∙ calls,
      )

  -- DoUpdate on a message with seven numbers for each vehicle returns, and moves every vehicle by its own
  -- seven: it sets the position, given by the first three, and then the velocity, given by the next
  -- three; and it calls Send with three packets exactly for the vehicles whose seventh value is not 0, in order. No
  -- vehicle appears or disappears. There is one count and one value for each vehicle, the gateway is
  -- connected, every value of the message is readable as an int, there are seven for each vehicle, and
  -- there are so few vehicles that the index does not wrap around.
  pub do_update_moves :
      (values : List Bytes) (s : SimpleGateway Vector)
      → Readable values
      → length s.vehicles * 7 < 2 ^ 32
      → length s.vehicles * 7 ≤ length values
      → IsReady differ vector s
      → is_connected s.gateway.state ≡ true
      → (s' : SimpleGateway Vector) × (do_update differ vector values s ≡ done s')
        × (length s'.vehicles ≡ length s.vehicles)
        × AllDriven values s s'
        × (s'.sends ≡ s.sends ++ broadcasts values (length s.vehicles) 0)
  do_update_moves values s r b c h con =
      let (s', e, sent) = do_update_responds differ vector values s r b c h con in
      let (size, d, sends) = do_update-AllDriven values s s' b e in (s', e, size, d, sends)
