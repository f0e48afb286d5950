-- ===== src/SimpleGateway/Response.antt =====
-- SimpleGateway::DoUpdate: the response to a message.
use ns3_cosim.Common.{
  ℕ, zero, suc, ◌+◌, ◌*◌, ◌^◌, ◌≤◌, ◌<◌, ◌≡◌, ◌≢◌, refl, sym, ap, subst, ◌∙◌, inl, inr, Bool, true,
  List, [], ◌∷◌, ◌++◌, some, done, Bytes, codes, ◌==◌, Bool-cases, length, get_elem?, length-set,
  get_elem?-set_self, get_elem?-set_ne, ==_iff, ℤ, arith,
}
use ns3_cosim.Protocol.{join}
use ns3_cosim.Text.Number.{to_string}
use ns3_cosim.Gateway.{is_connected, send_response}
use ns3_cosim.SimpleGateway.{SimpleGateway, update_loop, do_update}
use ns3_cosim.SimpleGateway.Round.{Readable, IsReady, IsReported, vehicle-IsReported}

-- Lists of one length with the same elements are equal.
same_elements {ℓ} :
    {A : Type ℓ} (xs ys : List A)
    → length xs ≡ length ys
    → ((j : ℕ) → j < length xs → get_elem? xs j ≡ get_elem? ys j)
    → xs ≡ ys
same_elements [] [] l h = refl
same_elements [] (y ∷ ys) l h = absurd (omega (arith, l))
same_elements (x ∷ xs) [] l h = absurd (omega (arith, l))
same_elements (x ∷ xs) (y ∷ ys) l h = cc (
  h 0 (omega arith),
  same_elements xs ys (omega (arith, l)) (λ j k. h (suc j) (omega (arith, k))),
)

abbrev pub to_strings : List ℕ → List Bytes
to_strings [] = []
to_strings (c ∷ cs) = to_string c ∷ to_strings cs

get_elem?-to_strings :
    (cs : List ℕ) (i c : ℕ)
    → get_elem? cs i ≡ some c
    → get_elem? (to_strings cs) i ≡ some (to_string c)
get_elem?-to_strings [] i c h = cc
get_elem?-to_strings (x ∷ cs) zero c h = cc h
get_elem?-to_strings (x ∷ cs) (suc i) c h = get_elem?-to_strings cs i c h

length-to_strings : (cs : List ℕ) → length (to_strings cs) ≡ length cs
length-to_strings [] = refl
length-to_strings (c ∷ cs) = ap suc (length-to_strings cs)

module _ {Vector : Type 0} (differ : Vector → Vector → Bool) (vector : ℤ → ℤ → ℤ → Vector) where
  -- The values below `i` are the counts.
  abbrev IsUpTo : ℕ → SimpleGateway Vector → Type 0
  IsUpTo i s = (j : ℕ) → j < i → get_elem? s.gateway.values j ≡ get_elem? (to_strings s.counts) j

  record IsLooped (n : ℕ) (s s' : SimpleGateway Vector) : Type 0 where
    same_counts : s'.counts ≡ s.counts
    same_sent : s'.sent ≡ s.sent
    same_state : s'.gateway.state ≡ s.gateway.state
    ready : IsReady differ vector s'
    up_to : IsUpTo n s'
    same_size : length s'.vehicles ≡ length s.vehicles

  IsReported-IsReady :
      (i : ℕ) (s s' : SimpleGateway Vector)
      → IsReported differ vector i s s'
      → IsReady differ vector s
      → IsReady differ vector s'
  IsReported-IsReady i s s' m h = record {
    counted = omega (arith, ap length m.same_counts, m.same_size, h.counted);
    sized =
        ap (λ g. length g.values) m.changed
        ∙ length-set s.gateway.values i _
        ∙ h.sized
        ∙ sym m.same_size;
    field = ap (λ g. g.delimiter_field) m.changed ∙ h.field;
    message = ap (λ g. g.delimiter_message) m.changed ∙ h.message;
  }

  IsReported-IsUpTo :
      (i : ℕ) (s s' : SimpleGateway Vector)
      → i < length s.gateway.values
      → IsReported differ vector i s s'
      → IsUpTo i s
      → IsUpTo (suc i) s'
  IsReported-IsUpTo i s s' l m h j k = elim (Bool-cases (i == j)) [
    | inl e ↦
        subst (λ j. get_elem? s'.gateway.values j ≡ get_elem? (to_strings s'.counts) j)
          ((==_iff i j).0 e)
          (ap (λ g. get_elem? g.values i) m.changed
            ∙ get_elem?-set_self s.gateway.values i (to_string m.count) l
            ∙ sym (get_elem?-to_strings s.counts i m.count m.at_count)
            ∙ ap (λ c. get_elem? (to_strings c) i) (sym m.same_counts))
    | inr e ↦
        let ne : i ≢ j = λ q. cc ((==_iff i j).1 q) in
        ap (λ g. get_elem? g.values j) m.changed
        ∙ get_elem?-set_ne s.gateway.values (to_string m.count) ne
        ∙ h j (omega (arith, k, ne))
        ∙ ap (λ c. get_elem? (to_strings c) j) (sym m.same_counts)
  ]

  loop-IsLooped :
      (left i : ℕ) (values : List Bytes) (s : SimpleGateway Vector)
      → Readable values
      → (i + left) * 7 < 2 ^ 32
      → (i + left) * 7 ≤ length values
      → i + left ≡ length s.vehicles
      → IsReady differ vector s
      → IsUpTo i s
      → (s' : SimpleGateway Vector) × (update_loop differ vector left i values s ≡ done s')
        × IsLooped (i + left) s s'
  unfolding update_loop
  loop-IsLooped zero i values s r b c l h u = (
    s,
    refl,
    record {
      same_counts = refl;
      same_sent = refl;
      same_state = refl;
      ready = h;
      up_to = λ j k. u j (omega (arith, k));
      same_size = refl;
    },
  )
  loop-IsLooped (suc left) i values s r b c l h u =
      let (v, e, m) =
        vehicle-IsReported differ vector i values s r (omega (arith, b)) (omega (arith, c))
          (omega (arith, l)) h in
      let (s', e', k) =
        loop-IsLooped left (suc i) values v r (omega (arith, b)) (omega (arith, c))
          (omega (arith, l, m.same_size)) (IsReported-IsReady i s v m h)
          (IsReported-IsUpTo i s v (omega (arith, l, h.sized)) m u) in
      (
        s',
        rw e e',
        record {
          same_counts = k.same_counts ∙ m.same_counts;
          same_sent = k.same_sent ∙ m.same_sent;
          same_state = k.same_state ∙ ap (λ g. g.state) m.changed;
          ready = k.ready;
          up_to = λ j q. k.up_to j (omega (arith, q));
          same_size = k.same_size ∙ m.same_size;
        },
      )

  -- What DoUpdate keeps, and the response that it sends.
  pub record IsResponse (s s' : SimpleGateway Vector) : Type 0 where
    pub ready : IsReady differ vector s'
    pub same_counts : s'.counts ≡ s.counts
    pub same_state : s'.gateway.state ≡ s.gateway.state
    pub same_size : length s'.vehicles ≡ length s.vehicles
    pub sent : s'.sent ≡ s.sent ++ ((join (codes " ") (to_strings s.counts) ++ codes "\r\n") ∷ [])

  pub do_update-IsResponse :
      (values : List Bytes) (s : SimpleGateway Vector)
      → Readable values
      → length s.vehicles * 7 < 2 ^ 32
      → length s.vehicles * 7 ≤ length values
      → IsReady differ vector s
      → is_connected s.gateway.state ≡ true
      → (s' : SimpleGateway Vector) × (do_update differ vector values s ≡ done s') × IsResponse s s'
  unfolding do_update send_response
  do_update-IsResponse values s r b c h con =
      let (v, e, k) =
        loop-IsLooped (length s.vehicles) 0 values s r (omega (arith, b)) (omega (arith, c))
          (omega arith) h (λ j q. absurd (omega (arith, q))) in
      let all_values =
        same_elements v.gateway.values (to_strings v.counts)
          (omega (arith, k.ready.sized, k.ready.counted, length-to_strings v.counts))
          (λ j q. k.up_to j (omega (arith, q, k.ready.sized, k.same_size)))
        ∙ ap to_strings k.same_counts in
      let state = ap is_connected k.same_state ∙ con in
      (
        record v {
          sent = v.sent ++ ((join (codes " ") (to_strings s.counts) ++ codes "\r\n") ∷ []);
        },
        rw (e, state, k.ready.field, k.ready.message, all_values) refl,
        record {
          ready = record {
            counted = k.ready.counted;
            sized = k.ready.sized;
            field = k.ready.field;
            message = k.ready.message;
          };
          same_counts = k.same_counts;
          same_state = k.same_state;
          same_size = k.same_size;
          sent =
              ap (λ l. l ++ ((join (codes " ") (to_strings s.counts) ++ codes "\r\n") ∷ []))
                k.same_sent;
        },
      )

  -- DoUpdate on a message with seven numbers for each vehicle returns, and sends one response: the
  -- number of broadcasts that each vehicle has received, in order, between the default delimiters. There
  -- is one count and one value for each vehicle, the gateway is connected, every value of the message
  -- is readable as an int, and there are so few vehicles that the index does not wrap around.
  pub do_update_responds :
      (values : List Bytes) (s : SimpleGateway Vector)
      → Readable values
      → length s.vehicles * 7 < 2 ^ 32
      → length s.vehicles * 7 ≤ length values
      → IsReady differ vector s
      → is_connected s.gateway.state ≡ true
      → (s' : SimpleGateway Vector) × (do_update differ vector values s ≡ done s')
        × (s'.sent ≡ s.sent ++ ((join (codes " ") (to_strings s.counts) ++ codes "\r\n") ∷ []))
  do_update_responds values s r b c h con =
      let (s', e, k) = do_update-IsResponse values s r b c h con in (s', e, k.sent)
