-- ===== src/SimpleGateway/Session.antt =====
-- The inputs of examples/simple-gateway.cc: broadcasts and messages, in any order.
use ns3_cosim.Common.{
  suc, ℕ, zero, ◌+◌, ◌*◌, ◌%◌, ◌^◌, ◌≤◌, ◌<◌, ◌≡◌, refl, sym, ap, ◌∙◌, Bool, true, List, [], ◌∷◌,
  ◌++◌, append_assoc, append-nil, some, none, Option, Result, done, ◌>>=◌, Bytes, codes, length,
  set, get_elem?, ℤ, All, arith,
}
use ns3_cosim.Protocol.{join}
use ns3_cosim.Text.Number.{to_string}
use ns3_cosim.Gateway.{is_connected}
use ns3_cosim.SimpleGateway.{SimpleGateway, Error, handle_receive, do_update}
use ns3_cosim.TriggeredSend.{Address}
use ns3_cosim.SimpleGateway.Setup.{Installed, install_applications}
use ns3_cosim.SimpleGateway.Round.{Readable, IsReady}
use ns3_cosim.SimpleGateway.Response.{to_strings, do_update-IsResponse}
use ns3_cosim.SimpleGateway.Counts.{occurrences, handle_receive_adds}
use ns3_cosim.SimpleGateway.Tally.{tally, length-tally, get_elem?-tally, set-tally}

-- A vehicle receives a broadcast, or a message of the server arrives.
pub data Input : Type 0 where
  reception : ℕ → Input
  message : List Bytes → Input

-- The responses of `n` vehicles to the inputs behind the broadcasts `ids`.
unfoldable pub responses : ℕ → List ℕ → List Input → List Bytes
responses n ids [] = []
responses n ids (reception i ∷ inputs) = responses n (i ∷ ids) inputs
responses n ids (message values ∷ inputs) =
    (join (codes " ") (to_strings (tally n 0 ids)) ++ codes "\r\n") ∷ responses n ids inputs

-- The broadcast is received by one of `n` vehicles, and the message has seven numbers for each.
abbrev pub IsComplete : ℕ → Input → Type 0
IsComplete n (reception i) = i < n
IsComplete n (message values) = Readable values × (n * 7 ≤ length values)

abbrev pub id_at : Option Installed → Bytes
id_at none = []
id_at (some installed) = installed.receive_id

-- The vehicles are connected under their indices.
abbrev pub IsIndexed : ℕ → List Installed → Type 0
IsIndexed n installed = (i : ℕ) → i < n → id_at (get_elem? installed i) ≡ to_string i

install_applications-id_at :
    (broadcast : Address) (left i k : ℕ)
    → k < left
    → id_at (get_elem? (install_applications broadcast left i) k) ≡ to_string (i + k)
unfolding install_applications
install_applications-id_at broadcast zero i k l = absurd (omega (arith, l))
install_applications-id_at broadcast (suc left) i zero l = ap to_string (omega arith)
install_applications-id_at broadcast (suc left) i (suc k) l =
    install_applications-id_at broadcast left (suc i) k (omega (arith, l))
    ∙ ap to_string (omega arith)

pub install_applications-IsIndexed :
    (broadcast : Address) (n : ℕ) → IsIndexed n (install_applications broadcast n 0)
install_applications-IsIndexed broadcast n i l =
    install_applications-id_at broadcast n 0 i l ∙ ap to_string (omega arith)

some-same : (c d : ℕ) → some c ≡ some d → c ≡ d
some-same c d e = cc e

small_index : (n : ℕ) → n < 2 ^ 16 → n * 7 < 2 ^ 32
small_index n l = omega (arith, l)

module _ {Vector : Type 0} (differ : Vector → Vector → Bool) (vector : ℤ → ℤ → ℤ → Vector) where
  -- A broadcast reaches HandleReceive under the identifier that is installed on its vehicle, and a
  -- message reaches DoUpdate, the first one by DoInitialize.
  unfoldable pub run_inputs :
      List Installed → List Input → SimpleGateway Vector → Result Error (SimpleGateway Vector)
  run_inputs installed [] s = done s
  run_inputs installed (reception i ∷ inputs) s =
      handle_receive differ vector (id_at (get_elem? installed i)) s >>= λ s'.
      run_inputs installed inputs s'
  run_inputs installed (message values ∷ inputs) s =
      do_update differ vector values s >>= λ s'. run_inputs installed inputs s'

  -- After the broadcasts `ids`, of `n` vehicles.
  pub record IsRunning (n : ℕ) (ids : List ℕ) (s : SimpleGateway Vector) : Type 0 where
    pub ready : IsReady differ vector s
    pub counts : s.counts ≡ tally n 0 ids
    pub size : length s.vehicles ≡ n
    pub open_state : is_connected s.gateway.state ≡ true

  reception-IsRunning :
      (n i : ℕ) (ids : List ℕ) (s : SimpleGateway Vector)
      → n < 2 ^ 16
      → i < n
      → IsRunning n ids s
      → (s' : SimpleGateway Vector) × (handle_receive differ vector (to_string i) s ≡ done s')
        × IsRunning n (i ∷ ids) s'
        × (s'.sent ≡ s.sent)
  reception-IsRunning n i ids s b l h =
      let all = length-tally n 0 ids in
      let (c, e, adds) =
        handle_receive_adds differ vector i s (omega (arith, b, l))
          (omega (arith, l, ap length h.counts, all)) in
      let old : c ≡ occurrences i ids % 2 ^ 16 =
        some-same _ _ (
          sym e ∙ ap (λ l. get_elem? l i) h.counts ∙ get_elem?-tally n 0 i i ids (omega arith) l) in
      let counts : set s.counts i ((c + 1) % 2 ^ 16) ≡ tally n 0 (i ∷ ids) =
        (λ k. set (h.counts k) i ((old k + 1) % 2 ^ 16)) ∙ set-tally n 0 i i ids (omega arith) in
      (
        record s { counts = set s.counts i ((c + 1) % 2 ^ 16) },
        adds,
        record {
          ready = record {
            counted = ap length counts ∙ length-tally n 0 (i ∷ ids) ∙ sym h.size;
            sized = h.ready.sized;
            field = h.ready.field;
            message = h.ready.message;
          };
          counts = counts;
          size = h.size;
          open_state = h.open_state;
        },
        refl,
      )

  message-IsRunning :
      (n : ℕ) (ids : List ℕ) (values : List Bytes) (s : SimpleGateway Vector)
      → n < 2 ^ 16
      → IsComplete n (message values)
      → IsRunning n ids s
      → (s' : SimpleGateway Vector) × (do_update differ vector values s ≡ done s')
        × IsRunning n ids s'
        × (s'.sent
            ≡ s.sent ++ ((join (codes " ") (to_strings (tally n 0 ids)) ++ codes "\r\n") ∷ []))
  message-IsRunning n ids values s b (r, enough) h =
      let (s', e, k) =
        do_update-IsResponse differ vector values s r (small_index _ (omega (arith, b, h.size)))
          (omega (arith, enough, h.size)) h.ready h.open_state in
      (
        s',
        e,
        record {
          ready = k.ready;
          counts = k.same_counts ∙ h.counts;
          size = k.same_size ∙ h.size;
          open_state = ap is_connected k.same_state ∙ h.open_state;
        },
        k.sent
            ∙ ap (λ c. s.sent ++ ((join (codes " ") (to_strings c) ++ codes "\r\n") ∷ [])) h.counts,
      )

  pub run_inputs-responds :
      (installed : List Installed) (n : ℕ) (ids : List ℕ) (inputs : List Input)
      (s : SimpleGateway Vector)
      → IsIndexed n installed
      → n < 2 ^ 16
      → All (IsComplete n) inputs
      → IsRunning n ids s
      → (s' : SimpleGateway Vector) × (run_inputs installed inputs s ≡ done s')
        × (s'.sent ≡ s.sent ++ responses n ids inputs)
  unfolding run_inputs responses
  run_inputs-responds installed n ids [] s x b a h = (s, refl, sym (append-nil s.sent))
  run_inputs-responds installed n ids (reception i ∷ inputs) s x b (l, a) h =
      let (v, e, k, same) = reception-IsRunning n i ids s b l h in
      let (s', f, sent) = run_inputs-responds installed n (i ∷ ids) inputs v x b a k in
      (s', rw (x i l, e) f, sent ∙ ap (λ l. l ++ responses n (i ∷ ids) inputs) same)
  run_inputs-responds installed n ids (message values ∷ inputs) s x b (c, a) h =
      let (v, e, k, one) = message-IsRunning n ids values s b c h in
      let (s', f, sent) = run_inputs-responds installed n ids inputs v x b a k in
      (
        s',
        rw e f,
        sent
            ∙ ap (λ l. l ++ responses n ids inputs) one
            ∙ append_assoc s.sent _ (responses n ids inputs),
      )
