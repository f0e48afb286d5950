-- ===== src/Server/Message.antt =====
-- What a gateway reads from the messages of the server.
use ns3_cosim.Common.{
  ℕ, suc, ◌+◌, ◌^◌, ◌<◌, ◌≡◌, refl, sym, ap, ◌∙◌, List, [], ◌∷◌, ◌++◌, Bytes, codes, arith,
  append_assoc, append-nil, none, some, true, ℤ, pos, ◌+ℤ◌, length, take, take-length-append, All,
}
use ns3_cosim.Text.{find, starts_with}
use ns3_cosim.Text.Border.{unbordered, Disjoint}
use ns3_cosim.Text.Number.{to_string, stoi, stol}
use ns3_cosim.Text.Decimal.{find-IsDigits, to_string-IsDigits, stoi-to_string, Reads}
use ns3_cosim.Protocol.{join}
use ns3_cosim.Protocol.Split.{joined-behind, join-joined, behind, Lacks}
use ns3_cosim.Protocol.RoundTrip.{split-join, find-join, joined-Lacks}
use ns3_cosim.Simulator.{Simulator}
use ns3_cosim.Gateway.{Call, ok}
use ns3_cosim.Gateway.Handlers.{read_header, timestamp}
use ns3_cosim.CoSim.Contract.{header}
use ns3_cosim.Server.{Node, add_node, add_nodes, next_message}

abbrev pub space : Bytes
space = codes " "

abbrev pub crlf : Bytes
crlf = codes "\r\n"

abbrev pub zeros : Bytes
zeros = codes "0"

-- The seven values of a node, and the numbers in them.
abbrev pub node_values : ℕ → Node → List Bytes
node_values n v =
    to_string v.position
    ∷ to_string n
    ∷ zeros
    ∷ to_string v.velocity
    ∷ zeros
    ∷ zeros
    ∷ to_string v.broadcast
    ∷ []

abbrev pub nodes_values : ℕ → List Node → List Bytes
nodes_values n [] = []
nodes_values n (v ∷ vs) = node_values n v ++ nodes_values (suc n) vs

abbrev pub node_numbers : ℕ → Node → List ℤ
node_numbers n v =
    pos v.position ∷ pos n ∷ pos 0 ∷ pos v.velocity ∷ pos 0 ∷ pos 0 ∷ pos v.broadcast ∷ []

abbrev pub nodes_numbers : ℕ → List Node → List ℤ
nodes_numbers n [] = []
nodes_numbers n (v ∷ vs) = node_numbers n v ++ nodes_numbers (suc n) vs

-- Each fits a uint16_t.
pub record IsNode (v : Node) : Type 0 where
  pub velocity : v.velocity < 2 ^ 16
  pub position : v.position < 2 ^ 16
  pub broadcast : v.broadcast < 2 ^ 16

-- A message without the delimiter behind it.
unfoldable pub message_body : ℕ → List Node → Bytes
message_body time vs = join space (to_string time ∷ zeros ∷ nodes_values 0 vs)

add_nodes-behind :
    (n : ℕ) (vs : List Node) (m : Bytes) → add_nodes n vs m ≡ m ++ behind space (nodes_values n vs)
unfolding add_nodes
add_nodes-behind n [] m = sym (append-nil m)
add_nodes-behind n (v ∷ vs) m = add_nodes-behind (suc n) vs (add_node n v m) ∙ simp append_assoc

pub next_message-body :
    (time : ℕ) (vs : List Node) → next_message time vs ≡ message_body time vs ++ crlf
unfolding next_message message_body
next_message-body time vs =
    ap (λ m. m ++ crlf)
      (add_nodes-behind 0 vs (to_string time ++ codes " 0")
        ∙ append_assoc (to_string time) (codes " 0") (behind space (nodes_values 0 vs))
        ∙ sym (joined-behind space (to_string time) (zeros ∷ nodes_values 0 vs))
        ∙ sym (join-joined space (to_string time ∷ zeros ∷ nodes_values 0 vs)))

-- The values are numbers in decimal.
IsNumber : Bytes → Type 0
IsNumber d = (k : ℕ) × (d ≡ to_string k)

number : (k : ℕ) → IsNumber (to_string k)
unfolding IsNumber
number k = (k, refl)

zeros-to_string : zeros ≡ to_string 0
unfolding to_string
zeros-to_string = refl

zeros-IsNumber : IsNumber zeros
unfolding IsNumber
zeros-IsNumber = (0, zeros-to_string)

values-IsNumber : (n : ℕ) (vs : List Node) → All IsNumber (nodes_values n vs)
values-IsNumber n [] = tt
values-IsNumber n (v ∷ vs) = (
  number v.position,
  (
    number n,
    (
      zeros-IsNumber,
      (
        number v.velocity,
        (zeros-IsNumber, (zeros-IsNumber, (number v.broadcast, values-IsNumber (suc n) vs))),
      ),
    ),
  ),
)

-- So they hold no byte below the digits.
numbers-Lacks : (c : ℕ) (d : Bytes) (vs : List Bytes) → c < 48 → All IsNumber vs → Lacks (c ∷ d) vs
unfolding IsNumber
numbers-Lacks c d [] l h = tt
numbers-Lacks c d (v ∷ vs) l h = (
  ap (find (c ∷ d)) h.0.1 ∙ find-IsDigits c d (to_string h.0.0) l (to_string-IsDigits h.0.0),
  numbers-Lacks c d vs l h.1,
)

small : (k : ℕ) → k < 2 ^ 16 → stoi (to_string k) ≡ some (pos k)
small k l = stoi-to_string k (omega (arith, l))

read_zeros : stoi zeros ≡ some (pos 0)
unfolding stoi
read_zeros = refl

pub values-Reads :
    (n : ℕ) (vs : List Node)
    → n + length vs < 2 ^ 16
    → All IsNode vs
    → Reads (nodes_numbers n vs) (nodes_values n vs)
values-Reads n [] l h = tt
values-Reads n (v ∷ vs) l h = (
  small v.position h.0.position,
  (
    small n (omega (arith, l)),
    (
      read_zeros,
      (
        small v.velocity h.0.velocity,
        (
          read_zeros,
          (
            read_zeros,
            (small v.broadcast h.0.broadcast, values-Reads (suc n) vs (omega (arith, l)) h.1),
          ),
        ),
      ),
    ),
  ),
)

stol-zeros : stol zeros ≡ some (pos 0)
unfolding stol
stol-zeros = refl

pub crlf-unbordered : unbordered crlf ≡ true
unfolding unbordered starts_with
crlf-unbordered = refl

space-unbordered : unbordered space ≡ true
unfolding unbordered starts_with
space-unbordered = refl

crlf-Disjoint : Disjoint crlf space
crlf-Disjoint = (((λ e. cc), ((λ e. cc), tt)), tt)

message_numbers :
    (time : ℕ) (vs : List Node) → All IsNumber (to_string time ∷ zeros ∷ nodes_values 0 vs)
message_numbers time vs = (number time, (zeros-IsNumber, values-IsNumber 0 vs))

pub message_body-Lacks : (time : ℕ) (vs : List Node) → find crlf (message_body time vs) ≡ none
unfolding message_body
message_body-Lacks time vs =
    ap (find crlf) (join-joined space (to_string time ∷ zeros ∷ nodes_values 0 vs))
    ∙ joined-Lacks crlf space (to_string time) (zeros ∷ nodes_values 0 vs) crlf-Disjoint (λ q. cc)
        (λ q. cc)
        (numbers-Lacks 13 (10 ∷ []) (to_string time ∷ zeros ∷ nodes_values 0 vs) (omega arith)
          (message_numbers time vs))

module _ (S : Simulator Call) where
  -- The timestamp of the server, which gives no nanoseconds.
  abbrev pub stamp : ℕ → ℤ
  stamp time = S.seconds (pos time) +ℤ S.nano_seconds (pos 0)

  pub header-message_body :
      (time : ℕ) (vs : List Node)
      → time < 2 ^ 31
      → header S space (message_body time vs) ≡ ok (stamp time, nodes_values 0 vs)
  unfolding message_body read_header timestamp
  header-message_body time vs l =
      let cut = split-join space (to_string time) (zeros ∷ nodes_values 0 vs) space-unbordered (
        numbers-Lacks 32 [] (to_string time ∷ zeros ∷ nodes_values 0 vs) (omega arith)
          (message_numbers time vs)) in
      rw (cut, stoi-to_string time l, stol-zeros) refl

  -- At the head of a stream the gateway finds the message of an iteration, cuts it off and reads the
  -- time of the server, in seconds, and then, for each node, the position (x, number of the node, 0),
  -- the velocity (v, 0, 0) and the number which says whether to broadcast, all as std::stoi reads
  -- them. The time is below 2^31, and the nodes and their entries are below 2^16.
  pub next_message_read :
      (time : ℕ) (vs : List Node) (rest : Bytes)
      → time < 2 ^ 31
      → length vs < 2 ^ 16
      → All IsNode vs
      → (i : ℕ) × (find crlf (next_message time vs ++ rest) ≡ some i)
        × (header S space (take i (next_message time vs ++ rest))
            ≡ ok (stamp time, nodes_values 0 vs))
        × Reads (nodes_numbers 0 vs) (nodes_values 0 vs)
  unfolding message_body
  next_message_read time vs rest l n h =
      let m = message_body time vs in
      let e : next_message time vs ++ rest ≡ m ++ (crlf ++ rest) =
        ap (λ m. m ++ rest) (next_message-body time vs) ∙ append_assoc m crlf rest in
      let whole =
        find-join crlf space (to_string time) (zeros ∷ nodes_values 0 vs) rest crlf-unbordered
          (λ q. cc) crlf-Disjoint
          (numbers-Lacks 13 (10 ∷ []) (to_string time ∷ zeros ∷ nodes_values 0 vs) (omega arith)
            (message_numbers time vs)) in
      (
        length m,
        ap (find crlf) e ∙ whole,
        ap (λ t. header S space (take (length m) t)) e
            ∙ ap (header S space) (take-length-append m (crlf ++ rest))
            ∙ header-message_body time vs l,
        values-Reads 0 vs (omega (arith, n)) h,
      )
