-- ===== src/Server.antt =====
-- examples/simple-gateway-server.cc: the server that drives the example of
-- examples/simple-gateway.cc. What the calls of the socket functions return and what std::rand gives are
-- arguments. The entries of the vectors xVelocity, xPosition and broadcast with one
-- index are one `Node`.
pub mod Message
pub mod Movement
pub mod Run
pub mod Bodies
pub mod Drive
mod Tests
use ns3_cosim.Common.{
  ℕ, zero, suc, ◌+◌, ◌-◌, ◌*◌, ◌%◌, ◌^◌, Bool, true, false, List, [], ◌∷◌, ◌++◌, Bytes, codes, ◌==◌,
  if◌then◌else◌, ℤ, pos, negsuc, Result, done, failed, ◌>>=◌, ◌>>◌, replicate,
}
use ns3_cosim.Text.Number.{to_string}

pub record Node : Type 0 where
  pub velocity : ℕ
  pub position : ℕ
  pub broadcast : ℕ

-- The options of the command line, each with its default in `defaults`.
pub record Config : Type 0 where
  pub time_start : ℕ
  pub time_delta : ℕ
  pub iterations : ℕ
  pub number_of_nodes : ℕ
  pub position_delta : ℕ

abbrev pub defaults : Config
defaults = record {
  time_start = 0;
  time_delta = 1;
  iterations = 20;
  number_of_nodes = 3;
  position_delta = 25;
}

pub data Error : Type 0 where
  socket_failed option_failed bind_failed listen_failed accept_failed : Error
  send_failed receive_failed division_by_zero : Error

-- What the calls of ::socket, ::setsockopt, ::bind, ::listen and ::accept return.
pub record Sockets : Type 0 where
  pub socket_result : ℤ
  pub option_result : ℤ
  pub bind_result : ℤ
  pub listen_result : ℤ
  pub accept_result : ℤ

-- What the calls of ::send and ::recv return in one iteration; the last one is the ::send of the
-- terminate message.
pub record Replies : Type 0 where
  pub sending : ℤ
  pub receiving : ℤ
  pub terminating : ℤ

-- `sent` is what was handed to ::send.
pub record Server (Rand : Type 0) : Type 0 where
  pub nodes : List Node
  pub rand_state : Rand
  pub sent : List Bytes

-- How an iteration ends.
pub data Next (Rand : Type 0) : Type 0 where
  again : Server Rand → Next Rand
  leave : Server Rand → Next Rand

-- uint32_t timeNow
abbrev pub time_now : Config → ℕ → ℕ
time_now c i = (c.time_start + (c.time_delta * i) % 2 ^ 32) % 2 ^ 32

abbrev pub add_node : ℕ → Node → Bytes → Bytes
add_node n v message =
    let with_position =
      message
      ++ (codes " " ++ (to_string v.position ++ (codes " " ++ (to_string n ++ codes " 0")))) in
    let with_velocity = with_position ++ (codes " " ++ (to_string v.velocity ++ codes " 0 0")) in
    with_velocity ++ (codes " " ++ to_string v.broadcast)

unfoldable pub add_nodes : ℕ → List Node → Bytes → Bytes
add_nodes n [] message = message
add_nodes n (v ∷ vs) message = add_nodes (suc n) vs (add_node n v message)

-- The message of an iteration.
unfoldable pub next_message : ℕ → List Node → Bytes
unfolding add_nodes
next_message time nodes = add_nodes 0 nodes (to_string time ++ codes " 0") ++ codes "\r\n"

abbrev pub terminate_message : Bytes
terminate_message = codes "-1 0\r\n"

-- -1 is the result on an error.
abbrev pub is_error : ℤ → Bool
is_error (pos n) = false
is_error (negsuc zero) = true
is_error (negsuc (suc n)) = false

-- 0 is the result of ::recv when the client has closed the connection.
abbrev pub is_closed : ℤ → Bool
is_closed (pos zero) = true
is_closed (pos (suc n)) = false
is_closed (negsuc n) = false

-- `if (test) { NS_FATAL_ERROR(...); }`
abbrev pub refuse : Bool → Error → Result Error (Unit {0})
refuse true e = failed e
refuse false e = done tt

-- The connection: the server socket, and the client that it accepts.
unfoldable pub accept_client : Sockets → Result Error (Unit {0})
accept_client r = do
  refuse (is_error r.socket_result) socket_failed
  refuse (is_error r.option_result) option_failed
  refuse (is_error r.bind_result) bind_failed
  refuse (is_error r.listen_result) listen_failed
  refuse (is_error r.accept_result) accept_failed

-- `initial` is the state of std::rand behind std::srand.
module _ {Rand : Type 0} (rand : Rand → ℕ × Rand) (c : Config) where
  -- The body of the loop that simulates the movement; a uint16_t wraps around. The second number is
  -- drawn in every fifth iteration only.
  abbrev pub move_node : ℕ → Node → Rand → Node × Rand
  move_node i v g =
      let velocity = ((rand g).0 % c.position_delta + 1) % 2 ^ 16 in
      let drawn = rand (rand g).1 in
      let may_send = i % 5 == 0 in
      (
        record {
          velocity = velocity;
          position = (v.position + velocity) % 2 ^ 16;
          broadcast = if may_send then (if drawn.0 % 2 == 0 then 1 else 0) else 0;
        },
        if may_send then drawn.1 else (rand g).1,
      )

  -- A remainder by zero ends the program.
  unfoldable pub move_nodes : ℕ → List Node → Rand → Result Error (List Node × Rand)
  move_nodes i [] g = done ([], g)
  move_nodes i (v ∷ vs) g = do
    refuse (c.position_delta == 0) division_by_zero
    moved ← move_nodes i vs (move_node i v g).1
    done ((move_node i v g).0 ∷ moved.0, moved.1)

  -- The two branches on the last iteration.
  abbrev pub terminate : ℤ → Server Rand → Result Error (Next Rand)
  terminate terminating s = do
    refuse (is_error terminating) send_failed
    done (again (record s { sent = s.sent ++ (terminate_message ∷ []) }))

  abbrev pub simulate : ℕ → Server Rand → Result Error (Next Rand)
  simulate i s = do
    moved ← move_nodes i s.nodes s.rand_state
    done (again (record s { nodes = moved.0; rand_state = moved.1 }))

  -- Behind the response.
  unfoldable pub answered : ℕ → Replies → Server Rand → Result Error (Next Rand)
  answered i r s =
      if is_closed r.receiving
      then done (leave s)
      else if i == c.iterations - 1
      then terminate r.terminating s
      else simulate i s

  -- The body of the loop.
  unfoldable pub iteration : ℕ → Replies → Server Rand → Result Error (Next Rand)
  unfolding answered next_message
  iteration i r s = do
    refuse (is_error r.sending) send_failed
    refuse (is_error r.receiving) receive_failed
    answered i r (record s { sent = s.sent ++ (next_message (time_now c i) s.nodes ∷ []) })

  abbrev pub proceed :
      Next Rand → (Server Rand → Result Error (Server Rand)) → Result Error (Server Rand)
  proceed (leave s) continue = done s
  proceed (again s) continue = continue s

  unfoldable pub loop : (ℕ → Replies) → ℕ → ℕ → Server Rand → Result Error (Server Rand)
  unfolding iteration
  loop replies zero i s = done s
  loop replies (suc left) i s =
      iteration i (replies i) s >>= λ n. proceed n (loop replies left (suc i))

  -- The message protocol of `main`; the loop makes c.iterations iterations at most.
  unfoldable pub serve : (ℕ → Replies) → Rand → Result Error (Server Rand)
  unfolding loop
  serve replies initial = loop replies c.iterations 0 (record {
    nodes = replicate c.number_of_nodes (record { velocity = 0; position = 0; broadcast = 0 });
    rand_state = initial;
    sent = [];
  })

  -- `main`, behind the reading of the command line.
  unfoldable pub run_server : Sockets → (ℕ → Replies) → Rand → Result Error (Server Rand)
  unfolding accept_client serve
  run_server sockets replies initial = accept_client sockets >> serve replies initial
