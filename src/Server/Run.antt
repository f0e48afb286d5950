-- ===== src/Server/Run.antt =====
-- What the server sends when no call of ::send or ::recv fails and the client stays connected.
use ns3_cosim.Common.{
  ℕ, zero, suc, ◌+◌, ◌-◌, ◌^◌, ◌<◌, ◌≡◌, refl, ap, ◌∙◌, true, false, List, [], ◌∷◌, ◌++◌,
  append_assoc, Bytes, ◌==◌, arith, length, replicate, All, done,
}
use ns3_cosim.Server.{
  Node, Config, Sockets, Replies, accept_client, run_server, Server, again, time_now, next_message,
  terminate_message, is_error, is_closed, move_nodes, answered, iteration, loop, serve,
}
use ns3_cosim.Server.Movement.{MovesAll, move_nodes-MovesAll}
use ns3_cosim.Server.Message.{IsNode}

-- The server has accepted a client.
pub record IsOpened (r : Sockets) : Type 0 where
  pub socket : is_error r.socket_result ≡ false
  pub options : is_error r.option_result ≡ false
  pub bound : is_error r.bind_result ≡ false
  pub listening : is_error r.listen_result ≡ false
  pub accepted : is_error r.accept_result ≡ false

-- No call fails, and ::recv returns a response.
pub record IsAnswered (r : Replies) : Type 0 where
  pub sending : is_error r.sending ≡ false
  pub receiving : is_error r.receiving ≡ false
  pub connected : is_closed r.receiving ≡ false
  pub terminating : is_error r.terminating ≡ false

-- The nodes at the iterations from `i` on, where the first ones are `vs`.
abbrev pub Drives : Config → ℕ → List Node → List (List Node) → Type 0
Drives c i vs [] = Unit {0}
Drives c i vs (ws ∷ wss) = MovesAll c i vs ws × (All IsNode ws × Drives c (suc i) ws wss)

-- The messages of the iterations from `i` on.
abbrev pub messages : Config → ℕ → List (List Node) → List Bytes
messages c i [] = []
messages c i (vs ∷ vss) = next_message (time_now c i) vs ∷ messages c (suc i) vss

abbrev pub at_rest : Node
at_rest = record { velocity = 0; position = 0; broadcast = 0 }

module _ {Rand : Type 0} (rand : Rand → ℕ × Rand) (c : Config) where
  -- The server behind its ::send in iteration `i`.
  abbrev with_message : ℕ → Server Rand → Server Rand
  with_message i s = record s { sent = s.sent ++ (next_message (time_now c i) s.nodes ∷ []) }

  iteration-answered :
      (i : ℕ) (r : Replies) (s : Server Rand)
      → IsAnswered r
      → iteration rand c i r s ≡ answered rand c i r (with_message i s)
  unfolding iteration
  iteration-answered i r s a = rw (a.sending, a.receiving) refl

  answered_last :
      (i : ℕ) (r : Replies) (s : Server Rand)
      → IsAnswered r
      → suc i ≡ c.iterations
      → answered rand c i r s
        ≡ done (again (record s { sent = s.sent ++ (terminate_message ∷ []) }))
  unfolding answered
  answered_last i r s a l =
      let last : (i == c.iterations - 1) ≡ true = ground arith in
      rw (a.connected, last, a.terminating) refl

  answered_moves :
      (i : ℕ) (r : Replies) (s : Server Rand) (ws : List Node) (g : Rand)
      → IsAnswered r
      → suc i < c.iterations
      → move_nodes rand c i s.nodes s.rand_state ≡ done (ws, g)
      → answered rand c i r s ≡ done (again (record s { nodes = ws; rand_state = g }))
  unfolding answered
  answered_moves i r s ws g a l e =
      let more : (i == c.iterations - 1) ≡ false = ground arith in rw (a.connected, more, e) refl

  -- `vss` are the nodes in the later iterations.
  record IsServed (i : ℕ) (s : Server Rand) (left : ℕ) (vss : List (List Node)) (s' : Server Rand)
      : Type 0 where
    size : length vss ≡ left
    sent : s'.sent ≡ s.sent ++ (messages c i (s.nodes ∷ vss) ++ (terminate_message ∷ []))
    drives : Drives c i s.nodes vss

  loop-IsServed :
      (replies : ℕ → Replies) (left i : ℕ) (s : Server Rand)
      → ((i : ℕ) → IsAnswered (replies i))
      → 0 < c.position_delta
      → c.position_delta < 2 ^ 16
      → i + suc left ≡ c.iterations
      → (vss : List (List Node)) × (s' : Server Rand) × (loop rand c replies (suc left) i s
          ≡ done s')
        × IsServed i s left vss s'
  unfolding loop
  loop-IsServed replies zero i s a p l n = (
    [],
    record s {
      sent = (s.sent ++ (next_message (time_now c i) s.nodes ∷ [])) ++ (terminate_message ∷ []);
    },
    rw
        (
          iteration-answered i (replies i) s (a i),
          answered_last i (replies i) (with_message i s) (a i) (omega (arith, n)),
        )
        refl,
    record { size = refl; sent = append_assoc s.sent _ _; drives = tt },
  )
  loop-IsServed replies (suc left) i s a p l n =
      let (ws, g, e, m, h) = move_nodes-MovesAll rand c i s.nodes s.rand_state p l in
      let moved = record (with_message i s) { nodes = ws; rand_state = g } in
      let (vss, s', e', k) = loop-IsServed replies left (suc i) moved a p l (omega (arith, n)) in
      (
        ws ∷ vss,
        s',
        rw
            (
              iteration-answered i (replies i) s (a i),
              answered_moves i (replies i) (with_message i s) ws g (a i) (omega (arith, n)) e,
            )
            e',
        record {
          size = ap suc k.size;
          sent = k.sent ∙ append_assoc s.sent _ _;
          drives = (m, (h, k.drives));
        },
      )

  serve_sends :
      (replies : ℕ → Replies) (initial : Rand)
      → ((i : ℕ) → IsAnswered (replies i))
      → 0 < c.position_delta
      → c.position_delta < 2 ^ 16
      → 0 < c.iterations
      → (vss : List (List Node)) × (s : Server Rand) × (serve rand c replies initial ≡ done s)
        × (suc (length vss) ≡ c.iterations)
        × (s.sent
            ≡ messages c 0 (replicate c.number_of_nodes at_rest ∷ vss) ++ (terminate_message ∷ []))
        × Drives c 0 (replicate c.number_of_nodes at_rest) vss
  unfolding serve
  serve_sends replies initial a p l n =
      let first : Server Rand = record {
        nodes = replicate c.number_of_nodes at_rest;
        rand_state = initial;
        sent = [];
      } in
      let left = c.iterations - 1 in
      let enough : c.iterations ≡ suc left = omega (arith, n) in
      let (vss, s, e, k) = loop-IsServed replies left 0 first a p l (omega (arith, n)) in
      (
        vss,
        s,
        ap (λ n. loop rand c replies n 0 first) enough ∙ e,
        omega (arith, k.size, n),
        k.sent,
        k.drives,
      )

  run_server-serve :
      (sockets : Sockets) (replies : ℕ → Replies) (initial : Rand)
      → IsOpened sockets
      → run_server rand c sockets replies initial ≡ serve rand c replies initial
  unfolding run_server accept_client
  run_server-serve sockets replies initial o =
      rw (o.socket, o.options, o.bound, o.listening, o.accepted) refl

  -- When a client connects, no call of the socket functions fails and the client does not close the connection, the server
  -- ends, behind one message for each iteration and the terminate message. The message of an iteration
  -- gives the time of the iteration and the nodes at it: at first they stand still at 0, and from one
  -- iteration to the next each moves by its new velocity, which is at least 1 and at most
  -- positionDeltaX, and broadcasts only behind every fifth iteration. There is at least one iteration,
  -- and positionDeltaX is a uint16_t that is not 0.
  pub server_sends :
      (sockets : Sockets) (replies : ℕ → Replies) (initial : Rand)
      → IsOpened sockets
      → ((i : ℕ) → IsAnswered (replies i))
      → 0 < c.position_delta
      → c.position_delta < 2 ^ 16
      → 0 < c.iterations
      → (vss : List (List Node)) × (s : Server Rand) × (run_server rand c sockets replies initial
          ≡ done s)
        × (suc (length vss) ≡ c.iterations)
        × (s.sent
            ≡ messages c 0 (replicate c.number_of_nodes at_rest ∷ vss) ++ (terminate_message ∷ []))
        × Drives c 0 (replicate c.number_of_nodes at_rest) vss
  server_sends sockets replies initial o a p l n =
      let (vss, s, e, size, sent, drives) = serve_sends replies initial a p l n in
      (vss, s, run_server-serve sockets replies initial o ∙ e, size, sent, drives)
