-- ===== src/Server/Drive.antt =====
-- The server drives a gateway: the calls of DoUpdate that its messages lead to.
use ns3_cosim.Common.{
  ℕ, suc, ◌+◌, ◌*◌, ◌^◌, ◌<◌, ◌≡◌, sym, ap, subst, ◌∙◌, true, List, [], ◌∷◌, ◌++◌, append-nil,
  arith, length, replicate, none, ℤ, done,
}
use ns3_cosim.Text.{find}
use ns3_cosim.Text.Border.{unbordered}
use ns3_cosim.Protocol.Split.{Lacks}
use ns3_cosim.Simulator.{Simulator}
use ns3_cosim.Simulator.Clock.{times_billion}
use ns3_cosim.Gateway.{Call}
use ns3_cosim.CoSim.{System, Reach}
use ns3_cosim.CoSim.Stream.{framed, unread}
use ns3_cosim.CoSim.Contract.{InOrder, granted}
use ns3_cosim.CoSim.Contract.Refines.{forwarded_all}
use ns3_cosim.Server.{Node, Config, Replies, Server, terminate_message, run_server, Sockets}
use ns3_cosim.Server.Message.{space, crlf, crlf-unbordered}
use ns3_cosim.Server.Run.{IsAnswered, Drives, messages, at_rest, server_sends, IsOpened}
use ns3_cosim.Server.Bodies.{
  flat, bodies, calls, flat-messages, bodies-Lacks, calls-InOrder, nothing_left, done-sent,
  one_more, granted-first,
}

module _ (S : Simulator Call) (billion : (z : ℤ) → S.seconds z ≡ times_billion z)
    (one : (z : ℤ) → S.nano_seconds z ≡ z) where
  open S use {Sim, events}

  -- The gateway has taken all messages of the server.
  pub server_forwarded :
      {Rand : Type 0} (rand : Rand → ℕ × Rand) (c : Config) (sockets : Sockets)
      (replies : ℕ → Replies) (initial : Rand) (server : Server Rand) (s : System Sim)
      (r : Reach S s)
      → IsOpened sockets
      → ((i : ℕ) → IsAnswered (replies i))
      → 0 < c.position_delta
      → c.position_delta < 2 ^ 16
      → 0 < c.iterations
      → run_server rand c sockets replies initial ≡ done server
      → s.gateway.delimiter_message ≡ crlf
      → s.stream ≡ flat server.sent
      → find crlf (unread s.thread s.gateway.message_buffer) ≡ none
      → s.gateway.message_queue ≡ []
      → (vss : List (List Node)) × (suc (length vss) ≡ c.iterations)
        × Drives c 0 (replicate c.number_of_nodes at_rest) vss
        × (s.forwarded ≡ bodies c 0 (replicate c.number_of_nodes at_rest ∷ vss))
  server_forwarded rand c sockets replies initial server s r o a p w n done_server m e g q =
      let vs = replicate c.number_of_nodes at_rest in
      let (vss, t, same, size, sent, drives) =
        server_sends rand c sockets replies initial o a p w n in
      let as_sent : server.sent ≡ messages c 0 (vs ∷ vss) ++ (terminate_message ∷ []) =
        done-sent server t _ done_server same ∙ sent in
      let ms = bodies c 0 (vs ∷ vss) in
      (
        vss,
        size,
        drives,
        forwarded_all S s r ms [] (subst (λ d. unbordered d ≡ true) (sym m) crlf-unbordered)
            (subst (λ d. Lacks d ms) (sym m) (bodies-Lacks c 0 (vs ∷ vss)))
            (subst (λ d. find d [] ≡ none) (sym m) nothing_left)
            (e
              ∙ ap flat as_sent
              ∙ flat-messages c 0 (vs ∷ vss)
              ∙ ap (λ d. framed d ms) (sym m)
              ∙ sym (append-nil (framed s.gateway.delimiter_message ms)))
            (subst (λ d. find d (unread s.thread s.gateway.message_buffer) ≡ none) (sym m) g) q,
      )

  -- The times of the messages do not decrease.
  pub forwarded-InOrder :
      (c : Config) (s : System Sim) (vs : List Node) (vss : List (List Node))
      → c.time_start + c.time_delta * c.iterations < 2 ^ 31
      → suc (length vss) ≡ c.iterations
      → s.gateway.delimiter_field ≡ space
      → s.forwarded ≡ bodies c 0 (vs ∷ vss)
      → (granted S s.gateway.delimiter_field s.forwarded none ≡ calls c 1 vss)
        × InOrder (granted S s.gateway.delimiter_field s.forwarded none)
  forwarded-InOrder c s vs vss l size f all =
      let small : c.time_start + c.time_delta * (1 + length vss) < 2 ^ 31 = omega (
        arith,
        l,
        ap (λ k. c.time_delta * k) size,
        ap (λ k. c.time_delta * k) (one_more (length vss)),
      ) in
      let same : granted S s.gateway.delimiter_field s.forwarded none ≡ calls c 1 vss =
        ap (λ d. granted S d s.forwarded none) f
        ∙ ap (λ ms. granted S space ms none) all
        ∙ granted-first S billion one c vs vss small in
      (same, subst InOrder (sym same) (calls-InOrder c 1 vss))
