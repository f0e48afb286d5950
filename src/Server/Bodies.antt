-- ===== src/Server/Bodies.antt =====
-- The messages of the server as the thread of a gateway cuts them off, and what they ask for.
use ns3_cosim.Common.{
  ℕ, suc, ◌+◌, ◌*◌, ◌^◌, ◌≤◌, ◌<◌, ◌≡◌, refl, ap, ◌∙◌, List, [], ◌∷◌, ◌++◌, append_assoc, Bytes,
  codes, arith, length, All, none, some, ℤ, pos, negsuc, ◌+ℤ◌, ◌-ℤ◌, ◌≤ℤ◌, Result, done,
}
use ns3_cosim.Text.{find, starts_with}
use ns3_cosim.Text.Number.{stoi, stol}
use ns3_cosim.Protocol.{split}
use ns3_cosim.Protocol.Split.{Lacks}
use ns3_cosim.Simulator.{Simulator}
use ns3_cosim.Simulator.Clock.{times_billion}
use ns3_cosim.Gateway.{Call, ok}
use ns3_cosim.Gateway.Handlers.{read_header, timestamp}
use ns3_cosim.CoSim.Stream.{framed}
use ns3_cosim.CoSim.Contract.{Granted, InOrder, header, granted}
use ns3_cosim.Server.{Error, Node, Config, Server, time_now, terminate_message}
use ns3_cosim.Server.Message.{
  space, crlf, nodes_values, message_body, next_message-body, message_body-Lacks, stamp,
  header-message_body,
}
use ns3_cosim.Server.Run.{messages}

-- The bytes of the messages, one behind the other.
abbrev pub flat : List Bytes → Bytes
flat [] = []
flat (m ∷ ms) = m ++ flat ms

abbrev pub terminate_body : Bytes
terminate_body = codes "-1 0"

-- The messages as the thread of the gateway cuts them off.
abbrev pub bodies : Config → ℕ → List (List Node) → List Bytes
bodies c i [] = terminate_body ∷ []
bodies c i (vs ∷ vss) = message_body (time_now c i) vs ∷ bodies c (suc i) vss

-- One call of DoUpdate for each iteration from `i` on, timeDelta seconds apart.
abbrev pub calls : Config → ℕ → List (List Node) → List Granted
calls c i [] = []
calls c i (vs ∷ vss) =
    (pos (c.time_delta * i * 1000000000), nodes_values 0 vs) ∷ calls c (suc i) vss

pub flat-messages :
    (c : Config) (i : ℕ) (vss : List (List Node))
    → flat (messages c i vss ++ (terminate_message ∷ [])) ≡ framed crlf (bodies c i vss)
unfolding framed
flat-messages c i [] = refl
flat-messages c i (vs ∷ vss) =
    ap (λ m. m ++ flat (messages c (suc i) vss ++ (terminate_message ∷ [])))
      (next_message-body (time_now c i) vs)
    ∙ append_assoc (message_body (time_now c i) vs) crlf _
    ∙ ap (λ l. message_body (time_now c i) vs ++ (crlf ++ l)) (flat-messages c (suc i) vss)

pub terminate_body-Lacks : find crlf terminate_body ≡ none
unfolding find starts_with
terminate_body-Lacks = refl

pub bodies-Lacks : (c : Config) (i : ℕ) (vss : List (List Node)) → Lacks crlf (bodies c i vss)
bodies-Lacks c i [] = (terminate_body-Lacks, tt)
bodies-Lacks c i (vs ∷ vss) = (message_body-Lacks (time_now c i) vs, bodies-Lacks c (suc i) vss)

pub later : (c : Config) (i : ℕ) → c.time_delta * suc i ≡ c.time_delta * i + c.time_delta
later c i = grind arith

pub spread : (c : Config) (i k : ℕ) → c.time_delta * (i + k) ≡ c.time_delta * i + c.time_delta * k
spread c i k = grind arith

pub since : (a b : ℕ) → pos ((a + b) * 1000000000) -ℤ pos (a * 1000000000) ≡ pos (b * 1000000000)
unfolding ◌-ℤ◌
since a b = ground arith

pub calls_behind :
    (c : Config) (t i : ℕ) (vss : List (List Node))
    → t ≤ c.time_delta * i
    → All (λ (h : Granted). pos (t * 1000000000) ≤ℤ h.0) (calls c i vss)
calls_behind c t i [] l = tt
calls_behind c t i (vs ∷ vss) l =
    (omega (arith, l), calls_behind c t (suc i) vss (omega (arith, l, later c i)))

pub calls-InOrder : (c : Config) (i : ℕ) (vss : List (List Node)) → InOrder (calls c i vss)
calls-InOrder c i [] = tt
calls-InOrder c i (vs ∷ vss) = (
  calls_behind c (c.time_delta * i) (suc i) vss (omega (arith, later c i)),
  calls-InOrder c (suc i) vss,
)

pub nothing_left : find crlf [] ≡ none
unfolding find starts_with
nothing_left = refl

pub done-sent :
    {Rand : Type 0} (s t : Server Rand) (r : Result Error (Server Rand))
    → r ≡ done s
    → r ≡ done t
    → s.sent ≡ t.sent
done-sent s t r h k = cc

pub one_more : (n : ℕ) → 1 + n ≡ suc n
one_more n = omega arith

module _ (S : Simulator Call) (billion : (z : ℤ) → S.seconds z ≡ times_billion z)
    (one : (z : ℤ) → S.nano_seconds z ≡ z) where
  open S use {Sim, events}

  pub stamp_lem : (time : ℕ) → stamp S time ≡ pos (time * 1000000000)
  unfolding ◌+ℤ◌
  stamp_lem time = rw (billion (pos time), one (pos 0)) (ground arith)

  pub terminate_header : header S space terminate_body ≡ ok (negsuc 999999999, [])
  unfolding split find starts_with stoi stol read_header timestamp ◌+ℤ◌
  terminate_header = rw (billion (negsuc 0), one (pos 0)) refl

  pub header-now :
      (c : Config) (i : ℕ) (vs : List Node)
      → c.time_start + c.time_delta * i < 2 ^ 31
      → header S space (message_body (time_now c i) vs)
        ≡ ok (pos ((c.time_start + c.time_delta * i) * 1000000000), nodes_values 0 vs)
  header-now c i vs l =
      let now : time_now c i ≡ c.time_start + c.time_delta * i = omega (arith, l) in
      header-message_body S (time_now c i) vs (omega (arith, now, l))
      ∙ ap (λ t. ok (t, nodes_values 0 vs))
          (stamp_lem (time_now c i) ∙ ap (λ t. pos (t * 1000000000)) now)

  pub granted-bodies :
      (c : Config) (i : ℕ) (vss : List (List Node))
      → c.time_start + c.time_delta * (i + length vss) < 2 ^ 31
      → granted S space (bodies c i vss) (some (pos (c.time_start * 1000000000))) ≡ calls c i vss
  unfolding granted
  granted-bodies c i [] l = rw terminate_header refl
  granted-bodies c i (vs ∷ vss) l =
      let rest = granted-bodies c (suc i) vss (
        omega (
          arith,
          l,
          spread c i (suc (length vss)),
          spread c (suc i) (length vss),
          later c i,
          later c (length vss),
        )) in
      rw
        (
          header-now c i vs (omega (arith, l, spread c i (suc (length vss)))),
          since (c.time_start) (c.time_delta * i),
        )
        (ap (λ l. (pos (c.time_delta * i * 1000000000), nodes_values 0 vs) ∷ l) rest)

  pub granted-first :
      (c : Config) (vs : List Node) (vss : List (List Node))
      → c.time_start + c.time_delta * (1 + length vss) < 2 ^ 31
      → granted S space (bodies c 0 (vs ∷ vss)) none ≡ calls c 1 vss
  unfolding granted
  granted-first c vs vss l =
      let now : c.time_start + c.time_delta * 0 ≡ c.time_start = omega arith in
      rw (header-now c 0 vs (omega (arith, l)), now) (granted-bodies c 1 vss l)
