-- ===== src/Server/Tests.antt =====
-- A short run of the server, and the gateway that it drives.
mod Driven
use ns3_cosim.Common.{
  ℕ, suc, ◌+◌, ◌≡◌, refl, true, false, List, [], ◌∷◌, ◌++◌, Bytes, codes, arith, length, take, All,
  some, none, ℤ, pos, negsuc, ◌+ℤ◌, Result, done, failed,
}
use ns3_cosim.Text.{find, starts_with}
use ns3_cosim.Text.Number.{stoi, to_string}
use ns3_cosim.Text.Decimal.{Reads}
use ns3_cosim.Gateway.{ok}
use ns3_cosim.CoSim.Contract.{header}
use ns3_cosim.CoSim.Tests.{simulator}
use ns3_cosim.Server.{
  Node, Config, Replies, Server, Error, division_by_zero, next_message, terminate_message,
  move_nodes, run_server, Sockets, accept_failed,
}
use ns3_cosim.Server.Message.{
  space, crlf, nodes_values, nodes_numbers, IsNode, stamp, next_message_read,
}
use ns3_cosim.Server.Run.{IsAnswered, Drives, messages, at_rest, IsOpened, server_sends}

-- Two iterations with one node; std::rand gives 7 every time.
abbrev pub config : Config
config = record {
  time_start = 5;
  time_delta = 2;
  iterations = 2;
  number_of_nodes = 1;
  position_delta = 10;
}

abbrev pub sevens : ℕ → ℕ × ℕ
sevens drawn = (7, drawn + 1)

abbrev pub replies : ℕ → Replies
replies i = record { sending = pos 20; receiving = pos 3; terminating = pos 6 }

abbrev pub sockets : Sockets
sockets = record {
  socket_result = pos 3;
  option_result = pos 0;
  bind_result = pos 0;
  listen_result = pos 0;
  accept_result = pos 4;
}

pub sockets-IsOpened : IsOpened sockets
sockets-IsOpened = record {
  socket = refl;
  options = refl;
  bound = refl;
  listening = refl;
  accepted = refl;
}

no_client :
    run_server sevens config (record sockets { accept_result = negsuc 0 }) replies 0
    ≡ failed accept_failed
unfolding run_server
no_client = refl

pub replies-IsAnswered : (i : ℕ) → IsAnswered (replies i)
replies-IsAnswered i = record {
  sending = refl;
  receiving = refl;
  connected = refl;
  terminating = refl;
}

abbrev pub moved : Node
moved = record { velocity = 8; position = 8; broadcast = 0 }

abbrev pub first_message : Bytes
first_message = codes "5 0 0 0 0 0 0 0 0"

abbrev pub second_message : Bytes
second_message = codes "7 0 8 0 0 8 0 0 0"

abbrev pub server : Server ℕ
server = record {
  nodes = moved ∷ [];
  rand_state = 2;
  sent = (first_message ++ crlf) ∷ (second_message ++ crlf) ∷ terminate_message ∷ [];
}

pub serves : run_server sevens config sockets replies 0 ≡ done server
unfolding run_server next_message to_string move_nodes
serves = refl

server_sends_example :
    (vss : List (List Node)) × (s : Server ℕ) × (run_server sevens config sockets replies 0
      ≡ done s)
    × (suc (length vss) ≡ 2)
    × (s.sent ≡ messages config 0 ((at_rest ∷ []) ∷ vss) ++ (terminate_message ∷ []))
    × Drives config 0 (at_rest ∷ []) vss
server_sends_example =
    server_sends sevens config sockets replies 0 sockets-IsOpened replies-IsAnswered (omega arith)
      (omega arith) (omega arith)

moved-IsNode : All IsNode (moved ∷ [])
moved-IsNode =
    (record { velocity = omega arith; position = omega arith; broadcast = omega arith }, tt)

next_message_read_example :
    (i : ℕ) × (find crlf (next_message 7 (moved ∷ []) ++ codes "-1") ≡ some i)
    × (header simulator space (take i (next_message 7 (moved ∷ []) ++ codes "-1"))
        ≡ ok (stamp simulator 7, nodes_values 0 (moved ∷ [])))
    × Reads (nodes_numbers 0 (moved ∷ [])) (nodes_values 0 (moved ∷ []))
next_message_read_example =
    next_message_read simulator 7 (moved ∷ []) (codes "-1") (omega arith) (omega arith) moved-IsNode

-- The command line may give 0 as the largest increase of a position, by which the server divides.
zero_delta :
    run_server sevens (record config { position_delta = 0 }) sockets replies 0
    ≡ failed division_by_zero
unfolding run_server move_nodes
zero_delta = refl
