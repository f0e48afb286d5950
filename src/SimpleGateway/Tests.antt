-- ===== src/SimpleGateway/Tests.antt =====
-- Two vehicles whose vectors are triples of integers.
mod Launch
use ns3_cosim.Common.{
  ◌≡◌, refl, Bool, true, not, ◌&&◌, List, [], ◌∷◌, ◌++◌, Bytes, codes, length, ℤ, pos, arith,
  pos_part, neg_part, ◌==◌, some, done,
}
use ns3_cosim.Text.Number.{stoi, to_string}
use ns3_cosim.Protocol.{join}
use ns3_cosim.Gateway.{connected}
use ns3_cosim.Mobility.{new}
use ns3_cosim.SimpleGateway.{SimpleGateway, int_at, do_update, handle_receive}
use ns3_cosim.SimpleGateway.Counts.{receive_all, IsCounted, receptions_reported}
use ns3_cosim.SimpleGateway.Moves.{AllDriven, broadcasts, do_update_moves}
use ns3_cosim.SimpleGateway.Round.{Readable, IsReady}
use ns3_cosim.SimpleGateway.Response.{to_strings, do_update_responds}

abbrev pub Vector : Type 0
Vector = ℤ × ℤ × ℤ

abbrev pub vector : ℤ → ℤ → ℤ → Vector
vector x y z = (x, y, z)

abbrev same : ℤ → ℤ → Bool
same a b = pos_part a == pos_part b && neg_part a == neg_part b

abbrev pub differ : Vector → Vector → Bool
differ (a, b, c) (x, y, z) = not (same a x && same b y && same c z)

abbrev pub two_vehicles : SimpleGateway Vector
two_vehicles = record {
  gateway = record {
    event_wait = 1;
    event_destroy = 0;
    state = connected;
    time_start = pos 0;
    time_pause = pos 0;
    socket = pos 3;
    socket_open = true;
    joinable = true;
    message_queue = [];
    delimiter_field = codes " ";
    delimiter_message = codes "\r\n";
    message_buffer = [];
    values = [] ∷ [] ∷ [];
  };
  vehicles = new (pos 0, pos 0, pos 0) ∷ new (pos 0, pos 0, pos 0) ∷ [];
  counts = 3 ∷ 120 ∷ [];
  sends = [];
  sent = [];
}

abbrev one : Bytes
one = codes "1"

abbrev zeros : Bytes
zeros = codes "0"

abbrev pub message : List Bytes
message =
    one ∷ one ∷ one ∷ zeros ∷ zeros ∷ zeros ∷ one ∷ one ∷ one ∷ zeros ∷ one ∷ zeros ∷ zeros ∷ zeros
    ∷ []

one_read : (z : ℤ) × (stoi one ≡ some z)
unfolding stoi
one_read = (pos 1, refl)

zeros_read : (z : ℤ) × (stoi zeros ≡ some z)
unfolding stoi
zeros_read = (pos 0, refl)

pub message-Readable : Readable message
message-Readable = (
  one_read,
  (
    one_read,
    (
      one_read,
      (
        zeros_read,
        (
          zeros_read,
          (
            zeros_read,
            (
              one_read,
              (
                one_read,
                (one_read, (zeros_read, (one_read, (zeros_read, (zeros_read, (zeros_read, tt)))))),
              ),
            ),
          ),
        ),
      ),
    ),
  ),
)

pub two_vehicles-IsReady : IsReady differ vector two_vehicles
two_vehicles-IsReady = record { counted = refl; sized = refl; field = refl; message = refl }

do_update_responds_example :
    (s' : SimpleGateway Vector) × (do_update differ vector message two_vehicles ≡ done s')
    × (s'.sent ≡ [] ++ ((join (codes " ") (to_strings (3 ∷ 120 ∷ [])) ++ codes "\r\n") ∷ []))
do_update_responds_example =
    do_update_responds differ vector message two_vehicles message-Readable (omega arith)
      (omega arith) two_vehicles-IsReady refl

do_update_moves_example :
    (s' : SimpleGateway Vector) × (do_update differ vector message two_vehicles ≡ done s')
    × (length s'.vehicles ≡ 2)
    × AllDriven differ vector message two_vehicles s'
    × (s'.sends ≡ [] ++ broadcasts message 2 0)
do_update_moves_example =
    do_update_moves differ vector message two_vehicles message-Readable (omega arith) (omega arith)
      two_vehicles-IsReady refl

-- The first of the two vehicles is to broadcast.
first_broadcasts : broadcasts message 2 0 ≡ (0, 3) ∷ []
unfolding int_at stoi
first_broadcasts = refl

receptions_told :
    (v : SimpleGateway Vector) × (s' : SimpleGateway Vector) × (receive_all differ vector
        (0 ∷ 1 ∷ 0 ∷ [])
        two_vehicles
      ≡ done v)
    × (do_update differ vector message v ≡ done s')
    × (s'.sent ≡ [] ++ ((join (codes " ") (to_strings v.counts) ++ codes "\r\n") ∷ []))
    × (length v.counts ≡ 2)
    × IsCounted differ vector (0 ∷ 1 ∷ 0 ∷ []) two_vehicles v.counts
receptions_told =
    receptions_reported differ vector (0 ∷ 1 ∷ 0 ∷ []) message two_vehicles
      (omega arith, (omega arith, (omega arith, tt))) (omega arith, (omega arith, tt))
      message-Readable (omega arith) (omega arith) two_vehicles-IsReady refl

three_digits : to_string 120 ≡ codes "120"
unfolding to_string
three_digits = refl

count_wraps :
    handle_receive differ vector (codes "0") (record two_vehicles { counts = 65535 ∷ [] })
    ≡ done (record two_vehicles { counts = 0 ∷ [] })
unfolding handle_receive stoi
count_wraps = refl
