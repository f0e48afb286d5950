-- ===== src/SimpleGateway.antt =====
-- examples/simple-gateway.cc: the class SimpleGateway, which derives from Gateway and moves the
-- vehicles of a simulation. A vehicle is its mobility model; the calls of
-- TriggeredSendApplication::Send are listed in `sends`, and the responses in `sent`. How a Vector is
-- made and compared is not part of the repository. An exception of std::stoi or `at` is not caught,
-- and ends the program.
pub mod Round
pub mod Response
pub mod Effect
pub mod Moves
pub mod Counts
pub mod Setup
pub mod Tally
pub mod Actions
pub mod Session
pub mod Launch
mod Tests
use ns3_cosim.Common.{
  ℕ, zero, suc, ◌+◌, ◌*◌, ◌/◌, ◌%◌, ◌^◌, ◌≡◌, refl, Bool, true, false, List, [], ◌∷◌, ◌++◌, Option,
  none, some, Result, done, failed, ◌>>=◌, need, Bytes, codes, ltb, ◌==◌, if◌then◌else◌, length,
  set, get_elem?, ℤ, pos, negsuc,
}
use ns3_cosim.Text.Number.{stoi, to_string}
use ns3_cosim.Gateway.{Gateway, Outcome, fatal, set_value, send_response}
use ns3_cosim.Gateway
use ns3_cosim.Mobility.{Mobility, set_velocity, do_set_position}

pub data Error : Type 0 where
  insufficient_size invalid_number no_such_vehicle : Error
  gateway_error : Gateway.Error → Error

abbrev pub from_gateway {ℓ} : {A : Type ℓ} → Outcome A → Result Error A
from_gateway (Outcome.ok a) = done a
from_gateway (fatal e) = failed (gateway_error e)

pub record SimpleGateway (Vector : Type 0) : Type 0 where
  pub gateway : Gateway
  pub vehicles : List (Mobility Vector)
  pub counts : List ℕ
  pub sends : List (ℕ × ℕ)
  pub sent : List Bytes

abbrev pub is_set : ℤ → Bool
is_set (pos zero) = false
is_set (pos (suc n)) = true
is_set (negsuc n) = true

-- `std::stoi(data[j])`
unfoldable pub int_at : List Bytes → ℕ → Result Error ℤ
int_at values j = elim (get_elem? values j) [
  | none ↦ failed invalid_number
  | some d ↦ need (stoi d) invalid_number
]

module _ {Vector : Type 0} (differ : Vector → Vector → Bool) (vector : ℤ → ℤ → ℤ → Vector) where
  -- SimpleGateway::HandleReceive; a uint16_t wraps around.
  unfoldable pub handle_receive : Bytes → SimpleGateway Vector → Result Error (SimpleGateway Vector)
  handle_receive id s = do
    index ← need (stoi id) invalid_number
    i ← elim index [ pos i ↦ done i | negsuc i ↦ failed no_such_vehicle ]
    count ← need (get_elem? s.counts i) no_such_vehicle
    done (record s { counts = set s.counts i ((count + 1) % 2 ^ 16) })

  pub move : ℕ → Vector → Vector → SimpleGateway Vector → Result Error (SimpleGateway Vector)
  move i position velocity s = do
    mobility ← need (get_elem? s.vehicles i) no_such_vehicle
    done (record s {
      vehicles =
          set s.vehicles i
            (set_velocity differ velocity (do_set_position differ position mobility));
    })

  abbrev pub add_send : ℤ → ℕ → SimpleGateway Vector → SimpleGateway Vector
  add_send flag i s = if is_set flag then record s { sends = s.sends ++ ((i, 3) ∷ []) } else s

  pub report : ℕ → SimpleGateway Vector → Result Error (SimpleGateway Vector)
  unfolding to_string
  report i s = do
    count ← need (get_elem? s.counts i) no_such_vehicle
    g ← from_gateway (set_value i (to_string count) s.gateway)
    done (record s { gateway = g })

  -- One round of the loop of SimpleGateway::DoUpdate; dataIndex is a uint32_t.
  unfoldable pub update_vehicle :
      ℕ → List Bytes → SimpleGateway Vector → Result Error (SimpleGateway Vector)
  unfolding move report int_at
  update_vehicle i values s =
      let data_index = (i * 7) % 2 ^ 32 in
      if ltb (length values) ((data_index + 7) % 2 ^ 32) then failed insufficient_size else do
        px ← int_at values data_index
        py ← int_at values (data_index + 1)
        pz ← int_at values (data_index + 2)
        vx ← int_at values (data_index + 3)
        vy ← int_at values (data_index + 4)
        vz ← int_at values (data_index + 5)
        moved ← move i (vector px py pz) (vector vx vy vz) s
        flag ← int_at values (data_index + 6)
        report i (add_send flag i moved)

  unfoldable pub update_loop :
      ℕ → ℕ → List Bytes → SimpleGateway Vector → Result Error (SimpleGateway Vector)
  update_loop zero i values s = done s
  update_loop (suc left) i values s =
      update_vehicle i values s >>= λ s'. update_loop left (suc i) values s'

  -- SimpleGateway::DoUpdate
  unfoldable pub do_update : List Bytes → SimpleGateway Vector → Result Error (SimpleGateway Vector)
  unfolding update_loop
  do_update values s = do
    s' ← update_loop (length s.vehicles) 0 values s
    message ← from_gateway (send_response s'.gateway)
    done (record s' { sent = s'.sent ++ (message ∷ []) })

  -- SimpleGateway::DoInitialize
  unfoldable pub do_initialize :
      List Bytes → SimpleGateway Vector → Result Error (SimpleGateway Vector)
  unfolding do_update
  do_initialize values s = do_update values s
