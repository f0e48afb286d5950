-- ===== src/Protocol.antt =====
-- The message format of model/gateway.h, "v1_v2_.._vn|": the loop of Gateway::SendResponse that
-- joins the values, and the loop of Gateway::ForwardUp that splits a message again.
pub mod Split
pub mod RoundTrip
mod Tests
use ns3_cosim.Common.{
  ℕ, zero, suc, ◌+◌, ◌≡◌, refl, List, [], ◌∷◌, ◌++◌, Option, none, some, Bytes, codes, ◌==◌,
  if◌then◌else◌, length, take, drop,
}
use ns3_cosim.Text.{find}

-- `i` counts the rounds, and the list holds the values from `m_data[i]` on.
pub join_loop : Bytes → ℕ → List Bytes → Bytes → Bytes
join_loop delimiter i [] message = message
join_loop delimiter i (v ∷ vs) message =
    join_loop delimiter (suc i) vs ((if i == 0 then message else message ++ delimiter) ++ v)

unfoldable pub join : Bytes → List Bytes → Bytes
unfolding join_loop
join delimiter values = join_loop delimiter 0 values []

-- A round takes a value and the delimiter off the message. `none` means that the fuel ran out.
pub split_loop : ℕ → Bytes → Bytes → List Bytes → Option (List Bytes)
split_loop zero delimiter message values = none
split_loop (suc fuel) delimiter message values = elim (find delimiter message) [
  | none ↦ some (values ++ (message ∷ []))
  | some i ↦
      split_loop fuel delimiter (drop (i + length delimiter) message)
        (values ++ (take i message ∷ []))
]

unfoldable pub split : Bytes → Bytes → Option (List Bytes)
unfolding split_loop
split delimiter message = split_loop (suc (length message)) delimiter message []

join_empty_values : join (codes " ") ([] ∷ codes "3" ∷ [] ∷ []) ≡ codes " 3 "
unfolding join
join_empty_values = refl

split_header : split (codes " ") (codes "10 0 7") ≡ some (codes "10" ∷ codes "0" ∷ codes "7" ∷ [])
unfolding split find
split_header = refl
