-- ===== src/Text.antt =====
-- std::string as a list of bytes: `find`, `substr` and `erase` of the standard library, and the
-- conversions std::stoi, std::stol and std::to_string. `find d s` is s.find(d), with `none` for npos.
pub mod Find
pub mod Border
pub mod Number
pub mod Decimal
use ns3_cosim.Common.{
  ℕ, suc, Bool, true, false, ◌&&◌, List, [], ◌∷◌, Option, none, some, Bytes, ◌==◌, if◌then◌else◌,
  codes, ◌≡◌, refl,
}
use mathlib.Core.Option

unfoldable pub starts_with : Bytes → Bytes → Bool
starts_with [] s = true
starts_with (c ∷ d) [] = false
starts_with (c ∷ d) (x ∷ s) = c == x && starts_with d s

unfoldable pub find : Bytes → Bytes → Option ℕ
unfolding starts_with
find d [] = if starts_with d [] then some 0 else none
find d (x ∷ s) = if starts_with d (x ∷ s) then some 0 else Option.map suc (find d s)

find_crlf : find (codes "\r\n") (codes "1 0\r\n2") ≡ some 3
unfolding find
find_crlf = refl

find_npos : find (codes "\r\n") (codes "1 0\r") ≡ none
unfolding find
find_npos = refl
