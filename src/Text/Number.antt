-- ===== src/Text/Number.antt =====
-- std::stoi and std::stol in base 10: white space, a sign, then digits up to the first other byte.
-- `none` is the exception that they throw (no digit, or a value that does not fit the type).
use Prim.Native.Nat.{◌^◌}
use ns3_cosim.Common.{
  ℕ, zero, suc, ◌+◌, ◌-◌, ◌*◌, ◌/◌, ◌%◌, ◌++◌, ltb, ◌≤◌, ◌<◌, ◌≡◌, refl, Bool, ◌&&◌, ◌||◌, [], ◌∷◌,
  Option, none, some, arith, Bytes, codes, ◌==◌, leb, if◌then◌else◌, ℤ, pos, negsuc, pos_part,
  neg_part, sub_ℕ,
}
use mathlib.Core.Option

unfoldable pub is_space : ℕ → Bool
is_space c = c == 0x20 || (leb 0x09 c && leb c 0x0d)

unfoldable pub is_digit : ℕ → Bool
is_digit c = leb b'0' c && leb c b'9'

unfoldable pub skip_spaces : Bytes → Bytes
unfolding is_space
skip_spaces [] = []
skip_spaces (c ∷ s) = let rest = skip_spaces s in if is_space c then rest else c ∷ s

unfoldable pub magnitude : Bytes → ℕ → ℕ
unfolding is_digit
magnitude [] n = n
magnitude (c ∷ s) n = let rest = magnitude s (n * 10 + (c - b'0')) in if is_digit c then rest else n

unfoldable pub unsigned : Bytes → Option ℕ
unfolding magnitude
unsigned [] = none
unsigned (c ∷ s) = if is_digit c then some (magnitude (c ∷ s) 0) else none

unfoldable pub signed : Bytes → Option ℤ
unfolding unsigned
signed [] = none
signed (c ∷ s) =
    if c == b'-'
    then Option.map (λ n. sub_ℕ 0 n) (unsigned s)
    else if c == b'+'
    then Option.map pos (unsigned s)
    else Option.map pos (unsigned (c ∷ s))

-- A value of a signed type with `half` values on each side of zero.
unfoldable pub narrow : ℕ → ℤ → Option ℤ
narrow half v = if leb (suc (pos_part v)) half && leb (neg_part v) half then some v else none

unfoldable pub narrow? : ℕ → Option ℤ → Option ℤ
unfolding narrow
narrow? half none = none
narrow? half (some v) = narrow half v

-- int is 32 bits wide, long is 64.
unfoldable pub stoi : Bytes → Option ℤ
unfolding signed skip_spaces narrow?
stoi s = narrow? (2 ^ 31) (signed (skip_spaces s))

unfoldable pub stol : Bytes → Option ℤ
unfolding signed skip_spaces narrow?
stol s = narrow? (2 ^ 63) (signed (skip_spaces s))

-- The digits of a number below ten to the power of the fuel.
unfoldable pub digits : ℕ → ℕ → Bytes
digits zero n = []
digits (suc fuel) n =
    let front = digits fuel (n / 10) in
    if ltb n 10 then (48 + n) ∷ [] else front ++ ((48 + n % 10) ∷ [])

-- std::to_string of a uint16_t or a uint32_t, which has at most ten digits.
unfoldable pub to_string : ℕ → Bytes
unfolding digits
to_string n = digits 10 n

narrow_bounds :
    (half : ℕ) (o : Option ℤ) (v : ℤ)
    → narrow? half o ≡ some v
    → (pos_part v < half) × (neg_part v ≤ half)
unfolding narrow?
narrow_bounds half none v h = cc
narrow_bounds half (some u) v h = ground arith

pub stoi_bounds :
    (s : Bytes) (v : ℤ) → stoi s ≡ some v → (pos_part v < 2 ^ 31) × (neg_part v ≤ 2 ^ 31)
unfolding stoi
stoi_bounds s v h = narrow_bounds (2 ^ 31) (signed (skip_spaces s)) v h

stoi_terminate : stoi (codes "-1") ≡ some (negsuc 0)
unfolding stoi
stoi_terminate = refl

stoi_trailing : stoi (codes " 12abc") ≡ some (pos 12)
unfolding stoi
stoi_trailing = refl

stoi_overflow : stoi (codes "2147483648") ≡ none
unfolding stoi
stoi_overflow = refl

stol_wide : stol (codes "2147483648") ≡ some (pos 2147483648)
unfolding stol
stol_wide = refl
