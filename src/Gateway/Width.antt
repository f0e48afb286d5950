-- ===== src/Gateway/Width.antt =====
-- Times of ns-3 are 64 bits wide, which the model leaves out: when it may.
use ns3_cosim.Common.{
  ℕ, ◌^◌, ◌≤◌, ◌<◌, ◌≡◌, refl, sym, subst, ◌∙◌, List, ◌∷◌, Option, none, some, Bytes, arith, ℤ, pos,
  negsuc, pos_part, neg_part, ◌+ℤ◌, ◌-ℤ◌,
}
use ns3_cosim.Text.Number.{stoi, stol, stoi_bounds}
use ns3_cosim.Simulator.{Simulator}
use ns3_cosim.Simulator.Clock.{times_billion}
use ns3_cosim.Gateway.{Call, ok, ◌>>=◌}
use ns3_cosim.Gateway.Handlers.{read_header, timestamp}

-- A signed number of 64 bits.
abbrev pub Fits : ℤ → Type 0
Fits v = (pos_part v < 2 ^ 63) × (neg_part v ≤ 2 ^ 63)

-- The range [0, 10e9) that README.md gives for the nanoseconds of a message; as uint32_t it is smaller.
abbrev pub IsFraction : Option ℤ → Type 0
IsFraction none = ⊥
IsFraction (some (pos n)) = n < 10000000000
IsFraction (some (negsuc n)) = ⊥

-- No further from 0 than 2^31 seconds and twelve more.
abbrev IsNear : ℤ → Type 0
IsNear t = (pos_part t < 2147483660000000000) × (neg_part t ≤ 2147483660000000000)

sum-IsNear :
    (z : ℤ) (n : ℕ)
    → pos_part z < 2 ^ 31
    → neg_part z ≤ 2 ^ 31
    → n < 10000000000
    → IsNear (times_billion z +ℤ pos n)
unfolding ◌+ℤ◌
sum-IsNear (pos k) n h k' l = (ground arith, ground arith)
sum-IsNear (negsuc k) n h k' l = (ground arith, ground arith)

sub-Fits : (t start : ℤ) → IsNear t → IsNear start → Fits (t -ℤ start)
unfolding ◌-ℤ◌
sub-Fits t start h k = (ground arith, ground arith)

delay-Fits :
    (t start : ℤ) (now : ℕ)
    → IsNear t
    → IsNear start
    → now < 2 ^ 62
    → Fits ((t -ℤ start) -ℤ pos now)
unfolding ◌-ℤ◌
delay-Fits t start now h k l = (ground arith, ground arith)

module _ (S : Simulator Call) (billion : (z : ℤ) → S.seconds z ≡ times_billion z)
    (one : (z : ℤ) → S.nano_seconds z ≡ z) where
  header-IsNear :
      (a b : Option ℤ) (values vs : List Bytes) (t : ℤ)
      → ((v : ℤ) → a ≡ some v → (pos_part v < 2 ^ 31) × (neg_part v ≤ 2 ^ 31))
      → IsFraction b
      → ◌>>=◌ {After = ℤ × List Bytes} (timestamp S a b) (λ t. ok (t, values)) ≡ ok (t, vs)
      → IsNear t
  unfolding timestamp
  header-IsNear none b values vs t k f h = cc
  header-IsNear (some z) none values vs t k f h = elim f [ ]
  header-IsNear (some z) (some (negsuc n)) values vs t k f h = elim f [ ]
  header-IsNear (some z) (some (pos n)) values vs t k f h =
      let same : S.seconds z +ℤ S.nano_seconds (pos n) ≡ t = cc h in
      subst IsNear ((λ j. sym (billion z) j +ℤ sym (one (pos n)) j) ∙ same)
        (sum-IsNear z n (k z refl).0 (k z refl).1 f)

  read_header-IsNear :
      (seconds nanoseconds : Bytes) (values vs : List Bytes) (t : ℤ)
      → IsFraction (stol nanoseconds)
      → read_header S (seconds ∷ nanoseconds ∷ values) ≡ ok (t, vs)
      → IsNear t
  unfolding read_header
  read_header-IsNear seconds nanoseconds values vs t f h =
      header-IsNear (stoi seconds) (stol nanoseconds) values vs t (stoi_bounds seconds) f h

  -- Where the nanoseconds of two messages lie in [0, 10e9), the range that README.md gives, every time that ForwardUp
  -- computes from them fits the 64 bits of an ns-3 time, whatever the seconds are: the timestamp, its
  -- distance from the first timestamp, and the delay from a clock below 2^62 ns. Simulator times are
  -- nanoseconds.
  pub times_fit :
      (first first_fraction : Bytes) (first_values vs : List Bytes) (time_start : ℤ)
      (seconds nanoseconds : Bytes) (values ws : List Bytes) (t : ℤ) (now : ℕ)
      → IsFraction (stol first_fraction)
      → IsFraction (stol nanoseconds)
      → read_header S (first ∷ first_fraction ∷ first_values) ≡ ok (time_start, vs)
      → read_header S (seconds ∷ nanoseconds ∷ values) ≡ ok (t, ws)
      → now < 2 ^ 62
      → Fits t × Fits (t -ℤ time_start) × Fits ((t -ℤ time_start) -ℤ pos now)
  times_fit first first_fraction first_values vs time_start seconds nanoseconds values ws t now f g
        h k l =
      let a = read_header-IsNear first first_fraction first_values vs time_start f h in
      let b = read_header-IsNear seconds nanoseconds values ws t g k in
      (
        (omega (arith, b.0), omega (arith, b.1)),
        sub-Fits t time_start b a,
        delay-Fits t time_start now b a l,
      )
