-- ===== src/Gateway/Tests/Width.antt =====
-- Messages at both ends of the range, and one beyond it.
use ns3_cosim.Common.{◌≤◌, ◌^◌, ◌≡◌, refl, [], ◌∷◌, Bytes, codes, arith, pos, negsuc, ◌+ℤ◌, ◌-ℤ◌}
use ns3_cosim.Text.Number.{stoi, stol}
use ns3_cosim.Simulator.Clock.{clock}
use ns3_cosim.Gateway.{Call, ok}
use ns3_cosim.Gateway.Handlers.{read_header, timestamp}
use ns3_cosim.Gateway.Width.{Fits, IsFraction, times_fit}

abbrev low : Bytes
low = codes "-2147483648"

abbrev high : Bytes
high = codes "2147483647"

abbrev most : Bytes
most = codes "9999999999"

zeros-IsFraction : IsFraction (stol (codes "0"))
unfolding stol
zeros-IsFraction = omega arith

most-IsFraction : IsFraction (stol most)
unfolding stol
most-IsFraction = omega arith

reads_low : read_header (clock Call) (low ∷ codes "0" ∷ []) ≡ ok (negsuc 2147483647999999999, [])
unfolding read_header timestamp stoi stol ◌+ℤ◌
reads_low = refl

reads_high : read_header (clock Call) (high ∷ most ∷ []) ≡ ok (pos 2147483656999999999, [])
unfolding read_header timestamp stoi stol ◌+ℤ◌
reads_high = refl

times_fit_example :
    Fits (pos 2147483656999999999)
    × Fits (pos 2147483656999999999 -ℤ negsuc 2147483647999999999)
    × Fits ((pos 2147483656999999999 -ℤ negsuc 2147483647999999999) -ℤ pos 1000)
times_fit_example =
    times_fit (clock Call) (λ z. refl) (λ z. refl) low (codes "0") [] []
      (negsuc 2147483647999999999) high most [] [] (pos 2147483656999999999) 1000 zeros-IsFraction
      most-IsFraction reads_low reads_high (omega arith)

-- std::stol accepts nanoseconds with which the sum does not fit.
reads_beyond :
    read_header (clock Call) (high ∷ codes "9223372036854775807" ∷ [])
    ≡ ok (pos 11370855683854775807, [])
unfolding read_header timestamp stoi stol ◌+ℤ◌
reads_beyond = refl

beyond_64 : 2 ^ 63 ≤ 11370855683854775807
beyond_64 = omega arith
