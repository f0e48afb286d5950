-- ===== src/Protocol/Tests.antt =====
-- The loops on concrete messages.
use ns3_cosim.Common.{arith, ◌≡◌, refl, true, List, [], ◌∷◌, ◌++◌, some, Bytes, codes, length}
use ns3_cosim.Text.{find, starts_with}
use ns3_cosim.Text.Border.{unbordered, Disjoint}
use ns3_cosim.Protocol.{join, split}
use ns3_cosim.Protocol.Split.{Lacks, split_cuts}
use ns3_cosim.Protocol.RoundTrip.{split-join, find-join}

split_cuts_example :
    (v : Bytes) × (vs : List Bytes) × (split (codes ", ") (codes "1, ,2,, 3") ≡ some (v ∷ vs))
    × (join (codes ", ") (v ∷ vs) ≡ codes "1, ,2,, 3")
    × Lacks (codes ", ") (v ∷ vs)
split_cuts_example = split_cuts (codes ", ") (codes "1, ,2,, 3") (λ e. cc)

split_values :
    split (codes ", ") (codes "1, ,2,, 3") ≡ some (codes "1" ∷ codes ",2," ∷ codes "3" ∷ [])
unfolding split find starts_with
split_values = refl

comma-unbordered : unbordered (codes ", ") ≡ true
unfolding unbordered starts_with
comma-unbordered = refl

values-Lacks : Lacks (codes ", ") (codes "10" ∷ [] ∷ codes "7" ∷ [])
unfolding find starts_with
values-Lacks = (refl, (refl, (refl, tt)))

split-join_example :
    split (codes ", ") (join (codes ", ") (codes "10" ∷ [] ∷ codes "7" ∷ []))
    ≡ some (codes "10" ∷ [] ∷ codes "7" ∷ [])
split-join_example =
    split-join (codes ", ") (codes "10") ([] ∷ codes "7" ∷ []) comma-unbordered values-Lacks

-- With a delimiter that overlaps itself the values are not read back.
overlapping :
    split (codes "aa") (join (codes "aa") (codes "a" ∷ codes "b" ∷ []))
    ≡ some ([] ∷ codes "ab" ∷ [])
unfolding split join find starts_with
overlapping = refl

crlf-unbordered : unbordered (codes "\r\n") ≡ true
unfolding unbordered starts_with
crlf-unbordered = refl

crlf_comma-Disjoint : Disjoint (codes "\r\n") (codes ", ")
crlf_comma-Disjoint = (
  ((λ e. omega (arith, e)), ((λ e. omega (arith, e)), tt)),
  (((λ e. omega (arith, e)), ((λ e. omega (arith, e)), tt)), tt),
)

lines-Lacks : Lacks (codes "\r\n") (codes "10" ∷ codes "7" ∷ [])
unfolding find starts_with
lines-Lacks = (refl, (refl, tt))

joined_found :
    find
      (codes "\r\n")
      (join (codes ", ") (codes "10" ∷ codes "7" ∷ []) ++ (codes "\r\n" ++ codes "8"))
    ≡ some (length (join (codes ", ") (codes "10" ∷ codes "7" ∷ [])))
joined_found =
    find-join (codes "\r\n") (codes ", ") (codes "10") (codes "7" ∷ []) (codes "8") crlf-unbordered
      (λ e. cc) crlf_comma-Disjoint lines-Lacks
