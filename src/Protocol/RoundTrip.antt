-- ===== src/Protocol/RoundTrip.antt =====
-- Splitting what SendResponse joined, and finding the end of it in a stream.
use ns3_cosim.Common.{
  ℕ, zero, suc, ◌≤◌, ◌<◌, ◌≡◌, ◌≢◌, refl, ap, ◌∙◌, true, List, [], ◌∷◌, ◌++◌, append_assoc, none,
  some, arith, Bytes, length, length-append,
}
use ns3_cosim.Text.{find}
use ns3_cosim.Text.Border.{unbordered, find-append, find_across, Disjoint, unbordered-ne-nil}
use ns3_cosim.Protocol.{join, split_loop, split}
use ns3_cosim.Protocol.Split.{joined, join-joined, Lacks, split_step, split_last}

-- Each delimiter that is not empty pays for one round.
split_loop-joined :
    (f : ℕ) (d v : Bytes) (vs acc : List Bytes)
    → unbordered d ≡ true
    → Lacks d (v ∷ vs)
    → length vs < f
    → split_loop f d (joined d (v ∷ vs)) acc ≡ some (acc ++ (v ∷ vs))
split_loop-joined zero d v vs acc b l h = elim h [ ]
split_loop-joined (suc f) d v [] acc b l h = split_last d v f acc l.0
split_loop-joined (suc f) d v (w ∷ vs) acc b l h =
    split_step d v (joined d (w ∷ vs)) f acc (find-append d v (joined d (w ∷ vs)) b l.0)
    ∙ split_loop-joined f d w vs (acc ++ (v ∷ [])) b l.1 (omega arith)
    ∙ ap some (append_assoc acc (v ∷ []) (w ∷ vs))

length-joined : (d v : Bytes) (vs : List Bytes) → d ≢ [] → length vs ≤ length (joined d (v ∷ vs))
length-joined [] v vs ne = absurd (ne refl)
length-joined (c ∷ d) v [] ne = omega arith
length-joined (c ∷ d) v (w ∷ vs) ne = omega (
  arith,
  length-joined (c ∷ d) w vs ne,
  length-append v ((c ∷ d) ++ joined (c ∷ d) (w ∷ vs)),
  length-append d (joined (c ∷ d) (w ∷ vs)),
)

-- Splitting a joined message gives the values back, if there is one, if none of them holds the
-- delimiter, and if no proper suffix of the delimiter is also a prefix of it.
pub split-join :
    (d v : Bytes) (vs : List Bytes)
    → unbordered d ≡ true
    → Lacks d (v ∷ vs)
    → split d (join d (v ∷ vs)) ≡ some (v ∷ vs)
unfolding split
split-join d v vs b l = rw (join-joined d (v ∷ vs)) (
    split_loop-joined (suc (length (joined d (v ∷ vs)))) d v vs [] b l
      (omega (arith, length-joined d v vs (unbordered-ne-nil d b))))

pub joined-Lacks :
    (dm df v : Bytes) (vs : List Bytes)
    → Disjoint dm df
    → dm ≢ []
    → df ≢ []
    → Lacks dm (v ∷ vs)
    → find dm (joined df (v ∷ vs)) ≡ none
joined-Lacks dm df v [] dis nm nf l = l.0
joined-Lacks dm df v (w ∷ vs) dis nm nf l =
    find_across dm v df (joined df (w ∷ vs)) dis nm nf l.0 (joined-Lacks dm df w vs dis nm nf l.1)

-- A joined message is found whole at the head of a stream: the first message delimiter is the one
-- behind it. The delimiters have no byte in common, and the message delimiter is unbordered.
pub find-join :
    (dm df v : Bytes) (vs : List Bytes) (rest : Bytes)
    → unbordered dm ≡ true
    → df ≢ []
    → Disjoint dm df
    → Lacks dm (v ∷ vs)
    → find dm (join df (v ∷ vs) ++ (dm ++ rest)) ≡ some (length (join df (v ∷ vs)))
find-join dm df v vs rest b nf dis l =
    find-append dm (join df (v ∷ vs)) rest b
      (rw (join-joined df (v ∷ vs)) (joined-Lacks dm df v vs dis (unbordered-ne-nil dm b) nf l))
