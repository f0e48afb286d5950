-- ===== src/Text/Border.antt =====
-- Delimiters that cannot be confused with what stands before them. `unbordered d` says that no
-- proper suffix of `d` is also a prefix of it.
use ns3_cosim.Common.{
  ℕ, ◌≤◌, ◌≡◌, ◌≢◌, refl, ◌⊎◌, inl, inr, Bool, true, false, not, ◌||◌, [], ◌∷◌, ◌++◌, none, some,
  arith, Bytes, codes, Bool-cases, length, length-append, All,
}
use ns3_cosim.Text.{starts_with, find}
use ns3_cosim.Text.Find.{starts_with-append, find-nil}

overlaps : Bytes → Bytes → Bool
overlaps d [] = false
overlaps d (x ∷ s) = starts_with (x ∷ s) d || overlaps d s

unfoldable pub unbordered : Bytes → Bool
unfolding overlaps
unbordered [] = false
unbordered (c ∷ d) = not (overlaps (c ∷ d) d)

unbordered_crlf : unbordered (codes "\r\n") ≡ true
unfolding unbordered starts_with
unbordered_crlf = refl

unbordered_double : unbordered (codes ",,") ≡ false
unfolding unbordered starts_with
unbordered_double = refl

-- An occurrence that begins in `u` ends in it, or runs on into `w`.
starts_with_split :
    (d u w : Bytes)
    → starts_with d (u ++ w) ≡ true
    → (starts_with d u ≡ true)
      ⊎ ((c : ℕ) × (q : Bytes) × (d ≡ u ++ (c ∷ q)) × (starts_with (c ∷ q) w ≡ true))
unfolding starts_with
starts_with_split [] u w h = inl refl
starts_with_split (c ∷ d) [] w h = inr (c, d, refl, h)
starts_with_split (c ∷ d) (x ∷ u) w h = ground (arith, starts_with_split d u w)

-- A prefix of `d ++ rest` that is no longer than `d` is a prefix of `d`.
starts_with_short :
    (q d rest : Bytes)
    → length q ≤ length d
    → starts_with q (d ++ rest) ≡ true
    → starts_with q d ≡ true
unfolding starts_with
starts_with_short [] d rest l h = refl
starts_with_short (c ∷ q) [] rest l h = absurd (omega arith)
starts_with_short (c ∷ q) (x ∷ d) rest l h = ground (arith, starts_with_short q d rest)

overlaps_intro :
    (d u : Bytes) (c : ℕ) (q : Bytes)
    → starts_with (c ∷ q) d ≡ true
    → overlaps d (u ++ (c ∷ q)) ≡ true
unfolding overlaps
overlaps_intro d [] c q h = ground arith
overlaps_intro d (x ∷ u) c q h = ground (arith, overlaps_intro d u c q h)

no_overlap :
    (d : Bytes) (x : ℕ) (u : Bytes) (c : ℕ) (q rest : Bytes)
    → unbordered d ≡ true
    → d ≡ x ∷ (u ++ (c ∷ q))
    → starts_with (c ∷ q) (d ++ rest) ≡ true
    → ⊥
unfolding unbordered
no_overlap [] x u c q rest b e h = cc
no_overlap (y ∷ d) x u c q rest b e h = ground (
  arith,
  overlaps_intro (y ∷ d) u c q,
  starts_with_short (c ∷ q) (y ∷ d) rest,
  length-append u (c ∷ q),
)

find_prefix : (d s : Bytes) → starts_with d s ≡ true → find d s ≡ some 0
unfolding find
find_prefix d [] h = rw h
find_prefix d (x ∷ s) h = rw h

no_early_hit :
    (d : Bytes) (x : ℕ) (v rest : Bytes)
    → unbordered d ≡ true
    → starts_with d (x ∷ v) ≡ false
    → starts_with d (x ∷ (v ++ (d ++ rest))) ≡ false
no_early_hit d x v rest b miss = elim (Bool-cases (starts_with d ((x ∷ v) ++ (d ++ rest)))) [
  | inr no_hit ↦ no_hit
  | inl hit ↦ elim (starts_with_split d (x ∷ v) (d ++ rest) hit) [
    | inl early ↦ absurd (cc (miss, early))
    | inr (c, q, e, r) ↦ absurd (no_overlap d x v c q rest b e r)
  ]
]

-- Behind a text that does not hold the delimiter, an unbordered delimiter is found where it stands.
pub find-append :
    (d v rest : Bytes)
    → unbordered d ≡ true
    → find d v ≡ none
    → find d (v ++ (d ++ rest)) ≡ some (length v)
unfolding find
find-append d [] rest b h = find_prefix d (d ++ rest) (starts_with-append d rest)
find-append d (x ∷ v) rest b h = elim (Bool-cases (starts_with d (x ∷ v))) [
  | inl hit ↦ absurd (ground arith)
  | inr miss ↦ rw (no_early_hit d x v rest b miss) (ground (arith, find-append d v rest b))
]

-- An occurrence of `d` cannot run into a text that begins with a byte which `d` lacks.
starts_with_stop :
    (d u : Bytes) (c : ℕ) (w : Bytes)
    → All (λ b. b ≢ c) d
    → starts_with d (u ++ (c ∷ w)) ≡ true
    → starts_with d u ≡ true
unfolding starts_with
starts_with_stop [] u c w l h = refl
starts_with_stop (b ∷ d) [] c w l h = absurd (ground arith)
starts_with_stop (b ∷ d) (x ∷ u) c w l h = ground (arith, starts_with_stop d u c w l.1)

find_stop :
    (d u : Bytes) (c : ℕ) (w : Bytes)
    → All (λ b. b ≢ c) d
    → find d u ≡ none
    → find d w ≡ none
    → find d (u ++ (c ∷ w)) ≡ none
unfolding find
find_stop d [] c w l hu hw = ground (arith, starts_with_stop d [] c w l)
find_stop d (x ∷ u) c w l hu hw =
    ground (arith, starts_with_stop d (x ∷ u) c w l, find_stop d u c w l)

-- The two delimiters have no byte in common.
abbrev pub Disjoint : Bytes → Bytes → Type 0
Disjoint d e = All (λ c. All (λ b. b ≢ c) d) e

-- So an occurrence of `d` cannot reach across `e`.
pub find_across :
    (d u e w : Bytes)
    → Disjoint d e
    → d ≢ []
    → e ≢ []
    → find d u ≡ none
    → find d w ≡ none
    → find d (u ++ (e ++ w)) ≡ none
find_across d u [] w dis nd ne hu hw = absurd (ne refl)
find_across d u (c ∷ []) w dis nd ne hu hw = find_stop d u c w dis.0 hu hw
find_across d u (c ∷ b ∷ e) w dis nd ne hu hw =
    find_stop d u c ((b ∷ e) ++ w) dis.0 hu
      (find_across d [] (b ∷ e) w dis.1 nd (λ q. cc) (find-nil d nd) hw)

pub unbordered-ne-nil : (d : Bytes) → unbordered d ≡ true → d ≢ []
unfolding unbordered
unbordered-ne-nil [] b = cc
unbordered-ne-nil (c ∷ d) b = λ q. cc
