-- ===== src/Text/Find.antt =====
-- What s.find(d) returns: an occurrence, the first one, and npos only where there is none.
use ns3_cosim.Common.{
  ℕ, suc, ◌+◌, ◌≤◌, ◌≡◌, ◌≢◌, refl, ap, subst, inl, inr, true, false, [], ◌∷◌, ◌++◌, none, some,
  arith, Bytes, Bool-cases, Option-cases, length, drop, length-append,
}
use ns3_cosim.Text.{starts_with, find}

pub starts_with-append : (d s : Bytes) → starts_with d (d ++ s) ≡ true
unfolding starts_with
starts_with-append [] s = refl
starts_with-append (c ∷ d) s = ground (arith, starts_with-append d s)

pub starts_with_eq : (d s : Bytes) → starts_with d s ≡ true → s ≡ d ++ drop (length d) s
unfolding starts_with
starts_with_eq [] s h = refl
starts_with_eq (c ∷ d) [] h = cc
starts_with_eq (c ∷ d) (x ∷ s) h = ground (arith, starts_with_eq d s)

-- A prefix stays one when text is appended.
pub starts_with-extend : (d s t : Bytes) → starts_with d s ≡ true → starts_with d (s ++ t) ≡ true
unfolding starts_with
starts_with-extend [] s t h = refl
starts_with-extend (c ∷ d) [] t h = cc
starts_with-extend (c ∷ d) (x ∷ s) t h = ground (arith, starts_with-extend d s t)

pub find-nil : (d : Bytes) → d ≢ [] → find d [] ≡ none
unfolding find starts_with
find-nil [] h = absurd (h refl)
find-nil (c ∷ d) h = refl

-- The text around the first occurrence: nothing of `d` ends before `pre` does.
abbrev pub Found : Bytes → Bytes → ℕ → Type 0
Found d s i =
    (pre : Bytes) × (post : Bytes) × (s ≡ pre ++ (d ++ post))
    × (length pre ≡ i)
    × (find d pre ≡ none)

find-cons_none :
    (d : Bytes) (x : ℕ) (s t : Bytes)
    → starts_with d (x ∷ (s ++ t)) ≡ false
    → find d s ≡ none
    → find d (x ∷ s) ≡ none
unfolding find
find-cons_none d x s t h e = ground (arith, starts_with-extend d (x ∷ s) t)

Found-cons :
    (d : Bytes) (x : ℕ) (s : Bytes) (i : ℕ)
    → starts_with d (x ∷ s) ≡ false
    → Found d s i
    → Found d (x ∷ s) (suc i)
Found-cons d x s i h (pre, post, e, l, n) =
    (x ∷ pre, post, ap (◌∷◌ x) e, ap suc l, find-cons_none d x pre (d ++ post) (rw (← e) h) n)

pub find-Found : (d s : Bytes) (i : ℕ) → d ≢ [] → find d s ≡ some i → Found d s i
unfolding find
find-Found d [] i ne h = absurd (none-ne h)
  where
    none-ne : find d [] ≢ some i
    none-ne e = cc (e, find-nil d ne)
find-Found d (x ∷ s) i ne h = elim (Bool-cases (starts_with d (x ∷ s))) [
  | inl hit ↦
      ([], drop (length d) (x ∷ s), starts_with_eq d (x ∷ s) hit, ground arith, find-nil d ne)
  | inr miss ↦ elim (Option-cases (find d s)) [
    | inl e ↦ absurd (ground arith)
    | inr (j, e) ↦
        subst (Found d (x ∷ s)) (ground arith) (Found-cons d x s j miss (find-Found d s j ne e))
  ]
]

-- The position is inside the text, and leaves room for the delimiter.
pub find_bound : (d s : Bytes) (i : ℕ) → d ≢ [] → find d s ≡ some i → i + length d ≤ length s
find_bound d s i ne h =
    let (pre, post, e, l, n) = find-Found d s i ne h in
    omega (arith, ap length e, length-append pre (d ++ post), length-append d post)
