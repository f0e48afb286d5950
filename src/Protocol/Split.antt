-- ===== src/Protocol/Split.antt =====
-- What the splitting loop returns, for every message.
use ns3_cosim.Common.{
  ℕ, zero, suc, ◌+◌, ◌<◌, ◌≡◌, ◌≢◌, refl, sym, ap, ◌∙◌, inl, inr, List, [], ◌∷◌, ◌++◌, append_assoc,
  append-nil, Option, none, some, arith, Bytes, Option-cases, length, drop, length-append,
  take-length-append, drop-length-append, All,
}
use ns3_cosim.Text.{find}
use ns3_cosim.Text.Find.{find-Found}
use ns3_cosim.Protocol.{join_loop, join, split_loop, split}

-- The values with the delimiter between them, as a plain recursion.
abbrev pub joined : Bytes → List Bytes → Bytes
joined d [] = []
joined d (v ∷ []) = v
joined d (v ∷ w ∷ vs) = v ++ (d ++ joined d (w ∷ vs))

abbrev pub behind : Bytes → List Bytes → Bytes
behind d [] = []
behind d (v ∷ vs) = d ++ (v ++ behind d vs)

pub joined-behind : (d v : Bytes) (vs : List Bytes) → joined d (v ∷ vs) ≡ v ++ behind d vs
joined-behind d v [] = sym (append-nil v)
joined-behind d v (w ∷ vs) = ap (λ t. v ++ (d ++ t)) (joined-behind d w vs)

join_loop-behind :
    (d : Bytes) (i : ℕ) (vs : List Bytes) (m : Bytes) → join_loop d (suc i) vs m ≡ m ++ behind d vs
unfolding join_loop
join_loop-behind d i [] m = sym (append-nil m)
join_loop-behind d i (v ∷ vs) m = ground (
  arith,
  join_loop-behind d (suc i) vs ((m ++ d) ++ v),
  append_assoc (m ++ d) v (behind d vs),
  append_assoc m d (v ++ behind d vs),
)

pub join-joined : (d : Bytes) (vs : List Bytes) → join d vs ≡ joined d vs
unfolding join join_loop
join-joined d [] = refl
join-joined d (v ∷ vs) = join_loop-behind d 0 vs v ∙ sym (joined-behind d v vs)

-- Each value is free of the delimiter.
abbrev pub Lacks : Bytes → List Bytes → Type 0
Lacks d = All (λ v. find d v ≡ none)

abbrev Splits : Bytes → Bytes → List Bytes → Option (List Bytes) → Type 0
Splits d m acc r =
    (v : Bytes) × (vs : List Bytes) × (r ≡ some (acc ++ (v ∷ vs)))
    × (joined d (v ∷ vs) ≡ m)
    × Lacks d (v ∷ vs)

pub drop_past : (xs ys zs : Bytes) → drop (length xs + length ys) (xs ++ (ys ++ zs)) ≡ zs
drop_past xs ys zs =
    rw (← length-append xs ys, ← append_assoc xs ys zs) (drop-length-append (xs ++ ys) zs)

pub split_step :
    (d pre post : Bytes) (f : ℕ) (acc : List Bytes)
    → find d (pre ++ (d ++ post)) ≡ some (length pre)
    → split_loop (suc f) d (pre ++ (d ++ post)) acc ≡ split_loop f d post (acc ++ (pre ∷ []))
unfolding split_loop
split_step d pre post f acc h =
    rw (h, split_loop, drop_past pre d post, take-length-append pre (d ++ post))

pub split_last :
    (d m : Bytes) (f : ℕ) (acc : List Bytes)
    → find d m ≡ none
    → split_loop (suc f) d m acc ≡ some (acc ++ (m ∷ []))
unfolding split_loop
split_last d m f acc h = rw (h, split_loop)

rest_shorter :
    (d pre post m : Bytes) (f : ℕ)
    → d ≢ []
    → m ≡ pre ++ (d ++ post)
    → length m < suc f
    → length post < f
rest_shorter [] pre post m f ne e h = absurd (ne refl)
rest_shorter (c ∷ d) pre post m f ne e h =
    omega (arith, ap length e, length-append pre ((c ∷ d) ++ post), length-append d post)

split_loop-Splits :
    (f : ℕ) (d m : Bytes) (acc : List Bytes)
    → d ≢ []
    → length m < f
    → Splits d m acc (split_loop f d m acc)
split_loop-Splits zero d m acc ne h = elim h [ ]
split_loop-Splits (suc f) d m acc ne h = elim (Option-cases (find d m)) [
  | inl e ↦ (m, [], split_last d m f acc e, refl, (e, tt))
  | inr (i, e) ↦
      let (pre, post, eq, l, free) = find-Found d m i ne e in
      let at_pre : find d (pre ++ (d ++ post)) ≡ some (length pre) = rw (← eq, l) e in
      let (v, vs, r, j, lacks) =
        split_loop-Splits f d post (acc ++ (pre ∷ [])) ne (rest_shorter d pre post m f ne eq h) in
      (
        pre,
        v ∷ vs,
        ap (λ t. split_loop (suc f) d t acc) eq
            ∙ split_step d pre post f acc at_pre
            ∙ r
            ∙ ap some (append_assoc acc (pre ∷ []) (v ∷ vs)),
        rw j (sym eq),
        (free, lacks),
      )
]

-- For a delimiter that is not empty the loop of ForwardUp ends, and it cuts the message exactly at
-- its delimiters: it returns at least one value, no value holds the delimiter, and joining the
-- values as SendResponse does gives the message back.
pub split_cuts :
    (d m : Bytes)
    → d ≢ []
    → (v : Bytes) × (vs : List Bytes) × (split d m ≡ some (v ∷ vs))
      × (join d (v ∷ vs) ≡ m)
      × Lacks d (v ∷ vs)
unfolding split
split_cuts d m ne =
    let (v, vs, r, j, lacks) = split_loop-Splits (suc (length m)) d m [] ne (omega arith) in
    (v, vs, r, join-joined d (v ∷ vs) ∙ j, lacks)
