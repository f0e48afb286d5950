-- ===== src/Text/Decimal.antt =====
-- std::to_string writes what std::stoi reads.
use ns3_cosim.Common.{
  ℕ, zero, suc, ◌+◌, ◌-◌, ◌*◌, ◌/◌, ◌%◌, ◌^◌, ◌≤◌, ◌<◌, ◌≡◌, ◌≢◌, refl, sym, ap, subst, ◌∙◌, inl,
  inr, true, false, [], ◌∷◌, ◌++◌, none, some, Bytes, ltb, ◌==◌, List, Bool-cases, arith, All,
  All-append, ℤ, pos,
}
use ns3_cosim.Text.{find, starts_with}
use ns3_cosim.Text.Number.{
  is_space, is_digit, skip_spaces, magnitude, unsigned, signed, narrow, narrow?, stoi, digits,
  to_string,
}

-- Decimal digits only.
abbrev pub IsDigits : Bytes → Type 0
IsDigits = All λ c. (48 ≤ c) × (c ≤ 57)

pub find-IsDigits : (c : ℕ) (d s : Bytes) → c < 48 → IsDigits s → find (c ∷ d) s ≡ none
unfolding find starts_with
find-IsDigits c d [] l h = refl
find-IsDigits c d (x ∷ s) l h = ground (arith, find-IsDigits c d s l h.1)

digits-IsDigits : (fuel n : ℕ) → IsDigits (digits fuel n)
unfolding digits
digits-IsDigits zero n = tt
digits-IsDigits (suc fuel) n = elim (Bool-cases (ltb n 10)) [
  | inl e ↦ rw e ((ground arith, tt))
  | inr e ↦ rw e (
      All-append (λ c. (48 ≤ c) × (c ≤ 57)) (digits fuel (n / 10)) _ (digits-IsDigits fuel (n / 10))
        ((omega arith, omega arith), tt))
]

pub to_string-IsDigits : (n : ℕ) → IsDigits (to_string n)
unfolding to_string
to_string-IsDigits n = digits-IsDigits 10 n

append-ne-nil : (s : Bytes) (c : ℕ) → s ++ (c ∷ []) ≢ []
append-ne-nil [] c = λ e. cc
append-ne-nil (x ∷ s) c = λ e. cc

digits-ne-nil : (fuel n : ℕ) → digits (suc fuel) n ≢ []
unfolding digits
digits-ne-nil fuel n = elim (Bool-cases (ltb n 10)) [
  | inl e ↦ rw e (λ q. cc)
  | inr e ↦ rw e (append-ne-nil (digits fuel (n / 10)) (48 + n % 10))
]

magnitude-append :
    (s t : Bytes) (n : ℕ) → IsDigits s → magnitude (s ++ t) n ≡ magnitude t (magnitude s n)
unfolding magnitude is_digit
magnitude-append [] t n h = refl
magnitude-append (c ∷ s) t n h = ground (arith, magnitude-append s t (n * 10 + (c - 48)) h.1)

last_digit : (n : ℕ) → magnitude ((48 + n % 10) ∷ []) (n / 10) ≡ n
unfolding magnitude is_digit
last_digit n = ground arith

magnitude-digits : (fuel n : ℕ) → n < 10 ^ fuel → magnitude (digits fuel n) 0 ≡ n
unfolding magnitude digits is_digit
magnitude-digits zero n l = omega arith
magnitude-digits (suc fuel) n l = elim (Bool-cases (ltb n 10)) [
  | inl e ↦ rw e (ground arith)
  | inr e ↦
      rw
        (
          e,
          magnitude-append (digits fuel (n / 10)) ((48 + n % 10) ∷ []) 0
              (digits-IsDigits fuel (n / 10)),
          magnitude-digits fuel (n / 10) (omega (arith, l)),
        )
        (last_digit n)
]

digit_tests :
    (c : ℕ)
    → 48 ≤ c
    → c ≤ 57
    → (is_space c ≡ false) × (is_digit c ≡ true) × ((c == 45) ≡ false) × ((c == 43) ≡ false)
unfolding is_space is_digit
digit_tests c l h = (ground arith, ground arith, ground arith, ground arith)

narrow-pos : (half n : ℕ) → n < half → narrow half (pos n) ≡ some (pos n)
unfolding narrow
narrow-pos half n h = ground arith

magnitude-cons :
    (c : ℕ) (s : Bytes) → is_digit c ≡ true → magnitude (c ∷ s) 0 ≡ magnitude s (0 + (c - 48))
unfolding magnitude
magnitude-cons c s e = rw e refl

stoi_digits :
    (c : ℕ) (s : Bytes) (n : ℕ)
    → IsDigits (c ∷ s)
    → magnitude (c ∷ s) 0 ≡ n
    → n < 2 ^ 31
    → stoi (c ∷ s) ≡ some (pos n)
unfolding stoi skip_spaces signed unsigned narrow? magnitude
stoi_digits c s n h v l =
    let (e1, e2, e3, e4) = digit_tests c h.0.0 h.0.1 in
    let value = sym (magnitude-cons c s e2) ∙ v in
    rw (e1, e3, e4, e2) (ap (λ m. narrow (2 ^ 31) (pos m)) value ∙ narrow-pos (2 ^ 31) n l)

-- What std::to_string writes is read back, if it fits an int.
pub stoi-to_string : (n : ℕ) → n < 2 ^ 31 → stoi (to_string n) ≡ some (pos n)
unfolding to_string
stoi-to_string n l = read (digits 10 n) refl
  where
    read : (s : Bytes) → digits 10 n ≡ s → stoi s ≡ some (pos n)
    read [] e = absurd (digits-ne-nil 9 n e)
    read (c ∷ s) e =
        stoi_digits c s n (subst IsDigits e (digits-IsDigits 10 n))
          (ap (λ s. magnitude s 0) (sym e) ∙ magnitude-digits 10 n (omega (arith, l))) l

-- std::stoi reads the numbers from the texts, one from each.
abbrev pub Reads : List ℤ → List Bytes → Type 0
Reads [] [] = Unit {0}
Reads (z ∷ zs) (d ∷ ds) = (stoi d ≡ some z) × Reads zs ds
Reads [] (d ∷ ds) = ⊥
Reads (z ∷ zs) [] = ⊥

pub Reads-append :
    (ys zs : List ℤ) (cs ds : List Bytes) → Reads ys cs → Reads zs ds → Reads (ys ++ zs) (cs ++ ds)
Reads-append [] zs [] ds h k = k
Reads-append (y ∷ ys) zs (c ∷ cs) ds h k = (h.0, Reads-append ys zs cs ds h.1 k)
Reads-append [] zs (c ∷ cs) ds h k = elim h [ ]
Reads-append (y ∷ ys) zs [] ds h k = elim h [ ]
