-- ===== src/Simulator/Queue.antt =====
-- The list of pending events: what insertion and removal keep.
use ns3_cosim.Common.{
  ℕ, suc, ◌≤◌, ◌<◌, ◌≡◌, refl, inl, inr, Bool, true, false, ◌||◌, List, [], ◌∷◌, arith, ◌==◌,
  if◌then◌else◌, All, Any,
}
use ns3_cosim.Simulator.{Event, insert_event, without, has_uid}

module _ {Call : Type 0} where
  pub All-insert_event :
      (P : Event Call → Type 0) (e : Event Call) (es : List (Event Call))
      → P e
      → All P es
      → All P (insert_event e es)
  unfolding insert_event
  All-insert_event P e [] p h = (p, tt)
  All-insert_event P e (f ∷ es) p h = ground (arith, All-insert_event P e es p h.1)

  pub All-without :
      (P : Event Call → Type 0) (u : ℕ) (es : List (Event Call)) → All P es → All P (without u es)
  unfolding without
  All-without P u [] h = tt
  All-without P u (e ∷ es) h = ground (arith, All-without P u es h.1)

  -- An implication that holds of every event.
  pub All-map :
      (P Q : Event Call → Type 0)
      → ((e : Event Call) → P e → Q e)
      → (es : List (Event Call)) → All P es
      → All Q es
  All-map P Q f [] h = tt
  All-map P Q f (e ∷ es) h = (f e h.0, All-map P Q f es h.1)

  pub Any-insert_event :
      (P : Event Call → Type 0) (e : Event Call) (es : List (Event Call))
      → Any P es
      → Any P (insert_event e es)
  unfolding insert_event
  Any-insert_event P e [] h = absurd h
  Any-insert_event P e (f ∷ es) h = ground (arith, Any-insert_event P e es)

  pub Any-insert_event_self :
      (P : Event Call → Type 0) (e : Event Call) (es : List (Event Call))
      → P e
      → Any P (insert_event e es)
  unfolding insert_event
  Any-insert_event_self P e [] p = inl p
  Any-insert_event_self P e (f ∷ es) p = ground (arith, Any-insert_event_self P e es p)

  unfoldable pub count : (Call → Bool) → List (Event Call) → ℕ
  count p [] = 0
  count p (e ∷ es) = let rest = count p es in if p e.call then suc rest else rest

  pub count-cons :
      (p : Call → Bool) (e : Event Call) (es : List (Event Call))
      → count p (e ∷ es) ≡ (if p e.call then suc (count p es) else count p es)
  unfolding count
  count-cons p e es = refl

  pub count-nil : (p : Call → Bool) → count p [] ≡ 0
  unfolding count
  count-nil p = refl

  pub insert_event-nil : (e : Event Call) → insert_event e [] ≡ e ∷ []
  unfolding insert_event
  insert_event-nil e = refl

  pub count-insert_event :
      (p : Call → Bool) (e : Event Call) (es : List (Event Call))
      → count p (insert_event e es) ≡ (if p e.call then suc (count p es) else count p es)
  unfolding insert_event count
  count-insert_event p e [] = refl
  count-insert_event p e (f ∷ es) = ground (arith, count-insert_event p e es)

  pub count-eq-zero :
      (p : Call → Bool) (es : List (Event Call)) → All (λ e. p e.call ≡ false) es → count p es ≡ 0
  unfolding count
  count-eq-zero p [] h = refl
  count-eq-zero p (e ∷ es) h = ground (arith, count-eq-zero p es h.1)

  -- Removing events that are not counted.
  pub count-without :
      (p : Call → Bool) (u : ℕ) (es : List (Event Call))
      → All (λ e. e.uid ≡ u → p e.call ≡ false) es
      → count p (without u es) ≡ count p es
  unfolding without count
  count-without p u [] h = refl
  count-without p u (e ∷ es) h = ground (arith, count-without p u es h.1, h.0)

  pub has_uid-without : (u : ℕ) (es : List (Event Call)) → has_uid u (without u es) ≡ false
  unfolding has_uid without
  has_uid-without u [] = refl
  has_uid-without u (e ∷ es) = ground (arith, has_uid-without u es)

  pub count-without-le :
      (p : Call → Bool) (u : ℕ) (es : List (Event Call)) → count p (without u es) ≤ count p es
  unfolding without count
  count-without-le p u [] = omega arith
  count-without-le p u (e ∷ es) = ground (arith, count-without-le p u es)

  -- The number of no event in the list.
  pub has_uid-above :
      (u n : ℕ) (es : List (Event Call)) → All (λ e. e.uid < n) es → n ≤ u → has_uid u es ≡ false
  unfolding has_uid
  has_uid-above u n [] h l = refl
  has_uid-above u n (e ∷ es) h l = ground (arith, has_uid-above u n es h.1)

  -- Where no counted event is left, and every event of this number is counted.
  pub has_uid-count_zero :
      (p : Call → Bool) (u : ℕ) (es : List (Event Call))
      → count p es ≡ 0
      → All (λ e. e.uid ≡ u → p e.call ≡ true) es
      → has_uid u es ≡ false
  unfolding has_uid count
  has_uid-count_zero p u [] c h = refl
  has_uid-count_zero p u (e ∷ es) c h = ground (arith, has_uid-count_zero p u es, h.0)

  -- And the other way round.
  pub count_zero-has_uid :
      (p : Call → Bool) (u : ℕ) (es : List (Event Call))
      → has_uid u es ≡ false
      → All (λ e. p e.call ≡ true → e.uid ≡ u) es
      → count p es ≡ 0
  unfolding has_uid count
  count_zero-has_uid p u [] c h = refl
  count_zero-has_uid p u (e ∷ es) c h = ground (arith, count_zero-has_uid p u es, h.0)

  pub has_uid-without_other :
      (u v : ℕ) (es : List (Event Call)) → has_uid u es ≡ false → has_uid u (without v es) ≡ false
  unfolding has_uid without
  has_uid-without_other u v [] h = refl
  has_uid-without_other u v (e ∷ es) h = ground (arith, has_uid-without_other u v es)

  pub without-absent : (u : ℕ) (es : List (Event Call)) → has_uid u es ≡ false → without u es ≡ es
  unfolding has_uid without
  without-absent u [] h = refl
  without-absent u (e ∷ es) h = ground (arith, without-absent u es)

  pub has_uid-insert_event :
      (u : ℕ) (e : Event Call) (es : List (Event Call))
      → has_uid u (insert_event e es) ≡ (e.uid == u || has_uid u es)
  unfolding has_uid insert_event
  has_uid-insert_event u e [] = refl
  has_uid-insert_event u e (f ∷ es) = ground (arith, has_uid-insert_event u e es)

  -- In the order of their times, none before `t`.
  abbrev pub Ordered : ℕ → List (Event Call) → Type 0
  Ordered t [] = Unit {0}
  Ordered t (e ∷ es) = (t ≤ e.time) × Ordered e.time es

  pub Ordered-le : {t n : ℕ} (es : List (Event Call)) → n ≤ t → Ordered t es → Ordered n es
  Ordered-le [] l h = tt
  Ordered-le (e ∷ es) l h = (omega arith, h.1)

  pub Ordered-insert_event :
      (t : ℕ) (e : Event Call) (es : List (Event Call))
      → t ≤ e.time
      → Ordered t es
      → Ordered t (insert_event e es)
  unfolding insert_event
  Ordered-insert_event t e [] l h = (l, tt)
  Ordered-insert_event t e (f ∷ es) l h = ground (arith, Ordered-insert_event f.time e es)

  pub Ordered-without : (t u : ℕ) (es : List (Event Call)) → Ordered t es → Ordered t (without u es)
  unfolding without
  Ordered-without t u [] h = tt
  Ordered-without t u (e ∷ es) h =
      ground
        (arith, Ordered-without e.time u es h.1, Ordered-le {t = e.time} {n = t} (without u es))

  -- An ordered list has no event before its bound.
  pub Ordered-Any :
      (t n : ℕ) (P : Event Call → Type 0) (es : List (Event Call))
      → ((e : Event Call) → P e → e.time ≡ n)
      → Ordered t es
      → Any P es
      → t ≤ n
  Ordered-Any t n P [] f h a = absurd a
  Ordered-Any t n P (e ∷ es) f h (inl p) = omega (arith, f e p)
  Ordered-Any t n P (e ∷ es) f h (inr a) = omega (arith, Ordered-Any e.time n P es f h.1 a)
