-- ===== src/Gateway/Values.antt =====
-- The values to send: what SetValue accepts and stores, and what a peer reads from a response.
use ns3_cosim.Common.{
  ℕ, suc, ◌<◌, ◌≡◌, ◌≢◌, refl, sym, ap, subst, ◌∙◌, inl, inr, ◌↔◌, ◌==◌, ==_iff, true, false, not,
  List, [], ◌∷◌, ◌++◌, Option, none, some, arith, leb, if◌then◌else◌, Bool-cases, length, get_elem?,
  set, Bytes, append_assoc, take, take-length-append, All-set, All-replicate, length-set,
  length-replicate, get_elem?-set_self, get_elem?-set_ne,
}
use ns3_cosim.Text.{find}
use ns3_cosim.Text.Find.{find-nil}
use ns3_cosim.Text.Border.{unbordered, Disjoint}
use ns3_cosim.Protocol.{join, split}
use ns3_cosim.Protocol.Split.{Lacks}
use ns3_cosim.Protocol.RoundTrip.{split-join, find-join}
use ns3_cosim.Simulator.{Simulator}
use ns3_cosim.Gateway.{
  Call, Gateway, World, ok, refuse, refuse-eq-ok, >>=-eq-ok, ok-injective, set_value, send_response,
  Action, sets, sends, schedules, stops, is_found, is_empty, is_connected,
}
use ns3_cosim.Gateway.Handlers.{new, run_actions, act}

-- No value to send holds a delimiter, and there are `n` of them.
pub record IsSendable (n : ℕ) (g : Gateway) : Type 0 where
  pub has_field : g.delimiter_field ≢ []
  pub has_message : g.delimiter_message ≢ []
  pub lacks_field : Lacks g.delimiter_field g.values
  pub lacks_message : Lacks g.delimiter_message g.values
  pub size : length g.values ≡ n

not_found : (o : Option ℕ) → is_found o ≡ false → o ≡ none
not_found none h = refl
not_found (some i) h = cc

set_value_sound :
    (i : ℕ) (v : Bytes) (g g' : Gateway)
    → set_value i v g ≡ ok g'
    → (i < length g.values)
      × (find g.delimiter_field v ≡ none)
      × (find g.delimiter_message v ≡ none)
      × (g' ≡ record g { values = set g.values i v })
unfolding set_value
set_value_sound i v g g' h =
    let (_, a, h1) = >>=-eq-ok (refuse (leb (length g.values) i) _) _ h in
    let (_, b, h2) = >>=-eq-ok (refuse (is_found (find g.delimiter_field v)) _) _ h1 in
    let (_, c, h3) = >>=-eq-ok (refuse (is_found (find g.delimiter_message v)) _) _ h2 in
    (
      leb-lt i (refuse-eq-ok _ _ a),
      not_found _ (refuse-eq-ok _ _ b),
      not_found _ (refuse-eq-ok _ _ c),
      cc h3,
    )
  where
    leb-lt : (i : ℕ) → leb (length g.values) i ≡ false → i < length g.values
    leb-lt i h = ground arith

set_value_complete :
    (i : ℕ) (v : Bytes) (g : Gateway)
    → i < length g.values
    → find g.delimiter_field v ≡ none
    → find g.delimiter_message v ≡ none
    → set_value i v g ≡ ok (record g { values = set g.values i v })
unfolding set_value
set_value_complete i v g l f m = ground arith

-- SetValue returns exactly for an index below the size and a value that holds neither delimiter; and
-- then that one value is replaced, and nothing else of the gateway.
pub set_value_iff :
    (i : ℕ) (v : Bytes) (g g' : Gateway)
    → (set_value i v g ≡ ok g') ↔ (
        (i < length g.values)
        × (find g.delimiter_field v ≡ none)
        × (find g.delimiter_message v ≡ none)
        × (g' ≡ record g { values = set g.values i v }))
set_value_iff i v g g' =
    (set_value_sound i v g g', λ (l, f, m, e). set_value_complete i v g l f m ∙ ap ok (sym e))

-- An accepted value can be read back at its index, and the values at the other indices are retained.
pub get_elem?-set_value :
    (i : ℕ) (v : Bytes) (g g' : Gateway) (j : ℕ)
    → set_value i v g ≡ ok g'
    → get_elem? g'.values j ≡ (if i == j then some v else get_elem? g.values j)
get_elem?-set_value i v g g' j h =
    let (l, f, m, e) = set_value_sound i v g g' h in ap (λ k. get_elem? k.values j) e ∙ stored l
  where
    stored :
        i < length g.values
        → get_elem? (set g.values i v) j ≡ (if i == j then some v else get_elem? g.values j)
    stored l = elim (Bool-cases (i == j)) [
      | inl e ↦ rw e (
          subst (λ k. get_elem? (set g.values i v) k ≡ some v) ((==_iff i j).0 e)
            (get_elem?-set_self g.values i v l))
      | inr e ↦ rw e (get_elem?-set_ne g.values v (λ q. cc ((==_iff i j).1 q)))
    ]

set_value-IsSendable :
    (n i : ℕ) (v : Bytes) (g g' : Gateway)
    → set_value i v g ≡ ok g'
    → IsSendable n g
    → IsSendable n g'
set_value-IsSendable n i v g g' h k =
    let (l, f, m, e) = set_value_sound i v g g' h in
    subst (IsSendable n) (sym e) (record {
      has_field = k.has_field;
      has_message = k.has_message;
      lacks_field = All-set _ g.values i v f k.lacks_field;
      lacks_message = All-set _ g.values i v m k.lacks_message;
      size = length-set g.values i v ∙ k.size;
    })

is_empty-ne : (d : Bytes) → is_empty d ≡ false → d ≢ []
is_empty-ne [] h = cc
is_empty-ne (c ∷ d) h = λ q. cc

module _ (S : Simulator Call) where
  open S use {Sim}

  -- A constructed gateway has two delimiters that are not empty, the message delimiter does not occur
  -- in the field delimiter, and `n` values without a delimiter stand ready to be sent.
  pub new-IsSendable :
      (n : ℕ) (df dm : Bytes) (g : Gateway)
      → new S n df dm ≡ ok g
      → IsSendable n g × (find g.delimiter_message g.delimiter_field ≡ none)
  unfolding new
  new-IsSendable n df dm g h =
      let (_, a, h1) = >>=-eq-ok (refuse (is_empty df) _) _ h in
      let (_, b, h2) = >>=-eq-ok (refuse (is_empty dm) _) _ h1 in
      let (_, c, h3) = >>=-eq-ok (refuse (is_found (find dm df)) _) _ h2 in
      let nf = is_empty-ne df (refuse-eq-ok _ _ a) in
      let nm = is_empty-ne dm (refuse-eq-ok _ _ b) in
      subst (λ k. IsSendable n k × (find k.delimiter_message k.delimiter_field ≡ none))
        (ok-injective h3)
        (
          record {
            has_field = nf;
            has_message = nm;
            lacks_field = All-replicate _ n [] (find-nil df nf);
            lacks_message = All-replicate _ n [] (find-nil dm nm);
            size = length-replicate n [];
          },
          not_found _ (refuse-eq-ok _ _ c),
        )

  act-IsSendable :
      (n : ℕ) (a : Action) (w w' : World Sim)
      → act S a w ≡ ok w'
      → IsSendable n w.gateway
      → IsSendable n w'.gateway
  unfolding act
  act-IsSendable n (sets i v) w w' h k =
      let (g, e, r) = >>=-eq-ok (set_value i v w.gateway) _ h in
      subst (λ u. IsSendable n u.gateway) (ok-injective r)
        (set_value-IsSendable n i v w.gateway g e k)
  act-IsSendable n sends w w' h k =
      let (m, e, r) = >>=-eq-ok (send_response w.gateway) _ h in
      subst (λ u. IsSendable n u.gateway) (ok-injective r) k
  act-IsSendable n (schedules d c) w w' h k = subst (λ u. IsSendable n u.gateway) (ok-injective h) k
  act-IsSendable n stops w w' h k = subst (λ u. IsSendable n u.gateway) (ok-injective h) k

  -- Whatever a callback of the derived class does, the values stay free of the delimiters and their
  -- number stays the one given to the constructor.
  pub run_actions-IsSendable :
      (n : ℕ) (as' : List Action) (w w' : World Sim)
      → run_actions S as' w ≡ ok w'
      → IsSendable n w.gateway
      → IsSendable n w'.gateway
  unfolding run_actions
  run_actions-IsSendable n [] w w' h k = subst (λ u. IsSendable n u.gateway) (ok-injective h) k
  run_actions-IsSendable n (a ∷ as') w w' h k =
      let (v, e, r) = >>=-eq-ok (act S a w) _ h in
      run_actions-IsSendable n as' v w' r (act-IsSendable n a w v e k)

-- A peer that cuts the stream at the first message delimiter and splits what stands before it at the
-- field delimiter, as RunThread and ForwardUp do, reads exactly the values of the gateway from a
-- response, whatever follows it in the stream. There is at least one value, both delimiters are
-- unbordered and they have no byte in common, as the default ones.
pub send_response_read :
    (n : ℕ) (g : Gateway) (message rest : Bytes)
    → IsSendable (suc n) g
    → unbordered g.delimiter_field ≡ true
    → unbordered g.delimiter_message ≡ true
    → Disjoint g.delimiter_message g.delimiter_field
    → send_response g ≡ ok message
    → (i : ℕ) × (find g.delimiter_message (message ++ rest) ≡ some i)
      × (split g.delimiter_field (take i (message ++ rest)) ≡ some g.values)
unfolding send_response
send_response_read n g message rest k bf bm dis h =
    let (_, _, h1) = >>=-eq-ok (refuse (not (is_connected g.state)) _) _ h in
    let e : message ++ rest ≡ join df g.values ++ (dm ++ rest) =
      ap (λ m. m ++ rest) (sym (ok-injective h1)) ∙ append_assoc (join df g.values) dm rest in
    (
      length (join df g.values),
      ap (find dm) e ∙ whole g.values k.size k.lacks_message,
      ap (λ m. split df (take (length (join df g.values)) m)) e
          ∙ ap (split df) (take-length-append (join df g.values) (dm ++ rest))
          ∙ values g.values k.size k.lacks_field,
    )
  where
    df : Bytes
    df = g.delimiter_field

    dm : Bytes
    dm = g.delimiter_message

    whole :
        (vs : List Bytes)
        → length vs ≡ suc n
        → Lacks dm vs
        → find dm (join df vs ++ (dm ++ rest)) ≡ some (length (join df vs))
    whole [] e l = absurd (omega arith)
    whole (v ∷ vs) e l = find-join dm df v vs rest bm k.has_field dis l

    values : (vs : List Bytes) → length vs ≡ suc n → Lacks df vs → split df (join df vs) ≡ some vs
    values [] e l = absurd (omega arith)
    values (v ∷ vs) e l = split-join df v vs bf l
