-- ===== src/SimpleGateway/Counts.antt =====
-- SimpleGateway::HandleReceive: the counts, and the response that reports them.
use ns3_cosim.Common.{
  ℕ, zero, suc, ◌+◌, ◌*◌, ◌%◌, ◌^◌, ◌≤◌, ◌<◌, ◌≡◌, ◌≢◌, refl, sym, ap, subst, ◌∙◌, inl, inr, Bool,
  true, List, [], ◌∷◌, ◌++◌, some, Result, done, ◌>>=◌, Bytes, codes, ◌==◌, ==_iff, if◌then◌else◌,
  Bool-cases, length, set, get_elem?, length-set, get_elem?-set_self, get_elem?-set_ne, ℤ, All,
  All-set, arith,
}
use ns3_cosim.Protocol.{join}
use ns3_cosim.Text.Number.{to_string}
use ns3_cosim.Text.Decimal.{stoi-to_string}
use ns3_cosim.Gateway.{is_connected}
use ns3_cosim.SimpleGateway.{SimpleGateway, Error, handle_receive, do_update}
use ns3_cosim.SimpleGateway.Round.{Readable, IsReady, elem_at}
use ns3_cosim.SimpleGateway.Response.{to_strings, do_update_responds}

-- How often `j` occurs.
unfoldable pub occurrences : ℕ → List ℕ → ℕ
occurrences j [] = 0
occurrences j (i ∷ ids) = let rest = occurrences j ids in if i == j then suc rest else rest

unchanged : (c : ℕ) → c < 2 ^ 16 → c ≡ (c + 0) % 2 ^ 16
unchanged c l = omega (arith, l)

wraps : (c d n : ℕ) → c ≡ d → ((c + 1) % 2 ^ 16 + n) % 2 ^ 16 ≡ (d + suc n) % 2 ^ 16
wraps c d n e = omega (arith, e)

All-at {ℓ κ} :
    {A : Type ℓ} (P : A → Type κ) (xs : List A) (j : ℕ) (x : A)
    → All P xs
    → get_elem? xs j ≡ some x
    → P x
All-at P [] j x h e = cc
All-at P (y ∷ xs) zero x h e = subst P (cc e) h.0
All-at P (y ∷ xs) (suc j) x h e = All-at P xs j x h.1 e

module _ {Vector : Type 0} (differ : Vector → Vector → Bool) (vector : ℤ → ℤ → ℤ → Vector) where
  -- The broadcasts that arrive, each at the vehicle of the index with which `main` connects the trace.
  unfoldable pub receive_all : List ℕ → SimpleGateway Vector → Result Error (SimpleGateway Vector)
  receive_all [] s = done s
  receive_all (i ∷ ids) s =
      handle_receive differ vector (to_string i) s >>= λ s'. receive_all ids s'

  -- `counts` are those of `s` and `received`, modulo 2^16.
  abbrev pub IsCounted : List ℕ → SimpleGateway Vector → List ℕ → Type 0
  IsCounted ids s counts =
      (j c : ℕ)
      → get_elem? s.counts j ≡ some c
      → get_elem? counts j ≡ some ((c + occurrences j ids) % 2 ^ 16)

  pub handle_receive_adds :
      (i : ℕ) (s : SimpleGateway Vector)
      → i < 2 ^ 31
      → i < length s.counts
      → (c : ℕ) × (get_elem? s.counts i ≡ some c)
        × (handle_receive differ vector (to_string i) s
            ≡ done (record s { counts = set s.counts i ((c + 1) % 2 ^ 16) }))
  unfolding handle_receive
  handle_receive_adds i s b l =
      let (c, e) = elem_at s.counts i l in (c, e, rw (stoi-to_string i b, e) refl)

  counts_add :
      (i c : ℕ) (ids : List ℕ) (s : SimpleGateway Vector) (counts : List ℕ)
      → get_elem? s.counts i ≡ some c
      → i < length s.counts
      → IsCounted ids (record s { counts = set s.counts i ((c + 1) % 2 ^ 16) }) counts
      → IsCounted (i ∷ ids) s counts
  unfolding occurrences
  counts_add i c ids s counts e l h j d f = elim (Bool-cases (i == j)) [
    | inl q ↦
        let same = (==_iff i j).0 q in
        let old : c ≡ d = cc (e, f, same) in
        rw q (
          subst (λ k. get_elem? counts k ≡ some ((d + suc (occurrences k ids)) % 2 ^ 16)) same
            (h i ((c + 1) % 2 ^ 16) (get_elem?-set_self s.counts i _ l)
              ∙ ap some (wraps c d (occurrences i ids) old)))
    | inr q ↦
        let ne : i ≢ j = λ e. cc ((==_iff i j).1 e) in
        rw q (h j d (get_elem?-set_ne s.counts _ ne ∙ f))
  ]

  receive_all-IsCounted :
      (ids : List ℕ) (s : SimpleGateway Vector)
      → length s.counts < 2 ^ 31
      → All (λ i. i < length s.counts) ids
      → All (λ c. c < 2 ^ 16) s.counts
      → (counts : List ℕ) × (receive_all ids s ≡ done (record s { counts = counts }))
        × (length counts ≡ length s.counts)
        × IsCounted ids s counts
  unfolding receive_all occurrences
  receive_all-IsCounted [] s b l k =
      (s.counts, refl, refl, λ j c e. e ∙ ap some (unchanged c (All-at _ s.counts j c k e)))
  receive_all-IsCounted (i ∷ ids) s b l k =
      let (c, e, adds) = handle_receive_adds i s (omega (arith, b, l.0)) l.0 in
      let next = set s.counts i ((c + 1) % 2 ^ 16) in
      let size = length-set s.counts i ((c + 1) % 2 ^ 16) in
      let (counts, r, same, h) =
        receive_all-IsCounted ids (record s { counts = next }) (omega (arith, size, b))
          (subst (λ n. All (λ i. i < n) ids) (sym size) l.1)
          (All-set (λ c. c < 2 ^ 16) s.counts i _ (omega arith) k) in
      (
        counts,
        ap (λ o. o >>= λ s'. receive_all ids s') adds ∙ r,
        same ∙ size,
        counts_add i c ids s counts e l.0 h,
      )

  -- Where vehicles have received broadcasts, one for each entry of `ids`, HandleReceive has counted
  -- every one of them, at its own vehicle and modulo 2^16, and the response of the next DoUpdate gives
  -- the counts, in the order of the vehicles. The vehicles are connected under their indices, as
  -- std::to_string writes them, and the conditions on the message are those of DoUpdate.
  pub receptions_reported :
      (ids : List ℕ) (values : List Bytes) (s : SimpleGateway Vector)
      → All (λ i. i < length s.counts) ids
      → All (λ c. c < 2 ^ 16) s.counts
      → Readable values
      → length s.vehicles * 7 < 2 ^ 32
      → length s.vehicles * 7 ≤ length values
      → IsReady differ vector s
      → is_connected s.gateway.state ≡ true
      → (v : SimpleGateway Vector) × (s' : SimpleGateway Vector) × (receive_all ids s ≡ done v)
        × (do_update differ vector values v ≡ done s')
        × (s'.sent ≡ s.sent ++ ((join (codes " ") (to_strings v.counts) ++ codes "\r\n") ∷ []))
        × (length v.counts ≡ length s.counts)
        × IsCounted ids s v.counts
  receptions_reported ids values s l k r b c h con =
      let (counts, e, same, added) =
        receive_all-IsCounted ids s (omega (arith, b, h.counted)) l k in
      let v = record s { counts = counts } in
      let ready : IsReady differ vector v = record {
        counted = same ∙ h.counted;
        sized = h.sized;
        field = h.field;
        message = h.message;
      } in
      let (s', u, sent) = do_update_responds differ vector values v r b c ready con in
      (v, s', e, u, sent, same, added)
