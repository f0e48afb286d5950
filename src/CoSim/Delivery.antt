-- ===== src/CoSim/Delivery.antt =====
-- The byte stream of Gateway::RunThread, and the messages that reach the queue.
use ns3_cosim.Common.{
  ℕ, ◌+◌, ◌≡◌, refl, sym, ap, ◌∙◌, true, List, [], ◌∷◌, ◌++◌, none, some, arith, length, Bytes,
  append_assoc, take, drop, take-length-append,
}
use ns3_cosim.Text.{find}
use ns3_cosim.Text.Border.{unbordered, find-append}
use ns3_cosim.Protocol.Split.{Lacks, drop_past}
use ns3_cosim.Simulator.{Simulator}
use ns3_cosim.Gateway.{Call}
use ns3_cosim.CoSim.{System, Reach}
use ns3_cosim.CoSim.Stream.{framed, unread, messages}
use ns3_cosim.CoSim.Invariant.{Reach-Inv}

-- The head of a framed stream, with the rest grouped to the right.
pub framed_head :
    (d m : Bytes) (ms : List Bytes) (r : Bytes)
    → framed d (m ∷ ms) ++ r ≡ m ++ (d ++ (framed d ms ++ r))
unfolding framed
framed_head d m ms r = simp append_assoc

find-framed :
    (d m : Bytes) (ms : List Bytes) (r : Bytes)
    → unbordered d ≡ true
    → find d m ≡ none
    → find d (framed d (m ∷ ms) ++ r) ≡ some (length m)
find-framed d m ms r b l = ap (find d) (framed_head d m ms r) ∙ find-append d m _ b l

-- Two ways to write a stream as messages and a rest are the same.
framed_unique :
    (d : Bytes) (ms ns : List Bytes) (r q : Bytes)
    → unbordered d ≡ true
    → Lacks d ms
    → Lacks d ns
    → find d r ≡ none
    → find d q ≡ none
    → framed d ms ++ r ≡ framed d ns ++ q
    → (ms ≡ ns) × (r ≡ q)
unfolding framed
framed_unique d [] [] r q b lm ln fr fq e = (refl, e)
framed_unique d [] (n ∷ ns) r q b lm ln fr fq e =
    cc (fr, ap (find d) e, find-framed d n ns q b ln.0)
framed_unique d (m ∷ ms) [] r q b lm ln fr fq e =
    cc (fq, ap (find d) e, find-framed d m ms r b lm.0)
framed_unique d (m ∷ ms) (n ∷ ns) r q b lm ln fr fq e =
    let (rest, last) = framed_unique d ms ns r q b lm.1 ln.1 fr fq tails in
    (λ i. heads i ∷ rest i, last)
  where
    at_m : List ℕ
    at_m = m ++ (d ++ (framed d ms ++ r))

    at_n : List ℕ
    at_n = n ++ (d ++ (framed d ns ++ q))

    streams : at_m ≡ at_n
    streams = sym (framed_head d m ms r) ∙ e ∙ framed_head d n ns q

    lengths : length m ≡ length n
    lengths = ground (
      arith,
      find-append d m (framed d ms ++ r) b lm.0,
      find-append d n (framed d ns ++ q) b ln.0,
      ap (find d) streams,
    )

    heads : m ≡ n
    heads =
        sym (take-length-append m (d ++ (framed d ms ++ r)))
        ∙ (λ i. take (lengths i) (streams i))
        ∙ take-length-append n (d ++ (framed d ns ++ q))

    tails : framed d ms ++ r ≡ framed d ns ++ q
    tails =
        sym (drop_past m d (framed d ms ++ r))
        ∙ (λ i. drop (lengths i + length d) (streams i))
        ∙ drop_past n d (framed d ns ++ q)

module _ (S : Simulator Call) where
  open S use {Sim}

  -- In every reachable state the bytes that ::recv returned are, in order, the messages that
  -- ForwardUp took, the messages in the queue, each with the message delimiter behind it, and the
  -- bytes that the thread still holds; no message holds the delimiter.
  pub bytes_accounted :
      (s : System Sim)
      → Reach S s
      → (s.stream
          ≡ framed s.gateway.delimiter_message (s.forwarded ++ s.gateway.message_queue)
            ++ unread s.thread s.gateway.message_buffer)
        × Lacks s.gateway.delimiter_message (s.forwarded ++ s.gateway.message_queue)
  bytes_accounted s r = let h = Reach-Inv S r in (h.all_bytes, h.lacks)

  -- When the server has sent the messages `ms` and the beginning `rest` of another one, and the
  -- thread holds no whole message, then exactly `ms` were queued, in order, and the thread holds
  -- `rest`: in whatever pieces the bytes came, and whatever the main thread did meanwhile. The message
  -- delimiter is unbordered, and neither a message nor `rest` holds it.
  pub all_delivered :
      (s : System Sim) (ms : List Bytes) (rest : Bytes)
      → Reach S s
      → unbordered s.gateway.delimiter_message ≡ true
      → Lacks s.gateway.delimiter_message ms
      → find s.gateway.delimiter_message rest ≡ none
      → s.stream ≡ framed s.gateway.delimiter_message ms ++ rest
      → find s.gateway.delimiter_message (unread s.thread s.gateway.message_buffer) ≡ none
      → (s.forwarded ++ s.gateway.message_queue ≡ ms)
        × (unread s.thread s.gateway.message_buffer ≡ rest)
  all_delivered s ms rest r b l f e g =
      let h = Reach-Inv S r in
      framed_unique s.gateway.delimiter_message (messages S s) ms _ rest b h.lacks l g f
        (sym h.all_bytes ∙ e)
