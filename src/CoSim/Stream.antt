-- ===== src/CoSim/Stream.antt =====
-- The invariant of the two threads, and the bytes that it accounts for.
use ns3_cosim.Common.{
  ℕ, ◌≡◌, ◌≢◌, refl, Bool, List, [], ◌∷◌, ◌++◌, some, Bytes, append-nil, append_assoc,
}
use ns3_cosim.Simulator.{Simulator}
use ns3_cosim.Protocol.Split.{Lacks}
use ns3_cosim.Gateway.{Call, stopping}
use ns3_cosim.CoSim.Main.{IsMain}
use ns3_cosim.CoSim.{System, Thread, top, searching, pushed, exited}

-- The stream that carries the messages: each with the message delimiter behind it.
unfoldable pub framed : Bytes → List Bytes → Bytes
framed delimiter [] = []
framed delimiter (m ∷ ms) = m ++ (delimiter ++ framed delimiter ms)

pub framed-append :
    (d : Bytes) (ms ns : List Bytes) → framed d (ms ++ ns) ≡ framed d ms ++ framed d ns
unfolding framed
framed-append d [] ns = refl
framed-append d (m ∷ ms) ns = simp (framed-append d ms ns, append_assoc)

-- One more message behind the others.
pub framed-append_one :
    (d m post : Bytes) (ms : List Bytes)
    → framed d (ms ++ (m ∷ [])) ++ post ≡ framed d ms ++ (m ++ (d ++ post))
unfolding framed
framed-append_one d m post ms = simp (framed-append, append_assoc, append-nil)

abbrev pub in_flight : Thread → ℕ
in_flight pushed = 1
in_flight _ = 0

-- The bytes received that are not in a message yet, where m_messageBuffer is `buffer`.
abbrev pub unread : Thread → Bytes → Bytes
unread top buffer = buffer
unread (searching bytes) buffer = bytes
unread pushed buffer = buffer
unread (exited bytes) buffer = bytes

module _ (S : Simulator Call) where
  open S use {Sim}

  -- Every message that was ever queued, in order.
  abbrev pub messages : System Sim → List Bytes
  messages s = s.forwarded ++ s.gateway.message_queue

  pub record Inv (s : System Sim) : Type 0 where
    pub main : IsMain S (in_flight s.thread) s.world
    pub has_message : s.gateway.delimiter_message ≢ []
    pub has_field : s.gateway.delimiter_field ≢ []
    pub all_bytes :
        s.stream
        ≡ framed s.gateway.delimiter_message (messages s)
          ++ unread s.thread s.gateway.message_buffer
    pub lacks : Lacks s.gateway.delimiter_message (messages s)
    pub stops : (b : Bool) → s.joining ≡ some b → s.gateway.state ≡ stopping
