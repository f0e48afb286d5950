-- ===== src/TriggeredSend/Binding.antt =====
-- StartApplication: the bind and the other calls of the socket, for every pair of addresses.
use ns3_cosim.Common.{
  ℕ, zero, suc, ◌≡◌, ◌≢◌, refl, ap, true, false, List, [], ◌∷◌, ◌++◌, Option, some, none,
  if◌then◌else◌, ℤ, pos, negsuc,
}
use ns3_cosim.TriggeredSend.{
  Address, invalid, inet, inet6, packet_socket, unknown, SocketCall, create_socket, bind, bind6,
  bind_local, connect_peer, set_ip_tos, set_connect_callback, set_allow_broadcast, shutdown_recv,
  is_inet, Application, start_calls, is_invalid, is_incompatible, is_failure, bind_call,
}

-- The bind that StartApplication makes for a local address and a peer; `none` where it ends the program.
unfoldable pub binding : Address → Address → Option SocketCall
binding invalid invalid = none
binding invalid (inet p) = some bind
binding invalid (inet6 p) = some bind6
binding invalid (packet_socket p) = some bind
binding invalid (unknown p) = none
binding (inet l) invalid = none
binding (inet l) (inet6 p) = none
binding (inet l) p = some (bind_local (inet l))
binding (inet6 l) invalid = none
binding (inet6 l) (inet p) = none
binding (inet6 l) p = some (bind_local (inet6 l))
binding (packet_socket l) invalid = none
binding (packet_socket l) p = some (bind_local (packet_socket l))
binding (unknown l) invalid = none
binding (unknown l) p = some (bind_local (unknown l))

-- The type of service goes to IPv4 sockets only.
unfoldable pub tos_calls : Address → ℕ → List SocketCall
tos_calls (inet p) tos = set_ip_tos tos ∷ []
tos_calls _ tos = []

unfoldable pub accepted : Address → Address → Option SocketCall
accepted l p = if is_invalid p then none else if is_incompatible l p then none else bind_call l p

pub accepted-binding : (l p : Address) → accepted l p ≡ binding l p
unfolding accepted binding is_incompatible bind_call
accepted-binding invalid invalid = refl
accepted-binding invalid (inet p) = refl
accepted-binding invalid (inet6 p) = refl
accepted-binding invalid (packet_socket p) = refl
accepted-binding invalid (unknown p) = refl
accepted-binding (inet l) invalid = refl
accepted-binding (inet l) (inet p) = refl
accepted-binding (inet l) (inet6 p) = refl
accepted-binding (inet l) (packet_socket p) = refl
accepted-binding (inet l) (unknown p) = refl
accepted-binding (inet6 l) invalid = refl
accepted-binding (inet6 l) (inet p) = refl
accepted-binding (inet6 l) (inet6 p) = refl
accepted-binding (inet6 l) (packet_socket p) = refl
accepted-binding (inet6 l) (unknown p) = refl
accepted-binding (packet_socket l) invalid = refl
accepted-binding (packet_socket l) (inet p) = refl
accepted-binding (packet_socket l) (inet6 p) = refl
accepted-binding (packet_socket l) (packet_socket p) = refl
accepted-binding (packet_socket l) (unknown p) = refl
accepted-binding (unknown l) invalid = refl
accepted-binding (unknown l) (inet p) = refl
accepted-binding (unknown l) (inet6 p) = refl
accepted-binding (unknown l) (packet_socket p) = refl
accepted-binding (unknown l) (unknown p) = refl

inet_tos :
    (p : Address) (tos : ℕ) → (if is_inet p then set_ip_tos tos ∷ [] else []) ≡ tos_calls p tos
unfolding tos_calls
inet_tos invalid tos = refl
inet_tos (inet p) tos = refl
inet_tos (inet6 p) tos = refl
inet_tos (packet_socket p) tos = refl
inet_tos (unknown p) tos = refl

-- The calls of the socket around the bind `b`.
abbrev pub socket_calls : SocketCall → Application → List SocketCall
socket_calls b a =
    create_socket ∷ b ∷ set_connect_callback ∷ tos_calls a.peer a.tos
    ++ (connect_peer a.peer ∷ set_allow_broadcast ∷ shutdown_recv ∷ [])

pub start_calls-bound :
    (a : Application) (b : SocketCall)
    → bind_call a.local_address a.peer ≡ some b
    → start_calls a ≡ socket_calls b a
unfolding start_calls
start_calls-bound a b e = rw (e, inet_tos a.peer a.tos) refl

pub failure-eq : (z : ℤ) → is_failure z ≡ true → z ≡ negsuc 0
failure-eq (negsuc zero) h = refl
failure-eq (negsuc (suc n)) h = cc
failure-eq (pos n) h = cc

pub no_failure-ne : (z : ℤ) → is_failure z ≡ false → z ≢ negsuc 0
no_failure-ne z h e = cc (ap is_failure e, h)
