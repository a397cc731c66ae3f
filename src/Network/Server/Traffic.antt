-- ===== src/Network/Server/Traffic.antt =====
-- The sockets and the byte counters of a TcpServer, src/network/tcp-server.ts.
use distributed_rpc_js.Common.{
  ℕ, ◌+◌, ◌*◌, ◌≤◌, ◌≡◌, ◌≢◌, refl, ◌∙◌, Bool, true, false, Option, none, some, List, [], ◌∷◌, ◌++◌,
  arith, if◌then◌else◌, length, ◌==◌,
}
use distributed_rpc_js.Retry.{Failure}
use distributed_rpc_js.Network.Server.{
  TcpServer, Socket, Activity, opens, sends, closes, fails, handle, handle_data, handle_error,
  remove, destroy, written, broadcast,
}

-- The activities one after the other, up to the first that throws.
abbrev continue :
    Option Failure × TcpServer
    → (TcpServer → Option Failure × TcpServer)
    → Option Failure × TcpServer
continue (none, s) rest = rest s
continue (some e, s) rest = (some e, s)

unfoldable pub handle_all : List Activity → TcpServer → Option Failure × TcpServer
handle_all [] s = (none, s)
handle_all (a ∷ as') s = continue (handle a s) (handle_all as')

-- The bytes that the activities send.
unfoldable pub received : List Activity → ℕ
received [] = 0
received (sends id bytes ∷ as') = length bytes + received as'
received (opens id ∷ as') = received as'
received (closes id b ∷ as') = received as'
received (fails id e ∷ as') = received as'

-- A socket is tracked.
unfoldable pub is_tracked : ℕ → List Socket → Bool
is_tracked id [] = false
is_tracked id (x ∷ xs) = let rest = is_tracked id xs in if x.id == id then true else rest

-- A socket is open after the activities: what opened or closed it last, or what it was before.
unfoldable pub is_open : ℕ → Bool → List Activity → Bool
is_open id b [] = b
is_open id b (opens j ∷ as') = is_open id (if j == id then true else b) as'
is_open id b (closes j e ∷ as') = is_open id (if j == id then false else b) as'
is_open id b (sends j bytes ∷ as') = is_open id b as'
is_open id b (fails j e ∷ as') = is_open id b as'

is_tracked-append :
    (id j : ℕ) (d : Bool) (xs : List Socket)
    → is_tracked id (xs ++ record { id = j; destroyed = d } ∷ [])
      ≡ (if j == id then true else is_tracked id xs)
unfolding is_tracked
is_tracked-append id j d [] = refl
is_tracked-append id j d (x ∷ xs) = ground (arith, is_tracked-append id j d xs)

is_tracked-remove :
    (id j : ℕ) (xs : List Socket)
    → is_tracked id (remove j xs) ≡ (if j == id then false else is_tracked id xs)
unfolding is_tracked remove
is_tracked-remove id j [] = ground arith
is_tracked-remove id j (x ∷ xs) = ground (arith, is_tracked-remove id j xs)

is_tracked-destroy : (id j : ℕ) (xs : List Socket) → is_tracked id (destroy j xs) ≡ is_tracked id xs
unfolding is_tracked destroy
is_tracked-destroy id j [] = refl
is_tracked-destroy id j (x ∷ xs) = ground (arith, is_tracked-destroy id j xs)

-- The sockets that are not destroyed.
unfoldable pub live : List Socket → ℕ
live [] = 0
live (x ∷ xs) = let rest = live xs in if x.destroyed then rest else rest + 1

-- The sockets that are not destroyed and accept a write without buffering it.
unfoldable pub accepting : (ℕ → Bool) → List Socket → ℕ
accepting accepts [] = 0
accepting accepts (x ∷ xs) =
    let rest = accepting accepts xs in
    if x.destroyed then rest else if accepts x.id then rest + 1 else rest

written_lem :
    (accepts : ℕ → Bool) (len : ℕ) (xs : List Socket)
    → written accepts len xs ≡ len * accepting accepts xs
unfolding written accepting
written_lem accepts len [] = omega arith
written_lem accepts len (x ∷ xs) =
    let one_more : len * (accepting accepts xs + 1) ≡ len * accepting accepts xs + len =
      omega arith in
    ground (arith, one_more, written_lem accepts len xs)

accepting-le-live : (accepts : ℕ → Bool) (xs : List Socket) → accepting accepts xs ≤ live xs
unfolding accepting live
accepting-le-live accepts [] = omega arith
accepting-le-live accepts (x ∷ xs) = ground (arith, accepting-le-live accepts xs)

-- A step that does not throw, with its effect on the counter of bytes and on the tracking.
abbrev Handled : Activity → TcpServer → TcpServer → Type 0
Handled a s t =
    (t.error_listeners ≡ s.error_listeners)
    × (t.rx_bytes ≡ s.rx_bytes + received (a ∷ []))
    × ((id : ℕ) → is_tracked id t.sockets ≡ is_open id (is_tracked id s.sockets) (a ∷ []))

handle_error-Handled :
    (j : ℕ) (e : Failure) (s : TcpServer)
    → s.error_listeners ≢ 0
    → ((handle_error j e s).0 ≡ none) × Handled (fails j e) s (handle_error j e s).1
unfolding handle_error received is_open
handle_error-Handled j e s heard =
    let on : (s.error_listeners == 0) ≡ false = ground arith in
    rw on (refl, (refl, ground arith, λ id. is_tracked-destroy id j s.sockets))

handle-Handled :
    (a : Activity) (s : TcpServer)
    → s.error_listeners ≢ 0
    → ((handle a s).0 ≡ none) × Handled a s (handle a s).1
unfolding handle handle_data received is_open
handle-Handled (opens j) s heard =
    (refl, (refl, ground arith, λ id. is_tracked-append id j false s.sockets))
handle-Handled (sends j []) s heard = (refl, (refl, ground arith, λ id. refl))
handle-Handled (sends j (b ∷ bs)) s heard = (refl, (refl, ground arith, λ id. refl))
handle-Handled (closes j e) s heard =
    (refl, (refl, ground arith, λ id. is_tracked-remove id j s.sockets))
handle-Handled (fails j e) s heard = handle_error-Handled j e s heard

received-cons :
    (a : Activity) (rest : List Activity) → received (a ∷ rest) ≡ received (a ∷ []) + received rest
unfolding received
received-cons (opens j) rest = omega arith
received-cons (sends j bytes) rest = omega arith
received-cons (closes j b) rest = omega arith
received-cons (fails j e) rest = omega arith

is_open-cons :
    (a : Activity) (rest : List Activity) (id : ℕ) (b : Bool)
    → is_open id b (a ∷ rest) ≡ is_open id (is_open id b (a ∷ [])) rest
unfolding is_open
is_open-cons (opens j) rest id b = refl
is_open-cons (sends j bytes) rest id b = refl
is_open-cons (closes j e) rest id b = refl
is_open-cons (fails j e) rest id b = refl

continue_none :
    (o : Option Failure × TcpServer) (f : TcpServer → Option Failure × TcpServer)
    → o.0 ≡ none
    → continue o f ≡ f o.1
continue_none (none, s) f h = refl
continue_none (some e, s) f h = cc

-- On a server with a listener of the event `error`, no sequence of activities of its connections
-- throws; it adds the bytes sent to the counter of received bytes, and a socket is tracked
-- afterwards exactly if it was opened last and not closed, or was tracked before and neither opened
-- nor closed.
pub handle_all-tracks :
    (activities : List Activity) (s : TcpServer)
    → s.error_listeners ≢ 0
    → ((handle_all activities s).0 ≡ none)
      × ((handle_all activities s).1.rx_bytes ≡ s.rx_bytes + received activities)
      × ((id : ℕ)
          → is_tracked id (handle_all activities s).1.sockets
            ≡ is_open id (is_tracked id s.sockets) activities)
unfolding handle_all received is_open
handle_all-tracks [] s heard = (refl, ground arith, λ id. refl)
handle_all-tracks (a ∷ rest) s heard =
    let (fine, (listeners, bytes, tracked)) = handle-Handled a s heard in
    let (fine', bytes', tracked') = handle_all-tracks rest (handle a s).1 (λ e. heard (cc)) in
    rw (continue_none (handle a s) (handle_all rest) fine) (
      fine',
      omega (arith, bytes, bytes', received-cons a rest),
      λ id. tracked' id ∙ rw (tracked id, is_open-cons a rest id (is_tracked id s.sockets)),
    )

-- A broadcast counts the bytes times the sockets that are not destroyed and accept the write
-- without buffering, which are at most those that are not destroyed, and adds what it counts to the
-- transmitted bytes.
pub broadcast_counts :
    (accepts : ℕ → Bool) (bytes : List ℕ) (s : TcpServer)
    → ((broadcast accepts bytes s).0 ≡ length bytes * accepting accepts s.sockets)
      × (accepting accepts s.sockets ≤ live s.sockets)
      × ((broadcast accepts bytes s).1.tx_bytes ≡ s.tx_bytes + (broadcast accepts bytes s).0)
unfolding broadcast
broadcast_counts accepts bytes s =
    (written_lem accepts (length bytes) s.sockets, accepting-le-live accepts s.sockets, refl)
