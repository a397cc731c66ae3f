-- ===== src/Network/Client/Connection.antt =====
-- The connection of a TcpClient, src/network/tcp-client.ts.
use distributed_rpc_js.Common.{
  ℕ, ◌+◌, ◌≡◌, refl, Bool, true, false, Option, none, some, List, [], ◌∷◌, arith, if◌then◌else◌,
  length,
}
use distributed_rpc_js.Retry.{RetryConfig, Failure, returned}
use distributed_rpc_js.Network.Client.{
  TcpClient, Socket, destroyed, Connect, is_active, start, stop, get_socket, handle_close,
  handle_data, handle_error, write_with_id, write_to,
}
use distributed_rpc_js.Network.Client.Starting.{IsConnected}

-- When the connection of a connected client closes, the destroyed socket is still handed out, and a
-- start returns at once and changes nothing; after a stop the client is no longer active.
pub close_unnoticed :
    (c : RetryConfig) (es : List Connect) (had_error : Bool) (s : TcpClient)
    → IsConnected s
    → let t = handle_close had_error s in
      (get_socket t ≡ some destroyed)
      × (start c es t ≡ (returned, t))
      × (is_active (stop t).state ≡ false)
unfolding handle_close get_socket start stop
close_unnoticed c es had_error s (up, sock) = rw up (refl, refl, refl)

-- What happens to a client after its start.
pub data Step : Type 0 where
  writes : Option Failure → List ℕ → Step
  receives : List ℕ → Step
  closes : Bool → Step
  errs : Failure → Step
  stops : Step

unfoldable pub apply : Step → TcpClient → TcpClient
apply (writes fails bytes) s = (write_with_id fails bytes s).1
apply (receives bytes) s = handle_data bytes s
apply (closes had_error) s = handle_close had_error s
apply (errs e) s = handle_error e s
apply stops s = stop s

unfoldable pub apply_all : List Step → TcpClient → TcpClient
apply_all [] s = s
apply_all (x ∷ xs) s = apply_all xs (apply x s)

-- The bytes written by the steps: those of the writes that do not fail, until an error or a stop.
unfoldable pub bytes_written : Bool → List Step → ℕ
bytes_written can [] = 0
bytes_written can (writes none bytes ∷ xs) =
    let rest = bytes_written can xs in if can then length bytes + rest else rest
bytes_written can (writes (some e) bytes ∷ xs) = bytes_written can xs
bytes_written can (receives bytes ∷ xs) = bytes_written can xs
bytes_written can (closes had_error ∷ xs) = bytes_written can xs
bytes_written can (errs e ∷ xs) = bytes_written false xs
bytes_written can (stops ∷ xs) = bytes_written false xs

-- A client that may write: it is active and holds a socket.
abbrev holds_socket : Option Socket → Bool
holds_socket none = false
holds_socket (some x) = true

abbrev MayWrite : Bool → TcpClient → Type 0
MayWrite can s = (is_active s.state ≡ can) × (can ≡ true → holds_socket s.socket ≡ true)

-- The effect of a write to this socket.
abbrev Wrote : Bool → Option Failure → List ℕ → TcpClient → TcpClient → Type 0
Wrote can fails bytes s t =
    (t.state ≡ s.state)
    × (t.socket ≡ s.socket)
    × (t.tx_bytes ≡ s.tx_bytes + bytes_written can (writes fails bytes ∷ []))

write_to-Wrote :
    (o : Option Socket) (fails : Option Failure) (bytes : List ℕ) (s : TcpClient)
    → Wrote (holds_socket o) fails bytes s (write_to o fails bytes s).1
unfolding write_to bytes_written
write_to-Wrote none none bytes s = (refl, refl, omega arith)
write_to-Wrote none (some e) bytes s = (refl, refl, omega arith)
write_to-Wrote (some x) none bytes s = (refl, refl, omega arith)
write_to-Wrote (some x) (some e) bytes s = (refl, refl, omega arith)

write-Wrote :
    (can : Bool) (fails : Option Failure) (bytes : List ℕ) (s : TcpClient)
    → MayWrite can s
    → Wrote can fails bytes s (write_with_id fails bytes s).1
unfolding write_with_id get_socket
write-Wrote true fails bytes s (up, held) =
    let wrote = write_to-Wrote s.socket fails bytes s in rw up (rw (held refl) at wrote)
write-Wrote false fails bytes s (down, held) = rw down (write_to-Wrote none fails bytes s)

bytes_written-cons :
    (can : Bool) (fails : Option Failure) (bytes : List ℕ) (xs : List Step)
    → bytes_written can (writes fails bytes ∷ xs)
      ≡ bytes_written can (writes fails bytes ∷ []) + bytes_written can xs
unfolding bytes_written
bytes_written-cons true none bytes xs = omega arith
bytes_written-cons false none bytes xs = omega arith
bytes_written-cons can (some e) bytes xs = omega arith

stop-idle : (s : TcpClient) → (is_active (stop s).state ≡ false) × ((stop s).tx_bytes ≡ s.tx_bytes)
unfolding stop
stop-idle s = ground arith

apply_all-tx_bytes :
    (xs : List Step) (can : Bool) (s : TcpClient)
    → MayWrite can s
    → (apply_all xs s).tx_bytes ≡ s.tx_bytes + bytes_written can xs
unfolding apply_all apply bytes_written handle_data handle_close handle_error stop
apply_all-tx_bytes [] can s may = omega arith
apply_all-tx_bytes (writes fails bytes ∷ xs) can s may =
    let (state, socket, counted) = write-Wrote can fails bytes s may in
    let later =
      apply_all-tx_bytes xs can (write_with_id fails bytes s).1 (rw (state, socket) may) in
    omega (arith, later, counted, bytes_written-cons can fails bytes xs)
apply_all-tx_bytes (receives bytes ∷ xs) can s may =
    apply_all-tx_bytes xs can (handle_data bytes s) may
apply_all-tx_bytes (closes had_error ∷ xs) can s may =
    apply_all-tx_bytes xs can (handle_close had_error s) (may.0, λ h. refl)
apply_all-tx_bytes (errs e ∷ xs) can s may =
    apply_all-tx_bytes xs false (handle_error e s) (refl, λ h. cc)
apply_all-tx_bytes (stops ∷ xs) can s may =
    let (idle, same) = stop-idle s in
    let later = apply_all-tx_bytes xs false (stop s) (idle, λ h. cc) in omega (arith, later, same)

-- For a connected client, any sequence of writes, data, closings, errors and stops adds to the
-- transmitted bytes exactly the bytes of the writes that do not fail, up to the first error or
-- stop.
pub connected_client-tx_bytes :
    (xs : List Step) (s : TcpClient)
    → IsConnected s
    → (apply_all xs s).tx_bytes ≡ s.tx_bytes + bytes_written true xs
connected_client-tx_bytes xs s (up, sock) =
    apply_all-tx_bytes xs true s (rw up refl, λ h. rw sock refl)
