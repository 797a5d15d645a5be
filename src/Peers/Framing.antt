-- ===== src/Peers/Framing.antt =====
-- pkg/p2p/peer.go, `Send` and `readMessage`: a message is its JSON after its length in four bytes. The
-- connection is the bytes that come in and those that went out; JSON is a parameter.
use colossusx.Prelude.{
  ℕ, zero, suc, ◌%◌, ◌<◌, ◌≤◌, ◌^◌, ◌≡◌, refl, sym, ap, ◌∙◌, Bool, false, ltb, leb, if◌then◌else◌,
  if-false, List, [], ◌∷◌, ◌++◌, length, length-append, take, drop, Go, ok, err, panic, stuck,
  either, Bool-cases, ◌⊎◌, inl, inr, ◌>>=◌, Error, arith,
}
use mathlib.Core.List.{append_assoc}
use colossusx.Prelude.Slices.{Bytes, take-append, drop-append}
use colossusx.Prelude.Endian.{be, be_value, be_value-be, length-be}
use colossusx.Prelude.Int.{ℤ}
use colossusx.Types.{Block}
use colossusx.Peers.{HelloMessage, PeerStatus, Body, Message}

-- `json.Marshal` and `json.Unmarshal` at the types that the package uses
pub record Wire (Value : Type 0) : Type 0 where
  pub marshal : Message Value → Go Bytes
  pub unmarshal : Bytes → Go (Message Value)
  pub marshal_body : Body Value → Go Bytes
  pub to_hello : Bytes → Go HelloMessage
  pub to_status : Bytes → Go PeerStatus
  pub to_ping : Bytes → Go ℤ
  pub to_pong : Bytes → Go ℤ
  pub to_new_block : Bytes → Go Block

-- the bytes that come in, whether the connection ends after them (here or at the other end) or stays
-- open without more, and the bytes that went out
pub record Conn : Type 0 where
  pub incoming : Bytes
  pub closes : Bool
  pub outgoing : Bytes

-- the frame of `Send`
abbrev pub frame : Bytes → Bytes
frame body = be 4 (length body % 2 ^ 32) ++ body

-- `Conn.Write`: `takes` tells how many bytes the connection takes, after those it took
abbrev pub write : (Bytes → Bytes → ℕ) → Conn → Bytes → Conn × Go (Unit {0})
write takes conn bytes =
    let n = takes conn.outgoing bytes in
    (
      record conn { outgoing = conn.outgoing ++ take n bytes },
      if leb (length bytes) n then ok tt else err Error.network_failure,
    )

-- the first `size` bytes and the rest, as `io.ReadFull` reads them; no deadline is set, so that a
-- connection that stays open without enough bytes keeps the call waiting
unfoldable pub read_full : Bool → ℕ → Bytes → Go (Bytes × Bytes)
read_full closes size bytes =
    if ltb (length bytes) size
    then (if closes then err Error.network_failure else stuck)
    else ok (take size bytes, drop size bytes)

-- the next call, if this one did not fail
abbrev pub after_send : (Conn → Conn × Go (Unit {0})) → Conn × Go (Unit {0}) → Conn × Go (Unit {0})
after_send next (conn, ok u) = next conn
after_send next (conn, err x) = (conn, err x)
after_send next (conn, panic) = (conn, panic)
after_send next (conn, stuck) = (conn, stuck)

module _ {Value : Type 0} (wire : Wire Value) where
  -- `Send`
  unfoldable pub send : (Bytes → Bytes → ℕ) → Conn → Message Value → Conn × Go (Unit {0})
  send takes conn msg = elim (wire.marshal msg) [
    | ok body ↦ write takes conn (frame body)
    | err x ↦ (conn, err x)
    | panic ↦ (conn, panic)
    | stuck ↦ (conn, stuck)
  ]

  -- `readMessage`, with the bytes that are left
  unfoldable pub read_message : Bool → Bytes → Go (Message Value × Bytes)
  unfolding read_full
  read_message closes bytes = do
    (size, rest) ← read_full closes 4 bytes
    (payload, left) ← read_full closes (be_value size) rest
    msg ← wire.unmarshal payload
    ok (msg, left)

  -- messages that are sent one after the other, up to the first that fails
  unfoldable pub send_all : (Bytes → Bytes → ℕ) → Conn → List (Message Value) → Conn × Go (Unit {0})
  send_all takes conn [] = (conn, ok tt)
  send_all takes conn (m ∷ ms) = after_send (λ c. send_all takes c ms) (send takes conn m)

  -- so many messages, and the bytes that are left
  unfoldable pub receive : Bool → ℕ → Bytes → Go (List (Message Value) × Bytes)
  receive closes zero bytes = ok ([], bytes)
  receive closes (suc n) bytes = do
    (msg, left) ← read_message closes bytes
    (msgs, rest) ← receive closes n left
    ok (msg ∷ msgs, rest)

read_full-append : (closes : Bool) (u v : Bytes) → read_full closes (length u) (u ++ v) ≡ ok (u, v)
unfolding read_full
read_full-append closes u v =
    let enough : ltb (length (u ++ v)) (length u) ≡ false = ground (arith, length-append u v) in
    if-false _ _ _ enough
    ∙ (ap (λ x. ok (x, drop (length u) (u ++ v))) (take-append u v)
        ∙ ap (λ x. ok (u, x)) (drop-append u v))

take_all : (n : ℕ) (xs : Bytes) → length xs ≤ n → take n xs ≡ xs
take_all zero [] h = refl
take_all (suc n) [] h = refl
take_all zero (x ∷ xs) h = absurd (omega arith)
take_all (suc n) (x ∷ xs) h = ap (◌∷◌ x) (take_all n xs (omega arith))

module _ {Value : Type 0} (wire : Wire Value) where
  -- A frame is read as the message that is in it, and no byte more is taken.
  pub read_message-frame :
      (closes : Bool) (body rest : Bytes) {msg : Message Value}
      → length body < 2 ^ 32
      → wire.unmarshal body ≡ ok msg
      → read_message wire closes (frame body ++ rest) ≡ ok (msg, rest)
  unfolding read_message
  read_message-frame closes body rest {msg} small read =
      let size = be 4 (length body % 2 ^ 32) in
      let value : be_value size ≡ length body =
        be_value-be 4 (length body % 2 ^ 32) (omega arith) ∙ omega arith in
      let header : read_full closes 4 (frame body ++ rest) ≡ ok (size, body ++ rest) =
        ap (read_full closes 4) (append_assoc size body rest)
        ∙ (ap (λ n. read_full closes n (size ++ (body ++ rest)))
              (sym (length-be 4 (length body % 2 ^ 32)))
            ∙ read_full-append closes size (body ++ rest)) in
      let payload : read_full closes (be_value size) (body ++ rest) ≡ ok (body, rest) =
        ap (λ n. read_full closes n (body ++ rest)) value ∙ read_full-append closes body rest in
      rw (header, payload, read) refl

  -- A message is sent whole, or the call fails.
  pub send-split :
      (takes : Bytes → Bytes → ℕ) (conn : Conn) (msg : Message Value) {body : Bytes}
      → wire.marshal msg ≡ ok body
      → (send wire takes conn msg ≡ (record conn { outgoing = conn.outgoing ++ frame body }, ok tt))
        ⊎ ((conn' : Conn) × (x : Error) × (send wire takes conn msg ≡ (conn', err x)))
  unfolding send
  send-split takes conn msg {body} h =
      let n = takes conn.outgoing (frame body) in
      let sent : Conn = record conn { outgoing = conn.outgoing ++ take n (frame body) } in
      either (Bool-cases (leb (length (frame body)) n))
        (λ all. inl (rw (h, all, take_all n (frame body) (ground arith), send) refl))
        (λ part. inr (sent, Error.network_failure, rw (h, part, send) refl))
