-- ===== src/Peers/Connection.antt =====
-- pkg/p2p/transport.go, `handleConn` and `dispatch`. The calls of the handlers, all of which the
-- node sets, are events, in order.
-- A message that is not complete makes the handler wait for ever, unless the connection ends. Other
-- connections, which run beside it, are not part of the model.
use colossusx.Prelude.{
  ℕ, zero, suc, Bool, if◌then◌else◌, List, [], ◌∷◌, ◌++◌, Go, ok, err, panic, stuck, ◌>>=◌, Error,
  length, ◌+◌,
}
use colossusx.Prelude.Keys.{bytes_eq}
use colossusx.Prelude.Slices.{Bytes}
use colossusx.Prelude.Int.{ℤ}
use colossusx.Types.{Block}
use colossusx.Peers.{
  HelloMessage, PeerStatus, hello_body, pong_body, Message, Peer, PeerSet, add, remove,
}
use colossusx.Peers.Framing.{Wire, Conn, send, read_message}

-- the constants of message.go
abbrev pub message_hello : Bytes
message_hello = b'h' ∷ b'e' ∷ b'l' ∷ b'l' ∷ b'o' ∷ []

abbrev pub message_status : Bytes
message_status = b's' ∷ b't' ∷ b'a' ∷ b't' ∷ b'u' ∷ b's' ∷ []

abbrev pub message_ping : Bytes
message_ping = b'p' ∷ b'i' ∷ b'n' ∷ b'g' ∷ []

abbrev pub message_pong : Bytes
message_pong = b'p' ∷ b'o' ∷ b'n' ∷ b'g' ∷ []

abbrev pub message_new_blk : Bytes
message_new_blk = b'n' ∷ b'e' ∷ b'w' ∷ b'b' ∷ b'l' ∷ b'o' ∷ b'c' ∷ b'k' ∷ []

-- the calls of `Handlers`
pub data Event : Type 0 where
  on_peer_connected on_peer_disconnected : Event
  on_hello : HelloMessage → Event
  on_status : PeerStatus → Event
  on_ping on_pong : ℤ → Event
  on_new_block : Block → Event

pub record Session : Type 0 where
  pub peer : Peer
  pub conn : Conn
  pub events : List Event

abbrev pub called : Event → Session → Session
called e s = record s { events = s.events ++ (e ∷ []) }

-- `Config`, and the clock
pub record Local : Type 0 where
  pub node_id : Bytes
  pub network : Bytes
  pub version : Bytes
  pub advertise_addr : Bytes
  pub now : ℤ

abbrev pub or_fail :
    {A : Type 0} → (A → Session × Go (Unit {0})) → Session → Go A → Session × Go (Unit {0})
or_fail f s (ok a) = f a
or_fail f s (err x) = (s, err x)
or_fail f s panic = (s, panic)
or_fail f s stuck = (s, stuck)

module _ {Value : Type 0} (wire : Wire Value) (takes : Bytes → Bytes → ℕ) (local : Local) where
  abbrev pub sending : Message Value → Session → Session × Go (Unit {0})
  sending msg s = let (conn, r) = send wire takes s.conn msg in (record s { conn = conn }, r)

  abbrev pub take_hello : Session → HelloMessage → Session × Go (Unit {0})
  take_hello s body = (
    called (on_hello body) (record s { peer = record s.peer { id = body.node_id; hello = body } }),
    ok tt,
  )

  abbrev pub take_status : Session → PeerStatus → Session × Go (Unit {0})
  take_status s status =
      (called (on_status status) (record s { peer = record s.peer { status = status } }), ok tt)

  abbrev pub take_ping : Session → ℤ → Session × Go (Unit {0})
  take_ping s time =
      sending (record { kind = message_pong; body = pong_body local.now }) (called (on_ping time) s)

  -- the cases of `dispatch`, on `payload`
  unfoldable pub dispatch_on : Session → Bytes → Bytes → Session × Go (Unit {0})
  dispatch_on s kind payload =
      if bytes_eq kind message_hello
      then or_fail (take_hello s) s (wire.to_hello payload)
      else if bytes_eq kind message_status
      then or_fail (take_status s) s (wire.to_status payload)
      else if bytes_eq kind message_ping
      then or_fail (take_ping s) s (wire.to_ping payload)
      else if bytes_eq kind message_pong
      then or_fail (λ time. (called (on_pong time) s, ok tt)) s (wire.to_pong payload)
      else if bytes_eq kind message_new_blk
      then or_fail (λ block. (called (on_new_block block) s, ok tt)) s (wire.to_new_block payload)
      else (s, err Error.unknown_message)

  -- `dispatch`
  unfoldable pub dispatch : Session → Message Value → Session × Go (Unit {0})
  unfolding dispatch_on
  dispatch s msg = or_fail (dispatch_on s msg.kind) s (wire.marshal_body msg.body)

  abbrev pub go_on :
      (Session → Go Session) → Session × Go (Unit {0}) → (List Event → Bool) → Go Session
  go_on next (s, ok u) cancelled = if cancelled s.events then ok s else next s
  go_on next (s, err x) cancelled = ok s
  go_on next (s, panic) cancelled = panic
  go_on next (s, stuck) cancelled = stuck

  -- what follows a message that was read
  abbrev pub handle_message :
      (Session → Go Session)
      → (List Event → Bool)
      → Session
      → Go (Message Value × Bytes)
      → Go Session
  handle_message next cancelled s (ok (msg, left)) =
      go_on next (dispatch (record s { conn = record s.conn { incoming = left } }) msg) cancelled
  handle_message next cancelled s (err x) = ok s
  handle_message next cancelled s panic = panic
  handle_message next cancelled s stuck = stuck

  -- the loop of `handleConn`; `cancelled` tells whether the context is done after these events
  unfoldable pub loop : ℕ → (List Event → Bool) → Session → Go Session
  loop zero cancelled s = stuck
  loop (suc fuel) cancelled s =
      handle_message (λ s'. loop fuel cancelled s') cancelled s
        (read_message wire s.conn.closes s.conn.incoming)

  module _ (address : Bytes → Bool → Bytes) where
    -- what the deferred function does
    abbrev pub closing : PeerSet → Session → PeerSet × Session
    closing ps s = (remove address s.peer ps, called on_peer_disconnected s)

    -- the session after `OnPeerConnected` and the hello message, whose error is dropped
    abbrev pub greeted : Peer → Conn → Session
    greeted peer conn =
        (sending
          (record {
            kind = message_hello;
            body = hello_body (record {
              node_id = local.node_id;
              network = local.network;
              version = local.version;
              listen = local.advertise_addr;
            });
          })
          (record { peer = peer; conn = conn; events = on_peer_connected ∷ [] })).0

    -- `handleConn`, of a new peer that the number `p` names. A message takes bytes that come in, so
    -- that their number and one more is enough fuel.
    unfoldable pub handle_conn :
        (List Event → Bool) → ℕ → Peer → Conn → PeerSet → Go (PeerSet × Session)
    handle_conn cancelled p peer conn ps =
        let added = add address p peer ps in
        loop (length conn.incoming + 1) cancelled (greeted peer conn) >>= λ s. ok (closing added s)
