-- ===== src/Tests/Network.antt =====
-- The theorems on the network at a wire that sends the kinds of the messages.
use colossusx.Prelude.{
  ℕ, ◌+◌, ◌<◌, ◌≡◌, refl, Bool, true, false, if◌then◌else◌, List, [], ◌∷◌, ◌++◌, length, take, drop,
  err, Error, none, some, Go, ok, arith,
}
use colossusx.Prelude.Keys.{bytes_eq, bytes_key}
use colossusx.Prelude.Maps.{lookup}
use colossusx.Prelude.Slices.{Bytes}
use colossusx.Prelude.Int.{ℤ, pos, negsuc}
use colossusx.Types.{zero_hash}
use colossusx.Peers.{
  HelloMessage, PeerStatus, Body, Message, hello_body, status_body, new_block_body, decoded, Peer,
  PeerSet, peer_key, ping_body, pong_body,
}
use colossusx.Peers.Framing.{Wire, Conn, frame, send, send_all, receive}
use colossusx.Peers.Delivery.{AllSame, AllWritten, receive-send_all}
use colossusx.Peers.Connection.{
  Event, Session, on_peer_disconnected, Local, message_hello, message_ping, message_pong,
  handle_conn,
}
use colossusx.Peers.Steps.{IsWire, last_id}
use colossusx.Peers.Closing.{handle_conn-ends}
use colossusx.Tests.Chains.{first_block}

abbrev some_hello : HelloMessage
some_hello = record { node_id = 9 ∷ []; network = []; version = []; listen = [] }

abbrev some_status : PeerStatus
some_status = record {
  peer_id = 9 ∷ [];
  best_hash = zero_hash;
  best_height = 0;
  total_work = b'0' ∷ [];
  connected_at = pos 5;
}

abbrev by_kind : Wire (Unit {0})
by_kind = record {
  marshal = λ m. ok m.kind;
  unmarshal = λ b. ok (record { kind = b; body = decoded tt });
  marshal_body = λ b. ok [];
  to_hello = λ b. ok some_hello;
  to_status = λ b. ok some_status;
  to_ping = λ b. ok (pos 1);
  to_pong = λ b. ok (pos 2);
  to_new_block = λ b. ok first_block;
}

by_kind-IsWire : IsWire by_kind
by_kind-IsWire = record {
  writes = λ m. refl;
  reads = λ b. refl;
  bodies = λ b. refl;
  hellos = λ b. refl;
  statuses = λ b. refl;
  pings = λ b. refl;
  pongs = λ b. refl;
  blocks = λ b. refl;
}

abbrev takes_all : Bytes → Bytes → ℕ
takes_all out bytes = length bytes

abbrev two_messages : List (Message Bytes)
two_messages =
    record { kind = message_ping; body = ping_body (pos 3) }
    ∷ record { kind = message_pong; body = pong_body (pos 4) }
    ∷ []

abbrev new_conn : Conn
new_conn = record { incoming = []; closes = false; outgoing = [] }

-- A wire that carries the kind's second letter and the time of a ping or a pong.
abbrev time_of : Body Bytes → Bytes
time_of (ping_body (pos t)) = t ∷ []
time_of (pong_body (pos t)) = t ∷ []
time_of (ping_body (negsuc t)) = []
time_of (pong_body (negsuc t)) = []
time_of (hello_body h) = []
time_of (status_body s) = []
time_of (new_block_body b) = []
time_of (decoded v) = v

abbrev time_in : Bytes → Go ℤ
time_in (t ∷ bs) = ok (pos t)
time_in [] = err Error.network_failure

abbrev by_time : Wire Bytes
by_time = record {
  marshal = λ m. ok (time_of m.body ++ m.kind);
  unmarshal = λ b. ok (record { kind = drop 1 b; body = decoded (take 1 b) });
  marshal_body = λ b. ok (time_of b);
  to_hello = λ b. ok some_hello;
  to_status = λ b. ok some_status;
  to_ping = time_in;
  to_pong = time_in;
  to_new_block = λ b. ok first_block;
}

abbrev sent_conn : Conn
sent_conn = record {
  incoming = [];
  closes = false;
  outgoing = frame (3 ∷ message_ping) ++ frame (4 ∷ message_pong);
}

two_sent : send_all by_time takes_all new_conn two_messages ≡ (sent_conn, ok tt)
unfolding send_all send colossusx.Prelude.Endian.be
two_sent = refl

two_written : AllWritten by_time two_messages
two_written = (
  (3 ∷ message_ping, _, refl, omega arith, refl, record { kind = refl; body = (_, refl, refl) }),
  (
    (4 ∷ message_pong, _, refl, omega arith, refl, record { kind = refl; body = (_, refl, refl) }),
    tt,
  ),
)

receive-send_all_example :
    (sent : Bytes) × (read : List (Message Bytes)) × (sent_conn.outgoing
      ≡ new_conn.outgoing ++ sent)
    × (receive by_time false (length two_messages) (sent ++ (7 ∷ [])) ≡ ok (read, 7 ∷ []))
    × AllSame by_time two_messages read
receive-send_all_example =
    receive-send_all by_time false takes_all two_messages new_conn sent_conn (7 ∷ []) two_written
      two_sent

abbrev here : Local
here = record { node_id = 1 ∷ []; network = []; version = []; advertise_addr = []; now = pos 6 }

abbrev new_peer : Peer
new_peer = record {
  id = [];
  addr = 7 ∷ [];
  inbound = true;
  hello = some_hello;
  status = some_status;
}

-- The other end says hello and closes.
abbrev hello_conn : Conn
hello_conn = record { incoming = frame message_hello; closes = true; outgoing = [] }

handle_conn-ends_example :
    (ps' : PeerSet) × (s : Session) × (es : List Event) × (handle_conn by_kind takes_all here
        (λ a b. a)
        (λ es. false)
        4
        new_peer
        hello_conn
        []
      ≡ ok (ps', s))
    × (s.events ≡ es ++ (on_peer_disconnected ∷ []))
    × (s.peer.id ≡ last_id [] es)
    × (lookup (peer_key (λ a b. a) new_peer) ps' ≡ (
        if bytes_eq (peer_key (λ a b. a) s.peer) (peer_key (λ a b. a) new_peer)
        then none
        else some 4))
handle_conn-ends_example =
    handle_conn-ends by_kind by_kind-IsWire takes_all here new_peer (λ a b. a) (λ es. false) 4
      hello_conn [] refl refl
