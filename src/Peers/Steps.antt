-- ===== src/Peers/Steps.antt =====
-- What one message does to a session of `handleConn`: the calls return, and the peer stays the same
-- but for its identifier.
use colossusx.Prelude.{
  ℕ, ◌+◌, ◌<◌, ◌≡◌, refl, sym, ap, ◌∙◌, ◌⊎◌, inl, inr, Error, either, Bool, true, false, Bool-cases,
  ltb, if◌then◌else◌, if-true, if-false, List, [], ◌∷◌, ◌++◌, length, length-drop, take, drop, Go,
  ok, err, panic, stuck, ◌>>=◌, arith,
}
use colossusx.Prelude.Keys.{bytes_eq, bytes_key}
use colossusx.Prelude.Slices.{Bytes}
use colossusx.Prelude.Endian.{be_value}
use colossusx.Peers.{Body, hello_body, Message, Peer}
use colossusx.Peers.Framing.{Wire, Conn, frame, write, read_full, send, read_message}
use colossusx.Peers.Connection.{
  Event, on_peer_connected, on_peer_disconnected, on_hello, on_status, on_ping, on_pong,
  on_new_block, Session, called, Local, or_fail, message_hello, message_status, message_ping,
  message_pong, message_new_blk, sending, dispatch_on, dispatch,
}

-- The call returns a value or an error.
abbrev pub returns : {A : Type 0} → Go A → Bool
returns (ok a) = true
returns (err x) = true
returns panic = false
returns stuck = false

-- JSON does not panic.
pub record IsWire {Value : Type 0} (wire : Wire Value) : Type 0 where
  pub writes : (m : Message Value) → returns (wire.marshal m) ≡ true
  pub reads : (b : Bytes) → returns (wire.unmarshal b) ≡ true
  pub bodies : (b : Body Value) → returns (wire.marshal_body b) ≡ true
  pub hellos : (b : Bytes) → returns (wire.to_hello b) ≡ true
  pub statuses : (b : Bytes) → returns (wire.to_status b) ≡ true
  pub pings : (b : Bytes) → returns (wire.to_ping b) ≡ true
  pub pongs : (b : Bytes) → returns (wire.to_pong b) ≡ true
  pub blocks : (b : Bytes) → returns (wire.to_new_block b) ≡ true

-- The identifier after some events: that of the last hello message.
abbrev pub last_id : Bytes → List Event → Bytes
last_id id [] = id
last_id id (on_hello h ∷ es) = last_id h.node_id es
last_id id (on_peer_connected ∷ es) = last_id id es
last_id id (on_peer_disconnected ∷ es) = last_id id es
last_id id (on_status s ∷ es) = last_id id es
last_id id (on_ping t ∷ es) = last_id id es
last_id id (on_pong t ∷ es) = last_id id es
last_id id (on_new_block b ∷ es) = last_id id es

last_id-append :
    (id : Bytes) (es : List Event) (e : Event)
    → last_id id (es ++ (e ∷ [])) ≡ last_id (last_id id es) (e ∷ [])
last_id-append id [] e = refl
last_id-append id (on_hello h ∷ es) e = last_id-append h.node_id es e
last_id-append id (on_peer_connected ∷ es) e = last_id-append id es e
last_id-append id (on_peer_disconnected ∷ es) e = last_id-append id es e
last_id-append id (on_status s ∷ es) e = last_id-append id es e
last_id-append id (on_ping t ∷ es) e = last_id-append id es e
last_id-append id (on_pong t ∷ es) e = last_id-append id es e
last_id-append id (on_new_block b ∷ es) e = last_id-append id es e

-- The peer of the session is the one that was added, with the identifier of the last hello message,
-- and the connection ends.
pub record Keeps (peer : Peer) (s : Session) : Type 0 where
  pub addr : s.peer.addr ≡ peer.addr
  pub inbound : s.peer.inbound ≡ peer.inbound
  pub closes : s.conn.closes ≡ true
  pub id : s.peer.id ≡ last_id peer.id s.events

read_full-left : (n : ℕ) (b x y : Bytes) → read_full true n b ≡ ok (x, y) → length y + n ≡ length b
unfolding read_full
read_full-left n b x y h =
    either (Bool-cases (ltb (length b) n))
      (λ short. let e = sym (if-true _ _ _ short) ∙ h in absurd (cc))
      (λ enough.
        let e : ok (take n b, drop n b) ≡ ok (x, y) = sym (if-false _ _ _ enough) ∙ h in
        let rest : drop n b ≡ y = ap (λ (p : Bytes × Bytes). p.1) (ok_same e) in
        ground (arith, rest, length-drop n b))
  where
    ok_same : {p q : Bytes × Bytes} → ok p ≡ ok q → p ≡ q
    ok_same e = cc

read_full-cases :
    (n : ℕ) (b : Bytes)
    → ((x : Error) × (read_full true n b ≡ err x))
      ⊎ ((u : Bytes) × (v : Bytes) × (read_full true n b ≡ ok (u, v)))
unfolding read_full
read_full-cases n b =
    either (Bool-cases (ltb (length b) n)) (λ short. inl (_, if-true _ _ _ short))
      (λ enough. inr (_, _, if-false _ _ _ enough))

module _ {Value : Type 0} (wire : Wire Value) (good : IsWire wire) where
  -- On a connection that ends, a message is read and takes bytes, or the call fails.
  pub read_message-cases :
      (b : Bytes)
      → ((x : Error) × (read_message wire true b ≡ err x))
        ⊎ ((msg : Message Value) × (left : Bytes) × (read_message wire true b ≡ ok (msg, left))
            × (length left < length b))
  unfolding read_message
  read_message-cases b =
      either (read_full-cases 4 b) (λ (x, failed). inl (x, rw (failed, read_message) refl))
        (λ (size, rest, got).
          either (read_full-cases (be_value size) rest)
            (λ (x, failed). inl (x, rw (got, failed, read_message) refl))
            (λ (payload, left, got2).
              let few = read_full-left 4 b size rest got in
              let fewer = read_full-left (be_value size) rest payload left got2 in
              go (wire.unmarshal payload) (good.reads payload) left (omega arith)
                (rw (got, got2, read_message) refl)))
    where
      go :
          (r : Go (Message Value)) (ret : returns r ≡ true) (left : Bytes)
          → length left < length b
          → read_message wire true b ≡ (r >>= λ msg. ok (msg, left))
          → ((x : Error) × (read_message wire true b ≡ err x))
            ⊎ ((msg : Message Value) × (left : Bytes) × (read_message wire true b ≡ ok (msg, left))
                × (length left < length b))
      go (ok msg) ret left less run = inr (msg, left, run, less)
      go (err x) ret left less run = inl (x, run)
      go panic ret left less run = absurd (cc)
      go stuck ret left less run = absurd (cc)

  module _ (takes : Bytes → Bytes → ℕ) (local : Local) (peer : Peer) where
    abbrev pub hello_of : Message Value
    hello_of = record {
      kind = message_hello;
      body = hello_body (record {
        node_id = local.node_id;
        network = local.network;
        version = local.version;
        listen = local.advertise_addr;
      });
    }

    -- What a step of a session keeps, and that its call returns.
    pub record Fine (incoming : Bytes) (x : Session × Go (Unit {0})) : Type 0 where
      pub keeps : Keeps peer x.0
      pub same : x.0.conn.incoming ≡ incoming
      pub ends : returns x.1 ≡ true

    or_fail-Fine :
        {A : Type 0} (f : A → Session × Go (Unit {0})) (s : Session) (r : Go A)
        → returns r ≡ true
        → Keeps peer s
        → ((a : A) → Fine s.conn.incoming (f a))
        → Fine s.conn.incoming (or_fail f s r)
    or_fail-Fine f s (ok a) ret keeps all = all a
    or_fail-Fine f s (err x) ret keeps all = record { keeps = keeps; same = refl; ends = refl }
    or_fail-Fine f s panic ret keeps all = absurd (cc)
    or_fail-Fine f s stuck ret keeps all = absurd (cc)

    -- An event that is no hello message.
    called-Keeps :
        (e : Event) (s : Session)
        → ((id : Bytes) → last_id id (e ∷ []) ≡ id)
        → Keeps peer s
        → Keeps peer (called e s)
    called-Keeps e s no_hello k = record {
      addr = k.addr;
      closes = k.closes;
      inbound = k.inbound;
      id = k.id ∙ sym (last_id-append peer.id s.events e ∙ no_hello (last_id peer.id s.events));
    }

    pub sending-Fine :
        (msg : Message Value) (s : Session)
        → Keeps peer s
        → Fine s.conn.incoming (sending wire takes local msg s)
    unfolding send
    sending-Fine msg s k = go (wire.marshal msg) (good.writes msg)
      where
        sent : Go Bytes → Conn × Go (Unit {0})
        sent r = elim r [
          | ok body ↦ write takes s.conn (frame body)
          | err x ↦ (s.conn, err x)
          | panic ↦ (s.conn, panic)
          | stuck ↦ (s.conn, stuck)
        ]

        keeping : (c : Conn) → c.closes ≡ true → Keeps peer (record s { conn = c })
        keeping c closed = record { addr = k.addr; closes = closed; inbound = k.inbound; id = k.id }

        ending : (b : Bool) → returns (if b then ok tt else err Error.network_failure) ≡ true
        ending true = refl
        ending false = refl

        go :
            (r : Go Bytes)
            → returns r ≡ true
            → Fine s.conn.incoming (record s { conn = (sent r).0 }, (sent r).1)
        go (ok body) ret = record { keeps = keeping _ k.closes; same = refl; ends = ending _ }
        go (err x) ret = record { keeps = keeping _ k.closes; same = refl; ends = refl }
        go panic ret = absurd (cc)
        go stuck ret = absurd (cc)

    if-Fine :
        {i : Bytes} {x y : Session × Go (Unit {0})} (b : Bool)
        → Fine i x
        → Fine i y
        → Fine i (if b then x else y)
    if-Fine true fx fy = fx
    if-Fine false fx fy = fy

    event-Fine :
        (e : Event) (s : Session)
        → ((id : Bytes) → last_id id (e ∷ []) ≡ id)
        → Keeps peer s
        → Fine s.conn.incoming (called e s, ok tt)
    event-Fine e s no_hello k = record {
      keeps = called-Keeps e s no_hello k;
      same = refl;
      ends = refl;
    }

    dispatch_on-Fine :
        (s : Session) (kind payload : Bytes)
        → Keeps peer s
        → Fine s.conn.incoming (dispatch_on wire takes local s kind payload)
    unfolding dispatch_on
    dispatch_on-Fine s kind payload k =
        if-Fine (bytes_eq kind message_hello)
          (or_fail-Fine _ s (wire.to_hello payload) (good.hellos payload) k (λ h. record {
            keeps = record {
              addr = k.addr;
              closes = k.closes;
              inbound = k.inbound;
              id = sym (last_id-append peer.id s.events (on_hello h));
            };
            same = refl;
            ends = refl;
          }))
          (if-Fine (bytes_eq kind message_status)
            (or_fail-Fine _ s (wire.to_status payload) (good.statuses payload) k (λ status.
              let e = sym (last_id-append peer.id s.events (on_status status)) in
              record {
                keeps = record {
                  addr = k.addr;
                  closes = k.closes;
                  inbound = k.inbound;
                  id = k.id ∙ e;
                };
                same = refl;
                ends = refl;
              }))
            (if-Fine (bytes_eq kind message_ping)
              (or_fail-Fine _ s (wire.to_ping payload) (good.pings payload) k (λ time.
                sending-Fine _ (called (on_ping time) s)
                  (called-Keeps (on_ping time) s (λ id. refl) k)))
              (if-Fine (bytes_eq kind message_pong)
                (or_fail-Fine _ s (wire.to_pong payload) (good.pongs payload) k
                  (λ time. event-Fine (on_pong time) s (λ id. refl) k))
                (if-Fine (bytes_eq kind message_new_blk)
                  (or_fail-Fine _ s (wire.to_new_block payload) (good.blocks payload) k
                    (λ block. event-Fine (on_new_block block) s (λ id. refl) k))
                  (record { keeps = k; same = refl; ends = refl })))))

    pub dispatch-Fine :
        (s : Session) (msg : Message Value)
        → Keeps peer s
        → Fine s.conn.incoming (dispatch wire takes local s msg)
    unfolding dispatch
    dispatch-Fine s msg k =
        or_fail-Fine _ s (wire.marshal_body msg.body) (good.bodies msg.body) k
          (λ payload. dispatch_on-Fine s msg.kind payload k)
