-- ===== src/Peers/Closing.antt =====
-- `handleConn` ends, and what it leaves in the set of peers.
use colossusx.Prelude.{
  ℕ, zero, suc, ◌+◌, ◌<◌, ◌≡◌, refl, ap, ◌∙◌, either, Bool, true, Bool-cases, if◌then◌else◌,
  if-true, if-false, List, [], ◌∷◌, ◌++◌, length, none, some, Go, ok, err, panic, stuck, ◌>>=◌,
  arith,
}
use colossusx.Prelude.Keys.{bytes_eq, bytes_key}
use colossusx.Prelude.Maps.{lookup}
use colossusx.Prelude.Slices.{Bytes}
use colossusx.Peers.{Message, Peer, PeerSet, peer_key, add, remove-add}
use colossusx.Peers.Framing.{Wire, Conn, read_message}
use colossusx.Peers.Connection.{
  Event, on_peer_connected, on_peer_disconnected, Session, Local, dispatch, go_on, handle_message,
  loop, closing, greeted, handle_conn,
}
use colossusx.Peers.Steps.{
  IsWire, last_id, Keeps, Fine, read_message-cases, hello_of, sending-Fine, dispatch-Fine,
}

module _ {Value : Type 0} (wire : Wire Value) (good : IsWire wire) (takes : Bytes → Bytes → ℕ)
    (local : Local) (peer : Peer) where
  -- On a connection that ends the loop ends, if its fuel is more than the bytes that come in.
  loop-ends :
      (fuel : ℕ) (cancelled : List Event → Bool) (s : Session)
      → length s.conn.incoming < fuel
      → Keeps peer s
      → (s' : Session) × (loop wire takes local fuel cancelled s ≡ ok s') × Keeps peer s'
  unfolding loop
  loop-ends zero cancelled s enough k = absurd (omega arith)
  loop-ends (suc fuel) cancelled s enough k =
      either (read_message-cases wire good s.conn.incoming)
        (λ (x, failed). (s, closed ∙ ap handle failed, k))
        (λ (msg, left, got, less).
          let s1 : Session = record s { conn = record s.conn { incoming = left } } in
          let fine =
            dispatch-Fine wire good takes local peer s1 msg
              (record { addr = k.addr; closes = k.closes; inbound = k.inbound; id = k.id }) in
          let (s', run, kept) =
            after (λ s2. loop-ends fuel cancelled s2) (dispatch wire takes local s1 msg) left
              (omega arith) fine in
          (s', closed ∙ (ap handle got ∙ run), kept))
    where
      handle : Go (Message Value × Bytes) → Go Session
      handle r =
          handle_message wire takes local (λ s'. loop wire takes local fuel cancelled s') cancelled
            s r

      closed :
          handle (read_message wire s.conn.closes s.conn.incoming)
          ≡ handle (read_message wire true s.conn.incoming)
      closed = ap (λ b. handle (read_message wire b s.conn.incoming)) k.closes

      after :
          ((s2 : Session)
            → length s2.conn.incoming < fuel
            → Keeps peer s2
            → (s' : Session) × (loop wire takes local fuel cancelled s2 ≡ ok s') × Keeps peer s')
          → (x : Session × Go (Unit {0})) (left : Bytes) → length left < fuel
          → Fine wire good takes local peer left x
          → (s' : Session) × (go_on wire takes local
                (λ s'. loop wire takes local fuel cancelled s')
                x
                cancelled
              ≡ ok s')
            × Keeps peer s'
      after later (s2, ok u) left less fine =
          either (Bool-cases (cancelled s2.events)) (λ over. (s2, if-true _ _ _ over, fine.keeps))
            (λ more.
              let small : length s2.conn.incoming < fuel = ground (arith, ap length fine.same) in
              let (s', run, kept) = later s2 small fine.keeps in
              (s', if-false _ _ _ more ∙ run, kept))
      after later (s2, err x) left less fine = (s2, refl, fine.keeps)
      after later (s2, panic) left less fine = let e = fine.ends in absurd (cc)
      after later (s2, stuck) left less fine = let e = fine.ends in absurd (cc)

  -- On a connection that ends, here or at the other end, where every write returns and JSON does not
  -- panic, `handleConn` ends, whatever bytes come in before and however writes fail. The peer that was
  -- added under its address has the identifier of the last hello message then; the set of peers
  -- still has it under the key of the address unless the peer's key is that key again.
  pub handle_conn-ends :
      (address : Bytes → Bool → Bytes) (cancelled : List Event → Bool) (p : ℕ) (conn : Conn)
      (ps : PeerSet)
      → conn.closes ≡ true
      → peer.id ≡ []
      → (ps' : PeerSet) × (s : Session) × (es : List Event) × (handle_conn wire takes local address
            cancelled p peer conn ps
          ≡ ok (ps', s))
        × (s.events ≡ es ++ (on_peer_disconnected ∷ []))
        × (s.peer.id ≡ last_id [] es)
        × (lookup (peer_key address peer) ps'
            ≡ (if bytes_eq (peer_key address s.peer) (peer_key address peer) then none else some p))
  unfolding handle_conn
  handle_conn-ends address cancelled p conn ps ends unnamed =
      let begun : Session = record { peer = peer; conn = conn; events = on_peer_connected ∷ [] } in
      let start =
        sending-Fine wire good takes local peer (hello_of wire good takes local peer) begun
          (record { addr = refl; closes = ends; inbound = refl; id = refl }) in
      let s0 = greeted wire takes local address peer conn in
      let (s, run, kept) =
        loop-ends (length conn.incoming + 1) cancelled s0 (ground (arith, ap length start.same))
          start.keeps in
      let added = add address p peer ps in
      (
        _,
        _,
        s.events,
        ap (λ (r : Go Session). r >>= λ s. ok (closing wire takes local address added s)) run,
        refl,
        kept.id ∙ ap (λ id. last_id id s.events) unnamed,
        remove-add address p peer s.peer ps,
      )
