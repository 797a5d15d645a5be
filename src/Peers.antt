-- ===== src/Peers.antt =====
-- pkg/p2p: the messages, a peer and the set of peers. A `*Peer` in the set is a number that names it,
-- and its fields are passed along.
pub mod Framing
pub mod Delivery
pub mod Connection
pub mod Steps
pub mod Closing
use colossusx.Prelude.{
  ℕ, ◌≡◌, refl, ap, ◌∙◌, Bool, true, false, if◌then◌else◌, [], ◌∷◌, none, some, arith,
}
use colossusx.Prelude.Keys.{bytes_eq, bytes_eq_iff, bytes_key}
use colossusx.Prelude.Maps.{Map, lookup, insert, delete, lookup-insert, lookup-delete}
use colossusx.Prelude.Slices.{Bytes}
use colossusx.Prelude.Int.{ℤ}
use colossusx.Types.{Block}

-- `types.PeerStatus`
pub record PeerStatus : Type 0 where
  pub peer_id : Bytes
  pub best_hash : Bytes
  pub best_height : ℕ
  pub total_work : Bytes
  pub connected_at : ℤ

pub record HelloMessage : Type 0 where
  pub node_id : Bytes
  pub network : Bytes
  pub version : Bytes
  pub listen : Bytes

-- The body of a message: one of the types that are sent, or what JSON decodes into an `any`.
pub data Body (Value : Type 0) : Type 0 where
  hello_body : HelloMessage → Body Value
  status_body : PeerStatus → Body Value
  ping_body pong_body : ℤ → Body Value
  new_block_body : Block → Body Value
  decoded : Value → Body Value

pub record Message (Value : Type 0) : Type 0 where
  pub kind : Bytes
  pub body : Body Value

-- the fields of `Peer` but its connection and times
pub record Peer : Type 0 where
  pub id : Bytes
  pub addr : Bytes
  pub inbound : Bool
  pub hello : HelloMessage
  pub status : PeerStatus

abbrev pub PeerSet : Type 0
PeerSet = Map Bytes ℕ

-- `address` is `fmt.Sprintf("%s/%t", …)`.
module _ (address : Bytes → Bool → Bytes) where
  -- `peerKey`
  unfoldable pub peer_key : Peer → Bytes
  peer_key p = elim p.id [ [] ↦ address p.addr p.inbound | c ∷ cs ↦ c ∷ cs ]

  -- `PeerSet.Add`
  unfoldable pub add : ℕ → Peer → PeerSet → PeerSet
  add p peer ps = insert (peer_key peer) p ps

  -- `PeerSet.Remove`
  unfoldable pub remove : Peer → PeerSet → PeerSet
  remove peer ps = delete (peer_key peer) ps

  -- A peer that was added under one key and is removed under its key of then is gone only if the
  -- keys are the same.
  pub remove-add :
      (p : ℕ) (before after : Peer) (ps : PeerSet)
      → lookup (peer_key before) (remove after (add p before ps))
        ≡ (if bytes_eq (peer_key after) (peer_key before) then none else some p)
  unfolding remove add
  remove-add p before after ps =
      let key = peer_key before in
      ground (
        arith,
        lookup-delete (peer_key after) key (insert key p ps),
        lookup-insert key key p ps,
        bytes_eq_iff key key,
        bytes_eq_iff (peer_key after) key,
      )
