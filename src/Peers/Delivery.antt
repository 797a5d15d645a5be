-- ===== src/Peers/Delivery.antt =====
-- What is sent arrives: the messages of one end are read at the other, in order.
use colossusx.Prelude.{
  ℕ, ◌<◌, ◌^◌, ◌≡◌, refl, sym, ap, ◌∙◌, either, List, [], ◌∷◌, ◌++◌, length, Bool, Go, ok,
}
use mathlib.Core.List.{append_assoc, append-nil}
use colossusx.Prelude.Slices.{Bytes}
use colossusx.Peers.{
  Body, hello_body, status_body, ping_body, pong_body, new_block_body, decoded, Message,
}
use colossusx.Peers.Framing.{
  Wire, Conn, frame, after_send, send_all, receive, send-split, read_message-frame,
}

module _ {Value : Type 0} (wire : Wire Value) where
  -- `dispatch`'s decoder of the kind finds this body in what was decoded before.
  abbrev pub Carries : Body Value → Body Value → Type 0
  Carries (hello_body h) b = (t : Bytes) × (wire.marshal_body b ≡ ok t) × (wire.to_hello t ≡ ok h)
  Carries (status_body s) b = (t : Bytes) × (wire.marshal_body b ≡ ok t) × (wire.to_status t ≡ ok s)
  Carries (ping_body time) b =
      (t : Bytes) × (wire.marshal_body b ≡ ok t) × (wire.to_ping t ≡ ok time)
  Carries (pong_body time) b =
      (t : Bytes) × (wire.marshal_body b ≡ ok t) × (wire.to_pong t ≡ ok time)
  Carries (new_block_body block) b =
      (t : Bytes) × (wire.marshal_body b ≡ ok t) × (wire.to_new_block t ≡ ok block)
  Carries (decoded v) b = b ≡ decoded v

  -- The message that was read is the one that was sent: its kind is the same, and its body, encoded
  -- again as `dispatch` does, is decoded as the body that was sent.
  pub record IsSame (sent read : Message Value) : Type 0 where
    pub kind : read.kind ≡ sent.kind
    pub body : Carries sent.body read.body

  abbrev pub AllSame : List (Message Value) → List (Message Value) → Type 0
  AllSame [] [] = Unit
  AllSame [] (r ∷ rs) = ⊥
  AllSame (m ∷ ms) [] = ⊥
  AllSame (m ∷ ms) (r ∷ rs) = IsSame m r × AllSame ms rs

  -- JSON writes each message in less than 2^32 bytes, and keeps it.
  abbrev pub AllWritten : List (Message Value) → Type 0
  AllWritten [] = Unit
  AllWritten (m ∷ ms) =
      ((body : Bytes) × (read : Message Value) × (wire.marshal m ≡ ok body)
        × (length body < 2 ^ 32)
        × (wire.unmarshal body ≡ ok read)
        × IsSame m read)
      × AllWritten ms

  -- If all messages are sent without an error, the bytes that went out are read at the other end as
  -- the same number of messages, in order, and what follows them is left. Each has the kind that was
  -- sent, and its body, encoded again, is decoded as the body that was sent. JSON must write each
  -- message in less than 2^32 bytes and keep its body when it is decoded, encoded and decoded again,
  -- which fails for some numbers above 2^53.
  pub receive-send_all :
      (closes : Bool) (takes : Bytes → Bytes → ℕ) (ms : List (Message Value)) (conn conn' : Conn)
      (more : Bytes)
      → AllWritten ms
      → send_all wire takes conn ms ≡ (conn', ok tt)
      → (sent : Bytes) × (read : List (Message Value)) × (conn'.outgoing ≡ conn.outgoing ++ sent)
        × (receive wire closes (length ms) (sent ++ more) ≡ ok (read, more))
        × AllSame ms read
  unfolding send_all receive
  receive-send_all closes takes [] conn conn' more all run = (
    [],
    [],
    ap (λ (p : Conn × Go (Unit {0})). p.0.outgoing) (sym run) ∙ sym (append-nil conn.outgoing),
    refl,
    tt,
  )
  receive-send_all closes takes (m ∷ ms) conn conn' more
        ((body, got, written, small, decodes, same), all) run =
      either (send-split wire takes conn m written)
        (λ whole.
          let next : Conn = record conn { outgoing = conn.outgoing ++ frame body } in
          let later : send_all wire takes next ms ≡ (conn', ok tt) =
            sym (ap (after_send (λ c. send_all wire takes c ms)) whole) ∙ run in
          let (sent, rest, out, got_all, same_all) =
            receive-send_all closes takes ms next conn' more all later in
          (
            frame body ++ sent,
            got ∷ rest,
            out ∙ append_assoc conn.outgoing (frame body) sent,
            rw
                (
                  append_assoc (frame body) sent more,
                  read_message-frame wire closes body (sent ++ more) small decodes,
                  got_all,
                )
                refl,
            (same, same_all),
          ))
        (λ (c, x, failed).
          let stopped = sym (ap (after_send (λ c. send_all wire takes c ms)) failed) ∙ run in
          absurd (cc (ap (λ (p : Conn × Go (Unit {0})). p.1) stopped)))
