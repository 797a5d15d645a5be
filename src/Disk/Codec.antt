-- ===== src/Disk/Codec.antt =====
-- pkg/chain/codec.go: the snapshot of a store that is written to disk, and its texts. JSON is a
-- parameter: `Text` is what a file holds.
use colossusx.Prelude.{
  ℕ, ◌==◌, ◌≡◌, ap, ◌∙◌, ◌↔◌, Bool, false, if◌then◌else◌, length, List, [], ◌∷◌, Memᴰ, Option, none,
  some, Go, ok, err, stuck, Error, arith,
}
use colossusx.Prelude.Maps.{Map}
use colossusx.Prelude.Slices.{Bytes}
use colossusx.Prelude.Hex.{hex_encode, hex_decode, hex_decode-encode}
use colossusx.Prelude.Decimal.{format_uint, parse_from, parse_digits, parse_digits-format_uint}
use colossusx.Target.{IsHash}
use colossusx.Types.{Block, zero_hash}

pub record DiskBlockRecord : Type 0 where
  pub hash : Bytes
  pub block : Block

pub record DiskSnapshot : Type 0 where
  pub genesis_hash : Bytes
  pub current_tip : Bytes
  pub blocks : List DiskBlockRecord
  pub heights : Map Bytes Bytes
  pub total_work : Map Bytes Bytes

abbrev pub empty_snapshot : DiskSnapshot
empty_snapshot = record {
  genesis_hash = [];
  current_tip = [];
  blocks = [];
  heights = [];
  total_work = [];
}

-- encoding/json, and `len(data) == 0`. Of the blocks that are `writable`, all is written: their
-- strings are UTF-8.
pub record Json (Text : Type 0) : Type 1 where
  pub marshal : DiskSnapshot → Go Text
  pub unmarshal : Text → Go DiskSnapshot
  pub is_empty : Text → Bool
  pub writable : Block → Type 0

-- The same strings and blocks, and the same entries of the maps in some order.
pub record SameSnapshot (a b : DiskSnapshot) : Type 0 where
  pub genesis : b.genesis_hash ≡ a.genesis_hash
  pub tip : b.current_tip ≡ a.current_tip
  pub records : b.blocks ≡ a.blocks
  pub heights_same : (e : Bytes × Bytes) → Memᴰ e a.heights ↔ Memᴰ e b.heights
  pub work_same : (e : Bytes × Bytes) → Memᴰ e a.total_work ↔ Memᴰ e b.total_work

-- What is written is read back.
pub record IsJson {Text : Type 0} (json : Json Text) : Type 0 where
  pub some_text : (s : DiskSnapshot) (t : Text) → json.marshal s ≡ ok t → json.is_empty t ≡ false
  pub reads_back :
      (s : DiskSnapshot) (t : Text)
      → ((r : DiskBlockRecord) → Memᴰ r s.blocks → json.writable r.block)
      → json.marshal s ≡ ok t
      → (s' : DiskSnapshot) × (json.unmarshal t ≡ ok s') × SameSnapshot s s'

-- `unmarshalSnapshot`
unfoldable pub unmarshal_snapshot : {Text : Type 0} → Json Text → Text → Go DiskSnapshot
unmarshal_snapshot json text = if json.is_empty text then ok empty_snapshot else json.unmarshal text

abbrev of_decoded_hash : Option Bytes → Go Bytes
of_decoded_hash none = err Error.bad_hex
of_decoded_hash (some decoded) = if length decoded == 32 then ok decoded else err Error.wrong_length

-- `hashFromString`
unfoldable pub hash_from_string : Bytes → Go Bytes
hash_from_string [] = ok zero_hash
hash_from_string (c ∷ cs) = of_decoded_hash (hex_decode (c ∷ cs))

-- `bigIntToString`, of a number that is there
unfoldable pub big_int_to_string : ℕ → Bytes
big_int_to_string v = format_uint v

abbrev pub of_parsed : Option ℕ → Go ℕ
of_parsed none = err Error.bad_integer
of_parsed (some v) = ok v

-- `bigIntFromString`. A text with a minus is no number of the model.
unfoldable pub big_int_from_string : Bytes → Go ℕ
big_int_from_string [] = ok 0
big_int_from_string (c ∷ cs) =
    if c == b'-'
    then stuck
    else of_parsed (if c == b'+' then parse_digits cs else parse_digits (c ∷ cs))

pub hash_from_string-encode : (h : Bytes) → IsHash h → hash_from_string (hex_encode h) ≡ ok h
unfolding hash_from_string hex_encode
hash_from_string-encode [] is = absurd (ground (arith, is.width))
hash_from_string-encode (b ∷ bs) is =
    ap of_decoded_hash (hex_decode-encode (b ∷ bs) is.bytes) ∙ ground (arith, is.width)

pub big_int_from_string-to_string : (v : ℕ) → big_int_from_string (big_int_to_string v) ≡ ok v
unfolding big_int_to_string big_int_from_string parse_digits parse_from
big_int_from_string-to_string v = go (format_uint v) (parse_digits-format_uint v)
  where
    go : (t : Bytes) → parse_digits t ≡ some v → big_int_from_string t ≡ ok v
    go [] h = absurd (cc)
    go (c ∷ cs) h = ground arith
