-- ===== src/Crypto.antt =====
-- The hash functions that the program calls and does not implement (crypto/sha256,
-- golang.org/x/crypto/sha3, github.com/zeebo/blake3): a parameter of the models that use them. The
-- laws are the documented lengths of the digests, and that a digest is made of bytes.
use colossusx.Prelude.{ℕ, ◌≡◌, length}
use colossusx.Prelude.Slices.{Bytes}
use colossusx.Prelude.Endian.{AllBytes}

pub record Crypto : Type 0 where
  pub sha256 : Bytes → Bytes
  pub sha3_512 : Bytes → Bytes
  pub keccak512 : Bytes → Bytes
  pub blake3_256 : Bytes → Bytes
  -- `blake3.New`, writes, then `Digest().Read` of so many bytes
  pub blake3_xof : Bytes → ℕ → Bytes
  pub length-sha256 : (m : Bytes) → length (sha256 m) ≡ 32
  pub length-sha3_512 : (m : Bytes) → length (sha3_512 m) ≡ 64
  pub length-keccak512 : (m : Bytes) → length (keccak512 m) ≡ 64
  pub length-blake3_256 : (m : Bytes) → length (blake3_256 m) ≡ 32
  pub length-blake3_xof : (m : Bytes) (n : ℕ) → length (blake3_xof m n) ≡ n
  pub sha256-bytes : (m : Bytes) → AllBytes (sha256 m)
  pub sha3_512-bytes : (m : Bytes) → AllBytes (sha3_512 m)
  pub keccak512-bytes : (m : Bytes) → AllBytes (keccak512 m)
  pub blake3_256-bytes : (m : Bytes) → AllBytes (blake3_256 m)
  pub blake3_xof-bytes : (m : Bytes) (n : ℕ) → AllBytes (blake3_xof m n)
