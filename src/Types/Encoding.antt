-- ===== src/Types/Encoding.antt =====
-- The byte encodings of a header: their length, and that no two headers share one.
use colossusx.Prelude.{
  ℕ, ◌<◌, ◌^◌, ◌≡◌, refl, ap, sym, ◌∙◌, ◌++◌, [], ◌∷◌, length, length-append, arith,
}
use colossusx.Prelude.Slices.{Bytes}
use colossusx.Prelude.Endian.{be, be_value, length-be, be_value-be}
use colossusx.Prelude.Int.{ℤ, IsInt64, to_u64, of_u64, to_u64-lt, of_u64-to_u64}
use colossusx.Types.{BlockHeader, encode, encode_for_mining}

-- The fields have the widths of their Go types.
pub record IsTyped (h : BlockHeader) : Type 0 where
  pub version_size : h.version < 2 ^ 32
  pub algorithm_size : h.algorithm_version < 2 ^ 32
  pub height_size : h.height < 2 ^ 64
  pub parent_size : length h.parent_hash ≡ 32
  pub time_size : IsInt64 h.timestamp
  pub target_size : length h.target ≡ 32
  pub nonce_size : h.nonce < 2 ^ 64
  pub seed_size : length h.epoch_seed ≡ 32
  pub dag_size : h.dag_size_bytes < 2 ^ 64
  pub tx_size : length h.tx_root ≡ 32
  pub state_size : length h.state_root ≡ 32

-- Two concatenations with heads of one length are equal part by part.
append-inj : (a b u v : Bytes) → length a ≡ length b → a ++ u ≡ b ++ v → (a ≡ b) × (u ≡ v)
append-inj [] [] u v h e = (refl, e)
append-inj [] (y ∷ b) u v h e = absurd (omega arith)
append-inj (x ∷ a) [] u v h e = absurd (omega arith)
append-inj (x ∷ a) (y ∷ b) u v h e = let (p, q) = append-inj a b u v (omega arith) (cc) in (cc, q)

be-append-inj :
    (w n m : ℕ) (u v : Bytes)
    → n < 256 ^ w
    → m < 256 ^ w
    → be w n ++ u ≡ be w m ++ v
    → (n ≡ m) × (u ≡ v)
be-append-inj w n m u v hn hm e =
    let same : length (be w n) ≡ length (be w m) = length-be w n ∙ sym (length-be w m) in
    let (p, q) = append-inj (be w n) (be w m) u v same e in
    (sym (be_value-be w n hn) ∙ ap be_value p ∙ be_value-be w m hm, q)

time_inj : (a b : ℤ) → IsInt64 a → IsInt64 b → to_u64 a ≡ to_u64 b → a ≡ b
time_inj a b ha hb e = sym (of_u64-to_u64 a ha) ∙ ap of_u64 e ∙ of_u64-to_u64 b hb

-- Both encodings have a fixed length.
pub length-encode_for_mining : (h : BlockHeader) → IsTyped h → length (encode_for_mining h) ≡ 192
unfolding encode_for_mining
length-encode_for_mining h t =
    simp length-append
      (omega (arith, length-be, t.parent_size, t.target_size, t.seed_size, t.tx_size, t.state_size))

-- The fields that the proof of work covers.
pub record SameWork (h k : BlockHeader) : Type 0 where
  pub same_version : h.version ≡ k.version
  pub same_algorithm : h.algorithm_version ≡ k.algorithm_version
  pub same_height : h.height ≡ k.height
  pub same_parent : h.parent_hash ≡ k.parent_hash
  pub same_time : h.timestamp ≡ k.timestamp
  pub same_target : h.target ≡ k.target
  pub same_seed : h.epoch_seed ≡ k.epoch_seed
  pub same_size : h.dag_size_bytes ≡ k.dag_size_bytes
  pub same_tx : h.tx_root ≡ k.tx_root
  pub same_state : h.state_root ≡ k.state_root

SameWork-eq : (h k : BlockHeader) → SameWork h k → h.nonce ≡ k.nonce → h ≡ k
SameWork-eq h k s n = λ i. record {
  version = s.same_version i;
  algorithm_version = s.same_algorithm i;
  height = s.same_height i;
  parent_hash = s.same_parent i;
  timestamp = s.same_time i;
  target = s.same_target i;
  nonce = n i;
  epoch_seed = s.same_seed i;
  dag_size_bytes = s.same_size i;
  tx_root = s.same_tx i;
  state_root = s.same_state i;
}

-- Headers with one mining encoding agree on every field but the nonce: the work of one header
-- counts for no other.
encode_for_mining-inj :
    (h k : BlockHeader)
    → IsTyped h
    → IsTyped k
    → encode_for_mining h ≡ encode_for_mining k
    → SameWork h k
unfolding encode_for_mining
encode_for_mining-inj h k th tk e =
    let (e1, r1) = be-append-inj 4 h.version k.version _ _ th.version_size tk.version_size e in
    let (e2, r2) = be-append-inj 4 _ _ _ _ th.algorithm_size tk.algorithm_size r1 in
    let (e3, r3) = be-append-inj 8 _ _ _ _ th.height_size tk.height_size r2 in
    let (e4, r4) = append-inj _ _ _ _ (th.parent_size ∙ sym tk.parent_size) r3 in
    let (e5, r5) = be-append-inj 8 _ _ _ _ (to_u64-lt h.timestamp) (to_u64-lt k.timestamp) r4 in
    let (e6, r6) = append-inj _ _ _ _ (th.target_size ∙ sym tk.target_size) r5 in
    let (e7, r7) = append-inj _ _ _ _ (th.seed_size ∙ sym tk.seed_size) r6 in
    let (e8, r8) = be-append-inj 8 _ _ _ _ th.dag_size tk.dag_size r7 in
    let (e9, r9) = append-inj _ _ _ _ (th.tx_size ∙ sym tk.tx_size) r8 in
    record {
      same_version = e1;
      same_algorithm = e2;
      same_height = e3;
      same_parent = e4;
      same_time = time_inj h.timestamp k.timestamp th.time_size tk.time_size e5;
      same_target = e6;
      same_seed = e7;
      same_size = e8;
      same_tx = e9;
      same_state = r9;
    }

-- Different headers have different encodings, so the header hash commits to every field.
pub encode-inj : (h k : BlockHeader) → IsTyped h → IsTyped k → encode h ≡ encode k → h ≡ k
unfolding encode
encode-inj h k th tk e =
    let widths = length-encode_for_mining h th ∙ sym (length-encode_for_mining k tk) in
    let (same, rest) = append-inj _ _ _ _ widths e in
    let nonces =
      sym (be_value-be 8 h.nonce th.nonce_size)
      ∙ ap be_value rest
      ∙ be_value-be 8 k.nonce tk.nonce_size in
    SameWork-eq h k (encode_for_mining-inj h k th tk same) nonces
