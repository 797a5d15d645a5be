-- ===== src/Tests/Rounds.antt =====
-- The theorems on mining at a chain of one block, whose hash is its height and one.
use colossusx.Prelude.{
  ℕ, ◌+◌, ◌*◌, ◌<◌, ◌≤◌, ◌≡◌, refl, sym, ap, subst, ◌∙◌, none, ◌⊎◌, inl, inr, either, Bool, true,
  false, Bool-cases, ◌==◌, if◌then◌else◌, List, [], ◌∷◌, ◌++◌, replicate, drop, some, Go, ok, arith,
}
use colossusx.Prelude.Keys.{bytes_eq, bytes_eq_iff, bytes_key}
use colossusx.Prelude.Maps.{lookup}
use colossusx.Prelude.Endian.{le, length-le, le-bytes, be}
use colossusx.Prelude.Slices.{Bytes}
use colossusx.Target.{IsHash, less_or_equal_be, less_or_equal_be-value, be_value-lt}
use colossusx.Prelude.Int.{pos, add_int64, to_u64, of_u64}
use colossusx.Crypto.{Crypto}
use colossusx.Types.{Block, BlockHeader, block_hash, header_hash, zero_hash}
use colossusx.Chain.{MemoryStore, Succeeds, in_memory}
use colossusx.Chain.Laws.{bytes_same}
use colossusx.Consensus.Work.{calc_block_work}
use colossusx.Consensus.Cache.{Env, Caches, cpu_hash}
use colossusx.Consensus.Cache.Verdict.{IsSound, AreFresh}
use colossusx.Consensus.Answer.{light_verdict}
use colossusx.Tests.Chains.{first_header, sample_config, empty-IsConsistent, first_block-nonzero}
use colossusx.Tests.Samples.{
  sample_spec, sample_spec-IsTyped, sample_spec-IsSized, sample_spec-valid,
}
use colossusx.Prelude.{refuse, Error, not, ◌>>=◌}
use colossusx.Hash.{HashResult}
use colossusx.Hash.Total.{hash_header_stateless-IsResult}
use colossusx.Spec.Epoch.{resolved, resolved-IsDagSize, validate-resolved}
use colossusx.Types.{encode_for_mining}
use colossusx.Chain.{new_memory_store}
use colossusx.Consensus.Accept.{IsAcceptable}
use colossusx.Consensus.Accepted.{insert_block-accepts}
use colossusx.Consensus.Cache.{pow_verdict}
use colossusx.Consensus.Invariant.Result.{Inserts}
use colossusx.Consensus.Validate.{insert_block}
use colossusx.Consensus.Invariant.{IsWork, IsChain, IsBestTip, IsConsistent}
use colossusx.Consensus.Seal.{cpu_backend, seal_block}
use colossusx.Consensus.Seal.Search.{Sealed, EnoughTurns, seal_block-Sealed}
use colossusx.Prelude.Decimal.{parse_digits}
use colossusx.Peers.{PeerStatus}
use colossusx.Node.Status.{local_status-best}
use colossusx.Node.{local_status}
use colossusx.Node.Mined.{mined_header}
use colossusx.Tests.Samples.{sample_crypto, sample_header, easy_target}
use colossusx.Tests.Chains.{
  sample_env, sample_env-IsSound, no_caches, no_caches-AreFresh, first_block,
  first_header-IsPlanned, sample_env-Serves,
}

in_memory-Succeeds : Succeeds in_memory
in_memory-Succeeds = record { stored = λ s. refl; moved = λ s. refl }

abbrev first_or_zero : Bytes → ℕ
first_or_zero [] = 0
first_or_zero (b ∷ bs) = b

abbrev by_height : Bytes → Bytes
by_height m = le 32 (1 + first_or_zero (drop 15 m))

abbrev counting_crypto : Crypto
counting_crypto = record sample_crypto {
  sha256 = by_height;
  length-sha256 = λ m. length-le 32 (1 + first_or_zero (drop 15 m));
  sha256-bytes = λ m. le-bytes 32 (1 + first_or_zero (drop 15 m));
}

abbrev counting_env : Env
counting_env = record sample_env {
  crypto = counting_crypto;
  backend_hash = cpu_hash counting_crypto;
}

counting_env-IsSound : IsSound counting_env
counting_env-IsSound = record {
  fair = sample_env-IsSound.fair;
  cpus = sample_env-IsSound.cpus;
  typed = sample_env-IsSound.typed;
  valid = sample_env-IsSound.valid;
}

abbrev root : Block
root = record { header = sample_header; transactions = [] }

abbrev root_hash : Bytes
root_hash = block_hash counting_crypto root

abbrev one_block : MemoryStore
one_block = record {
  genesis_hash = root_hash;
  current_tip = root_hash;
  blocks = (root_hash, root) ∷ [];
  heights = (0, root_hash) ∷ [];
  total_work = (root_hash, calc_block_work easy_target) ∷ [];
}

-- What is found in a map of one entry.
only_entry :
    {V : Type 0} (k j : Bytes) (v : V) {x : V} → lookup j ((k, v) ∷ []) ≡ some x → (k ≡ j) × (v ≡ x)
unfolding lookup
only_entry k j v h = ground (arith, bytes_eq_iff k j)

first_entry : {V : Type 0} (k : Bytes) (v : V) → lookup k ((k, v) ∷ []) ≡ some v
unfolding lookup
first_entry k v = let same = bytes_same k in rw same refl

root_hash-nonzero : bytes_eq root_hash zero_hash ≡ false
unfolding block_hash header_hash le colossusx.Types.encode colossusx.Types.encode_for_mining be
    bytes_eq
root_hash-nonzero = refl

no_entry : {V : Type 0} (k j : Bytes) (v : V) → bytes_eq k j ≡ false → lookup j ((k, v) ∷ []) ≡ none
unfolding lookup
no_entry k j v ne = rw ne refl

one_block-IsChain : IsChain counting_crypto one_block
one_block-IsChain = record {
  keyed = λ k b h.
      let (same, is_root) = only_entry root_hash k root h in
      sym (ap (block_hash counting_crypto) is_root) ∙ same;
  no_zero = no_entry root_hash zero_hash root root_hash-nonzero;
  worked = λ k b h.
      let (same, is_root) = only_entry root_hash k root h in
      (
        calc_block_work easy_target,
        subst (λ j. lookup j one_block.total_work ≡ some (calc_block_work easy_target)) same
            (first_entry root_hash (calc_block_work easy_target)),
        subst (λ x. IsWork one_block x (calc_block_work easy_target)) is_root root_work,
      );
  only_blocks = λ k w h.
      let (same, _) = only_entry root_hash k (calc_block_work easy_target) h in
      (root, subst (λ j. lookup j one_block.blocks ≡ some root) same (first_entry root_hash root));
}
  where
    root_work : IsWork one_block root (calc_block_work easy_target)
    root_work = record { at_genesis = λ z. refl; above = λ nz. absurd (nz refl) }

abbrev one_block-tip : IsBestTip one_block
one_block-tip = record {
  tip_block = root;
  tip_work = calc_block_work easy_target;
  stored = first_entry root_hash root;
  worked = first_entry root_hash (calc_block_work easy_target);
  best = λ k w h. inl (sym (only_entry root_hash k (calc_block_work easy_target) h).0);
}

abbrev one_block-IsConsistent : IsConsistent counting_crypto one_block
one_block-IsConsistent = record { chain = one_block-IsChain; tip = inr one_block-tip }

-- Seven turns for each of the three workers.
abbrev seven_turns : List ℕ
seven_turns = replicate 7 0 ++ (replicate 7 1 ++ replicate 7 2)

enough_first : EnoughTurns sample_env sample_env-IsSound refl seven_turns 3
enough_first i small = ground arith

abbrev header_on_root : BlockHeader
header_on_root =
    mined_header counting_env counting_env-IsSound refl in_memory in_memory-Succeeds easy_target
      (λ n. n ∷ []) 3 one_block (pos 200) (pos 300) one_block-IsConsistent one_block-tip

abbrev child_hash : ℕ → Bytes
child_hash n =
    block_hash counting_crypto
      (record { header = record header_on_root { nonce = n }; transactions = [] })

easy_target-IsHash : IsHash easy_target
easy_target-IsHash = record { bytes = ground arith; width = refl }

seal_block-Sealed_example :
    (m' : Caches) × (r : Go Block) × (seal_block sample_env
        (cpu_backend sample_crypto)
        seven_turns
        no_caches
        first_block
        3
      ≡ (m', r))
    × AreFresh sample_env m'
    × Sealed sample_env sample_env-IsSound refl first_block 3 r
seal_block-Sealed_example =
    seal_block-Sealed sample_env sample_env-IsSound refl seven_turns no_caches first_block 3
      first_header-IsPlanned no_caches-AreFresh enough_first

local_status-best_example :
    (r : PeerStatus) × (w : ℕ) × (local_status counting_crypto [] one_block (pos 7) ≡ ok r)
    × (r.best_hash ≡ one_block.current_tip)
    × ((b : Block) × (lookup r.best_hash one_block.blocks ≡ some b)
        × (r.best_height ≡ b.header.height))
    × (parse_digits r.total_work ≡ some w)
    × (lookup r.best_hash one_block.total_work ≡ some w)
    × ((k : Bytes) (v : ℕ) → lookup k one_block.total_work ≡ some v → v ≤ w)
local_status-best_example =
    local_status-best counting_crypto [] one_block (pos 7) one_block-IsConsistent one_block-tip

all_below : (a : Bytes) → IsHash a → less_or_equal_be a easy_target ≡ true
unfolding colossusx.Prelude.Endian.be_from
all_below a h =
    let low = be_value-lt a h in
    less_or_equal_be-value a easy_target h easy_target-IsHash ∙ ground arith

first_light : light_verdict sample_env sample_env-IsSound refl first_header ≡ ok tt
first_light =
    let (r, run, is) =
      hash_header_stateless-IsResult sample_crypto (resolved sample_spec 0)
        (encode_for_mining first_header) first_header.epoch_seed (some 3)
        (validate-resolved sample_spec 0 sample_spec-IsTyped sample_spec-valid)
        (resolved-IsDagSize sample_spec 0 sample_spec-IsTyped sample_spec-IsSized)
        first_header-IsPlanned.some_seed in
    ap (λ (x : Go HashResult). x >>= pow_verdict first_header) run
    ∙ ap (λ (b : Bool). refuse (not b) Error.invalid_pow) (all_below r.pow256 is.pow_hash)

first_header-IsAcceptable :
    IsAcceptable sample_crypto sample_config new_memory_store first_header (pos 100)
unfolding add_int64 to_u64 of_u64
first_header-IsAcceptable = record {
  version_matches = refl;
  size_matches = first_header-IsPlanned.size;
  seed_matches = refl;
  some_target = λ e. ground arith;
  linked = record { genesis = λ z. refl; child = λ nz. absurd (nz refl) };
  in_time = omega arith;
}

insert_block-accepts_example :
    (m' : Caches) × (s' : MemoryStore) × (w : ℕ) × (became : Bool) × (insert_block sample_env
        in_memory no_caches new_memory_store first_block
        (pos 100)
      ≡ (m', (s', ok (w, became))))
    × AreFresh sample_env m'
    × Inserts sample_crypto in_memory new_memory_store first_block s' w became
insert_block-accepts_example =
    insert_block-accepts sample_env sample_env-IsSound refl in_memory in_memory-Succeeds no_caches
      new_memory_store first_block (pos 100) no_caches-AreFresh empty-IsConsistent
      first_header-IsAcceptable sample_env-Serves first_light first_block-nonzero
