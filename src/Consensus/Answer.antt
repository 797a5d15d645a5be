-- ===== src/Consensus/Answer.antt =====
-- Every call of `InsertBlock` answers: it accepts the block, refuses it, or fails to write it.
use colossusx.Prelude.{
  ℕ, ◌+◌, ◌*◌, ◌/◌, ◌++◌, ◌%◌, ◌≡◌, ◌≢◌, refl, ap, ◌∙◌, ◌⊎◌, inl, inr, either, Bool, true, false,
  Bool-cases, ◌==◌, not, some, Go, ok, err, panic, stuck, Error, refuse, ◌>>=◌, ◌>>◌, Option-cases,
  arith,
}
use colossusx.Prelude.Keys.{bytes_eq, bytes_key}
use colossusx.Prelude.Maps.{lookup}
use colossusx.Prelude.Slices.{Bytes}
use colossusx.Prelude.Int.{ℤ, leb_ℤ, ltb_ℤ, add_int64}
use colossusx.Prelude.Endian.{be}
use colossusx.Target.{less_or_equal_be}
use colossusx.Spec.{u64_mod}
use colossusx.Spec.Valid.{IsSized, validate-IsSized}
use colossusx.Spec.Size.{planned_size, dag_size_for_height-planned}
use colossusx.Spec.Epoch.{resolved, resolved-IsDagSize, validate-resolved}
use colossusx.Types.{Block, BlockHeader, block_hash, zero_hash, encode_for_mining}
use colossusx.Types.Seed.{planned_seed, epoch_seed-planned}
use colossusx.Hash.{hash_header_stateless}
use colossusx.Hash.Total.{hash_header_stateless-IsResult}
use colossusx.Chain.{MemoryStore, Writes, get_block, get_header}
use colossusx.Consensus.Header.{check_header, check_linkage, parent_or_invalid}
use colossusx.Consensus.Accept.{IsAcceptable, check_header_iff}
use colossusx.Consensus.Cache.{Env, Caches, cpu_hash, pow_verdict, validate_pow}
use colossusx.Consensus.Cache.Verdict.{IsSound, Serves, IsPlanned, AreFresh, validate_pow-stateless}
use colossusx.Consensus.Insert.{Inserted, tip_answer, insert_valid_block}
use colossusx.Consensus.Invariant.{IsChain, IsConsistent}
use colossusx.Consensus.Invariant.Result.{Inserts, Unwritten, insert_valid_block-Insertion}
use colossusx.Consensus.Validate.{validate_header, validate_block, insert_if_valid, insert_block}

-- A check answers: no panic, no loop that is cut off.
abbrev pub Answers : Go (Unit {0}) → Type 0
Answers r = (r ≡ ok tt) ⊎ ((x : Error) × (r ≡ err x))

refuse-Answers : (b : Bool) (x : Error) → Answers (refuse b x)
refuse-Answers true x = inr (x, refl)
refuse-Answers false x = inl refl

>>-Answers : (a b : Go (Unit {0})) → Answers a → Answers b → Answers (a >> b)
>>-Answers (ok tt) b p q = q
>>-Answers (err x) b p q = inr (x, refl)
>>-Answers panic b p q = absurd (ground arith)
>>-Answers stuck b p q = absurd (ground arith)

found-Answers :
    (store : MemoryStore) (hash : Bytes) (f : BlockHeader → Go (Unit {0}))
    → ((h : BlockHeader) → Answers (f h))
    → Answers (parent_or_invalid (get_header store hash) >>= f)
unfolding get_header get_block
found-Answers store hash f each =
    either (Option-cases (lookup hash store.blocks))
      (λ missing. rw missing (inr (Error.invalid_parent, refl)))
      (λ (b, found). rw found (each b.header))

guarded : (b : Bool) (x : Error) {k : Go (Unit {0})} → Answers k → Answers (refuse b x >> k)
guarded true x p = inr (x, refl)
guarded false x p = p

check_linkage-Answers : (store : MemoryStore) (h : BlockHeader) → Answers (check_linkage store h)
unfolding check_linkage
check_linkage-Answers store h =
    either (Bool-cases (h.height == 0)) (λ zero. rw zero (refuse-Answers _ _))
      (λ above. rw above (
        found-Answers store h.parent_hash _ (λ parent.
          guarded (not ((parent.height + 1) % u64_mod == h.height)) Error.invalid_parent
            (refuse-Answers (leb_ℤ h.timestamp parent.timestamp) Error.invalid_timestamp))))

module _ (e : Env) (sound : IsSound e) where
  open e use {crypto, config}

  sized : IsSized config.spec
  sized = validate-IsSized config.spec sound.valid

  check_header-Answers :
      (store : MemoryStore) (h : BlockHeader) (now : ℤ)
      → Answers (check_header crypto config store h now)
  unfolding check_header
  check_header-Answers store h now =
      let size = planned_size config.spec (h.height / config.spec.epoch_blocks) in
      let seed = planned_seed crypto config.spec (h.height / config.spec.epoch_blocks) in
      let late = ltb_ℤ (add_int64 now (2 * 60 * 60)) h.timestamp in
      rw
        (
          dag_size_for_height-planned config.spec h.height sound.typed sized,
          epoch_seed-planned crypto config.spec h.height sound.typed sized,
        )
        (guarded (not (h.algorithm_version == config.spec.algorithm_version)) Error.invalid_epoch (
          guarded (not (h.dag_size_bytes == size)) Error.invalid_epoch (
            guarded (not (bytes_eq seed h.epoch_seed)) Error.invalid_epoch (
              guarded (bytes_eq h.target zero_hash) Error.invalid_target (
                >>-Answers (check_linkage store h) (refuse late Error.invalid_timestamp)
                  (check_linkage-Answers store h) (refuse-Answers late Error.invalid_timestamp))))))

  module _ (cpu : e.backend_hash ≡ cpu_hash crypto) where
    -- an acceptable header names the DAG that is planned for it
    pub acceptable-IsPlanned :
        (store : MemoryStore) (h : BlockHeader) (now : ℤ)
        → IsAcceptable crypto config store h now
        → Serves e h.height
        → IsPlanned e h
    acceptable-IsPlanned store h now a served = record {
      served = served;
      size = a.size_matches;
      some_seed = λ empty. absurd (
          ground (
            arith,
            a.seed_matches,
            crypto.length-sha256 (
                be 8 (h.height / config.spec.epoch_blocks)
                ++ be 8 (planned_size config.spec (h.height / config.spec.epoch_blocks))),
          ));
    }

    -- The proof of work that a light verifier checks.
    abbrev pub light_verdict : BlockHeader → Go (Unit {0})
    light_verdict h =
        hash_header_stateless crypto (resolved config.spec h.height) (encode_for_mining h)
          (some h.nonce) h.epoch_seed
        >>= pow_verdict h

    light_verdict-Answers : (h : BlockHeader) → IsPlanned e h → Answers (light_verdict h)
    light_verdict-Answers h plan =
        let (r, run, _) =
          hash_header_stateless-IsResult crypto (resolved config.spec h.height)
            (encode_for_mining h) h.epoch_seed (some h.nonce)
            (validate-resolved config.spec h.height sound.typed sound.valid)
            (resolved-IsDagSize config.spec h.height sound.typed sized) plan.some_seed in
        rw run (refuse-Answers (not (less_or_equal_be r.pow256 h.target)) Error.invalid_pow)

    pub header_passes :
        (m : Caches) (store : MemoryStore) (h : BlockHeader) (now : ℤ)
        {out : Caches × Go (Unit {0})}
        → check_header crypto config store h now ≡ ok tt
        → validate_pow e m h ≡ out
        → validate_header e m store h now ≡ out
    unfolding validate_header
    header_passes m store h now passed run = rw (passed, validate_header) run

    header_fails :
        (m : Caches) (store : MemoryStore) (h : BlockHeader) (now : ℤ) (x : Error)
        → check_header crypto config store h now ≡ err x
        → validate_header e m store h now ≡ (m, err x)
    unfolding validate_header
    header_fails m store h now x refused = rw (refused, validate_header) refl

    -- `ValidateHeader` is the header's checks and then the light verifier's verdict.
    validate_header-light :
        (m : Caches) (store : MemoryStore) (h : BlockHeader) (now : ℤ)
        → AreFresh e m
        → (IsAcceptable crypto config store h now → Serves e h.height)
        → (m' : Caches) × (r : Go (Unit {0})) × (validate_header e m store h now ≡ (m', r))
          × AreFresh e m'
          × ((((r ≡ ok tt) × IsAcceptable crypto config store h now) × (light_verdict h ≡ ok tt))
              ⊎ ((x : Error) × (r ≡ err x)))
    validate_header-light m store h now fresh served =
        either (check_header-Answers store h now)
          (λ passed.
            let good = (check_header_iff crypto config store h now sound.typed sized).0 passed in
            let plan = acceptable-IsPlanned store h now good (served good) in
            let (m', run, fresh') = validate_pow-stateless e m h sound plan cpu fresh in
            (
              m',
              light_verdict h,
              header_passes m store h now passed run,
              fresh',
              either (light_verdict-Answers h plan) (λ yes. inl ((yes, good), yes)) (λ no. inr no),
            ))
          (λ (x, refused). (m, err x, header_fails m store h now x refused, fresh, inr (x, refl)))

    -- `InsertBlock` accepts the block: its answer, and the store behind it.
    pub record Accepted (ws : Writes) (s : MemoryStore) (block : Block) (now : ℤ) (s' : MemoryStore)
        (r : Go (ℕ × Bool)) : Type 0 where
      pub work : ℕ
      pub became : Bool
      pub good : IsAcceptable crypto config s block.header now
      pub light : light_verdict block.header ≡ ok tt
      pub inserts : Inserts crypto ws s block s' work became
      pub answer : r ≡ tip_answer ws s' work became

    -- The block is good, but it is new and `StoreBlock` returned an error.
    pub record Failed (ws : Writes) (s : MemoryStore) (block : Block) (now : ℤ) (s' : MemoryStore)
        (r : Go (ℕ × Bool)) : Type 0 where
      pub error : Error
      pub good : IsAcceptable crypto config s block.header now
      pub light : light_verdict block.header ≡ ok tt
      pub unwritten : Unwritten crypto ws s block s' error
      pub answer : r ≡ err error

    -- The block is refused, and the store is the one before.
    abbrev pub Refused : MemoryStore → MemoryStore → Go (ℕ × Bool) → Type 0
    Refused s s' r = (x : Error) × (r ≡ err x) × (s' ≡ s)

    -- How `InsertBlock` answers: the caches and the store behind it and the result.
    pub record Answer (ws : Writes) (m : Caches) (s : MemoryStore) (block : Block) (now : ℤ)
        (m' : Caches) (s' : MemoryStore) (r : Go (ℕ × Bool)) : Type 0 where
      pub run : insert_block e ws m s block now ≡ (m', (s', r))
      pub fresh : AreFresh e m'
      pub chain : IsChain crypto s'
      pub outcome :
          (IsConsistent crypto s' × (Accepted ws s block now s' r ⊎ Refused s s' r))
          ⊎ Failed ws s block now s' r

    pub insert_block_run :
        (ws : Writes) (m : Caches) (s : MemoryStore) (block : Block) (now : ℤ) {m' : Caches}
        {r : Go (Unit {0})} {i : Inserted}
        → validate_header e m s block.header now ≡ (m', r)
        → insert_if_valid e ws s block r ≡ i
        → insert_block e ws m s block now ≡ (m', i)
    unfolding insert_block validate_block
    insert_block_run ws m s block now {m' = m'} run next =
        ap (λ (p : Caches × Go (Unit {0})). (p.0, insert_if_valid e ws s block p.1)) run
        ∙ ap (λ (i : Inserted). (m', i)) next

    -- In a sound environment with the CPU backend, with fresh caches and a consistent store of any
    -- kind, `InsertBlock` of any block whose hash is not zero, with no other call beside it,
    -- returns without a panic, and the
    -- caches are fresh, if both allocators serve the DAG size planned for the block's height in case
    -- its header passes all checks. One of three things holds. The block is refused with an error, and the store
    -- is unchanged. Or its header passes all checks against the store and a light verifier accepts
    -- its proof of work, the store behind it is consistent, and the answer is the block's total work
    -- in it and whether it became the tip, or the error of the write of the new tip. Or the block
    -- passed these checks, but it is new and its write failed: that error is returned, and the block
    -- is in the store's maps without a choice of the tip.
    pub insert_block-Answer :
        (ws : Writes) (m : Caches) (s : MemoryStore) (block : Block) (now : ℤ)
        → AreFresh e m
        → IsConsistent crypto s
        → (IsAcceptable crypto config s block.header now → Serves e block.header.height)
        → block_hash crypto block ≢ zero_hash
        → (m' : Caches) × (s' : MemoryStore) × (r : Go (ℕ × Bool)) × Answer ws m s block now m' s' r
    insert_block-Answer ws m s block now fresh con served nz =
        let (m', r, run, fresh', cases) = validate_header-light m s block.header now fresh served in
        either cases
          (λ ((passed, good), light).
            let passes : (i : Inserted)
                → insert_valid_block crypto ws s block ≡ i
                → insert_block e ws m s block now ≡ (m', i) =
              λ i h.
                insert_block_run ws m s block now run
                  (ap (insert_if_valid e ws s block) passed ∙ h) in
            either (insert_valid_block-Insertion crypto ws s block con good.linked nz)
              (λ (s', w, became, i). (
                m',
                s',
                tip_answer ws s' w became,
                record {
                  run = passes _ i.run;
                  fresh = fresh';
                  chain = i.consistent.chain;
                  outcome = inl (
                    i.consistent,
                    inl (record {
                      work = w;
                      became = became;
                      good = good;
                      light = light;
                      inserts = i;
                      answer = refl;
                    }),
                  );
                },
              ))
              (λ (s', x, u). (
                m',
                s',
                err x,
                record {
                  run = passes _ u.run;
                  fresh = fresh';
                  chain = u.chain;
                  outcome = inr (record {
                    error = x;
                    good = good;
                    light = light;
                    unwritten = u;
                    answer = refl;
                  });
                },
              )))
          (λ (x, refused). (
            m',
            s,
            err x,
            record {
              run =
                  insert_block_run ws m s block now run (ap (insert_if_valid e ws s block) refused);
              fresh = fresh';
              chain = con.chain;
              outcome = inl (con, inr (x, refl, refl));
            },
          ))
