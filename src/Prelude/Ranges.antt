-- ===== src/Prelude/Ranges.antt =====
-- Loops that fill a map from the entries of another, and what the filled map holds. Go gives the
-- entries of a map in any order; here the first entry of a list is put last.
use mathlib.Core.Path.{◌≡◌, refl, sym, ◌∙◌, ap, subst}
use mathlib.Core.Bool.{true, false}
use mathlib.Core.Option.{Option, none, some}
use mathlib.Core.List.{List, [], ◌∷◌, Memᴰ}
use mathlib.Core.List.Memᴰ
use native.Mathlib.Omega.{arith}
use colossusx.Prelude.Tests.{Bool-cases, either, if-true, if-false}
use colossusx.Prelude.Outcome.{Go, ok, ◌>>=◌}
use colossusx.Prelude.Keys.{Eq, ◌==◌}
use colossusx.Prelude.Maps.{Map, lookup, insert, lookup-insert}

module _ {K V : Type 0} ⦃q : Eq K⦄ where
  -- What a key maps to is an entry.
  pub lookup-Memᴰ : (k : K) (m : Map K V) {v : V} → lookup k m ≡ some v → Memᴰ (k, v) m
  unfolding lookup
  lookup-Memᴰ k [] h = absurd (cc)
  lookup-Memᴰ k (entry ∷ rest) {v} h =
      either (Bool-cases (entry.0 == k))
        (λ here.
          let same : entry.0 ≡ k = (q.same_iff entry.0 k).0 here in
          let got : some entry.1 ≡ some v =
            sym (if-true (entry.0 == k) (some entry.1) (lookup k rest) here) ∙ h in
          Memᴰ.head (cc))
        (λ later.
          let got = sym (if-false (entry.0 == k) (some entry.1) (lookup k rest) later) ∙ h in
          Memᴰ.tail (lookup-Memᴰ k rest got))

  -- The key maps to something.
  abbrev pub IsIn : K → Map K V → Type 0
  IsIn k m = (v : V) × (lookup k m ≡ some v)

  first : (k : K) (v : V) (rest : Map K V) → lookup k ((k, v) ∷ rest) ≡ some v
  unfolding lookup
  first k v rest = if-true (k == k) (some v) (lookup k rest) ((q.same_iff k k).1 refl)

  IsIn-rest : (k : K) (entry : K × V) (rest : Map K V) → IsIn k rest → IsIn k (entry ∷ rest)
  unfolding lookup
  IsIn-rest k entry rest (v, h) =
      either (Bool-cases (entry.0 == k))
        (λ here. (entry.1, if-true (entry.0 == k) (some entry.1) (lookup k rest) here))
        (λ later. (v, if-false (entry.0 == k) (some entry.1) (lookup k rest) later ∙ h))

  pub Memᴰ-IsIn : (k : K) (v : V) (m : Map K V) → Memᴰ (k, v) m → IsIn k m
  Memᴰ-IsIn k v [] h = absurd (Memᴰ.not-nil h)
  Memᴰ-IsIn k v (entry ∷ rest) h =
      either (Memᴰ.cases_cons h)
        (λ here.
          subst (λ (j : K). IsIn j (entry ∷ rest)) (sym (ap (λ (e : K × V). e.0) here))
            (entry.1, first entry.0 entry.1 rest))
        (λ later. IsIn-rest k entry rest (Memᴰ-IsIn k v rest later))

  -- The map holds only what is wanted.
  abbrev pub Within : Map K V → (K → Option V) → Type 0
  Within m target = (k : K) (v : V) → lookup k m ≡ some v → target k ≡ some v

  kept_insert : (k : K) (v : V) (m : Map K V) (j : K) → IsIn j m → IsIn j (insert k v m)
  kept_insert k v m j (x, h) =
      either (Bool-cases (k == j))
        (λ same. (v, lookup-insert k j v m ∙ if-true (k == j) (some v) (lookup j m) same))
        (λ other. (x, lookup-insert k j v m ∙ if-false (k == j) (some v) (lookup j m) other ∙ h))

  -- Every key is in one entry.
  abbrev pub IsOnce : Map K V → Type 0
  IsOnce [] = Unit
  IsOnce (entry ∷ rest) = (lookup entry.0 rest ≡ none) × IsOnce rest

  pub insert-IsOnce : (key : K) (value : V) (m : Map K V) → IsOnce m → IsOnce (insert key value m)
  unfolding insert lookup
  insert-IsOnce key value [] once = (refl, tt)
  insert-IsOnce key value (entry ∷ rest) once =
      either (Bool-cases (entry.0 == key))
        (λ here.
          let same : entry.0 ≡ key = (q.same_iff entry.0 key).0 here in
          subst IsOnce
            (sym
              (if-true (entry.0 == key) ((key, value) ∷ rest) (entry ∷ insert key value rest) here))
            (subst (λ k. lookup k rest ≡ none) same once.0, once.1))
        (λ later.
          subst IsOnce
            (sym (
              if-false (entry.0 == key) ((key, value) ∷ rest) (entry ∷ insert key value rest)
                later))
            (
              ground (
                arith,
                lookup-insert key entry.0 value rest,
                q.same_iff entry.0 key,
                q.same_iff key entry.0,
                once.0,
              ),
              insert-IsOnce key value rest once.1,
            ))

  pub Memᴰ-lookup : (k : K) (v : V) (m : Map K V) → IsOnce m → Memᴰ (k, v) m → lookup k m ≡ some v
  unfolding lookup
  Memᴰ-lookup k v [] once h = absurd (Memᴰ.not-nil h)
  Memᴰ-lookup k v (entry ∷ rest) once h =
      either (Memᴰ.cases_cons h)
        (λ here.
          let same : entry.0 ≡ k = sym (ap (λ (e : K × V). e.0) here) in
          let value : entry.1 ≡ v = sym (ap (λ (e : K × V). e.1) here) in
          ground (arith, q.same_iff entry.0 k))
        (λ later.
          let found = Memᴰ-lookup k v rest once.1 later in
          let other : (entry.0 == k) ≡ true → none ≡ some v =
            λ e. sym once.0 ∙ (ap (λ j. lookup j rest) ((q.same_iff entry.0 k).0 e) ∙ found) in
          ground (arith, q.same_iff entry.0 k))

module _ {K V L W : Type 0} ⦃q : Eq K⦄ ⦃r : Eq L⦄ where
  -- `for k, v := range m { to[f(k)] = g(v) }`, on a new map
  unfoldable pub put_all : (K → L) → (V → W) → Map K V → Map L W
  put_all f g [] = []
  put_all f g (entry ∷ rest) = insert (f entry.0) (g entry.1) (put_all f g rest)

  pub put_all-IsOnce : (f : K → L) (g : V → W) (m : Map K V) → IsOnce (put_all f g m)
  unfolding put_all
  put_all-IsOnce f g [] = tt
  put_all-IsOnce f g (entry ∷ rest) =
      insert-IsOnce (f entry.0) (g entry.1) (put_all f g rest) (put_all-IsOnce f g rest)

  -- What the new map holds comes from the old one.
  pub put_all-from :
      (f : K → L) (g : V → W) (m : Map K V) (l : L) {w : W}
      → lookup l (put_all f g m) ≡ some w
      → (k : K) × (v : V) × (lookup k m ≡ some v) × (f k ≡ l) × (g v ≡ w)
  unfolding put_all lookup
  put_all-from f g [] l h = absurd (cc)
  put_all-from f g (entry ∷ rest) l {w} h =
      either (Bool-cases (f entry.0 == l))
        (λ here.
          let read = lookup-insert (f entry.0) l (g entry.1) (put_all f g rest) in
          let value : g entry.1 ≡ w = ground (arith, read, here, h) in
          (entry.0, entry.1, first entry.0 entry.1 rest, (r.same_iff (f entry.0) l).0 here, value))
        (λ later.
          let read = lookup-insert (f entry.0) l (g entry.1) (put_all f g rest) in
          let (k, v, found, key, value) =
            put_all-from f g rest l (ground (arith, read, later, h)) in
          let other : (entry.0 == k) ≡ false =
            either (Bool-cases (entry.0 == k))
              (λ e. absurd (
                ground
                  (arith, ap f ((q.same_iff entry.0 k).0 e), key, (r.same_iff (f entry.0) l).1)))
              (λ o. o) in
          (k, v, if-false (entry.0 == k) (some entry.1) (lookup k rest) other ∙ found, key, value))

  -- What the old map holds is in the new one, if its keys stay apart.
  pub put_all-to :
      (f : K → L) (g : V → W) (m : Map K V) (k : K) {v : V}
      → ((i j : K) → IsIn i m → IsIn j m → f i ≡ f j → i ≡ j)
      → lookup k m ≡ some v
      → lookup (f k) (put_all f g m) ≡ some (g v)
  unfolding put_all lookup
  put_all-to f g [] k one h = absurd (cc)
  put_all-to f g (entry ∷ rest) k {v} one h =
      let read = lookup-insert (f entry.0) (f k) (g entry.1) (put_all f g rest) in
      either (Bool-cases (entry.0 == k))
        (λ here.
          let same = (q.same_iff entry.0 k).0 here in
          let value : entry.1 ≡ v = ground (arith, here, h) in
          read
          ∙ if-true (f entry.0 == f k) (some (g entry.1)) (lookup (f k) (put_all f g rest))
              ((r.same_iff (f entry.0) (f k)).1 (ap f same))
          ∙ ap (λ x. some (g x)) value)
        (λ later.
          let found : lookup k rest ≡ some v = ground (arith, later, h) in
          let apart : (f entry.0 == f k) ≡ false =
            either (Bool-cases (f entry.0 == f k))
              (λ e.
                let same =
                  one entry.0 k (entry.1, first entry.0 entry.1 rest) (v, h)
                    ((r.same_iff (f entry.0) (f k)).0 e) in
                absurd (ground (arith, same, (q.same_iff entry.0 k).1)))
              (λ o. o) in
          read
          ∙ if-false (f entry.0 == f k) (some (g entry.1)) (lookup (f k) (put_all f g rest)) apart
          ∙ put_all-to f g rest k
              (λ i j a b. one i j (IsIn-rest i entry rest a) (IsIn-rest j entry rest b)) found)

ok_inj : {K : Type 0} {j k : K} → ok j ≡ ok k → j ≡ k
ok_inj e = cc

module _ {A K V : Type 0} ⦃q : Eq K⦄ where
  -- `for _, entry := range l { m[key] = value }`, where the key and the value may fail
  unfoldable pub load_into : (A → Go K) → (A → Go V) → List A → Map K V → Go (Map K V)
  load_into f g [] m = ok m
  load_into f g (a ∷ rest) m = do key ← f a; value ← g a; load_into f g rest (insert key value m)

  -- The entry is read, as the target wants it.
  abbrev pub Reads : (A → Go K) → (A → Go V) → (K → Option V) → A → Type 0
  Reads f g target a = (k : K) × (v : V) × (f a ≡ ok k) × (g a ≡ ok v) × (target k ≡ some v)

  -- If every entry is read as the target wants it, the loop fills in every key that it reads, and
  -- nothing that the target does not want.
  pub load_into-Within :
      (f : A → Go K) (g : A → Go V) (target : K → Option V) (l : List A) (m : Map K V)
      → Within m target
      → ((a : A) → Memᴰ a l → Reads f g target a)
      → (m' : Map K V) × (load_into f g l m ≡ ok m')
        × Within m' target
        × ((k : K) → IsIn k m → IsIn k m')
        × ((a : A) (k : K) → Memᴰ a l → f a ≡ ok k → IsIn k m')
  unfolding load_into
  load_into-Within f g target [] m within reads =
      (m, refl, within, (λ k h. h), λ a k h. absurd (Memᴰ.not-nil h))
  load_into-Within f g target (a ∷ rest) m within reads =
      let (k, v, key, value, wants) = reads a (Memᴰ.head refl) in
      let (m', run, within', kept, filled) =
        load_into-Within f g target rest (insert k v m)
          (λ j x h. ground (arith, lookup-insert k j v m, q.same_iff k j, wants, within j x))
          (λ b h. reads b (Memᴰ.tail h)) in
      (
        m',
        rw (key, value) run,
        within',
        (λ j h. kept j (kept_insert k v m j h)),
        λ b j h e.
            either (Memᴰ.cases_cons h)
              (λ here.
                let same : k ≡ j = ok_inj (sym key ∙ (ap f (sym here) ∙ e)) in
                kept j (v, ground (arith, lookup-insert k j v m, (q.same_iff k j).1 same)))
              (λ later. filled b j later e),
      )
