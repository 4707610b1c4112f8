-- ===== src/Semaphore/Fleet.antt =====
-- Goroutines that share a semaphore, each of which acquires, works and releases, in any
-- interleaving.
use cc_deb_pkg.Prelude.{
  ℕ, ◌≤◌, ◌≡◌, ◌≢◌, ◌↔◌, true, false, none, some, List, [], ◌∷◌, ◌++◌, length, length-append, arith,
  ap,
}
use cc_deb_pkg.Semaphore.{Semaphore, new_semaphore, acquire, try_acquire, release, count, size}

-- The semaphore and the goroutines that hold a token, by number.
pub record Fleet : Type 0 where
  pub sem : Semaphore
  pub holders : List ℕ

-- A goroutine acquires (it stays where it is while that blocks), tries to, or releases what it
-- holds.
pub data Step : Fleet → Fleet → Type 0 where
  acquires :
      (f : Fleet) (g : ℕ) {s : Semaphore}
      → acquire f.sem ≡ some s
      → Step f (record { sem = s; holders = g ∷ f.holders })
  tries :
      (f : Fleet) (g : ℕ) {s : Semaphore}
      → try_acquire f.sem ≡ (s, true)
      → Step f (record { sem = s; holders = g ∷ f.holders })
  fails :
      (f : Fleet) {s : Semaphore} → try_acquire f.sem ≡ (s, false) → Step f (record f { sem = s })
  releases :
      (f : Fleet) (before after : List ℕ) (g : ℕ) {s : Semaphore}
      → f.holders ≡ before ++ g ∷ after
      → release f.sem ≡ some s
      → Step f (record { sem = s; holders = before ++ after })

pub data Reach (f : Fleet) : Fleet → Type 0 where
  here : Reach f f
  next : {g h : Fleet} → Reach f g → Step g h → Reach f h

-- A token for each holder, and no more tokens than the capacity given at the start.
pub record IsValid (n : ℕ) (f : Fleet) : Type 0 where
  pub counted : f.sem.tokens ≡ length f.holders
  pub bounded : f.sem.tokens ≤ n
  pub capacity : f.sem.room ≡ n

Step-IsValid : {n : ℕ} {f g : Fleet} → Step f g → IsValid n f → IsValid n g
unfolding acquire try_acquire release
Step-IsValid (acquires f g e) v = ground arith
Step-IsValid (tries f g e) v = ground arith
Step-IsValid (fails f e) v = ground arith
Step-IsValid (releases f before after g h e) v =
    ground (arith, ap length h, length-append before (g ∷ after), length-append before after)

Reach-IsValid : {n : ℕ} {f g : Fleet} → IsValid n f → Reach f g → IsValid n g
Reach-IsValid v here = v
Reach-IsValid v (next r st) = Step-IsValid st (Reach-IsValid v r)

abbrev pub start : ℕ → Fleet
start n = record { sem = new_semaphore n; holders = [] }

start-IsValid : (n : ℕ) → IsValid n (start n)
unfolding new_semaphore
start-IsValid n = omega arith

-- However goroutines interleave on a semaphore of capacity `n`, at most `n` of them hold a token,
-- and the count is the number of the holders.
pub reachable_holders :
    (n : ℕ) (f : Fleet)
    → Reach (start n) f
    → (length f.holders ≤ n) × (count f.sem ≡ length f.holders) × (size f.sem ≡ n)
unfolding count size
reachable_holders n f r = let v = Reach-IsValid (start-IsValid n) r in omega arith

module _ {n : ℕ} (f : Fleet) (v : IsValid n f) where
  release_held : f.holders ≢ [] → release f.sem ≢ none
  unfolding release
  release_held h = ground (arith, v)

  acquire_blocks : (acquire f.sem ≡ none) ↔ (length f.holders ≡ n)
  unfolding acquire
  acquire_blocks = ground (arith, v)

  try_acquire_fails : ((try_acquire f.sem).1 ≡ false) ↔ (length f.holders ≡ n)
  unfolding try_acquire
  try_acquire_fails = ground (arith, v)

-- In every state that goroutines reach on a semaphore of capacity `n`, a release by a holder does not
-- panic.
pub reachable_release :
    (n : ℕ) (f : Fleet) → Reach (start n) f → f.holders ≢ [] → release f.sem ≢ none
reachable_release n f r = release_held f (Reach-IsValid (start-IsValid n) r)

-- In every state that goroutines reach on a semaphore of capacity `n`, `Acquire` blocks
-- exactly when `n` goroutines hold a token, and `TryAcquire` fails exactly then.
pub reachable_full :
    (n : ℕ) (f : Fleet)
    → Reach (start n) f
    → ((acquire f.sem ≡ none) ↔ (length f.holders ≡ n))
      × (((try_acquire f.sem).1 ≡ false) ↔ (length f.holders ≡ n))
reachable_full n f r =
    let v = Reach-IsValid (start-IsValid n) r in (acquire_blocks f v, try_acquire_fails f v)
