-- ===== src/Semaphore.antt =====
-- The counting semaphore of `lib/semaphore.go`: a buffered channel of which only the number of
-- waiting tokens and the capacity matter.
pub mod Fleet
use cc_deb_pkg.Prelude.{ℕ, ◌+◌, ◌-◌, Bool, true, false, Option, none, some, ltb, if◌then◌else◌}

-- `len(ch)` and `cap(ch)`
pub record Semaphore : Type 0 where
  pub tokens : ℕ
  pub room : ℕ

unfoldable pub new_semaphore : ℕ → Semaphore
new_semaphore size = record { tokens = 0; room = size }

-- `none`: the caller blocks on the full channel, and the semaphore stays as it is.
unfoldable pub acquire : Semaphore → Option Semaphore
acquire s = if ltb s.tokens s.room then some (record s { tokens = s.tokens + 1 }) else none

-- The `select` with a `default`: never blocks.
unfoldable pub try_acquire : Semaphore → Semaphore × Bool
try_acquire s =
    if ltb s.tokens s.room then (record s { tokens = s.tokens + 1 }, true) else (s, false)

-- `none`: the panic of a release without an acquire.
unfoldable pub release : Semaphore → Option Semaphore
release s = if ltb 0 s.tokens then some (record s { tokens = s.tokens - 1 }) else none

unfoldable pub count : Semaphore → ℕ
count s = s.tokens

unfoldable pub size : Semaphore → ℕ
size s = s.room
