-- ===== src/Lockout.antt =====
-- Lockout after failed attempts: createInMemoryLockoutStore (src/lockout/inMemoryLockoutStore.ts) and
-- createLockoutGuard (src/lockout/config.ts).
pub mod Laws
mod Tests
use absolute_auth.Prelude.{
  ℕ, String, Option, none, some, List, [], ◌∷◌, ◌+◌, ◌-◌, ltb, leb, if◌then◌else◌,
}
use absolute_auth.JsMap.{JsMap, get, set, delete}

pub record LockoutRecord : Type 0 where
  pub failed_attempts : ℕ
  pub key : String
  pub locked_until : Option ℕ
  pub window_started_at : ℕ

abbrev pub Store : Type 0
Store = JsMap LockoutRecord

-- LockoutConfig without its store, the defaults filled in.
pub record LockoutConfig : Type 0 where
  pub lockout_ms : ℕ
  pub max_attempts : ℕ
  pub window_ms : ℕ

-- The record that an increment writes: the window that runs, or a new one.
unfoldable pub counted : ℕ → String → ℕ → Option LockoutRecord → LockoutRecord
counted now key window_ms none = record {
  failed_attempts = 1;
  key = key;
  locked_until = none;
  window_started_at = now;
}
counted now key window_ms (some r) =
    if leb now (r.window_started_at + window_ms)
    then record r { failed_attempts = r.failed_attempts + 1 }
    else record { failed_attempts = 1; key = key; locked_until = none; window_started_at = now }

unfoldable pub increment : ℕ → String → ℕ → Store → LockoutRecord × Store
unfolding counted
increment now key window_ms m =
    (counted now key window_ms (get key m), set key (counted now key window_ms (get key m)) m)

existing : ℕ → String → Option LockoutRecord → LockoutRecord
existing now key none = record {
  failed_attempts = 0;
  key = key;
  locked_until = none;
  window_started_at = now;
}
existing now key (some r) = r

unfoldable pub lock : ℕ → String → ℕ → Store → Store
unfolding existing
lock now key locked_until m =
    set key (record (existing now key (get key m)) { locked_until = some locked_until }) m

unfoldable pub reset : String → Store → Store
reset key m = delete key m

pub data LockoutState : Type 0 where
  unlocked : LockoutState
  locked : (retry_after_ms : ℕ) → LockoutState

-- (lockedUntil ?? 0) - now > 0
unfoldable pub locked_state : ℕ → Option ℕ → LockoutState
locked_state now none = unlocked
locked_state now (some until) = if ltb now until then locked (until - now) else unlocked

unfoldable pub locked_until_of : Option LockoutRecord → Option ℕ
locked_until_of none = none
locked_until_of (some r) = r.locked_until

unfoldable pub check : ℕ → String → Store → LockoutState
unfolding locked_state locked_until_of
check now key m = locked_state now (locked_until_of (get key m))

-- The clock of a failure: when it is counted, and when the guard locks.
pub record Failure : Type 0 where
  pub at : ℕ
  pub locked_at : ℕ

unfoldable pub record_failure : LockoutConfig → String → Failure → Store → Store
unfolding increment lock
record_failure cfg key f m =
    let (r, m') = increment f.at key cfg.window_ms m in
    if leb cfg.max_attempts r.failed_attempts
    then lock f.locked_at key (f.locked_at + cfg.lockout_ms) m'
    else m'

unfoldable pub record_success : String → Store → Store
unfolding reset
record_success key m = reset key m
