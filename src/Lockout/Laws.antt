-- ===== src/Lockout/Laws.antt =====
-- When the guard locks a key, and that it does so for that key alone.
use absolute_auth.Prelude.{
  ℕ, String, ◌≡◌, ◌≢◌, ◌≤◌, ◌<◌, refl, none, some, List, [], ◌∷◌, ◌+◌, ◌-◌, ◌∙◌, leb, ltb, ◌&&◌,
  if◌then◌else◌, length, All, arith, eq_iff, string_eq,
}
use absolute_auth.JsMap.{get, set}
use absolute_auth.JsMap.Laws.{get-set, get-delete}
use absolute_auth.Lockout.{
  LockoutRecord, Store, LockoutConfig, unlocked, locked, Failure, counted, lock, record_failure,
  record_success, check, locked_state, locked_until_of,
}

-- A sequence of failed attempts on one key.
abbrev pub record_failures : LockoutConfig → String → List Failure → Store → Store
record_failures cfg key [] m = m
record_failures cfg key (f ∷ rest) m = record_failures cfg key rest (record_failure cfg key f m)

abbrev pub last_of : Failure → List Failure → Failure
last_of f [] = f
last_of f (g ∷ rest) = last_of g rest

-- The record after one more failure inside the window.
abbrev failed_again : LockoutConfig → Failure → LockoutRecord → LockoutRecord
failed_again cfg f r = record r {
  failed_attempts = r.failed_attempts + 1;
  locked_until =
      if leb cfg.max_attempts (r.failed_attempts + 1)
      then some (f.locked_at + cfg.lockout_ms)
      else r.locked_until;
}

module _ (cfg : LockoutConfig) (key : String) where
  failure-in_window :
      (f : Failure) (r : LockoutRecord) (m : Store)
      → get key m ≡ some r
      → f.at ≤ r.window_started_at + cfg.window_ms
      → get key (record_failure cfg key f m) ≡ some (failed_again cfg f r)
  unfolding record_failure
  failure-in_window f r m e w = ground (
    arith,
    e,
    w,
    get-set key key (counted f.at key cfg.window_ms (some r)) m,
    get-set key key
        (record r {
          failed_attempts = r.failed_attempts + 1;
          locked_until = some (f.locked_at + cfg.lockout_ms);
        })
        (set key (counted f.at key cfg.window_ms (some r)) m),
    eq_iff key key,
  )

  -- The record that a first failure leaves.
  first_record : Failure → LockoutRecord
  first_record f = record {
    failed_attempts = 1;
    key = key;
    locked_until = if leb cfg.max_attempts 1 then some (f.locked_at + cfg.lockout_ms) else none;
    window_started_at = f.at;
  }

  failure-first :
      (f : Failure) (m : Store)
      → get key m ≡ none
      → get key (record_failure cfg key f m) ≡ some (first_record f)
  unfolding record_failure first_record
  failure-first f m e = ground (
    arith,
    e,
    get-set key key (counted f.at key cfg.window_ms none) m,
    get-set key key (first_record f) (set key (counted f.at key cfg.window_ms none) m),
    eq_iff key key,
  )

  -- What a run of failures in the window leaves as the end of the lock.
  failures-in_window :
      (f : Failure) (rest : List Failure) (r : LockoutRecord) (m : Store)
      → get key m ≡ some r
      → r.locked_until ≡ (
          if leb cfg.max_attempts r.failed_attempts
          then some (f.locked_at + cfg.lockout_ms)
          else none)
      → All (λ g. g.at ≤ r.window_started_at + cfg.window_ms) rest
      → locked_until_of (get key (record_failures cfg key rest m)) ≡ (
          if leb cfg.max_attempts (r.failed_attempts + length rest)
          then some ((last_of f rest).locked_at + cfg.lockout_ms)
          else none)
  unfolding locked_until_of
  failures-in_window f [] r m e l w = rw e (ground (arith, l))
  failures-in_window f (g ∷ rest) r m e l w =
      failures-in_window g rest (failed_again cfg g r) (record_failure cfg key g m)
        (failure-in_window g r m e w.0) (ground (arith, l)) w.1
      ∙ ground arith

-- A key with no record, after failures that all fall in the window that the first one opens, is
-- locked exactly if there were as many as the configured maximum and the time is before the end of
-- the lockout time that starts at the last of them; the answer has what is left of it.
pub lockout_threshold :
    (cfg : LockoutConfig) (key : String) (now : ℕ) (f : Failure) (rest : List Failure) (m : Store)
    → get key m ≡ none
    → All (λ g. g.at ≤ f.at + cfg.window_ms) rest
    → check now key (record_failures cfg key (f ∷ rest) m) ≡ (
        if leb cfg.max_attempts (1 + length rest)
          && ltb now ((last_of f rest).locked_at + cfg.lockout_ms)
        then locked ((last_of f rest).locked_at + cfg.lockout_ms - now)
        else unlocked)
unfolding check first_record locked_state
lockout_threshold cfg key now f rest m e w =
    rw
      (failures-in_window cfg key f rest (first_record cfg key f) (record_failure cfg key f m)
        (failure-first cfg key f m e) refl w)
      (ground arith)

module _ (key other : String) (d : key ≢ other) where
  set-other : (r : LockoutRecord) (m : Store) → get other (set key r m) ≡ get other m
  set-other r m = ground (arith, d, eq_iff key other, get-set key other r m)

  lock-other : (now until : ℕ) (m : Store) → get other (lock now key until m) ≡ get other m
  unfolding lock
  lock-other now until m = set-other _ m

  failure-other :
      (cfg : LockoutConfig) (f : Failure) (m : Store)
      → get other (record_failure cfg key f m) ≡ get other m
  unfolding record_failure
  failure-other cfg f m = ground (
    arith,
    set-other (counted f.at key cfg.window_ms (get key m)) m,
    lock-other f.locked_at (f.locked_at + cfg.lockout_ms)
        (set key (counted f.at key cfg.window_ms (get key m)) m),
  )

  failures-other :
      (cfg : LockoutConfig) (fs : List Failure) (m : Store)
      → get other (record_failures cfg key fs m) ≡ get other m
  failures-other cfg [] m = refl
  failures-other cfg (f ∷ fs) m =
      failures-other cfg fs (record_failure cfg key f m) ∙ failure-other cfg f m

-- A success unlocks its key at once, and failures or a success on one key change nothing for any
-- other key.
pub success_unlocks :
    (cfg : LockoutConfig) (key other : String) (fs : List Failure) (now : ℕ) (m : Store)
    → key ≢ other
    → (check now key (record_success key (record_failures cfg key fs m)) ≡ unlocked)
      × (check now other (record_success key (record_failures cfg key fs m)) ≡ check now other m)
unfolding check record_success
success_unlocks cfg key other fs now m d = (
  ground (arith, get-delete key key (record_failures cfg key fs m), eq_iff key key),
  ground (
    arith,
    d,
    get-delete key other (record_failures cfg key fs m),
    eq_iff key other,
    failures-other key other d cfg fs m,
  ),
)

restarted :
    (cfg : LockoutConfig) (key : String) (f : Failure) (r : LockoutRecord) (m : Store)
    → get key m ≡ some r
    → r.window_started_at + cfg.window_ms < f.at
    → get key (record_failure cfg key f m) ≡ some (first_record cfg key f)
unfolding record_failure first_record
restarted cfg key f r m e w = ground (
  arith,
  e,
  w,
  get-set key key (counted f.at key cfg.window_ms (some r)) m,
  get-set key key (first_record cfg key f) (set key (counted f.at key cfg.window_ms (some r)) m),
  eq_iff key key,
)

-- A failure after the window's end starts a new count and forgets the lock that was set, also one
-- that has not run out: with a maximum of at least two the key is unlocked after it.
pub expired_window_unlocks :
    (cfg : LockoutConfig) (key : String) (now : ℕ) (f : Failure) (r : LockoutRecord) (m : Store)
    → 2 ≤ cfg.max_attempts
    → get key m ≡ some r
    → r.window_started_at + cfg.window_ms < f.at
    → check now key (record_failure cfg key f m) ≡ unlocked
unfolding check first_record
expired_window_unlocks cfg key now f r m two e w = rw (restarted cfg key f r m e w) (ground arith)
