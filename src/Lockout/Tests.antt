-- ===== src/Lockout/Tests.antt =====
-- Runs of the guard.
use absolute_auth.Prelude.{String, ◌≡◌, ◌≢◌, refl, some, [], ◌∷◌, arith, eq_iff}
use absolute_auth.JsMap.{get}
use absolute_auth.Lockout.{
  LockoutConfig, LockoutRecord, Failure, record_failure, check, unlocked, locked,
}
use absolute_auth.Lockout.Laws.{record_failures, lockout_threshold, expired_window_unlocks}

abbrev cfg : LockoutConfig
cfg = record { lockout_ms = 1000; max_attempts = 2; window_ms = 100 }

abbrev first : Failure
first = record { at = 10; locked_at = 11 }

abbrev second : Failure
second = record { at = 60; locked_at = 61 }

abbrev late : Failure
late = record { at = 500; locked_at = 501 }

lockout_threshold_example :
    check 70 "alice" (record_failures cfg "alice" (first ∷ second ∷ []) []) ≡ locked 991
unfolding get
lockout_threshold_example =
    lockout_threshold cfg "alice" 70 first (second ∷ []) [] refl (omega arith, tt)

other_user : ◌≢◌ {A = String} "alice" "bob"
other_user = ground (arith, eq_iff "alice" "bob")

abbrev locked_record : LockoutRecord
locked_record = record {
  failed_attempts = 2;
  key = "alice";
  locked_until = some 1061;
  window_started_at = 10;
}

expired_window_unlocks_example :
    check 600 "alice" (record_failure cfg "alice" late (("alice", locked_record) ∷ [])) ≡ unlocked
unfolding get
expired_window_unlocks_example =
    expired_window_unlocks cfg "alice" 600 late locked_record (("alice", locked_record) ∷ [])
      (omega arith) refl (omega arith)
