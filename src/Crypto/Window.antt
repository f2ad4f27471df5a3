-- ===== src/Crypto/Window.antt =====
-- What constantTimeEqual and verifyTotp accept (src/crypto.ts).
use Prim.Native.Nat.{bit_xor, bit_or}
use absolute_auth.Prelude.{
  ℕ, zero, suc, ◌+◌, ◌-◌, ◌/◌, ◌^◌, ◌∙◌, ◌*◌, ◌<◌, ◌≤◌, String, Bool, true, false, ◌&&◌, ◌≡◌, refl,
  List, [], ◌∷◌, map, ◌==◌, nat_eq, length, All, any, arith, nat_beq_iff, ◌↔◌, inl, inr, Bool-cases,
  ltb,
}
use absolute_auth.Crypto.Laws.{all_below, all_below_sound}
use absolute_auth.Crypto.Base32.{base32_decode}
use absolute_auth.Crypto.Totp.{
  Runtime, constant_time_equal, mismatch_from, verify_totp, generate_hotp, drift, offsets_from,
  counter_at,
}

agree : Bool → Bool → Bool
agree true b = b
agree false true = false
agree false false = true

abbrev xor_fits : ℕ → ℕ → Bool
xor_fits a b = agree (bit_xor a b == 0) (a == b) && ltb (bit_xor a b) 256

abbrev or_fits : ℕ → ℕ → Bool
or_fits a b = agree (bit_or a b == 0) (a == 0 && b == 0) && ltb (bit_or a b) 256

xor_table : all_below 256 (λ a. all_below 256 (xor_fits a)) ≡ true
unfolding all_below agree
xor_table = refl

or_table : all_below 256 (λ a. all_below 256 (or_fits a)) ≡ true
unfolding all_below agree
or_table = refl

at_pair :
    (p : ℕ → ℕ → Bool) (a b : ℕ)
    → all_below 256 (λ x. all_below 256 (p x)) ≡ true
    → a < 256
    → b < 256
    → p a b ≡ true
at_pair p a b h la lb =
    all_below_sound 256 (p a) b (all_below_sound 256 (λ x. all_below 256 (p x)) a h la) lb

xor_zero : (a b : ℕ) → a < 256 → b < 256 → ((bit_xor a b ≡ 0) ↔ (a ≡ b)) × (bit_xor a b < 256)
unfolding agree
xor_zero a b la lb = ground (arith, at_pair xor_fits a b xor_table la lb)

or_zero :
    (a b : ℕ) → a < 256 → b < 256 → ((bit_or a b ≡ 0) ↔ ((a ≡ 0) × (b ≡ 0))) × (bit_or a b < 256)
unfolding agree
or_zero a b la lb = ground (arith, at_pair or_fits a b or_table la lb)

abbrev Bytes : List ℕ → Type 0
Bytes = All (λ b. b < 256)

mismatch-zero :
    (m : ℕ) (ls rs : List ℕ)
    → m < 256
    → Bytes ls
    → Bytes rs
    → length ls ≡ length rs
    → (mismatch_from m ls rs ≡ 0) ↔ ((m ≡ 0) × (ls ≡ rs))
unfolding mismatch_from
mismatch-zero m [] [] h p q e = ground arith
mismatch-zero m [] (r ∷ rs) h p q e = absurd (omega arith)
mismatch-zero m (l ∷ ls) [] h p q e = absurd (omega arith)
mismatch-zero m (l ∷ ls) (r ∷ rs) h p q e =
    let x = xor_zero l r p.0 q.0 in
    let o = or_zero m (bit_xor l r) h x.1 in
    let rest = mismatch-zero (bit_or m (bit_xor l r)) ls rs o.1 p.1 q.1 (omega arith) in
    ground (arith, x, o, rest)

-- What SHA-256 returns: bytes, and always as many.
pub record IsDigest (sha : String → List ℕ) : Type 0 where
  pub bytes : (t : String) → All (λ b. b < 256) (sha t)
  pub size : (t u : String) → length (sha t) ≡ length (sha u)

-- The comparison that looks at every byte returns true exactly for texts of one digest.
pub constant_time_equal_iff :
    (runtime : Runtime) (left right : String)
    → IsDigest runtime.sha256
    → (constant_time_equal runtime left right ≡ true) ↔ (runtime.sha256 left ≡ runtime.sha256 right)
unfolding constant_time_equal
constant_time_equal_iff runtime left right d = ground (
  arith,
  mismatch-zero 0 (runtime.sha256 left) (runtime.sha256 right) (omega arith) (d.bytes left)
      (d.bytes right) (d.size left right),
)

-- The code of one step of the clock, as verifyTotp computes it.
abbrev pub code_at : Runtime → ℕ → ℕ → ℕ → String → ℕ → ℕ → String
code_at runtime digits now period secret window offset =
    generate_hotp runtime (base32_decode runtime.to_upper_case secret)
      (drift (counter_at now period) window offset) digits

module _ (runtime : Runtime) (d : IsDigest runtime.sha256) (digits now period : ℕ)
    (secret token : String) (window : ℕ) where
  abbrev SameCode : ℕ → Type 0
  SameCode offset =
      runtime.sha256 (code_at runtime digits now period secret window offset) ≡ runtime.sha256 token

  SameCode-iff :
      (offset : ℕ)
      → (constant_time_equal runtime (code_at runtime digits now period secret window offset) token
          ≡ true)
        ↔ SameCode offset
  SameCode-iff offset =
      constant_time_equal_iff runtime (code_at runtime digits now period secret window offset) token
        d

  -- The test over the steps from an offset on.
  abbrev accepted : ℕ → ℕ → Bool
  accepted first n =
      any (λ candidate. constant_time_equal runtime candidate token)
        (map
          (λ value. generate_hotp runtime (base32_decode runtime.to_upper_case secret) value digits)
          (map (drift (counter_at now period) window) (offsets_from first n)))

  accepted-some :
      (first n : ℕ)
      → accepted first n ≡ true
      → (offset : ℕ) × ((first ≤ offset) × (offset < first + n)) × SameCode offset
  unfolding offsets_from
  accepted-some first zero h = absurd (ground (arith, h))
  accepted-some first (suc n) h =
      elim (Bool-cases (
        constant_time_equal runtime (code_at runtime digits now period secret window first)
          token)) [
            | inl e ↦ (first, (omega arith, omega arith), (SameCode-iff first).0 e)
            | inr e ↦
                let (offset, (low, high), same) =
                  accepted-some (first + 1) n (ground (arith, h, e)) in
                (offset, (omega arith, omega arith), same)
          ]

  some-accepted :
      (first n offset : ℕ)
      → first ≤ offset
      → offset < first + n
      → SameCode offset
      → accepted first n ≡ true
  unfolding offsets_from
  some-accepted first zero offset l r e = absurd (omega arith)
  some-accepted first (suc n) offset l r e = elim (Bool-cases (first == offset)) [
    | inl q ↦
        let same : first ≡ offset = (nat_beq_iff first offset).0 q in
        ground (arith, (SameCode-iff first).1 (rw same e))
    | inr q ↦ ground (arith, some-accepted (first + 1) n offset (ground arith) (omega arith) e)
  ]

-- Counted from the start of the window, a step is the counter that is written for it.
drift-step :
    (counter window offset : ℕ)
    → window ≤ counter
    → counter + offset < 2 ^ 64
    → drift counter window offset ≡ counter + offset - window
unfolding drift
drift-step counter window offset l u = omega arith

-- A code is accepted exactly if its digest is that of the code of a step at most `window` before or
-- after the current step, the number of whole periods of seconds since the epoch. The window lies
-- within the 64-bit counters, and SHA-256 is assumed to return bytes, always as many.
pub verify_totp_iff :
    (runtime : Runtime) (digits now period : ℕ) (secret token : String) (window : ℕ)
    → IsDigest runtime.sha256
    → window ≤ now / 1000 / period
    → now / 1000 / period + 2 * window < 2 ^ 64
    → (verify_totp runtime digits now period secret token window ≡ true) ↔ (
        (step : ℕ) × (now / 1000 / period ≤ step + window)
        × (step ≤ now / 1000 / period + window)
        × (runtime.sha256
              (generate_hotp runtime (base32_decode runtime.to_upper_case secret) step digits)
            ≡ runtime.sha256 token))
unfolding verify_totp counter_at
verify_totp_iff runtime digits now period secret token window d low high = (
  λ h.
      let (offset, (l, u), same) =
        accepted-some runtime d digits now period secret token window 0 (window * 2 + 1) h in
      (
        now / 1000 / period + offset - window,
        omega arith,
        omega arith,
        rw (drift-step (now / 1000 / period) window offset low (omega arith)) at same,
      ),
  λ (step, l, u, same).
      let offset = step + window - now / 1000 / period in
      let back : drift (now / 1000 / period) window offset ≡ step =
        drift-step (now / 1000 / period) window offset low (omega arith) ∙ omega arith in
      some-accepted runtime d digits now period secret token window 0 (window * 2 + 1) offset
        (omega arith) (omega arith) (rw back same),
)
