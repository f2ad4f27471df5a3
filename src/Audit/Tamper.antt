-- ===== src/Audit/Tamper.antt =====
-- A changed or removed event fails the check.
use absolute_auth.Prelude.{
  ℕ, String, ◌≡◌, ◌≢◌, ◌⊎◌, refl, ap, sym, ◌∙◌, some, List, [], ◌∷◌, ◌++◌, ◌+◌, string_eq, eq_iff,
  arith, length, inl, inr, All,
}
use absolute_auth.JsMap.{JsMap, get, set}
use absolute_auth.JsMap.Laws.{get-set}
use absolute_auth.Audit.{
  AuditEvent, Digest, AuditIntegrity, chain_ok, broken_at, read_integrity, hash_audit_event,
  verify_from, verify_audit_chain, link_holds, chain_of, head_of, hash_of, or_genesis,
}
use absolute_auth.Audit.Chain.{verify-cons}

-- The heads after the events of a log.
heads_after : JsMap String → List AuditEvent → JsMap String
heads_after heads [] = heads
heads_after heads (e ∷ rest) =
    heads_after (set (chain_of (read_integrity e)) (hash_of (read_integrity e)) heads) rest

heads-Agree :
    (k : String) (heads heads' : JsMap String)
    → get k heads' ≡ get k heads
    → head_of k heads' ≡ head_of k heads
unfolding head_of
heads-Agree k heads heads' e = ap or_genesis e

module _ (prim : Digest) where
  prefix_ok :
      (n : ℕ) (heads : JsMap String) (before after : List AuditEvent)
      → verify_from prim n heads (before ++ after) ≡ chain_ok
      → verify_from prim n heads before ≡ chain_ok
  unfolding verify_from
  prefix_ok n heads [] after h = refl
  prefix_ok n heads (e ∷ before) after h = ground (
    arith,
    h,
    prefix_ok (n + 1) (set (chain_of (read_integrity e)) (hash_of (read_integrity e)) heads) before
        after,
  )

  verify-append :
      (n : ℕ) (heads : JsMap String) (before after : List AuditEvent)
      → verify_from prim n heads before ≡ chain_ok
      → verify_from prim n heads (before ++ after)
        ≡ verify_from prim (n + length before) (heads_after heads before) after
  unfolding verify_from heads_after
  verify-append n heads [] after h = ground arith
  verify-append n heads (e ∷ before) after h = ground (
    arith,
    h,
    verify-append (n + 1) (set (chain_of (read_integrity e)) (hash_of (read_integrity e)) heads)
        before after,
  )

  -- What holds of an event that passes, and of the rest.
  passed :
      (n : ℕ) (heads : JsMap String) (e : AuditEvent) (i : AuditIntegrity) (rest : List AuditEvent)
      → read_integrity e ≡ some i
      → verify_from prim n heads (e ∷ rest) ≡ chain_ok
      → (i.previous_hash ≡ head_of (chain_of (some i)) heads)
        × (i.hash ≡ hash_audit_event prim e (head_of (chain_of (some i)) heads))
        × (verify_from prim (n + 1) (set (chain_of (some i)) i.hash heads) rest ≡ chain_ok)
  unfolding link_holds
  passed n heads e i rest r h = ground (
    arith,
    h,
    verify-cons prim n heads e i rest r,
    eq_iff i.previous_hash (head_of (chain_of (some i)) heads),
    eq_iff i.hash (hash_audit_event prim e (head_of (chain_of (some i)) heads)),
  )

  pub broken :
      (n : ℕ) (heads : JsMap String) (e : AuditEvent) (i : AuditIntegrity) (rest : List AuditEvent)
      → read_integrity e ≡ some i
      → ((i.previous_hash ≢ head_of (chain_of (some i)) heads)
          ⊎ (i.hash ≢ hash_audit_event prim e (head_of (chain_of (some i)) heads)))
      → verify_from prim n heads (e ∷ rest) ≡ broken_at n
  unfolding link_holds
  broken n heads e i rest r h = ground (
    arith,
    h,
    verify-cons prim n heads e i rest r,
    eq_iff i.previous_hash (head_of (chain_of (some i)) heads),
    eq_iff i.hash (hash_audit_event prim e (head_of (chain_of (some i)) heads)),
  )

  at_suffix :
      (before after : List AuditEvent)
      → verify_audit_chain prim (before ++ after) ≡ chain_ok
      → (rest : List AuditEvent)
      → verify_audit_chain prim (before ++ rest)
        ≡ verify_from prim (length before) (heads_after [] before) rest
  unfolding verify_audit_chain
  at_suffix before after h rest =
      verify-append 0 [] before rest (prefix_ok 0 [] before after h)
      ∙ ap (λ n. verify_from prim n (heads_after [] before) rest) (omega arith)

  -- An event whose content was changed under its stored link is found: in place of an event of a log
  -- that passes, an event with the same link whose digest differs breaks the log at that index,
  -- whatever comes after it.
  pub modified_event_detected :
      (before after after' : List AuditEvent) (e f : AuditEvent) (i : AuditIntegrity)
      → verify_audit_chain prim (before ++ e ∷ after) ≡ chain_ok
      → read_integrity e ≡ some i
      → read_integrity f ≡ some i
      → hash_audit_event prim f i.previous_hash ≢ hash_audit_event prim e i.previous_hash
      → verify_audit_chain prim (before ++ f ∷ after') ≡ broken_at (length before)
  modified_event_detected before after after' e f i h re rf differs =
      let heads = heads_after [] before in
      let (previous, hash, _) =
        passed (length before) heads e i after re
          (sym (at_suffix before (e ∷ after) h (e ∷ after)) ∙ h) in
      at_suffix before (e ∷ after) h (f ∷ after')
      ∙ broken (length before) heads f i after' rf
          (inr (λ same. differs (rw (previous) (sym same ∙ hash))))

  -- Events of other chains than one.
  abbrev pub Others : String → List AuditEvent → Type 0
  Others chain = All (λ e. chain_of (read_integrity e) ≢ chain)

  -- Two maps of heads that differ at most at one chain.
  abbrev Agree : String → JsMap String → JsMap String → Type 0
  Agree chain heads heads' = (k : String) → k ≢ chain → get k heads ≡ get k heads'

  Agree-set :
      (chain k hash : String) (heads heads' : JsMap String)
      → Agree chain heads heads'
      → Agree chain (set k hash heads) (set k hash heads')
  Agree-set chain k hash heads heads' a j d =
      ground (arith, a j d, get-set k j hash heads, get-set k j hash heads')

  Agree-removed :
      (chain hash : String) (heads : JsMap String) → Agree chain (set chain hash heads) heads
  Agree-removed chain hash heads k d = ground (arith, d, get-set chain k hash heads, eq_iff chain k)

  -- What other chains check does not depend on the head of one.
  Others-verify_from :
      (n m : ℕ) (chain : String) (heads heads' : JsMap String) (between : List AuditEvent)
      → Agree chain heads heads'
      → Others chain between
      → verify_from prim n heads between ≡ chain_ok
      → verify_from prim m heads' between ≡ chain_ok
  unfolding verify_from
  Others-verify_from n m chain heads heads' [] a d h = refl
  Others-verify_from n m chain heads heads' (e ∷ between) a d h =
      let k = chain_of (read_integrity e) in
      let hash = hash_of (read_integrity e) in
      let same : head_of k heads' ≡ head_of k heads = heads-Agree k heads heads' (sym (a k d.0)) in
      let rest =
        Others-verify_from (n + 1) (m + 1) chain (set k hash heads) (set k hash heads') between
          (Agree-set chain k hash heads heads' a) d.1 in
      rw same (ground (arith, h, rest))

  -- The head of a chain after events of others.
  head_of-Others :
      (chain : String) (heads : JsMap String) (between : List AuditEvent)
      → Others chain between
      → head_of chain (heads_after heads between) ≡ head_of chain heads
  unfolding heads_after
  head_of-Others chain heads [] d = refl
  head_of-Others chain heads (e ∷ between) d =
      let k = chain_of (read_integrity e) in
      let hash = hash_of (read_integrity e) in
      head_of-Others chain (set k hash heads) between d.1
      ∙ heads-Agree chain heads (set k hash heads)
          (ground (arith, d.0, get-set k chain hash heads, eq_iff k chain))

  pub head_of-set :
      (chain hash : String) (heads : JsMap String) → head_of chain (set chain hash heads) ≡ hash
  unfolding head_of
  head_of-set chain hash heads =
      ap or_genesis (get-set chain chain hash heads) ∙ ground (arith, eq_iff chain chain)

  -- An event that was taken out is found where another event of its chain comes after it: whatever
  -- events of other chains stand between the two, the log breaks at the later one. The removed event's
  -- hash is assumed to differ from the hash before it.
  pub removed_event_detected :
      (before between after : List AuditEvent) (e f : AuditEvent) (i j : AuditIntegrity)
      → verify_audit_chain prim (before ++ (e ∷ (between ++ (f ∷ after)))) ≡ chain_ok
      → read_integrity e ≡ some i
      → read_integrity f ≡ some j
      → i.writer_id ≡ j.writer_id
      → Others (or_genesis i.writer_id) between
      → i.hash ≢ i.previous_hash
      → verify_audit_chain prim (before ++ (between ++ (f ∷ after)))
        ≡ broken_at (length before + length between)
  unfolding chain_of
  removed_event_detected before between after e f i j h re rf same others moved =
      let chain = or_genesis i.writer_id in
      let heads = heads_after [] before in
      let heads' = set chain i.hash heads in
      let n = length before in
      let (previous, _, rest) = passed n heads e i (between ++ (f ∷ after)) re (
        sym (at_suffix before (e ∷ (between ++ (f ∷ after))) h (e ∷ (between ++ (f ∷ after))))
        ∙ h) in
      let between_ok = prefix_ok (n + 1) heads' between (f ∷ after) rest in
      let (next, _, _) =
        passed (n + 1 + length between) (heads_after heads' between) f j after rf
          (sym (verify-append (n + 1) heads' between (f ∷ after) between_ok) ∙ rest) in
      let still_ok =
        Others-verify_from (n + 1) n chain heads' heads between (Agree-removed chain i.hash heads)
          others between_ok in
      at_suffix before (e ∷ (between ++ (f ∷ after))) h (between ++ (f ∷ after))
      ∙ verify-append n heads between (f ∷ after) still_ok
      ∙ broken (n + length between) (heads_after heads between) f j after rf (
          inl (λ q. moved (
            sym (
              next
              ∙ ap (λ w. head_of (or_genesis w) (heads_after heads' between)) (sym same)
              ∙ head_of-Others chain heads' between others
              ∙ head_of-set chain i.hash heads)
            ∙ q
            ∙ ap (λ w. head_of (or_genesis w) (heads_after heads between)) (sym same)
            ∙ head_of-Others chain heads between others
            ∙ sym previous)))
