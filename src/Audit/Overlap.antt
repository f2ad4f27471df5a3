-- ===== src/Audit/Overlap.antt =====
-- Appends that break the chain of their own writer, without any change of the log.
use absolute_auth.Prelude.{
  ◌≡◌, ◌≢◌, ◌∙◌, sym, inl, String, true, false, some, none, [], ◌∷◌, List, string_eq,
}
use absolute_auth.JsMap.{get, set}
use absolute_auth.Audit.{
  AuditEvent, Digest, broken_at, hash_audit_event, verify_audit_chain, fresh_writer, begin_append,
  finish_append, linked, head_of, chain_of, AuditIntegrity,
}
use absolute_auth.Audit.Chain.{taken, verify-linked, read-linked, link_at}
use absolute_auth.Audit.Tamper.{broken, head_of-set}

-- The log of two appends of one sink, the second of which begins before the first has ended.
abbrev pub overlapped : Digest → String → AuditEvent → AuditEvent → List AuditEvent
overlapped prim w e f =
    let (p, s1) = begin_append fresh_writer (record { writer_id = w; last_hash = none }) in
    let (q, s2) = begin_append fresh_writer s1 in
    let (first, s3) = finish_append prim true p e s2 in
    let (second, s4) = finish_append prim true q f s3 in taken first (taken second [])

-- The log of two appends of one sink, one after the other, the first of which the inner sink refused.
abbrev pub refused : Digest → String → AuditEvent → AuditEvent → List AuditEvent
refused prim w e f =
    let (p, s1) = begin_append fresh_writer (record { writer_id = w; last_hash = none }) in
    let (first, s2) = finish_append prim false p e s1 in
    let (q, s3) = begin_append fresh_writer s2 in
    let (second, s4) = finish_append prim true q f s3 in taken first (taken second [])

-- Two appends of one fresh sink break its chain where the second begins before the first has ended, at
-- the second event, and where the inner sink refuses the first event, at the event after it, with no
-- change of the log by anyone. The hash of the first event is assumed not to be the empty text.
pub unchained_appends_break :
    (prim : Digest) (w : String) (e f : AuditEvent)
    → hash_audit_event prim e "" ≢ ""
    → (verify_audit_chain prim (overlapped prim w e f) ≡ broken_at 1)
      × (verify_audit_chain prim (refused prim w e f) ≡ broken_at 0)
unfolding verify_audit_chain begin_append finish_append linked head_of chain_of get set
unchained_appends_break prim w e f d =
    let h = hash_audit_event prim e "" in
    let second = linked (link_at prim [] w f) f in
    let late : AuditIntegrity = record {
      hash = hash_audit_event prim f h;
      previous_hash = h;
      writer_id = some w;
    } in
    (
      verify-linked prim 0 [] w e (second ∷ [])
          ∙ broken prim 1 (set w h []) second (link_at prim [] w f) []
              (read-linked (hash_audit_event prim f "") "" w f)
              (inl (λ q. d (sym (q ∙ head_of-set prim w h [])))),
      broken prim 0 [] (linked late f) late [] (read-linked late.hash h w f) (inl (λ q. d q)),
    )
