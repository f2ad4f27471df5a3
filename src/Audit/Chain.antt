-- ===== src/Audit/Chain.antt =====
-- Logs that the linking sinks write pass the check.
use Prim.Native.String.{◌++◌ as join_text}
use absolute_auth.Prelude.{
  ℕ, String, ◌≡◌, refl, ap, ◌∙◌, true, Option, none, some, List, [], ◌∷◌, ◌+◌, string_eq, eq_iff,
  arith, if◌then◌else◌, ◌==◌, Bool-cases, Option-cases, inl, inr,
}
use absolute_auth.JsMap.{JsMap, get, set, delete}
use absolute_auth.JsMap.Laws.{get-set, get-delete}
use absolute_auth.Json.{Json, Claims, without_keys}
use absolute_auth.Audit.{
  AuditEvent, Digest, AuditIntegrity, chain_ok, broken_at, integrity_key, clean_metadata,
  read_integrity, hash_audit_event, verify_from, verify_audit_chain, linked, begin_append,
  finish_append, Writer, fresh_writer, seeded, seed, link_holds, chain_of, head_of, or_empty,
  link_json, unless_empty, hash_of, or_genesis, read_raw,
}

-- What the sinks of several writers do, in the order in which it happens: an append begins, or ends
-- after its wait, when the log takes the event.
pub data Action : Type 0 where
  begins : (writer_id : String) (event : AuditEvent) → Action
  ends : (writer_id : String) → Action

-- A fresh writer with the last hash that is known of it.
abbrev pub writer_at : JsMap String → String → Writer
writer_at heads w = record { writer_id = w; last_hash = get w heads }

abbrev pub begun : JsMap String → String → String
begun heads w = (begin_append fresh_writer (writer_at heads w)).0

abbrev pub taken : Option AuditEvent → List AuditEvent → List AuditEvent
taken none log = log
taken (some e) log = e ∷ log

-- The end of an append that has begun: what the log takes, and the last hashes.
abbrev pub ended :
    Digest → JsMap String → String → Option (String × AuditEvent) → Option AuditEvent × JsMap String
ended prim heads w none = (none, heads)
ended prim heads w (some (previous, e)) =
    let (stored, after) = finish_append prim true previous e (writer_at heads w) in
    (stored, set w (or_genesis after.last_hash) heads)

-- The log that they write, from the last hash of each writer and its append that has begun.
abbrev pub logged :
    Digest → JsMap String → JsMap (String × AuditEvent) → List Action → List AuditEvent
logged prim heads pending [] = []
logged prim heads pending (begins w e ∷ rest) =
    logged prim heads (set w (begun heads w, e) pending) rest
logged prim heads pending (ends w ∷ rest) =
    let (stored, heads') = ended prim heads w (get w pending) in
    taken stored (logged prim heads' (delete w pending) rest)

-- No append of a writer begins while another of its own has not ended.
abbrev pub OneAtATime : JsMap AuditEvent → List Action → Type 0
OneAtATime open_appends [] = Unit
OneAtATime open_appends (begins w e ∷ rest) =
    (get w open_appends ≡ none) × OneAtATime (set w e open_appends) rest
OneAtATime open_appends (ends w ∷ rest) = OneAtATime (delete w open_appends) rest

without-set :
    (v : Json) (c : Claims)
    → without_keys (integrity_key ∷ []) (set integrity_key v c)
      ≡ without_keys (integrity_key ∷ []) c
unfolding without_keys set
without-set v [] = refl
without-set v ((k, w) ∷ c) =
    ground (arith, without-set v c, eq_iff k integrity_key, eq_iff integrity_key k)

cleaned :
    (i : AuditIntegrity) (o : Option Claims)
    → clean_metadata (some (set integrity_key (link_json i) (or_empty o))) ≡ clean_metadata o
unfolding clean_metadata without_keys set
cleaned i none = refl
cleaned i (some c) = ap unless_empty (without-set (link_json i) c)

-- The link leaves no trace in what is hashed.
hash-linked :
    (prim : Digest) (i : AuditIntegrity) (e : AuditEvent) (previous : String)
    → hash_audit_event prim (linked i e) previous ≡ hash_audit_event prim e previous
unfolding hash_audit_event linked
hash-linked prim i e previous =
    ap
      (λ m.
        prim.digest
          (join_text previous (join_text "." (prim.stable_stringify (record e { metadata = m })))))
      (cleaned i e.metadata)

pub read-linked :
    (hash previous w : String) (e : AuditEvent)
    → read_integrity
        (linked (record { hash = hash; previous_hash = previous; writer_id = some w }) e)
      ≡ some (record { hash = hash; previous_hash = previous; writer_id = some w })
unfolding read_integrity linked
read-linked hash previous w e = ap read_raw (
    get-set integrity_key integrity_key
      (link_json (record { hash = hash; previous_hash = previous; writer_id = some w }))
      (or_empty e.metadata))

self_link :
    (hash previous : String) (w : String)
    → link_holds
        (some (record { hash = hash; previous_hash = previous; writer_id = some w }))
        previous
        hash
      ≡ true
unfolding link_holds
self_link hash previous w = ground (arith, eq_iff hash hash, eq_iff previous previous)

-- One checked event.
pub verify-cons :
    (prim : Digest) (n : ℕ) (heads : JsMap String) (e : AuditEvent) (i : AuditIntegrity)
    (rest : List AuditEvent)
    → read_integrity e ≡ some i
    → verify_from prim n heads (e ∷ rest) ≡ (
        if link_holds
          (some i)
          (head_of (chain_of (some i)) heads)
          (hash_audit_event prim e (head_of (chain_of (some i)) heads))
        then verify_from prim (n + 1) (set (chain_of (some i)) i.hash heads) rest
        else broken_at n)
unfolding verify_from hash_of
verify-cons prim n heads e i rest r = rw (r, verify_from) refl

abbrev pub link_at : Digest → JsMap String → String → AuditEvent → AuditIntegrity
link_at prim heads w e = record {
  hash = hash_audit_event prim e (head_of w heads);
  previous_hash = head_of w heads;
  writer_id = some w;
}

pub verify-linked :
    (prim : Digest) (n : ℕ) (heads : JsMap String) (w : String) (e : AuditEvent)
    (rest : List AuditEvent)
    → verify_from prim n heads (linked (link_at prim heads w e) e ∷ rest)
      ≡ verify_from prim (n + 1) (set w (hash_audit_event prim e (head_of w heads)) heads) rest
unfolding chain_of
verify-linked prim n heads w e rest =
    verify-cons prim n heads (linked (link_at prim heads w e) e) (link_at prim heads w e) rest
      (read-linked (hash_audit_event prim e (head_of w heads)) (head_of w heads) w e)
    ∙ rw
        (
          hash-linked prim (link_at prim heads w e) e (head_of w heads),
          self_link (hash_audit_event prim e (head_of w heads)) (head_of w heads) w,
        )
        refl

start_at :
    (w : String) (o : Option String)
    → seeded fresh_writer (record { writer_id = w; last_hash = o }) ≡ or_genesis o
unfolding seeded seed
start_at w none = refl
start_at w (some h) = refl

begun-head : (heads : JsMap String) (w : String) → begun heads w ≡ head_of w heads
unfolding begin_append head_of
begun-head heads w = start_at w (get w heads)

-- Every append that has begun read the last hash of its writer.
abbrev IsCurrent : JsMap String → JsMap (String × AuditEvent) → Type 0
IsCurrent heads pending =
    (k previous : String) (e : AuditEvent)
    → get k pending ≡ some (previous, e)
    → previous ≡ head_of k heads

abbrev AreOpen : JsMap (String × AuditEvent) → JsMap AuditEvent → Type 0
AreOpen pending open_appends = (k : String) → get k open_appends ≡ none → get k pending ≡ none

begins-IsCurrent :
    (heads : JsMap String) (pending : JsMap (String × AuditEvent)) (w : String) (e : AuditEvent)
    → IsCurrent heads pending
    → IsCurrent heads (set w (begun heads w, e) pending)
begins-IsCurrent heads pending w e c k previous f h = elim (Bool-cases (w == k)) [
  | inl q ↦
      let same : w ≡ k = (eq_iff w k).0 q in
      rw⁻¹ same (ground (arith, h, q, get-set w k (begun heads w, e) pending, begun-head heads w))
  | inr q ↦ c k previous f (ground (arith, h, q, get-set w k (begun heads w, e) pending))
]

begins-AreOpen :
    (pending : JsMap (String × AuditEvent)) (open_appends : JsMap AuditEvent) (w : String)
    (e : AuditEvent) (x : String × AuditEvent)
    → AreOpen pending open_appends
    → AreOpen (set w x pending) (set w e open_appends)
begins-AreOpen pending open_appends w e x o k h =
    ground (arith, h, o k, get-set w k x pending, get-set w k e open_appends)

ends-AreOpen :
    (pending : JsMap (String × AuditEvent)) (open_appends : JsMap AuditEvent) (w : String)
    → AreOpen pending open_appends
    → AreOpen (delete w pending) (delete w open_appends)
ends-AreOpen pending open_appends w o k h =
    ground (arith, h, o k, get-delete w k pending, get-delete w k open_appends)

ends-IsCurrent :
    (heads : JsMap String) (pending : JsMap (String × AuditEvent)) (w hash : String)
    → IsCurrent heads pending
    → IsCurrent (set w hash heads) (delete w pending)
unfolding head_of
ends-IsCurrent heads pending w hash c k previous f h =
    ground (arith, h, c k previous f, get-delete w k pending, get-set w k hash heads)

nothing-IsCurrent :
    (heads : JsMap String) (pending : JsMap (String × AuditEvent)) (w : String)
    → IsCurrent heads pending
    → IsCurrent heads (delete w pending)
nothing-IsCurrent heads pending w c k previous f h =
    ground (arith, h, c k previous f, get-delete w k pending)

logged_pass :
    (prim : Digest) (n : ℕ) (heads : JsMap String) (pending : JsMap (String × AuditEvent))
    (open_appends : JsMap AuditEvent) (actions : List Action)
    → IsCurrent heads pending
    → AreOpen pending open_appends
    → OneAtATime open_appends actions
    → verify_from prim n heads (logged prim heads pending actions) ≡ chain_ok
unfolding verify_from finish_append linked
logged_pass prim n heads pending open_appends [] c o a = refl
logged_pass prim n heads pending open_appends (begins w e ∷ rest) c o a =
    logged_pass prim n heads (set w (begun heads w, e) pending) (set w e open_appends) rest
      (begins-IsCurrent heads pending w e c)
      (begins-AreOpen pending open_appends w e (begun heads w, e) o) a.1
logged_pass prim n heads pending open_appends (ends w ∷ rest) c o a =
    elim (Option-cases (get w pending)) [
      | inl e ↦ rw e (
          logged_pass prim n heads (delete w pending) (delete w open_appends) rest
            (nothing-IsCurrent heads pending w c) (ends-AreOpen pending open_appends w o) a)
      | inr ((previous, f), e) ↦
          rw (e, c w previous f e)
            (verify-linked prim n heads w f _
              ∙ logged_pass prim (n + 1) (set w (hash_audit_event prim f (head_of w heads)) heads)
                  (delete w pending) (delete w open_appends) rest
                  (ends-IsCurrent heads pending w (hash_audit_event prim f (head_of w heads)) c)
                  (ends-AreOpen pending open_appends w o) a)
    ]

-- Whatever events the sinks of several fresh writers append, and in whatever order the beginnings and
-- the ends of their appends interleave, the log passes the check, where no append of a writer begins
-- before its last one has ended and the inner sink takes every event.
pub appended_log_verifies :
    (prim : Digest) (actions : List Action)
    → OneAtATime [] actions
    → verify_audit_chain prim (logged prim [] [] actions) ≡ chain_ok
unfolding verify_audit_chain get
appended_log_verifies prim actions a =
    logged_pass prim 0 [] [] [] actions (λ k previous e h. absurd (ground (arith, h))) (λ k h. refl)
      a
