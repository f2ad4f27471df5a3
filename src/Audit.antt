-- ===== src/Audit.antt =====
-- The hash chain over the audit log (src/audit/integrity.ts): the sink that links events, and the
-- check of a log.
pub mod Chain
pub mod Tamper
pub mod Overlap
mod Tests
use Prim.Native.String.{◌++◌}
use absolute_auth.Prelude.{
  ℕ, String, Bool, true, false, Option, none, some, List, [], ◌∷◌, ◌+◌, ◌-◌, ◌==◌, ◌&&◌, string_eq,
  option_string_eq, length, leb, if◌then◌else◌, find,
}
use absolute_auth.JsMap.{JsMap, get, set}
use absolute_auth.Json.{
  Json, null, bool, num, str, arr, obj, Fields, end, field, Claims, without_keys, as_string,
}

pub record AuditEvent : Type 0 where
  pub at : ℕ
  pub ip : Option String
  pub metadata : Option Claims
  pub organization_id : Option String
  pub type : String
  pub user_id : Option String

-- SHA-256, or HMAC-SHA-256 under the configured secret, in hexadecimal; and the JSON text of an
-- event with the keys of each object sorted.
pub record Digest : Type 0 where
  pub digest : String → String
  pub stable_stringify : AuditEvent → String

abbrev pub integrity_key : String
integrity_key = "__integrity"

abbrev pub genesis : String
genesis = ""

pub record AuditIntegrity : Type 0 where
  pub hash : String
  pub previous_hash : String
  pub writer_id : Option String

pub data AuditChainResult : Type 0 where
  chain_ok : AuditChainResult
  broken_at : ℕ → AuditChainResult

unfoldable pub unless_empty : Claims → Option Claims
unless_empty [] = none
unless_empty (f ∷ rest) = some (f ∷ rest)

unfoldable pub clean_metadata : Option Claims → Option Claims
unfolding unless_empty
clean_metadata none = none
clean_metadata (some c) = unless_empty (without_keys (integrity_key ∷ []) c)

-- Reflect.get on an object
get_field : String → Fields → Option Json
get_field k end = none
get_field k (field j v rest) = if j == k then some v else get_field k rest

-- The writer id, where it is absent or a string.
optional_writer : Option Json → Option (Option String)
optional_writer none = some none
optional_writer (some null) = none
optional_writer (some (bool b)) = none
optional_writer (some (num n)) = none
optional_writer (some (str s)) = some (some s)
optional_writer (some (arr xs)) = none
optional_writer (some (obj fs)) = none

read_link : Option String → Option String → Option (Option String) → Option AuditIntegrity
read_link none previous writer = none
read_link (some hash) none writer = none
read_link (some hash) (some previous) none = none
read_link (some hash) (some previous) (some writer) =
    some (record { hash = hash; previous_hash = previous; writer_id = writer })

unfoldable pub read_raw : Option Json → Option AuditIntegrity
unfolding read_link get_field optional_writer as_string
read_raw none = none
read_raw (some null) = none
read_raw (some (bool b)) = none
read_raw (some (num n)) = none
read_raw (some (str s)) = none
read_raw (some (arr xs)) = none
read_raw (some (obj fs)) =
    read_link (as_string (get_field "hash" fs)) (as_string (get_field "previousHash" fs))
      (optional_writer (get_field "writerId" fs))

metadata_value : String → Option Claims → Option Json
metadata_value k none = none
metadata_value k (some c) = get k c

unfoldable pub read_integrity : AuditEvent → Option AuditIntegrity
unfolding read_raw metadata_value
read_integrity event = read_raw (metadata_value integrity_key event.metadata)

-- hashAuditEvent, the choice of SHA-256 or HMAC made in `digest`.
unfoldable pub hash_audit_event : Digest → AuditEvent → String → String
unfolding clean_metadata
hash_audit_event prim event previous_hash = prim.digest (
    previous_hash
    ++ "."
    ++ prim.stable_stringify (record event { metadata = clean_metadata event.metadata }))

unfoldable pub or_genesis : Option String → String
or_genesis none = genesis
or_genesis (some h) = h

unfoldable pub chain_of : Option AuditIntegrity → String
unfolding or_genesis
chain_of none = genesis
chain_of (some i) = or_genesis i.writer_id

unfoldable pub head_of : String → JsMap String → String
unfolding or_genesis
head_of chain heads = or_genesis (get chain heads)

-- integrity !== undefined, with the previous hash of its chain and the hash that is expected.
unfoldable pub link_holds : Option AuditIntegrity → (previous_hash expected : String) → Bool
link_holds none previous expected = false
link_holds (some i) previous expected = i.previous_hash == previous && i.hash == expected

unfoldable pub hash_of : Option AuditIntegrity → String
hash_of none = genesis
hash_of (some i) = i.hash

-- The loop of verifyAuditChain from an index on.
unfoldable pub verify_from : Digest → ℕ → JsMap String → List AuditEvent → AuditChainResult
unfolding read_integrity hash_audit_event chain_of head_of link_holds hash_of
verify_from prim index heads [] = chain_ok
verify_from prim index heads (event ∷ rest) =
    let link = read_integrity event in
    let previous = head_of (chain_of link) heads in
    let later = verify_from prim (index + 1) (set (chain_of link) (hash_of link) heads) rest in
    if link_holds link previous (hash_audit_event prim event previous)
    then later
    else broken_at index

unfoldable pub verify_audit_chain : Digest → List AuditEvent → AuditChainResult
unfolding verify_from
verify_audit_chain prim events = verify_from prim 0 [] events

-- The link that a sink writes into an event's metadata.
abbrev pub link_json : AuditIntegrity → Json
link_json i = obj (
    field "hash" (str i.hash) (
      field "previousHash" (str i.previous_hash)
        (elim i.writer_id [ none ↦ end | some w ↦ field "writerId" (str w) end ])))

abbrev pub or_empty : Option Claims → Claims
or_empty none = []
or_empty (some c) = c

unfoldable pub linked : AuditIntegrity → AuditEvent → AuditEvent
linked i event = record event {
  metadata = some (set integrity_key (link_json i) (or_empty event.metadata));
}

-- Where a writer's chain starts: a process's own random id, the head that `loadWriterHead` answers,
-- or a scan of the recent events.
pub data Start : Type 0 where
  fresh_writer : Start
  loaded : Option String → Start
  scanned : List AuditEvent → Start

has_writer : String → AuditEvent → Bool
unfolding read_integrity
has_writer writer_id event = elim (read_integrity event) [
  | none ↦ false
  | some i ↦ i.writer_id == some writer_id
]

head_hash : Option AuditEvent → String
unfolding read_integrity hash_of
head_hash none = genesis
head_hash (some event) = hash_of (read_integrity event)

unfoldable pub seed : String → Start → String
unfolding or_genesis head_hash has_writer
seed writer_id fresh_writer = genesis
seed writer_id (loaded h) = or_genesis h
seed writer_id (scanned recent) = head_hash (find (has_writer writer_id) recent)

-- One tamper-evident sink: its writer and the hash of its last event, `none` before it is seeded.
pub record Writer : Type 0 where
  pub writer_id : String
  pub last_hash : Option String

unfoldable pub seeded : Start → Writer → String
unfolding seed
seeded start w = elim w.last_hash [ none ↦ seed w.writer_id start | some h ↦ h ]

-- append up to its wait for the digest: the hash that the event is linked to. The seed, where the
-- writer has none, is taken in the same step.
unfoldable pub begin_append : Start → Writer → String × Writer
unfolding seeded
begin_append start w = (seeded start w, record w { last_hash = some (seeded start w) })

-- append from there on: the writer's hash moves on, and the inner sink takes the event or throws.
unfoldable pub finish_append :
    Digest → (accepts : Bool) (previous : String) → AuditEvent → Writer → Option AuditEvent × Writer
unfolding hash_audit_event linked
finish_append prim accepts previous event w =
    let hash = hash_audit_event prim event previous in
    (
      if accepts
          then some (
              linked
                (record { hash = hash; previous_hash = previous; writer_id = some w.writer_id })
                event)
          else none,
      record w { last_hash = some hash },
    )
