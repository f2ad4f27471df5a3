-- ===== src/Fga.antt =====
-- Relationship-based access control: the warrant store (src/fga/inMemoryStores.ts) and the check
-- (src/fga/config.ts). An evaluation runs alone up to its next read of the store; reads that are
-- under way at the same time are answered in any order.
pub mod Steps
pub mod Sound
pub mod Found
mod Tests
use Prim.Native.String.{◌++◌}
use mathlib.Core.List.{◌++◌ as join_lists}
use absolute_auth.Prelude.{
  ℕ, suc, zero, String, Bool, true, false, Option, none, some, List, [], ◌∷◌, ◌-◌, ◌==◌, ◌&&◌, ◌||◌,
  string_eq, includes, any, filter, if◌then◌else◌,
}
use absolute_auth.JsMap.{JsMap, get, set, delete, values}

pub record Warrant : Type 0 where
  pub relation : String
  pub resource_id : String
  pub resource_type : String
  pub subject_id : String
  pub subject_relation : Option String
  pub subject_type : String

mutual
  pub data RelationRule : Type 0 where
    computed_userset : String → RelationRule
    self : RelationRule
    tuple_to_userset : (relation via_relation : String) → RelationRule
    union : Rules → RelationRule

  pub data Rules : Type 0 where
    no_rules : Rules
    rule : RelationRule → Rules → Rules

abbrev pub FgaSchema : Type 0
FgaSchema = JsMap (JsMap RelationRule)

relation_text : Option String → String
relation_text none = ""
relation_text (some r) = r

unfoldable pub warrant_key : Warrant → String
unfolding relation_text
warrant_key w =
    w.resource_type
    ++ ":"
    ++ w.resource_id
    ++ "#"
    ++ w.relation
    ++ "@"
    ++ w.subject_type
    ++ ":"
    ++ w.subject_id
    ++ "#"
    ++ relation_text w.subject_relation

abbrev pub WarrantStore : Type 0
WarrantStore = JsMap Warrant

unfoldable pub save_warrant : Warrant → WarrantStore → WarrantStore
unfolding warrant_key
save_warrant w m = set (warrant_key w) w m

unfoldable pub delete_warrant : Warrant → WarrantStore → WarrantStore
unfolding warrant_key
delete_warrant w m = delete (warrant_key w) m

-- A relation on a resource: what a warrant, or an evaluation, is about.
pub record Node : Type 0 where
  pub resource_type : String
  pub resource_id : String
  pub relation : String

unfoldable pub is_on : Node → Warrant → Bool
is_on n w =
    w.resource_type == n.resource_type
    && (w.resource_id == n.resource_id && w.relation == n.relation)

unfoldable pub list_for_resource : Node → WarrantStore → List Warrant
unfolding is_on
list_for_resource n m = filter (is_on n) (values m)

pub record Subject : Type 0 where
  pub subject_id : String
  pub subject_type : String

or_self : Option RelationRule → RelationRule
or_self none = self
or_self (some r) = r

unfoldable pub rule_for : FgaSchema → Node → RelationRule
unfolding or_self
rule_for schema n = elim (get n.resource_type schema) [
  | none ↦ self
  | some rules ↦ or_self (get n.relation rules)
]

-- isUser, and the same type and id
is_user : Option String → Bool
is_user none = true
is_user (some r) = false

unfoldable pub is_direct : Subject → Warrant → Bool
unfolding is_user
is_direct s w =
    is_user w.subject_relation && (w.subject_type == s.subject_type && w.subject_id == s.subject_id)

unfoldable pub node_key : Node → String
node_key n = n.resource_type ++ ":" ++ n.resource_id ++ "#" ++ n.relation

-- A read of the store that an evaluation waits for, with its depth.
pub data Read : Type 0 where
  self_read : Node → ℕ → Read
  via_read : Node → (relation via_relation : String) → ℕ → Read

-- The reads that an evaluation starts, and the visited keys that it leaves.
abbrev pub Started : Type 0
Started = List Read × List String

-- matchesRule up to the reads; `below` is evaluate at depth - 1.
unfoldable mutual
  pub matches_rule :
      (Node → List String → Started) → Node → ℕ → RelationRule → List String → Started
  matches_rule below n depth (computed_userset relation) visited =
      below (record n { relation = relation }) visited
  matches_rule below n depth self visited = (self_read n depth ∷ [], visited)
  matches_rule below n depth (tuple_to_userset relation via) visited =
      (via_read n relation via depth ∷ [], visited)
  matches_rule below n depth (union rules) visited = matches_union below n depth rules visited

  pub matches_union : (Node → List String → Started) → Node → ℕ → Rules → List String → Started
  matches_union below n depth no_rules visited = ([], visited)
  matches_union below n depth (rule r rest) visited =
      let (reads, visited') = matches_rule below n depth r visited in
      let (more, visited'') = matches_union below n depth rest visited' in
      (join_lists reads more, visited'')

-- evaluate up to the reads.
unfoldable pub evaluate : FgaSchema → ℕ → Node → List String → Started
unfolding matches_rule node_key includes rule_for
evaluate schema zero n visited = ([], visited)
evaluate schema (suc depth) n visited =
    let started =
      matches_rule (evaluate schema depth) n (suc depth) (rule_for schema n)
        (node_key n ∷ visited) in
    if includes (node_key n) visited then ([], visited) else started

-- The evaluations that Promise.all starts on an array, in its order.
unfoldable pub start_all : FgaSchema → ℕ → List Node → List String → Started
unfolding evaluate
start_all schema depth [] visited = ([], visited)
start_all schema depth (n ∷ rest) visited =
    let (reads, visited') = evaluate schema depth n visited in
    let (more, visited'') = start_all schema depth rest visited' in
    (join_lists reads more, visited'')

-- warrants.filter(isUserset).map(…): the nodes of the userset subjects.
unfoldable pub usersets : List Warrant → List Node
usersets [] = []
usersets (w ∷ ws) = elim w.subject_relation [
  | none ↦ usersets ws
  | some r ↦
      record { resource_type = w.subject_type; resource_id = w.subject_id; relation = r }
      ∷ usersets ws
]

unfoldable pub linked_nodes : String → List Warrant → List Node
linked_nodes relation [] = []
linked_nodes relation (w ∷ ws) =
    record { resource_type = w.subject_type; resource_id = w.subject_id; relation = relation }
    ∷ linked_nodes relation ws

-- A read is answered: whether a direct warrant matches, and the evaluations that start.
unfoldable pub answer : FgaSchema → WarrantStore → Subject → Read → List String → Bool × Started
unfolding list_for_resource is_direct start_all usersets linked_nodes
answer schema m s (self_read n depth) visited =
    if any (is_direct s) (list_for_resource n m)
    then (true, ([], visited))
    else (false, start_all schema (depth - 1) (usersets (list_for_resource n m)) visited)
answer schema m s (via_read n relation via depth) visited = (
  false,
  start_all schema (depth - 1)
      (linked_nodes relation (list_for_resource (record n { relation = via }) m)) visited,
)
