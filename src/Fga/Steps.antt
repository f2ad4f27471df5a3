-- ===== src/Fga/Steps.antt =====
-- What the schema and the warrants mean, and a check as a sequence of answered reads.
use mathlib.Core.List.{◌++◌ as join_lists}
use absolute_auth.Prelude.{ℕ, String, ◌≡◌, Bool, true, false, some, List, [], ◌∷◌, ◌||◌, Any}
use absolute_auth.Fga.{
  Warrant, WarrantStore, RelationRule, self, computed_userset, tuple_to_userset, union, Rules, rule,
  FgaSchema, Node, Subject, Read, rule_for, list_for_resource, is_direct, evaluate, answer,
}

abbrev pub userset_node : Warrant → String → Node
userset_node w r = record {
  resource_type = w.subject_type;
  resource_id = w.subject_id;
  relation = r;
}

-- The subject has the relation of a node through a rule: what the schema and the warrants mean.
mutual
  pub data Derives (schema : FgaSchema) (m : WarrantStore) (s : Subject)
      : Node → RelationRule → Type 0 where
    direct :
        {n : Node} (w : Warrant)
        → Any (λ v. v ≡ w) (list_for_resource n m)
        → is_direct s w ≡ true
        → Derives schema m s n self
    through_userset :
        {n : Node} (w : Warrant) (r : String)
        → Any (λ v. v ≡ w) (list_for_resource n m)
        → w.subject_relation ≡ some r
        → Derives schema m s (userset_node w r) (rule_for schema (userset_node w r))
        → Derives schema m s n self
    computed :
        {n : Node} {r : String}
        → Derives schema m s
            (record n { relation = r })
            (rule_for schema (record n { relation = r }))
        → Derives schema m s n (computed_userset r)
    through_link :
        {n : Node} {r via : String} (w : Warrant)
        → Any (λ v. v ≡ w) (list_for_resource (record n { relation = via }) m)
        → Derives schema m s (userset_node w r) (rule_for schema (userset_node w r))
        → Derives schema m s n (tuple_to_userset r via)
    in_union :
        {n : Node} {rs : Rules} → DerivesAny schema m s n rs → Derives schema m s n (union rs)

  pub data DerivesAny (schema : FgaSchema) (m : WarrantStore) (s : Subject)
      : Node → Rules → Type 0 where
    by_this :
        {n : Node} {r : RelationRule} {rs : Rules}
        → Derives schema m s n r
        → DerivesAny schema m s n (rule r rs)
    by_other :
        {n : Node} {r : RelationRule} {rs : Rules}
        → DerivesAny schema m s n rs
        → DerivesAny schema m s n (rule r rs)

-- The subject has the node's relation, by the node's own rule.
abbrev pub Related : FgaSchema → WarrantStore → Subject → Node → Type 0
Related schema m s n = Derives schema m s n (rule_for schema n)

-- A check under way.
pub record Checking : Type 0 where
  pub pending : List Read
  pub visited : List String
  pub found : Bool

-- The answer to any one of the pending reads.
pub data Step (schema : FgaSchema) (m : WarrantStore) (s : Subject)
    : Checking → Checking → Type 0 where
  answered :
      (before after : List Read) (r : Read) (visited : List String) (found : Bool)
      → Step schema m s
          (record { pending = join_lists before (r ∷ after); visited = visited; found = found })
          (record {
            pending = join_lists before (join_lists after (answer schema m s r visited).1.0);
            visited = (answer schema m s r visited).1.1;
            found = found || (answer schema m s r visited).0;
          })

pub data Run (schema : FgaSchema) (m : WarrantStore) (s : Subject) (c : Checking)
    : Checking → Type 0 where
  here : Run schema m s c c
  next : {c' c'' : Checking} → Run schema m s c c' → Step schema m s c' c'' → Run schema m s c c''

-- The state of check after evaluate has run up to its reads.
abbrev pub begin : FgaSchema → ℕ → Node → Checking
begin schema depth n =
    let (reads, visited) = evaluate schema depth n [] in
    record { pending = reads; visited = visited; found = false }
