-- ===== src/Fga/Sound.antt =====
-- A check never grants what no chain of warrants and rules derives, in whatever order its reads
-- are answered.
use mathlib.Core.List.{◌++◌ as join_lists}
use absolute_auth.Prelude.{
  ℕ, suc, zero, String, ◌≡◌, inl, inr, refl, Bool, true, false, some, List, [], ◌∷◌, ◌||◌, ◌-◌, any,
  All, Any, arith, Bool-cases, Option-cases, includes,
}
use absolute_auth.Fga.{
  Warrant, WarrantStore, RelationRule, self, computed_userset, tuple_to_userset, union, Rules,
  no_rules, rule, FgaSchema, Node, Subject, Read, self_read, via_read, Started, rule_for,
  list_for_resource, is_direct, matches_rule, matches_union, evaluate, start_all, usersets,
  linked_nodes, answer, node_key,
}
use absolute_auth.Fga.Steps.{
  userset_node, Derives, direct, through_userset, computed, through_link, in_union, DerivesAny,
  by_this, by_other, Related, Checking, Step, answered, Run, here, next, begin,
}

-- What an answered read would show about its node.
abbrev Shows : FgaSchema → WarrantStore → Subject → Read → Type 0
Shows schema m s (self_read n depth) = Derives schema m s n self
Shows schema m s (via_read n r via depth) = Derives schema m s n (tuple_to_userset r via)

All-join : (P : Read → Type 0) (xs ys : List Read) → All P xs → All P ys → All P (join_lists xs ys)
All-join P [] ys a b = b
All-join P (x ∷ xs) ys a b = (a.0, All-join P xs ys a.1 b)

All-split : (P : Read → Type 0) (xs ys : List Read) → All P (join_lists xs ys) → All P xs × All P ys
All-split P [] ys a = (tt, a)
All-split P (x ∷ xs) ys a = let (l, r) = All-split P xs ys a.1 in ((a.0, l), r)

module _ (schema : FgaSchema) (m : WarrantStore) (s : Subject) (Goal : Type 0) where
  -- A read whose showing gives the goal.
  abbrev Leads : Read → Type 0
  Leads r = Shows schema m s r → Goal

  mutual
    unfolding matches_rule

    rule-Leads :
        (below : Node → List String → Started) (n : Node) (depth : ℕ) (r : RelationRule)
        (visited : List String)
        → ((k : Node) (v : List String) → (Related schema m s k → Goal) → All Leads (below k v).0)
        → (Derives schema m s n r → Goal)
        → All Leads (matches_rule below n depth r visited).0
    rule-Leads below n depth (computed_userset r) visited b g =
        b (record n { relation = r }) visited (λ d. g (computed d))
    rule-Leads below n depth self visited b g = (g, tt)
    rule-Leads below n depth (tuple_to_userset r via) visited b g = (g, tt)
    rule-Leads below n depth (union rs) visited b g =
        union-Leads below n depth rs visited b (λ d. g (in_union d))

    union-Leads :
        (below : Node → List String → Started) (n : Node) (depth : ℕ) (rs : Rules)
        (visited : List String)
        → ((k : Node) (v : List String) → (Related schema m s k → Goal) → All Leads (below k v).0)
        → (DerivesAny schema m s n rs → Goal)
        → All Leads (matches_union below n depth rs visited).0
    union-Leads below n depth no_rules visited b g = tt
    union-Leads below n depth (rule r rs) visited b g =
        All-join Leads (matches_rule below n depth r visited).0 _
          (rule-Leads below n depth r visited b (λ d. g (by_this d)))
          (union-Leads below n depth rs (matches_rule below n depth r visited).1 b
            (λ d. g (by_other d)))

  evaluate-Leads :
      (depth : ℕ) (n : Node) (visited : List String)
      → (Related schema m s n → Goal)
      → All Leads (evaluate schema depth n visited).0
  unfolding evaluate
  evaluate-Leads zero n visited g = tt
  evaluate-Leads (suc depth) n visited g = elim (Bool-cases (includes (node_key n) visited)) [
    | inl seen ↦ rw seen tt
    | inr unseen ↦ rw unseen (
        rule-Leads (evaluate schema depth) n (suc depth) (rule_for schema n) (node_key n ∷ visited)
          (evaluate-Leads depth) g)
  ]

  start_all-Leads :
      (depth : ℕ) (ns : List Node) (visited : List String)
      → All (λ k. Related schema m s k → Goal) ns
      → All Leads (start_all schema depth ns visited).0
  unfolding start_all
  start_all-Leads depth [] visited g = tt
  start_all-Leads depth (n ∷ ns) visited g =
      All-join Leads (evaluate schema depth n visited).0 _ (evaluate-Leads depth n visited g.0)
        (start_all-Leads depth ns (evaluate schema depth n visited).1 g.1)

  usersets_lead :
      (ws : List Warrant)
      → ((w : Warrant) (r : String)
          → Any (λ v. v ≡ w) ws
          → w.subject_relation ≡ some r
          → Related schema m s (userset_node w r)
          → Goal)
      → All (λ k. Related schema m s k → Goal) (usersets ws)
  unfolding usersets
  usersets_lead [] g = tt
  usersets_lead (w ∷ ws) g = elim (Option-cases w.subject_relation) [
    | inl user ↦ rw user (usersets_lead ws (λ v r i. g v r (inr i)))
    | inr (r, held) ↦ rw held (g w r (inl refl) held, usersets_lead ws (λ v r' i. g v r' (inr i)))
  ]

  linked_nodes_lead :
      (relation : String) (ws : List Warrant)
      → ((w : Warrant) → Any (λ v. v ≡ w) ws → Related schema m s (userset_node w relation) → Goal)
      → All (λ k. Related schema m s k → Goal) (linked_nodes relation ws)
  unfolding linked_nodes
  linked_nodes_lead relation [] g = tt
  linked_nodes_lead relation (w ∷ ws) g =
      (g w (inl refl), linked_nodes_lead relation ws (λ v i. g v (inr i)))

  any_found :
      (p : Warrant → Bool) (ws : List Warrant)
      → any p ws ≡ true
      → (w : Warrant) × Any (λ v. v ≡ w) ws × (p w ≡ true)
  any_found p [] h = ground arith
  any_found p (w ∷ ws) h = elim (Bool-cases (p w)) [
    | inl held ↦ (w, inl refl, held)
    | inr missed ↦ let (v, i, held) = any_found p ws (rw missed at h) in (v, inr i, held)
  ]

  -- Answering a read keeps what its reads lead to, and a match shows the goal.
  answer-Leads :
      (r : Read) (visited : List String)
      → Leads r
      → All Leads (answer schema m s r visited).1.0
        × ((answer schema m s r visited).0 ≡ true → Goal)
  unfolding answer
  answer-Leads (self_read n depth) visited g =
      elim (Bool-cases (any (is_direct s) (list_for_resource n m))) [
        | inl held ↦
            let (w, listed, match_found) = any_found (is_direct s) (list_for_resource n m) held in
            rw held (tt, λ _. g (direct w listed match_found))
        | inr missed ↦ rw missed (
          start_all-Leads (depth - 1) (usersets (list_for_resource n m)) visited
              (usersets_lead (list_for_resource n m) (λ w r i e d. g (through_userset w r i e d))),
          λ q. ground arith,
        )
      ]
  answer-Leads (via_read n r via depth) visited g = (
    start_all-Leads (depth - 1) _ visited (
        linked_nodes_lead r (list_for_resource (record n { relation = via }) m)
          (λ w i d. g (through_link w i d))),
    λ q. ground arith,
  )

  or_shows : (a b : Bool) → (a ≡ true → Goal) → (b ≡ true → Goal) → (a || b) ≡ true → Goal
  or_shows true b f g h = f refl
  or_shows false b f g h = g h

  abbrev IsSound : Checking → Type 0
  IsSound c = All Leads c.pending × (c.found ≡ true → Goal)

  Step-IsSound : {c c' : Checking} → Step schema m s c c' → IsSound c → IsSound c'
  Step-IsSound (answered before after r visited found) h =
      let (left, right) = All-split Leads before (r ∷ after) h.0 in
      let (started, shown) = answer-Leads r visited right.0 in
      (
        All-join Leads before _ left (All-join Leads after _ right.1 started),
        or_shows found (answer schema m s r visited).0 h.1 shown,
      )

  Run-IsSound : {c c' : Checking} → Run schema m s c c' → IsSound c → IsSound c'
  Run-IsSound here h = h
  Run-IsSound (next run step) h = Step-IsSound step (Run-IsSound run h)

-- A check grants only what is derived: in whatever order the reads of a check are answered, and
-- whatever the depth limit, if a direct warrant was found then a chain of warrants and rules gives
-- the subject the relation.
pub check_sound :
    (schema : FgaSchema) (m : WarrantStore) (s : Subject) (depth : ℕ) (n : Node) (c : Checking)
    → Run schema m s (begin schema depth n) c
    → c.found ≡ true
    → Related schema m s n
check_sound schema m s depth n c run =
    (Run-IsSound schema m s (Related schema m s n) run
      (evaluate-Leads schema m s (Related schema m s n) depth n [] (λ d. d), λ q. ground arith)).1
