-- ===== src/Fga/Found.antt =====
-- A check does not miss a direct warrant.
use mathlib.Core.List.{◌++◌ as join_lists}
use absolute_auth.Prelude.{
  ℕ, suc, String, ◌≡◌, ◌⊎◌, inl, inr, refl, true, List, [], ◌∷◌, any, Any, arith,
}
use absolute_auth.Fga.{
  WarrantStore, self, FgaSchema, Node, Subject, Read, self_read, rule_for, list_for_resource,
  is_direct, evaluate, answer,
}
use absolute_auth.Fga.Steps.{Checking, Step, answered, Run, here, next, begin}

-- A pending read that a direct warrant answers.
abbrev IsHit : FgaSchema → WarrantStore → Subject → Read → Type 0
IsHit schema m s r = (visited : List String) → (answer schema m s r visited).0 ≡ true

Any-join : (P : Read → Type 0) (xs ys : List Read) → Any P xs ⊎ Any P ys → Any P (join_lists xs ys)
Any-join P [] ys (inl a) = absurd a
Any-join P [] ys (inr b) = b
Any-join P (x ∷ xs) ys (inl (inl a)) = inl a
Any-join P (x ∷ xs) ys (inl (inr a)) = inr (Any-join P xs ys (inl a))
Any-join P (x ∷ xs) ys (inr b) = inr (Any-join P xs ys (inr b))

Any-split : (P : Read → Type 0) (xs ys : List Read) → Any P (join_lists xs ys) → Any P xs ⊎ Any P ys
Any-split P [] ys a = inr a
Any-split P (x ∷ xs) ys (inl a) = inl (inl a)
Any-split P (x ∷ xs) ys (inr a) = elim (Any-split P xs ys a) [ inl l ↦ inl (inr l) | inr r ↦ inr r ]

module _ (schema : FgaSchema) (m : WarrantStore) (s : Subject) where
  -- A hit was answered or is still pending.
  abbrev IsCaught : Checking → Type 0
  IsCaught c = (c.found ≡ true) ⊎ Any (IsHit schema m s) c.pending

  Step-IsCaught : {c c' : Checking} → Step schema m s c c' → IsCaught c → IsCaught c'
  Step-IsCaught (answered before after r visited found) (inl f) = inl (rw f)
  Step-IsCaught (answered before after r visited found) (inr a) =
      elim (Any-split (IsHit schema m s) before (r ∷ after) a) [
        | inl l ↦ inr (Any-join (IsHit schema m s) before _ (inl l))
        | inr (inl hit) ↦ inl (rw (hit visited) (ground arith))
        | inr (inr later) ↦ inr (
            Any-join (IsHit schema m s) before _
              (inr (Any-join (IsHit schema m s) after _ (inl later))))
      ]

  Run-IsCaught : {c c' : Checking} → Run schema m s c c' → IsCaught c → IsCaught c'
  Run-IsCaught here h = h
  Run-IsCaught (next run step) h = Step-IsCaught step (Run-IsCaught run h)

  self-IsHit :
      (n : Node) (depth : ℕ)
      → any (is_direct s) (list_for_resource n m) ≡ true
      → IsHit schema m s (self_read n depth)
  unfolding answer
  self-IsHit n depth h visited = rw h refl

  begin-IsHit :
      (n : Node) (depth : ℕ)
      → rule_for schema n ≡ self
      → any (is_direct s) (list_for_resource n m) ≡ true
      → Any (IsHit schema m s) (begin schema (suc depth) n).pending
  unfolding evaluate
  begin-IsHit n depth plain h = rw (plain) (inl (self-IsHit n (suc depth) h))

-- A direct warrant is never missed: for a relation without rules, a check with a depth of at least
-- one that has no read left has found it, in whatever order the reads were answered.
pub direct_warrant_found :
    (schema : FgaSchema) (m : WarrantStore) (s : Subject) (depth : ℕ) (n : Node) (c : Checking)
    → rule_for schema n ≡ self
    → any (is_direct s) (list_for_resource n m) ≡ true
    → Run schema m s (begin schema (suc depth) n) c
    → c.pending ≡ []
    → c.found ≡ true
direct_warrant_found schema m s depth n c plain h run done =
    elim (Run-IsCaught schema m s run (inr (begin-IsHit schema m s n depth plain h))) [
      | inl found ↦ found
      | inr left ↦ absurd (rw done at left)
    ]
