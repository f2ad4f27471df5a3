-- ===== src/Fga/Tests.antt =====
-- A check of a document whose editors are its viewers.
use absolute_auth.Prelude.{◌≡◌, refl, true, false, none, [], ◌∷◌}
use absolute_auth.JsMap.{get, values}
use absolute_auth.Fga.{
  Warrant, WarrantStore, FgaSchema, Node, Subject, self_read, self, computed_userset, union, rule,
  no_rules, rule_for, evaluate, answer, list_for_resource, is_direct,
}
use absolute_auth.Fga.Steps.{Related, Checking, Run, here, next, answered, begin}
use absolute_auth.Fga.Sound.{check_sound}
use absolute_auth.Fga.Found.{direct_warrant_found}

abbrev schema : FgaSchema
schema =
    ("doc", ("viewer", union (rule self (rule (computed_userset "editor") no_rules))) ∷ []) ∷ []

abbrev alice : Subject
alice = record { subject_id = "alice"; subject_type = "user" }

abbrev edits : Warrant
edits = record {
  relation = "editor";
  resource_id = "1";
  resource_type = "doc";
  subject_id = "alice";
  subject_relation = none;
  subject_type = "user";
}

abbrev warrants : WarrantStore
warrants = ("doc:1#editor@user:alice#", edits) ∷ []

abbrev viewer : Node
viewer = record { resource_type = "doc"; resource_id = "1"; relation = "viewer" }

abbrev editor : Node
editor = record { resource_type = "doc"; resource_id = "1"; relation = "editor" }

-- The read of the editors is answered first.
abbrev after_editors : Checking
after_editors = record {
  pending = self_read viewer 16 ∷ [];
  visited = "doc:1#editor" ∷ "doc:1#viewer" ∷ [];
  found = true;
}

editors_first : Run schema warrants alice (begin schema 16 viewer) after_editors
unfolding evaluate answer get values
editors_first = next here (
    answered (self_read viewer 16 ∷ []) [] (self_read editor 15)
      ("doc:1#editor" ∷ "doc:1#viewer" ∷ []) false)

check_sound_example : Related schema warrants alice viewer
check_sound_example = check_sound schema warrants alice 16 viewer after_editors editors_first refl

abbrev finished : Checking
finished = record { pending = []; visited = "doc:1#editor" ∷ []; found = true }

editors_only : Run schema warrants alice (begin schema 16 editor) finished
unfolding evaluate answer get values
editors_only = next here (answered [] [] (self_read editor 16) ("doc:1#editor" ∷ []) false)

direct_warrant_found_example : finished.found ≡ true
unfolding rule_for list_for_resource is_direct get values
direct_warrant_found_example =
    direct_warrant_found schema warrants alice 15 editor finished refl refl editors_only refl
