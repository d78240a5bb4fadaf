-- ===== src/Condition/Laws.antt =====
-- What the operations on conditions keep.
use argocd_operator.Base.{
  ℕ, String, ◌≡◌, refl, ◌↔◌, Bool, false, ◌||◌, Option, none, some, List, [], ◌∷◌, arith,
}
use argocd_operator.Base.{◌==◌, string_eq, if◌then◌else◌}
use argocd_operator.Condition.{Condition, insert_or_update, remove_condition}

-- The first condition of a type.
abbrev pub find_type : String → List Condition → Option Condition
find_type t [] = none
find_type t (c ∷ cs) = if c.type == t then some c else find_type t cs

abbrev pub has_type : String → List Condition → Bool
has_type t [] = false
has_type t (c ∷ cs) = c.type == t || has_type t cs

-- No two conditions have one type.
abbrev pub Distinct : List Condition → Type 0
Distinct [] = Unit
Distinct (c ∷ cs) = (has_type c.type cs ≡ false) × Distinct cs

abbrev pub content : Condition → String × String × String × String
content c = (c.type, c.status, c.reason, c.message)

-- The content of the first condition of a type.
abbrev pub content_of : String → List Condition → Option (String × String × String × String)
content_of t [] = none
content_of t (c ∷ cs) = if c.type == t then some (content c) else content_of t cs

has_type-insert_or_update :
    (t : String) (new : Condition) (now : ℕ) (cs : List Condition)
    → has_type t (insert_or_update new now cs).1 ≡ (new.type == t || has_type t cs)
unfolding insert_or_update
has_type-insert_or_update t new now [] = ground arith
has_type-insert_or_update t new now (c ∷ cs) =
    ground (arith, has_type-insert_or_update t new now cs)

-- If no two conditions have one type, none have after an upsert.
insert_or_update-Distinct :
    (new : Condition) (now : ℕ) (cs : List Condition)
    → Distinct cs
    → Distinct (insert_or_update new now cs).1
unfolding insert_or_update
insert_or_update-Distinct new now [] h = (refl, tt)
insert_or_update-Distinct new now (c ∷ cs) h =
    ground
      (arith, insert_or_update-Distinct new now cs, has_type-insert_or_update c.type new now cs)

-- After an upsert the first condition of the new type has the new type, status, reason and message, and
-- the first condition of every other type has those that it had.
pub content_of-insert_or_update :
    (t : String) (new : Condition) (now : ℕ) (cs : List Condition)
    → content_of t (insert_or_update new now cs).1
      ≡ (if new.type == t then some (content new) else content_of t cs)
unfolding insert_or_update
content_of-insert_or_update t new now [] = ground arith
content_of-insert_or_update t new now (c ∷ cs) =
    ground (arith, content_of-insert_or_update t new now cs)

-- The flag is false exactly when the slice is left as it was.
pub insert_or_update_unchanged :
    (new : Condition) (now : ℕ) (cs : List Condition)
    → ((insert_or_update new now cs).0 ≡ false) ↔ ((insert_or_update new now cs).1 ≡ cs)
unfolding insert_or_update
insert_or_update_unchanged new now [] = ground arith
insert_or_update_unchanged new now (c ∷ cs) = ground (arith, insert_or_update_unchanged new now cs)

-- A second upsert of the same condition, at any time, changes nothing, and its flag is false.
insert_or_update_idem :
    (new : Condition) (now later : ℕ) (cs : List Condition)
    → insert_or_update new later (insert_or_update new now cs).1
      ≡ (false, (insert_or_update new now cs).1)
unfolding insert_or_update
insert_or_update_idem new now later [] = ground arith
insert_or_update_idem new now later (c ∷ cs) =
    ground (arith, insert_or_update_idem new now later cs)

-- After a removal no condition has the type, and the first condition of any other type is the one that
-- it was.
pub find_type-remove_condition :
    (t u : String) (cs : List Condition)
    → find_type u (remove_condition t cs) ≡ (if t == u then none else find_type u cs)
unfolding remove_condition
find_type-remove_condition t u [] = ground arith
find_type-remove_condition t u (c ∷ cs) = ground (arith, find_type-remove_condition t u cs)
