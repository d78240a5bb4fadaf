-- ===== src/Args.antt =====
-- appendUniqueArgs of controllers/argocd/util.go: the extra arguments of a component are merged into
-- its command. Both loops of the source read a flag with the value that may follow it; here `tokens`
-- does that, and the loops run over its result. The map `existing` of the source is never read.
pub mod Laws
use argocd_operator.Base.{
  String, starts_with, Bool, true, false, ◌==◌, string_eq, contains, if◌then◌else◌, Option, none,
  some, List, [], ◌∷◌, ◌++◌,
}
use argocd_operator.Base.Map.{Map, lookup, insert}

pub data Token : Type 0 where
  flag : String → String → Token
  plain : String → Token

unfoldable pub is_flag : String → Bool
is_flag s = starts_with s "--"

-- A flag takes the next argument as its value unless that is a flag too.
unfoldable pub tokens : List String → List Token
tokens [] = []
tokens (a ∷ []) = if is_flag a then flag a "" ∷ [] else plain a ∷ []
tokens (a ∷ b ∷ r) =
    let from_next = tokens (b ∷ r) in
    let after_next = tokens r in
    if is_flag a
    then (if is_flag b then flag a "" ∷ from_next else flag a b ∷ after_next)
    else plain a ∷ from_next

-- `add`: an empty value is left out.
abbrev pub print : Token → List String
print (flag f v) = if v == "" then f ∷ [] else f ∷ v ∷ []
print (plain a) = a ∷ []

-- The variables of the function.
pub record Merge : Type 0 where
  pub repeated : Map String (List String)
  pub non_repeatable : List String
  pub result : List String

unfoldable pub is_repeated : Merge → String → String → Bool
unfolding lookup
is_repeated m f v = elim (lookup f m.repeated) [ none ↦ false | some vs ↦ contains vs v ]

-- `repeated[f][v] = true`
unfoldable pub add_repeated : String → String → Map String (List String) → Map String (List String)
unfolding lookup insert
add_repeated f v m = insert f (elim (lookup f m) [ none ↦ v ∷ [] | some vs ↦ v ∷ vs ]) m

-- The body of the loop over the command.
unfoldable pub command_step : Merge → Token → Merge
unfolding add_repeated
command_step m (plain a) = record m { result = m.result ++ (a ∷ []) }
command_step m (flag f v) = record {
  repeated = add_repeated f v m.repeated;
  non_repeatable = f ∷ m.non_repeatable;
  result = m.result ++ print (flag f v);
}

-- The loop that drops a flag, each time with the value that follows it.
unfoldable pub remove_flag : String → List String → List String
unfolding is_flag
remove_flag f [] = []
remove_flag f (x ∷ []) = if x == f then [] else x ∷ []
remove_flag f (x ∷ y ∷ r) =
    let from_next = remove_flag f (y ∷ r) in
    let after_next = remove_flag f r in
    if x == f then (if is_flag y then from_next else after_next) else x ∷ from_next

-- The body of the loop over the extra arguments.
unfoldable pub extra_step : Merge → Token → Merge
unfolding is_repeated remove_flag add_repeated insert
extra_step m (plain a) = record m { result = m.result ++ (a ∷ []) }
extra_step m (flag f v) =
    if is_repeated m f v
    then m
    else (if contains m.non_repeatable f
        then record m {
          repeated = insert f (v ∷ []) m.repeated;
          result = remove_flag f m.result ++ print (flag f v);
        }
        else record m {
          repeated = add_repeated f v m.repeated;
          result = m.result ++ print (flag f v);
        })

unfoldable pub fold_steps : (Merge → Token → Merge) → Merge → List Token → Merge
fold_steps step m [] = m
fold_steps step m (t ∷ ts) = fold_steps step (step m t) ts

abbrev pub no_merge : Merge
no_merge = record { repeated = []; non_repeatable = []; result = [] }

unfoldable pub append_unique_args : List String → List String → List String
unfolding fold_steps command_step extra_step tokens
append_unique_args cmd extra =
    (fold_steps extra_step (fold_steps command_step no_merge (tokens cmd)) (tokens extra)).result
