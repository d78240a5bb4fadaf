-- ===== src/Args/Laws.antt =====
-- What the merge of the arguments keeps of the command, and what it replaces.
use argocd_operator.Base.{
  String, Bool, true, false, ◌≡◌, refl, sym, ◌∙◌, ◌≢◌, ◌&&◌, ◌||◌, ◌==◌, string_eq, if◌then◌else◌,
  none, some, List, [], ◌∷◌, ◌++◌, arith, ap,
}
use mathlib.Core.List.{append-nil, append_assoc}
use argocd_operator.Base.Map.{lookup, lookup-insert}
use argocd_operator.Args.{
  Token, flag, plain, tokens, print, Merge, is_repeated, add_repeated, command_step, extra_step,
  fold_steps, no_merge, append_unique_args,
}

abbrev pub print_all : List Token → List String
print_all [] = []
print_all (t ∷ ts) = print t ++ print_all ts

-- No argument is the empty string.
abbrev pub NoneEmpty : List String → Type 0
NoneEmpty [] = Unit
NoneEmpty (x ∷ xs) = (x ≢ "") × NoneEmpty xs

-- The arguments are what their tokens print.
pub print_all-tokens : (xs : List String) → NoneEmpty xs → print_all (tokens xs) ≡ xs
unfolding tokens
print_all-tokens [] h = refl
print_all-tokens (a ∷ []) h = ground arith
print_all-tokens (a ∷ b ∷ r) (ha, (hb, hr)) =
    ground (arith, print_all-tokens (b ∷ r) (hb, hr), print_all-tokens r hr)

-- Whether the tokens have the flag with the value, or with any value.
abbrev pub has_pair : String → String → List Token → Bool
has_pair f v [] = false
has_pair f v (plain a ∷ ts) = has_pair f v ts
has_pair f v (flag g w ∷ ts) = (f == g && v == w) || has_pair f v ts

abbrev pub has_flag : String → List Token → Bool
has_flag f [] = false
has_flag f (plain a ∷ ts) = has_flag f ts
has_flag f (flag g w ∷ ts) = f == g || has_flag f ts

result-command :
    (m : Merge) (ts : List Token) → (fold_steps command_step m ts).result ≡ m.result ++ print_all ts
unfolding fold_steps command_step
result-command m [] = sym (append-nil m.result)
result-command m (plain a ∷ ts) =
    result-command (command_step m (plain a)) ts ∙ append_assoc m.result (a ∷ []) (print_all ts)
result-command m (flag f v ∷ ts) =
    result-command (command_step m (flag f v)) ts
    ∙ append_assoc m.result (print (flag f v)) (print_all ts)

is_repeated-step :
    (m : Merge) (f v g w : String)
    → is_repeated (command_step m (flag g w)) f v ≡ ((f == g && v == w) || is_repeated m f v)
unfolding is_repeated command_step add_repeated
is_repeated-step m f v g w = ground (
  arith,
  lookup-insert f g (elim (lookup g m.repeated) [ none ↦ w ∷ [] | some vs ↦ w ∷ vs ]) m.repeated,
)

is_repeated-plain :
    (m : Merge) (f v a : String) → is_repeated (command_step m (plain a)) f v ≡ is_repeated m f v
unfolding is_repeated command_step
is_repeated-plain m f v a = refl

is_repeated-command :
    (f v : String) (m : Merge) (ts : List Token)
    → is_repeated (fold_steps command_step m ts) f v ≡ (has_pair f v ts || is_repeated m f v)
unfolding fold_steps
is_repeated-command f v m [] = refl
is_repeated-command f v m (plain a ∷ ts) =
    ground (arith, is_repeated-command f v (command_step m (plain a)) ts, is_repeated-plain m f v a)
is_repeated-command f v m (flag g w ∷ ts) =
    ground
      (arith, is_repeated-command f v (command_step m (flag g w)) ts, is_repeated-step m f v g w)

-- The state after the command.
merged : List String → Merge
merged cmd = fold_steps command_step no_merge (tokens cmd)

merged-result : (cmd : List String) → NoneEmpty cmd → (merged cmd).result ≡ cmd
unfolding merged
merged-result cmd h = result-command no_merge (tokens cmd) ∙ print_all-tokens cmd h

merged-is_repeated :
    (f v : String) (cmd : List String) → is_repeated (merged cmd) f v ≡ has_pair f v (tokens cmd)
unfolding merged is_repeated lookup
merged-is_repeated f v cmd = ground (arith, is_repeated-command f v no_merge (tokens cmd))

-- Every token is a flag that the command has with that value.
abbrev pub IsCovered : List Token → List Token → Type 0
IsCovered cmd [] = Unit
IsCovered cmd (plain a ∷ ts) = ⊥
IsCovered cmd (flag f v ∷ ts) = (has_pair f v cmd ≡ true) × IsCovered cmd ts

covered-unchanged :
    (cmd : List String) (ts : List Token)
    → IsCovered (tokens cmd) ts
    → fold_steps extra_step (merged cmd) ts ≡ merged cmd
unfolding fold_steps
covered-unchanged cmd [] h = refl
covered-unchanged cmd (plain a ∷ ts) h = elim h [ ]
covered-unchanged cmd (flag f v ∷ ts) (h, k) =
    let skip : extra_step (merged cmd) (flag f v) ≡ merged cmd =
      unfold extra_step in ground (arith, merged-is_repeated f v cmd) in
    rw skip (covered-unchanged cmd ts k)

-- For a command without empty arguments: extra arguments that are all flags, each of which the command
-- has already with the same value, change nothing.
append_unique_args_covered :
    (cmd extra : List String)
    → NoneEmpty cmd
    → IsCovered (tokens cmd) (tokens extra)
    → append_unique_args cmd extra ≡ cmd
unfolding append_unique_args merged
append_unique_args_covered cmd extra h k =
    ap (λ (m : Merge). m.result) (covered-unchanged cmd (tokens extra) k) ∙ merged-result cmd h

-- The tokens without a flag.
abbrev pub without : String → List Token → List Token
without f [] = []
without f (plain a ∷ ts) = plain a ∷ without f ts
without f (flag g w ∷ ts) = let rest = without f ts in if g == f then rest else flag g w ∷ rest
