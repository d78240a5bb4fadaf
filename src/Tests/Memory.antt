-- ===== src/Tests/Memory.antt =====
-- An API server that is a list of Secrets and never refuses a request, and a runtime whose time is a
-- number and whose strings are easy to read back.
use argocd_operator.Base.{
  ℕ, zero, suc, String, ◌<>◌, ◌≡◌, refl, true, false, ◌&&◌, ◌==◌, string_eq, ℕ_eq, if◌then◌else◌,
  Option, none, some, List, [], ◌∷◌, ℤ, pos, negsuc, Reply, found, absent, listed, Written, written,
  arith, ap,
}
use Prim.Native.Char.{code}
use Prim.Native.String.{char_at}
use argocd_operator.Spec.{ArgoCd}
use argocd_operator.LocalUsers.Cluster.{Secret, is_at, Client, IsLawful, Runtime, IsSound}

abbrev find : List Secret → String → String → Option Secret
find [] namespace name = none
find (x ∷ xs) namespace name = if is_at x namespace name then some x else find xs namespace name

abbrev remove : String → String → List Secret → List Secret
remove namespace name [] = []
remove namespace name (x ∷ xs) =
    let rest = remove namespace name xs in if is_at x namespace name then rest else x ∷ rest

abbrev reply : {A : Type 0} → Option A → Reply A
reply none = absent
reply (some a) = found a

abbrev pub State : Type 0
State = List Secret × List ArgoCd

abbrev find_argocd : List ArgoCd → String → String → Option ArgoCd
find_argocd [] namespace name = none
find_argocd (x ∷ xs) namespace name =
    if x.namespace == namespace && x.name == name then some x else find_argocd xs namespace name

abbrev in_namespace : String → List Secret → List Secret
in_namespace namespace [] = []
in_namespace namespace (x ∷ xs) =
    let rest = in_namespace namespace xs in if x.namespace == namespace then x ∷ rest else rest

abbrev write : State → Secret → State × Written
write (xs, crs) x = ((x ∷ xs, crs), written)

abbrev pub memory : Client
memory = record {
  State = State;
  get_argocd = λ s namespace name. reply (find_argocd s.1 namespace name);
  get = λ s namespace name. reply (find s.0 namespace name);
  list = λ s namespace. listed (in_namespace namespace s.0);
  create = write;
  update = write;
  delete = λ s x. ((remove x.namespace x.name s.0, s.1), written);
  stored = λ s namespace name. find s.0 namespace name;
}

find-remove_same :
    (namespace name : String) (xs : List Secret)
    → find (remove namespace name xs) namespace name ≡ none
find-remove_same namespace name [] = refl
find-remove_same namespace name (x ∷ xs) = ground (arith, find-remove_same namespace name xs)

find-remove_other :
    (x : Secret) (namespace name : String) (xs : List Secret)
    → is_at x namespace name ≡ false
    → find (remove x.namespace x.name xs) namespace name ≡ find xs namespace name
find-remove_other x namespace name [] h = refl
find-remove_other x namespace name (y ∷ ys) h =
    ground (arith, find-remove_other x namespace name ys h)

find-is_at :
    (namespace name : String) (x : Secret) (xs : List Secret)
    → find xs namespace name ≡ some x
    → is_at x namespace name ≡ true
find-is_at namespace name x [] h = absurd (ground arith)
find-is_at namespace name x (y ∷ ys) h = ground (arith, find-is_at namespace name x ys)

get-find : (o : Option Secret) (x : Secret) → reply o ≡ found x → o ≡ some x
get-find none x h = absurd (ground arith)
get-find (some y) x h = ground arith

get-none : (o : Option Secret) → reply o ≡ absent → o ≡ none
get-none none h = refl
get-none (some y) h = absurd (ground arith)

pub memory-IsLawful : IsLawful memory
memory-IsLawful = record {
  get-found = λ s namespace name x h.
      let e : find s.0 namespace name ≡ some x = get-find (find s.0 namespace name) x h in
      (e, find-is_at namespace name x s.0 e);
  get-absent = λ s namespace name h. get-none (find s.0 namespace name) h;
  create-written = λ s x h. ground arith;
  create-other = λ s x namespace name h. ground arith;
  update-written = λ s x h. ground arith;
  update-other = λ s x namespace name h. ground arith;
  delete-written = λ s x h. find-remove_same x.namespace x.name s.0;
  delete-missing = λ s x h. find-remove_same x.namespace x.name s.0;
  delete-other = λ s x namespace name h. find-remove_other x namespace name s.0 h;
}

-- A number in strokes.
abbrev strokes : ℕ → String
strokes zero = ""
strokes (suc n) = String.◌∷◌ (char_at "|" 0) (strokes n)

abbrev count : String → ℕ
count String.[] = 0
count (String.◌∷◌ c s) = suc (count s)

abbrev format_int : ℤ → String
format_int (pos n) = String.◌∷◌ (char_at "+" 0) (strokes n)
format_int (negsuc n) = String.◌∷◌ (char_at "-" 0) (strokes n)

abbrev parse_int : String → Option ℤ
parse_int String.[] = none
parse_int (String.◌∷◌ c s) = if code c == 43 then some (pos (count s)) else some (negsuc (count s))

count-strokes : (n : ℕ) → count (strokes n) ≡ n
count-strokes zero = refl
count-strokes (suc n) = ap suc (count-strokes n)

parse_int-format_int : (n : ℤ) → parse_int (format_int n) ≡ some n
unfolding ℕ_eq
parse_int-format_int (pos n) = ap (λ m. some (pos m)) (count-strokes n)
parse_int-format_int (negsuc n) = ap (λ m. some (negsuc m)) (count-strokes n)

abbrev pub runtime : Runtime
runtime = record {
  Time = ℤ;
  add = λ t d. d;
  unix = λ t. t;
  of_unix = λ t. t;
  is_after = λ t u. false;
  until = λ t u. t;
  parse_duration = λ s. some (pos 3600);
  parse_int = parse_int;
  format_int = format_int;
  sign = λ claims key. some (claims.subject <> key);
  hash = λ s. "0000000";
  encode_tokens = λ tokens. some "[token]";
  set_controller_reference = λ cr x. some x;
}

pub runtime-IsSound : IsSound runtime
runtime-IsSound = record { owned = λ cr x y h. ground arith; parse-format = parse_int-format_int }
