-- ===== src/Base/Commas.antt =====
-- Lists of names in one string: Go's strings.Split at a comma, strings.Join and sort.Strings, and what
-- a list is after it is joined and split again.
use Prim.Native.Nat.{Ordering}
use Prim.Native.Char.{Char, code}
use Prim.Native.String.{String, char_at, compare, ◌++◌ as ◌<>◌}
use Prim.Native.String.append
use mathlib.Core.Path.{◌≡◌, refl, ap, ◌∙◌}
use mathlib.Core.Bool.{Bool, true, false, ◌&&◌, ◌||◌}
use mathlib.Core.List.{List, [], ◌∷◌, map}
use native.Mathlib.Omega.{arith}
use argocd_operator.Base.Equality.{◌==◌, contains, string_eq, ℕ_eq, if◌then◌else◌}
use argocd_operator.Base.Text.{trim_left, trim_right, trim_space}

abbrev is_comma : Char → Bool
is_comma c = code c == 0x2c

unfoldable pub has_comma : String → Bool
has_comma String.[] = false
has_comma (String.◌∷◌ c s) = is_comma c || has_comma s

abbrev push_char : Char → List String → List String
push_char c [] = []
push_char c (x ∷ xs) = String.◌∷◌ c x ∷ xs

-- `strings.Split(s, ",")`
unfoldable pub split : String → List String
split String.[] = "" ∷ []
split (String.◌∷◌ c s) = let rest = split s in if is_comma c then "" ∷ rest else push_char c rest

-- strings.Join
unfoldable pub join : String → List String → String
join sep [] = ""
join sep (x ∷ []) = x
join sep (x ∷ y ∷ r) = x <> sep <> join sep (y ∷ r)

abbrev before : String → String → Bool
before s t = elim (compare s t) [ Ordering.gt ↦ false | _ ↦ true ]

unfoldable pub insert_sorted : String → List String → List String
insert_sorted x [] = x ∷ []
insert_sorted x (y ∷ ys) = if before x y then x ∷ y ∷ ys else y ∷ insert_sorted x ys

-- sort.Strings
unfoldable pub sort : List String → List String
unfolding insert_sorted
sort [] = []
sort (x ∷ xs) = insert_sorted x (sort xs)

contains-insert_sorted :
    (x n : String) (ys : List String) → contains (insert_sorted x ys) n ≡ (n == x || contains ys n)
unfolding insert_sorted
contains-insert_sorted x n [] = ground arith
contains-insert_sorted x n (y ∷ ys) = ground (arith, contains-insert_sorted x n ys)

pub contains-sort : (n : String) (xs : List String) → contains (sort xs) n ≡ contains xs n
unfolding sort
contains-sort n [] = refl
contains-sort n (x ∷ xs) = ground (arith, contains-sort n xs, contains-insert_sorted x n (sort xs))

-- No name has a comma.
unfoldable pub none_has_comma : List String → Bool
unfolding has_comma
none_has_comma [] = true
none_has_comma (x ∷ xs) = (if has_comma x then false else true) && none_has_comma xs

none_has_comma-push_char :
    (c : Char) (xs : List String)
    → is_comma c ≡ false
    → none_has_comma xs ≡ true
    → none_has_comma (push_char c xs) ≡ true
unfolding none_has_comma has_comma
none_has_comma-push_char c [] h k = refl
none_has_comma-push_char c (x ∷ xs) h k = ground arith

pub none_has_comma-split : (s : String) → none_has_comma (split s) ≡ true
unfolding split none_has_comma has_comma
none_has_comma-split String.[] = refl
none_has_comma-split (String.◌∷◌ c s) =
    ground (arith, none_has_comma-split s, none_has_comma-push_char c (split s))

has_comma-trim_left : (s : String) → has_comma s ≡ false → has_comma (trim_left s) ≡ false
unfolding has_comma trim_left
has_comma-trim_left String.[] h = refl
has_comma-trim_left (String.◌∷◌ c s) h = ground (arith, has_comma-trim_left s)

has_comma-trim_right : (s : String) → has_comma s ≡ false → has_comma (trim_right s) ≡ false
unfolding has_comma trim_right
has_comma-trim_right String.[] h = refl
has_comma-trim_right (String.◌∷◌ c s) h = ground (arith, has_comma-trim_right s)

pub has_comma-trim_space : (s : String) → has_comma s ≡ false → has_comma (trim_space s) ≡ false
unfolding trim_space
has_comma-trim_space s h = has_comma-trim_right (trim_left s) (has_comma-trim_left s h)

pub none_has_comma-map :
    (xs : List String) → none_has_comma xs ≡ true → none_has_comma (map trim_space xs) ≡ true
unfolding none_has_comma
none_has_comma-map [] h = refl
none_has_comma-map (x ∷ xs) h = ground (arith, none_has_comma-map xs, has_comma-trim_space x)

none_has_comma-insert_sorted :
    (x : String) (xs : List String)
    → has_comma x ≡ false
    → none_has_comma xs ≡ true
    → none_has_comma (insert_sorted x xs) ≡ true
unfolding none_has_comma insert_sorted
none_has_comma-insert_sorted x [] h k = ground arith
none_has_comma-insert_sorted x (y ∷ ys) h k = ground (arith, none_has_comma-insert_sorted x ys)

pub none_has_comma-sort :
    (xs : List String) → none_has_comma xs ≡ true → none_has_comma (sort xs) ≡ true
unfolding none_has_comma sort
none_has_comma-sort [] h = refl
none_has_comma-sort (x ∷ xs) h =
    ground (arith, none_has_comma-sort xs, none_has_comma-insert_sorted x (sort xs))

split-plain : (s : String) → has_comma s ≡ false → split s ≡ s ∷ []
unfolding split has_comma
split-plain String.[] h = refl
split-plain (String.◌∷◌ c s) h = ground (arith, split-plain s)

split-comma : (t : String) → split ("," <> t) ≡ "" ∷ split t
unfolding split ℕ_eq
split-comma t = rw (append.cons (char_at "," 0) "" t) (rw (append.nil t) refl)

split-append : (s t : String) → has_comma s ≡ false → split (s <> "," <> t) ≡ s ∷ split t
unfolding split has_comma
split-append String.[] t h = rw (append.nil ("," <> t)) (split-comma t)
split-append (String.◌∷◌ c s) t h =
    rw (append.cons c s ("," <> t)) (ground (arith, split-append s t))

-- A list of names without commas is what its join splits into, except that no name joins to one empty
-- name.
pub split-join :
    (x : String) (xs : List String)
    → none_has_comma (x ∷ xs) ≡ true
    → split (join "," (x ∷ xs)) ≡ x ∷ xs
unfolding join none_has_comma
split-join x [] h = split-plain x (ground arith)
split-join x (y ∷ ys) h =
    split-append x (join "," (y ∷ ys)) (ground arith)
    ∙ ap (λ zs. x ∷ zs) (split-join y ys (ground arith))
