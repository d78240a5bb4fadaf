-- ===== src/Namespaces/ClusterSecret/Laws.antt =====
-- Which namespaces the cluster secret names after each operation on it.
use argocd_operator.Base.{
  String, Bool, true, false, not, ◌&&◌, ◌||◌, ◌==◌, contains, string_eq, ◌≡◌, ◌≢◌, refl, ap, ◌∙◌,
  List, [], ◌∷◌, map, arith,
}
use argocd_operator.Base.Text.{trim_space}
use argocd_operator.Base.Commas.{
  split, join, sort, insert_sorted, contains-sort, none_has_comma, none_has_comma-split,
  none_has_comma-map, none_has_comma-sort, has_comma-trim_space, split-join,
}
use argocd_operator.Namespaces.ClusterSecret.{
  names, add_name, add_names, combine, without_name, without_namespace,
}

abbrev is_empty : List String → Bool
is_empty [] = true
is_empty (x ∷ xs) = false

contains-add_names :
    (n : String) (ms ns : List String)
    → contains (add_names ms ns) n ≡ (contains ms n || contains ns n)
unfolding add_names add_name
contains-add_names n [] ns = refl
contains-add_names n (m ∷ ms) ns = ground (arith, contains-add_names n ms (add_name m ns))

none_has_comma-add_names :
    (ms ns : List String)
    → none_has_comma ms ≡ true
    → none_has_comma ns ≡ true
    → none_has_comma (add_names ms ns) ≡ true
unfolding add_names add_name none_has_comma
none_has_comma-add_names [] ns h k = k
none_has_comma-add_names (m ∷ ms) ns h k =
    ground (arith, none_has_comma-add_names ms (add_name m ns))

is_empty-add_names :
    (ms ns : List String) → is_empty ns ≡ false → is_empty (add_names ms ns) ≡ false
unfolding add_names add_name
is_empty-add_names [] ns h = h
is_empty-add_names (m ∷ ms) ns h = ground (arith, is_empty-add_names ms (add_name m ns))

is_empty-add_names_first :
    (ms ns : List String) → is_empty ms ≡ false → is_empty (add_names ms ns) ≡ false
unfolding add_names add_name
is_empty-add_names_first [] ns h = absurd (ground arith)
is_empty-add_names_first (m ∷ ms) [] h = is_empty-add_names ms (m ∷ []) refl
is_empty-add_names_first (m ∷ ms) (n ∷ ns) h =
    is_empty-add_names ms (add_name m (n ∷ ns)) (ground arith)

is_empty-insert_sorted : (x : String) (xs : List String) → is_empty (insert_sorted x xs) ≡ false
unfolding insert_sorted
is_empty-insert_sorted x [] = refl
is_empty-insert_sorted x (y ∷ ys) = ground arith

is_empty-sort : (xs : List String) → is_empty xs ≡ false → is_empty (sort xs) ≡ false
unfolding sort
is_empty-sort [] h = h
is_empty-sort (x ∷ xs) h = is_empty-insert_sorted x (sort xs)

is_empty-names : (s : String) → is_empty (names s) ≡ false
unfolding names split
is_empty-names String.[] = refl
is_empty-names (String.◌∷◌ c s) = ground (arith, is_empty-names s)

none_has_comma-names : (s : String) → none_has_comma (names s) ≡ true
unfolding names
none_has_comma-names s = none_has_comma-map (split s) (none_has_comma-split s)

split-join-sort :
    (xs : List String)
    → none_has_comma xs ≡ true
    → is_empty xs ≡ false
    → split (join "," (sort xs)) ≡ sort xs
split-join-sort xs h k = go (sort xs) (none_has_comma-sort xs h) (is_empty-sort xs k)
  where
    go :
        (ys : List String)
        → none_has_comma ys ≡ true
        → is_empty ys ≡ false
        → split (join "," ys) ≡ ys
    go [] h k = absurd (ground arith)
    go (y ∷ ys) h k = split-join y ys h

-- If no managed namespace has a comma, the combined value splits into exactly the managed namespaces and
-- the trimmed parts of the old value, an empty part included.
pub split-combine :
    (old : String) (managed : List String) (n : String)
    → none_has_comma managed ≡ true
    → contains (split (combine old managed)) n ≡ (contains managed n || contains (names old) n)
unfolding combine none_has_comma
split-combine old managed n h =
    let all = add_names (names old) (add_names managed []) in
    ap (λ ys. contains ys n)
      (split-join-sort all
        (none_has_comma-add_names (names old) (add_names managed []) (none_has_comma-names old)
          (none_has_comma-add_names managed [] h refl))
        (is_empty-add_names_first (names old) (add_names managed []) (is_empty-names old)))
    ∙ ground (
      arith,
      contains-sort n all,
      contains-add_names n (names old) (add_names managed []),
      contains-add_names n managed [],
    )

contains-without_name :
    (n source : String) (xs : List String)
    → contains (without_name source xs) n ≡ (contains (map trim_space xs) n && not (n == source))
unfolding without_name
contains-without_name n source [] = refl
contains-without_name n source (x ∷ xs) = ground (arith, contains-without_name n source xs)

none_has_comma-without_name :
    (source : String) (xs : List String)
    → none_has_comma xs ≡ true
    → none_has_comma (without_name source xs) ≡ true
unfolding without_name none_has_comma
none_has_comma-without_name source [] h = refl
none_has_comma-without_name source (x ∷ xs) h =
    ground (arith, none_has_comma-without_name source xs, has_comma-trim_space x)

contains-split-join-sort :
    (n : String) (xs : List String)
    → none_has_comma xs ≡ true
    → n ≢ ""
    → contains (split (join "," (sort xs))) n ≡ contains xs n
unfolding join sort split
contains-split-join-sort n [] h k = ground arith
contains-split-join-sort n (x ∷ xs) h k =
    ap (λ ys. contains ys n) (split-join-sort (x ∷ xs) h refl) ∙ contains-sort n (x ∷ xs)

-- Among the names that are not empty, the value that is left after the removal of a namespace splits
-- into exactly the trimmed parts of the old value but that namespace.
pub split-without_namespace :
    (source old n : String)
    → n ≢ ""
    → contains (split (without_namespace source old)) n
      ≡ (contains (names old) n && not (n == source))
unfolding without_namespace names
split-without_namespace source old n h =
    contains-split-join-sort n (without_name source (split old))
      (none_has_comma-without_name source (split old) (none_has_comma-split old)) h
    ∙ contains-without_name n source (split old)
