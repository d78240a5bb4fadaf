-- ===== src/Base/TextLaws.antt =====
-- The suffix of a concatenation, and the length of a slice.
use Prim.Native.String.{String, ◌++◌ as ◌<>◌}
use Prim.Native.String.append
use mathlib.Core.Path.{◌≡◌}
use mathlib.Core.Bool.{true}
use native.Mathlib.Omega.{arith}
use Prim.Native.Nat.{ℕ, ◌≤◌, ◌-◌, compare as compare_ℕ, Ordering}
use Prim.Native.Nat.Ordering.{lt, eq, gt}
use mathlib.Core.Path.{refl, subst, sym}
use native.Mathlib.Bridge.{le_by_compare, IsLe}
use Prim.Native.Char.{Char, len_utf8}
use Prim.Native.String.{len, slice, fits}
use Prim.Native.String.len as len_rules
use Prim.Native.String.slice as slice_rules
use argocd_operator.Base.Equality.{string_eq}
use argocd_operator.Base.Text.{has_suffix}

has_suffix_self : (t : String) → has_suffix t t ≡ true
unfolding has_suffix
has_suffix_self String.[] = ground arith
has_suffix_self (String.◌∷◌ c s) = ground arith

pub has_suffix-append : (s t : String) → has_suffix (s <> t) t ≡ true
unfolding has_suffix
has_suffix-append String.[] t = rw (append.nil t) (has_suffix_self t)
has_suffix-append (String.◌∷◌ c s) t =
    rw (append.cons c s t) (ground (arith, has_suffix-append s t))

len-fits :
    (c : Char) (t : String) (n : ℕ) (o : Ordering)
    → compare_ℕ (len_utf8 c) n ≡ o
    → len t ≤ n - len_utf8 c
    → len (fits o c t) ≤ n
unfolding IsLe
len-fits c t n gt e h = rw len_rules.nil (omega arith)
len-fits c t n lt e h =
    let w : len_utf8 c ≤ n = le_by_compare (len_utf8 c) n (subst IsLe (sym e) tt) in
    rw (len_rules.cons c t) (omega arith)
len-fits c t n eq e h =
    let w : len_utf8 c ≤ n = le_by_compare (len_utf8 c) n (subst IsLe (sym e) tt) in
    rw (len_rules.cons c t) (omega arith)

-- A slice from the start has at most as many bytes as it is asked for.
pub len-slice : (s : String) (n : ℕ) → len (slice s 0 n) ≤ n
len-slice String.[] n = rw (slice_rules.nil 0 n, len_rules.nil) (omega arith)
len-slice (String.◌∷◌ c s) n = rw (slice_rules.cons-zero c s n) (
    len-fits c (slice s 0 (n - len_utf8 c)) n (compare_ℕ (len_utf8 c) n) refl
      (len-slice s (n - len_utf8 c)))
