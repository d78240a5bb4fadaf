-- ===== src/Base/Text.antt =====
-- The functions of Go's package strings that the operator calls. `to_lower` maps the ASCII letters
-- and leaves every other character as it is.
use Prim.Native.Nat.{ℕ, zero, suc, ◌-◌, compare, Ordering}
use Prim.Native.Char.{Char, code}
use Prim.Native.String.{String, char_at}
use mathlib.Core.Bool.{Bool, true, false, ◌&&◌, ◌||◌}
use text.Mathlib.Text.{starts_with}
use argocd_operator.Base.Equality.{◌==◌, string_eq, if◌then◌else◌}

abbrev pub leb : ℕ → ℕ → Bool
leb a b = elim (compare a b) [ Ordering.gt ↦ false | _ ↦ true ]

abbrev between : ℕ → ℕ → ℕ → Bool
between a b n = leb a n && leb n b

abbrev lower : Char → Char
lower c =
    if between b'A' b'Z' (code c) then char_at "abcdefghijklmnopqrstuvwxyz" (code c - b'A') else c

unfoldable pub to_lower : String → String
to_lower String.[] = ""
to_lower (String.◌∷◌ c s) = String.◌∷◌ (lower c) (to_lower s)

unfoldable pub has_suffix : String → String → Bool
has_suffix String.[] t = "" == t
has_suffix (String.◌∷◌ c s) t = String.◌∷◌ c s == t || has_suffix s t

-- strings.Contains
unfoldable pub has_part : String → String → Bool
has_part String.[] t = starts_with "" t
has_part (String.◌∷◌ c s) t = starts_with (String.◌∷◌ c s) t || has_part s t

-- `s[n:]`, where the first n characters are ASCII
unfoldable pub drop : ℕ → String → String
drop zero s = s
drop (suc n) String.[] = ""
drop (suc n) (String.◌∷◌ c s) = drop n s

-- unicode.IsSpace
abbrev is_space : ℕ → Bool
is_space n =
    between 0x09 0x0d n
    || between 0x20 0x20 n
    || between 0x85 0x85 n
    || between 0xa0 0xa0 n
    || between 0x1680 0x1680 n
    || between 0x2000 0x200a n
    || between 0x2028 0x2029 n
    || between 0x202f 0x202f n
    || between 0x205f 0x205f n
    || between 0x3000 0x3000 n

unfoldable pub trim_left : String → String
trim_left String.[] = ""
trim_left (String.◌∷◌ c s) =
    let rest = trim_left s in if is_space (code c) then rest else String.◌∷◌ c s

unfoldable pub trim_right : String → String
trim_right String.[] = ""
trim_right (String.◌∷◌ c s) =
    let rest = trim_right s in if is_space (code c) && rest == "" then "" else String.◌∷◌ c rest

unfoldable pub trim_space : String → String
unfolding trim_left trim_right
trim_space s = trim_right (trim_left s)
