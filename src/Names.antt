-- ===== src/Names.antt =====
-- The names of the operator's objects: NameWithSuffix, NameWithSuffixForStatefulSet, TruncateCRName and
-- TruncateWithHash of controllers/argoutil/resource.go. `hash` is the first seven hexadecimal digits
-- of the SHA-1 sum of a string, from Go's library.
pub mod Bounds
use argocd_operator.Base.{ℕ, String, ◌<>◌, ◌-◌, ◌==◌, string_eq, ◌&&◌, if◌then◌else◌}
use argocd_operator.Base.Text.{leb}
use Prim.Native.String.{len, slice}

abbrev pub hash_label_length : ℕ
hash_label_length = 7

abbrev pub max_label_length : ℕ
max_label_length = 63

abbrev pub max_suffix_length : ℕ
max_suffix_length = 25

abbrev pub max_cr_name_length : ℕ
max_cr_name_length = max_label_length - max_suffix_length - 1

abbrev pub max_stateful_set_name_length : ℕ
max_stateful_set_name_length = max_label_length - 11

-- The suffix, which the source cuts from a longer sum, is a hyphen and the seven digits.
unfoldable pub truncate_with_hash : (String → String) → String → ℕ → String
truncate_with_hash hash input max_length =
    let hash_suffix = "-" <> hash input in
    if leb (len input) max_length
    then input
    else slice input 0 (max_length - len hash_suffix) <> hash_suffix

unfoldable pub truncate_cr_name : (String → String) → String → String
unfolding truncate_with_hash
truncate_cr_name hash cr_name = truncate_with_hash hash cr_name max_cr_name_length

unfoldable pub name_with_suffix : (String → String) → String → String → String
name_with_suffix hash name suffix =
    truncate_with_hash hash (truncate_cr_name hash name <> "-" <> suffix) max_label_length

unfoldable pub name_with_suffix_for_stateful_set : (String → String) → String → String → String
name_with_suffix_for_stateful_set hash name suffix =
    let full_name = truncate_cr_name hash name <> "-" <> suffix in
    let abbreviated = truncate_cr_name hash name <> "-" <> "app-controller" in
    if leb (len full_name) max_stateful_set_name_length
    then full_name
    else (if suffix == "application-controller"
          && leb (len abbreviated) max_stateful_set_name_length
        then abbreviated
        else truncate_with_hash hash full_name max_stateful_set_name_length)
