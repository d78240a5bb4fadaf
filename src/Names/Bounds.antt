-- ===== src/Names/Bounds.antt =====
-- The lengths of the names.
use argocd_operator.Base.{ℕ, String, ◌<>◌, ◌-◌, ◌≤◌, ◌≡◌, string_eq, arith, true}
use argocd_operator.Base.Text.{leb, has_suffix}
use argocd_operator.Base.TextLaws.{len-slice, has_suffix-append}
use text.Mathlib.TextPositions.{len-append}
use Prim.Native.String.{len, slice}
use argocd_operator.Names.{
  truncate_with_hash, truncate_cr_name, name_with_suffix, name_with_suffix_for_stateful_set,
}

le_of_leb : (a b : ℕ) → leb a b ≡ true → a ≤ b
le_of_leb a b h = ground arith

leb_of_le : (a b : ℕ) → a ≤ b → leb a b ≡ true
leb_of_le a b h = ground arith

module _ (hash : String → String) (digits : (s : String) → len (hash s) ≡ 7) where
  len-truncate_with_hash : (s : String) (n : ℕ) → 8 ≤ n → len (truncate_with_hash hash s n) ≤ n
  unfolding truncate_with_hash
  len-truncate_with_hash s n h = ground (
    arith,
    len-append "-" (hash s),
    digits s,
    le_of_leb (len s) n,
    len-append (slice s 0 (n - len ("-" <> hash s))) ("-" <> hash s),
    len-slice s (n - len ("-" <> hash s)),
  )

  len-truncate_cr_name : (name : String) → len (truncate_cr_name hash name) ≤ 37
  unfolding truncate_cr_name
  len-truncate_cr_name name = len-truncate_with_hash name 37 (omega arith)

  len-name_with_suffix : (name suffix : String) → len (name_with_suffix hash name suffix) ≤ 63
  unfolding name_with_suffix
  len-name_with_suffix name suffix =
      len-truncate_with_hash (truncate_cr_name hash name <> "-" <> suffix) 63 (omega arith)

  -- A suffix of at most 25 bytes survives.
  name_with_suffix_short :
      (name suffix : String)
      → len suffix ≤ 25
      → name_with_suffix hash name suffix ≡ truncate_cr_name hash name <> "-" <> suffix
  unfolding name_with_suffix truncate_with_hash
  name_with_suffix_short name suffix h = ground (
    arith,
    len-append (truncate_cr_name hash name) ("-" <> suffix),
    len-append "-" suffix,
    len-truncate_cr_name name,
    leb_of_le (len (truncate_cr_name hash name <> "-" <> suffix)) 63,
  )

  -- For a hash of seven digits: a name has at most 63 bytes and the name of a stateful set at most 52,
  -- whatever the instance's name and the suffix are, and a name ends with a hyphen and the whole suffix
  -- if that has at most 25 bytes.
  pub name_with_suffix-InBounds :
      (name suffix : String)
      → (len (name_with_suffix hash name suffix) ≤ 63)
        × (len (name_with_suffix_for_stateful_set hash name suffix) ≤ 52)
        × (len suffix ≤ 25 → has_suffix (name_with_suffix hash name suffix) ("-" <> suffix) ≡ true)
  unfolding name_with_suffix_for_stateful_set
  name_with_suffix-InBounds name suffix = (
    len-name_with_suffix name suffix,
    ground (
      arith,
      le_of_leb (len (truncate_cr_name hash name <> "-" <> suffix)) 52,
      le_of_leb (len (truncate_cr_name hash name <> "-" <> "app-controller")) 52,
      len-truncate_with_hash (truncate_cr_name hash name <> "-" <> suffix) 52,
    ),
    λ h.
        rw (name_with_suffix_short name suffix h)
          (has_suffix-append (truncate_cr_name hash name) ("-" <> suffix)),
  )
