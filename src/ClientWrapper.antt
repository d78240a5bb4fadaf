-- ===== src/ClientWrapper.antt =====
-- pkg/clientwrapper/client.go and pkg/cacheutils/utils.go: the manager's cache holds Secrets and config
-- maps that the operator does not track without their data, and the wrapped client reads such an
-- object from the API server instead. A nil map is `none` where the source tells it from an empty one.
pub mod Laws
use argocd_operator.Base.{
  String, Bool, true, false, not, ◌&&◌, ◌||◌, string_eq, Option, none, some, Reply, found, absent,
  refused, if◌then◌else◌,
}
use argocd_operator.Base.Map.{Map, lookup, insert}

abbrev pub tracked_by_label : String
tracked_by_label = "operator.argoproj.io/tracked-by"

abbrev pub secret_type_label : String
secret_type_label = "argocd.argoproj.io/secret-type"

abbrev pub app_name : String
app_name = "argocd"

-- The metadata of an object. What it holds besides its labels is in `rest`.
pub record Meta (Rest : Type 0) : Type 0 where
  pub labels : Map String String
  pub rest : Rest

-- The two kinds of object that are stripped, with their two fields of data, and all others.
pub data Object (Rest : Type 0) : Type 0 where
  secret : Meta Rest → Option (Map String String) → Option (Map String String) → Object Rest
  config_map : Meta Rest → Option (Map String String) → Option (Map String String) → Object Rest
  other : Meta Rest → Object Rest

abbrev pub has_label : String → Map String String → Bool
has_label l m = elim (lookup l m) [ none ↦ false | some _ ↦ true ]

-- IsTrackedByOperator
unfoldable pub is_tracked : {Rest : Type 0} → Meta Rest → Bool
unfolding lookup
is_tracked m = has_label tracked_by_label m.labels || has_label secret_type_label m.labels

-- The function that StripDataFromSecretOrConfigMapTransform returns.
unfoldable pub strip : {Rest : Type 0} → Object Rest → Object Rest
strip (secret m d e) = if is_tracked m then secret m d e else secret m none none
strip (config_map m d e) = if is_tracked m then config_map m d e else config_map m none none
strip (other m) = other m

-- secretNeedsLiveRefresh and configmapNeedsLiveRefresh, on the two fields of data
abbrev pub needs_live_refresh : Option (Map String String) → Option (Map String String) → Bool
needs_live_refresh none none = true
needs_live_refresh none (some e) = false
needs_live_refresh (some d) e = false

-- Whether the object that the cache gave is to be read from the API server.
unfoldable pub is_stripped : {Rest : Type 0} → Object Rest → Bool
is_stripped (secret m d e) = not (is_tracked m) && needs_live_refresh d e
is_stripped (config_map m d e) = not (is_tracked m) && needs_live_refresh d e
is_stripped (other m) = false

abbrev pub meta : {Rest : Type 0} → Object Rest → Meta Rest
meta (secret m d e) = m
meta (config_map m d e) = m
meta (other m) = m

abbrev pub with_labels :
    {Rest : Type 0} → (Map String String → Map String String) → Object Rest → Object Rest
with_labels f (secret m d e) = secret (record { labels = f m.labels; rest = m.rest }) d e
with_labels f (config_map m d e) = config_map (record { labels = f m.labels; rest = m.rest }) d e
with_labels f (other m) = other (record { labels = f m.labels; rest = m.rest })

-- The direct client: a read, and a patch from one object to another, which gives the server's next
-- state and its answer.
pub record LiveClient (Rest : Type 0) : Type 1 where
  pub State : Type 0
  pub get : State → String → String → Reply (Object Rest)
  pub patch : State → Object Rest → Object Rest → State × Reply (Object Rest)

module _ {Rest : Type 0} (live : LiveClient Rest) where
  -- ensureTrackedLabel: the answer of a patch that succeeds is written to the object; where it fails,
  -- the object keeps the label that was set on it, and the error is only logged.
  unfoldable pub ensure_tracked_label : live.State → Object Rest → live.State × Object Rest
  unfolding is_tracked insert
  ensure_tracked_label s o =
      let labelled = with_labels (insert tracked_by_label app_name) o in
      if is_tracked (meta o)
      then (s, o)
      else (let (t, answer) = live.patch s o labelled in
          (t, elim answer [ found p ↦ p | absent ↦ labelled | refused e ↦ labelled ]))

  -- The part of Get after a read from the API server.
  abbrev pub refreshed : live.State → Reply (Object Rest) → live.State × Reply (Object Rest)
  refreshed s (found o) = let (t, p) = ensure_tracked_label s o in (t, found p)
  refreshed s absent = (s, absent)
  refreshed s (refused e) = (s, refused e)

  -- The part of Get after the read from the cache.
  abbrev pub checked :
      live.State → String → String → Reply (Object Rest) → live.State × Reply (Object Rest)
  checked s namespace name (found o) =
      if is_stripped o then refreshed s (live.get s namespace name) else (s, found o)
  checked s namespace name absent = (s, absent)
  checked s namespace name (refused e) = (s, refused e)

  unfoldable pub get :
      (String → String → Reply (Object Rest))
      → live.State
      → String
      → String
      → live.State × Reply (Object Rest)
  get cached s namespace name = checked s namespace name (cached namespace name)
