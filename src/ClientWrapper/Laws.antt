-- ===== src/ClientWrapper/Laws.antt =====
-- The wrapped client answers as the API server does.
use argocd_operator.Base.{
  String, Bool, true, false, ◌≡◌, refl, ap, ◌∙◌, ◌⊎◌, inl, [], ◌∷◌, string_eq, Reply, found, absent,
  refused, arith,
}
use argocd_operator.Base.Map.{Map, insert, erase}
use argocd_operator.ClientWrapper.{
  Object, secret, config_map, other, tracked_by_label, app_name, is_tracked, strip, is_stripped,
  meta, with_labels, LiveClient, ensure_tracked_label, refreshed, checked, get,
}

abbrev pub map_reply : {A B : Type 0} → (A → B) → Reply A → Reply B
map_reply f (found a) = found (f a)
map_reply f absent = absent
map_reply f (refused e) = refused e

-- The object without the label that the wrapper adds.
abbrev pub unlabelled : {Rest : Type 0} → Object Rest → Object Rest
unlabelled = with_labels (erase tracked_by_label)

-- The documented behaviour of a patch: the answer to one that succeeds is the object that was sent.
pub record IsLawful {Rest : Type 0} (live : LiveClient Rest) : Type 0 where
  pub patched :
      (s : live.State) (o labelled p : Object Rest)
      → (live.patch s o labelled).1 ≡ found p
      → p ≡ labelled

erase-insert : (k v : String) (m : Map String String) → erase k (insert k v m) ≡ erase k m
unfolding erase insert
erase-insert k v [] = ground arith
erase-insert k v (_ ∷ m) = ground (arith, erase-insert k v m)

module _ {Rest : Type 0} (live : LiveClient Rest) (l : IsLawful live) where
  unlabelled-with_labels :
      (o : Object Rest)
      → unlabelled (with_labels (insert tracked_by_label app_name) o) ≡ unlabelled o
  unlabelled-with_labels (secret m d e) =
      ap (λ x. secret (record { labels = x; rest = m.rest }) d e)
        (erase-insert tracked_by_label app_name m.labels)
  unlabelled-with_labels (config_map m d e) =
      ap (λ x. config_map (record { labels = x; rest = m.rest }) d e)
        (erase-insert tracked_by_label app_name m.labels)
  unlabelled-with_labels (other m) =
      ap (λ x. other (record { labels = x; rest = m.rest }))
        (erase-insert tracked_by_label app_name m.labels)

  abbrev labelled : Object Rest → Object Rest
  labelled o = with_labels (insert tracked_by_label app_name) o

  unlabelled-answer :
      (s : live.State) (o : Object Rest) (answer : Reply (Object Rest))
      → (live.patch s o (labelled o)).1 ≡ answer
      → unlabelled (elim answer [ found p ↦ p | absent ↦ labelled o | refused e ↦ labelled o ])
        ≡ unlabelled o
  unlabelled-answer s o (found p) e =
      ap unlabelled (l.patched s o (labelled o) p e) ∙ unlabelled-with_labels o
  unlabelled-answer s o absent e = unlabelled-with_labels o
  unlabelled-answer s o (refused m) e = unlabelled-with_labels o

  unlabelled-ensure_tracked_label :
      (s : live.State) (o : Object Rest)
      → unlabelled (ensure_tracked_label live s o).1 ≡ unlabelled o
  unfolding ensure_tracked_label
  unlabelled-ensure_tracked_label s o = go (is_tracked (meta o)) refl
    where
      go :
          (b : Bool)
          → is_tracked (meta o) ≡ b
          → unlabelled (ensure_tracked_label live s o).1 ≡ unlabelled o
      go true e = rw (e, ensure_tracked_label) refl
      go false e =
          rw (e, ensure_tracked_label) (unlabelled-answer s o (live.patch s o (labelled o)).1 refl)

  refreshed-live :
      (s : live.State) (answer : Reply (Object Rest))
      → map_reply unlabelled (refreshed live s answer).1 ≡ map_reply unlabelled answer
  refreshed-live s (found o) = ap found (unlabelled-ensure_tracked_label s o)
  refreshed-live s absent = refl
  refreshed-live s (refused e) = refl

  -- An object that stripping changes is one that is read again.
  strip_or_stripped : (o : Object Rest) → (strip o ≡ o) ⊎ (is_stripped (strip o) ≡ true)
  unfolding strip is_stripped
  strip_or_stripped (secret m d e) = ground arith
  strip_or_stripped (config_map m d e) = ground arith
  strip_or_stripped (other m) = inl refl

  unstripped : (o : Object Rest) → is_stripped (strip o) ≡ false → strip o ≡ o
  unstripped o h = ground (arith, strip_or_stripped o)

  checked-live :
      (s : live.State) (namespace name : String) (answer : Reply (Object Rest))
      → live.get s namespace name ≡ answer
      → map_reply unlabelled (checked live s namespace name (map_reply strip answer)).1
        ≡ map_reply unlabelled answer
  checked-live s namespace name (found o) e = go (is_stripped (strip o)) refl
    where
      go :
          (b : Bool)
          → is_stripped (strip o) ≡ b
          → map_reply unlabelled (checked live s namespace name (found (strip o))).1
            ≡ found (unlabelled o)
      go true h = rw (h, e) (ap found (unlabelled-ensure_tracked_label s o))
      go false h = rw h (ap (λ x. found (unlabelled x)) (unstripped o h))
  checked-live s namespace name absent e = refl
  checked-live s namespace name (refused m) e = refl

  -- If a patch that succeeds answers with the object it was sent, and the cache holds what the server
  -- holds, stripped: a Get of the wrapped client answers as the server does, found or not and with the
  -- same metadata and data, but for the tracking label, which it may add.
  pub get-live :
      (cached : String → String → Reply (Object Rest)) (s : live.State)
      → ((namespace name : String)
          → cached namespace name ≡ map_reply strip (live.get s namespace name))
      → (namespace name : String)
      → map_reply unlabelled (get live cached s namespace name).1
        ≡ map_reply unlabelled (live.get s namespace name)
  unfolding get
  get-live cached s h namespace name =
      ap (λ r. map_reply unlabelled (checked live s namespace name r).1) (h namespace name)
      ∙ checked-live s namespace name (live.get s namespace name) refl
