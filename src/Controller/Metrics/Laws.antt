-- ===== src/Controller/Metrics/Laws.antt =====
-- What the gauges count.
use argocd_operator.Base.{
  ℕ, zero, suc, ◌+◌, String, Bool, true, false, ◌==◌, string_eq, if◌then◌else◌, Option, none, some,
  [], ◌∷◌, ℤ, pos, ◌≡◌, ◌≢◌, refl, ap, ◌∙◌, ◌⊎◌, arith,
}
use argocd_operator.Base.Map.{
  Map, lookup, insert, erase, lookup-insert, DistinctKeys, insert-DistinctKeys, erase-DistinctKeys,
}
use argocd_operator.Controller.{Counts}
use argocd_operator.Controller.Metrics.{
  inc, dec, gauge, inc_gauge, dec_gauge, track, untrack, count_reconciliation,
}

abbrev pub size : Map String String → ℕ
size [] = 0
size (_ ∷ m) = suc (size m)

-- The number of instances in a phase.
abbrev pub count : String → Map String String → ℕ
count phase [] = 0
count phase ((_, p) ∷ m) = (if p == phase then 1 else 0) + count phase m

-- The gauges count the instances of the map, all of them and those in each phase.
pub record IsConsistent (m : Counts) : Type 0 where
  pub distinct : DistinctKeys m.active
  pub total-size : m.total ≡ pos (size m.active)
  pub gauge-count : (phase : String) → gauge phase m.by_phase ≡ pos (count phase m.active)

abbrev one_if : Bool → ℕ
one_if b = if b then 1 else 0

size-insert :
    (k v : String) (m : Map String String)
    → size (insert k v m) ≡ elim (lookup k m) [ none ↦ suc (size m) | some old ↦ size m ]
unfolding insert lookup
size-insert k v [] = refl
size-insert k v (_ ∷ m) = ground (arith, size-insert k v m)

count-insert_new :
    (q k v : String) (m : Map String String)
    → lookup k m ≡ none
    → count q (insert k v m) ≡ one_if (v == q) + count q m
unfolding insert lookup
count-insert_new q k v [] h = refl
count-insert_new q k v (_ ∷ m) h = ground (arith, count-insert_new q k v m)

count-insert_old :
    (q k v old : String) (m : Map String String)
    → lookup k m ≡ some old
    → count q (insert k v m) + one_if (old == q) ≡ one_if (v == q) + count q m
unfolding insert lookup
count-insert_old q k v old [] h = absurd (ground arith)
count-insert_old q k v old (_ ∷ m) h = ground (arith, count-insert_old q k v old m)

erase_absent : (k : String) (m : Map String String) → lookup k m ≡ none → erase k m ≡ m
unfolding erase lookup
erase_absent k [] h = refl
erase_absent k (_ ∷ m) h = ground (arith, erase_absent k m)

size-erase :
    (k v : String) (m : Map String String)
    → DistinctKeys m
    → lookup k m ≡ some v
    → size m ≡ suc (size (erase k m))
unfolding erase lookup
size-erase k v [] d h = absurd (ground arith)
size-erase k v ((j, w) ∷ m) d h = ground (arith, size-erase k v m, erase_absent k m)

count-erase :
    (q k v : String) (m : Map String String)
    → DistinctKeys m
    → lookup k m ≡ some v
    → count q m ≡ one_if (v == q) + count q (erase k m)
unfolding erase lookup
count-erase q k v [] d h = absurd (ground arith)
count-erase q k v ((j, w) ∷ m) d h = ground (arith, count-erase q k v m, erase_absent k m)

gauge-insert :
    (q p : String) (z : ℤ) (m : Map String ℤ)
    → gauge q (insert p z m) ≡ (if q == p then z else gauge q m)
gauge-insert q p z m = ground (arith, lookup-insert q p z m)

dec-suc : (a b : ℕ) → a ≡ suc b → dec (pos a) ≡ pos b
dec-suc zero b h = absurd (ground arith)
dec-suc (suc a) b h = ground arith

-- A gauge after it is incremented for an instance that comes.
gauge-come :
    (q p : String) (m : Map String ℤ) (n : String → ℕ) (k : ℕ)
    → ((x : String) → gauge x m ≡ pos (n x))
    → k ≡ one_if (p == q) + n q
    → gauge q (inc_gauge p m) ≡ pos k
gauge-come q p m n k g h = gauge-insert q p (inc (gauge p m)) m ∙ ground (arith, g q, g p)

-- A gauge after it is decremented for an instance that goes.
gauge-go :
    (q p : String) (m : Map String ℤ) (n : String → ℕ) (k : ℕ)
    → ((x : String) → gauge x m ≡ pos (n x))
    → n q ≡ one_if (p == q) + k
    → gauge q (dec_gauge p m) ≡ pos k
gauge-go q p m n k g h =
    gauge-insert q p (dec (gauge p m)) m ∙ ground (arith, g q, g p, dec-suc (n q) k)

untrack-IsConsistent :
    (namespace phase : String) (m : Counts)
    → IsConsistent m
    → lookup namespace m.active ≡ some phase
    → IsConsistent (untrack namespace phase m)
unfolding untrack
untrack-IsConsistent namespace phase m i h = record {
  distinct = erase-DistinctKeys namespace m.active i.distinct;
  total-size =
      ap dec i.total-size
      ∙ dec-suc (size m.active) (size (erase namespace m.active))
          (size-erase namespace phase m.active i.distinct h);
  gauge-count = λ q.
      gauge-go q phase m.by_phase (λ x. count x m.active) (count q (erase namespace m.active))
        i.gauge-count (count-erase q namespace phase m.active i.distinct h);
}

track_new :
    (namespace phase : String) (m : Counts)
    → IsConsistent m
    → lookup namespace m.active ≡ none
    → IsConsistent (track namespace phase m)
unfolding track
track_new namespace phase m i h = go (phase == "") refl
  where
    go : (b : Bool) → (phase == "") ≡ b → IsConsistent (track namespace phase m)
    go true e = rw (track, h, e) i
    go false e =
        rw (track, h, e)
          (record {
            distinct = insert-DistinctKeys namespace phase m.active i.distinct;
            total-size = ground (arith, i.total-size, size-insert namespace phase m.active);
            gauge-count = λ q.
                gauge-come q phase m.by_phase (λ x. count x m.active)
                  (count q (insert namespace phase m.active)) i.gauge-count
                  (count-insert_new q namespace phase m.active h);
          })

track_old :
    (namespace phase old : String) (m : Counts)
    → IsConsistent m
    → lookup namespace m.active ≡ some old
    → IsConsistent (track namespace phase m)
unfolding track
track_old namespace phase old m i h = go (old == phase) refl
  where
    go : (b : Bool) → (old == phase) ≡ b → IsConsistent (track namespace phase m)
    go true e = rw (track, h, e) i
    go false e =
        rw (track, h, e)
          (record {
            distinct = insert-DistinctKeys namespace phase m.active i.distinct;
            total-size = ground (arith, i.total-size, size-insert namespace phase m.active);
            gauge-count = λ q.
                gauge-go q old (inc_gauge phase m.by_phase)
                  (λ x. one_if (phase == x) + count x m.active)
                  (count q (insert namespace phase m.active))
                  (λ x.
                    gauge-come x phase m.by_phase (λ y. count y m.active)
                      (one_if (phase == x) + count x m.active) i.gauge-count refl)
                  (ground (arith, count-insert_old q namespace phase old m.active h));
          })

track-known :
    (namespace phase : String) (m : Counts)
    → lookup namespace m.active ≢ none ⊎ phase ≢ ""
    → lookup namespace (track namespace phase m).active ≡ some phase
unfolding track
track-known namespace phase m h = ground (arith, lookup-insert namespace namespace phase m.active)

count_reconciliation-IsConsistent :
    (namespace : String) (m : Counts)
    → IsConsistent m
    → IsConsistent (count_reconciliation namespace m)
count_reconciliation-IsConsistent namespace m i = record {
  distinct = i.distinct;
  total-size = i.total-size;
  gauge-count = i.gauge-count;
}

-- If the gauges count the instances of the map, they do after an instance is seen with any phase; and
-- they do after it is then deleted, if it was in the map before or its phase is not empty.
pub track-IsConsistent :
    (namespace phase : String) (m : Counts)
    → IsConsistent m
    → IsConsistent (track namespace phase m)
      × (lookup namespace m.active ≢ none ⊎ phase ≢ ""
          → IsConsistent
              (untrack namespace phase (count_reconciliation namespace (track namespace phase m))))
track-IsConsistent namespace phase m i =
    let seen = go (lookup namespace m.active) refl in
    (
      seen,
      λ h.
          untrack-IsConsistent namespace phase
            (count_reconciliation namespace (track namespace phase m))
            (count_reconciliation-IsConsistent namespace (track namespace phase m) seen)
            (track-known namespace phase m h),
    )
  where
    go :
        (o : Option String) → lookup namespace m.active ≡ o → IsConsistent (track namespace phase m)
    go none e = track_new namespace phase m i e
    go (some old) e = track_old namespace phase old m i e
