-- ===== src/Deployments/Laws.antt =====
-- The deployment that the helper updates is the wanted one, in every field that it compares.
use argocd_operator.Base.{
  String, string_eq, ◌≡◌, refl, sym, ap, subst, ◌∙◌, Option, none, some, List, [], ◌∷◌, arith,
}
use mathlib.Core.Option.{some-injective}
use argocd_operator.Deployments.{
  Kinds, Container, Deployment, Draft, update_fields, update_existing,
}
use argocd_operator.Deployments.Place.{target, update_fields-place}
use argocd_operator.Deployments.Still.{update_fields-still}

update_existing-still :
    (k : Kinds) (now : String) (desired existing : Deployment k) (wanted c : Container k)
    (ws cs : List (Container k))
    → desired.containers ≡ wanted ∷ ws
    → update_existing k now desired (record (target desired wanted existing c).0 {
      containers = (target desired wanted existing c).1 ∷ cs;
    })
      ≡ some (
        record (target desired wanted existing c).0 {
          containers = (target desired wanted existing c).1 ∷ cs;
        },
        [],
      )
unfolding update_existing
update_existing-still k now desired existing wanted c ws cs l =
    let first = (target desired wanted existing c).1 in
    ap (λ ds. with_first ds) l
    ∙ ap (λ o. finished o)
        (update_fields-still k desired wanted (record existing { containers = first ∷ cs }) c now)
  where
    finished : Option (Draft k) → Option (Deployment k × List String)
    finished o = elim o [
      | none ↦ none
      | some ((d, b), made) ↦ some (record d { containers = b ∷ cs }, made)
    ]

    with_first : List (Container k) → Option (Deployment k × List String)
    with_first ds = elim ds [
      | [] ↦ none
      | w ∷ _ ↦ finished (
          update_fields k now desired w
            (record (target desired wanted existing c).0 {
              containers = (target desired wanted existing c).1 ∷ cs;
            })
            (target desired wanted existing c).1)
    ]

-- If an update does not panic: the deployment it gives has its name, its other containers and all
-- that is not compared from the existing one and every compared field, and so the whole first
-- container but its uncompared part, from the desired one; and an update of that deployment, at any
-- time, does not panic and changes nothing.
pub update_existing-target :
    (k : Kinds) (now later : String) (desired existing d : Deployment k) (wanted c : Container k)
    (ws cs : List (Container k)) (changes : List String)
    → existing.containers ≡ c ∷ cs
    → desired.containers ≡ wanted ∷ ws
    → update_existing k now desired existing ≡ some (d, changes)
    → (d ≡ record (target desired wanted existing c).0 {
      containers = (target desired wanted existing c).1 ∷ cs;
    })
      × (update_existing k later desired d ≡ some (d, []))
unfolding update_existing
update_existing-target k now later desired existing d wanted c ws cs changes h l =
    go (update_fields k now desired wanted existing c) refl
  where
    go :
        (o : Option (Draft k))
        → update_fields k now desired wanted existing c ≡ o
        → update_existing k now desired existing ≡ some (d, changes)
        → (d ≡ record (target desired wanted existing c).0 {
          containers = (target desired wanted existing c).1 ∷ cs;
        })
          × (update_existing k later desired d ≡ some (d, []))
    go none e = rw (update_existing, h, l, e) (λ q. absurd (ground arith))
    go (some ((b, a), made)) e =
        rw (update_existing, h, l, e)
          (λ q.
            let same =
              ap (λ (t : Deployment k × List String). t.0) (sym (some-injective _ _ q))
              ∙ ap (λ (x : Deployment k × Container k). record x.0 { containers = x.1 ∷ cs })
                  (update_fields-place k now desired wanted existing c ((b, a), made) e) in
            (
              same,
              subst (λ x. update_existing k later desired x ≡ some (x, [])) (sym same)
                  (update_existing-still k later desired existing wanted c ws cs l),
            ))
