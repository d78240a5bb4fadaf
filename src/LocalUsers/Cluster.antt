-- ===== src/LocalUsers/Cluster.antt =====
-- What the local users ask of code outside the repository: the API server through
-- sigs.k8s.io/controller-runtime, the clock, the durations and integers of Go's library, UUIDs, JSON,
-- SHA-1 (`hash` is the first seven hexadecimal digits) and the signing of github.com/golang-jwt/jwt. A write gives the server's next state. `stored` is
-- the object that the server holds; the program cannot read it but by `get` and `list`.
use argocd_operator.Base.{
  String, Bool, true, false, ◌&&◌, ◌==◌, string_eq, ◌≡◌, refl, arith, Option, none, some, List, ℤ,
  Reply, found, absent, refused, Listing, Written, written, missing, rejected,
}
use argocd_operator.Base.Map.{Map, lookup}
use argocd_operator.Spec.{ArgoCd}
use argocd_operator.LocalUsers.Timers.{Timers}

-- corev1.Secret. A byte slice of the data is a string, and a missing key reads as "".
pub record Secret : Type 0 where
  pub name : String
  pub namespace : String
  pub labels : Map String String
  pub data_map : Map String String

abbrev pub value : String → Map String String → String
value key m = elim (lookup key m) [ none ↦ "" | some v ↦ v ]

-- Whether a Secret is the one of this namespace and name.
abbrev pub is_at : Secret → String → String → Bool
is_at s namespace name = s.namespace == namespace && s.name == name

pub record Client : Type 1 where
  pub State : Type 0
  pub get_argocd : State → String → String → Reply ArgoCd
  pub get : State → String → String → Reply Secret
  pub list : State → String → Listing Secret
  pub create : State → Secret → State × Written
  pub update : State → Secret → State × Written
  pub delete : State → Secret → State × Written
  pub stored : State → String → String → Option Secret

-- The documented behaviour of the API server: a read that answers tells what is stored, under the
-- name asked for; a write that is done takes effect; no write touches another object; a delete that
-- finds no object leaves none.
pub record IsLawful (c : Client) : Type 0 where
  pub get-found :
      (s : c.State) (namespace name : String) (x : Secret)
      → c.get s namespace name ≡ found x
      → (c.stored s namespace name ≡ some x) × (is_at x namespace name ≡ true)
  pub get-absent :
      (s : c.State) (namespace name : String)
      → c.get s namespace name ≡ absent
      → c.stored s namespace name ≡ none
  pub create-written :
      (s : c.State) (x : Secret)
      → (c.create s x).1 ≡ written
      → c.stored (c.create s x).0 x.namespace x.name ≡ some x
  pub create-other :
      (s : c.State) (x : Secret) (namespace name : String)
      → is_at x namespace name ≡ false
      → c.stored (c.create s x).0 namespace name ≡ c.stored s namespace name
  pub update-written :
      (s : c.State) (x : Secret)
      → (c.update s x).1 ≡ written
      → c.stored (c.update s x).0 x.namespace x.name ≡ some x
  pub update-other :
      (s : c.State) (x : Secret) (namespace name : String)
      → is_at x namespace name ≡ false
      → c.stored (c.update s x).0 namespace name ≡ c.stored s namespace name
  pub delete-written :
      (s : c.State) (x : Secret)
      → (c.delete s x).1 ≡ written
      → c.stored (c.delete s x).0 x.namespace x.name ≡ none
  pub delete-missing :
      (s : c.State) (x : Secret)
      → (c.delete s x).1 ≡ missing
      → c.stored (c.delete s x).0 x.namespace x.name ≡ none
  pub delete-other :
      (s : c.State) (x : Secret) (namespace name : String)
      → is_at x namespace name ≡ false
      → c.stored (c.delete s x).0 namespace name ≡ c.stored s namespace name

-- jwt.RegisteredClaims: the token has an expiry if its duration is positive.
pub record Claims (Time : Type 0) : Type 0 where
  pub issued_at : Time
  pub issuer : String
  pub not_before : Time
  pub subject : String
  pub id : String
  pub expires_at : Option Time

-- settings.Token of github.com/argoproj/argo-cd
pub record Token : Type 0 where
  pub id : String
  pub issued_at : ℤ
  pub expires_at : ℤ

pub record Runtime : Type 1 where
  pub Time : Type 0
  pub add : Time → ℤ → Time
  pub unix : Time → ℤ
  pub of_unix : ℤ → Time
  pub is_after : Time → Time → Bool
  pub until : Time → Time → ℤ
  pub parse_duration : String → Option ℤ
  pub parse_int : String → Option ℤ
  pub format_int : ℤ → String
  pub sign : Claims Time → String → Option String
  pub hash : String → String
  pub encode_tokens : List Token → Option String
  pub set_controller_reference : ArgoCd → Secret → Option Secret

-- The readings that one reconciliation of a user takes: the clock for the test of the expiry, for the
-- token's issue and for the time left, and a random UUID, which may fail.
pub record Draws (Time : Type 0) : Type 0 where
  pub checked_at : Time
  pub issued_at : Time
  pub scheduled_at : Time
  pub unique_id : Option String

-- The errors, by the place that reports them.
pub data Err : Type 0 where
  bad_lifetime negative_lifetime bad_expiry no_unique_id no_signing_key sign_failed encode_failed :
      Err
  owner_failed : Err
  api_error : String → Err
  object_missing : Err

-- A method's end: a value or an error, with the state that it leaves. The state is that of the server
-- and the timers, and survives an error.
pub data Result {ℓ} (A : Type ℓ) : Type ℓ where
  ok : A → Result A
  err : Err → Result A

abbrev pub continue : {S A B : Type 0} → S × Result A → (A → S → S × Result B) → S × Result B
continue (s, ok a) f = f a s
continue (s, err e) f = (s, err e)

infixl 5 ◌>>=◌ ◌>>◌
unfoldable pub ◌>>=◌ :
    {S A B : Type 0} → (S → S × Result A) → (A → S → S × Result B) → S → S × Result B
◌>>=◌ m f s = continue (m s) f

unfoldable pub ◌>>◌ :
    {S B : Type 0} → (S → S × Result (Unit {0})) → (S → S × Result B) → S → S × Result B
◌>>◌ m k s = continue (m s) (λ _. k)

-- The state: the server's and the timers.
abbrev pub Sys : Client → Type 0
Sys c = c.State × Timers

abbrev pub Action : Client → Type 0 → Type 0
Action c A = Sys c → Sys c × Result A

abbrev pub return : {S A : Type 0} → A → S → S × Result A
return a s = (s, ok a)

abbrev pub fail : {S A : Type 0} → Err → S → S × Result A
fail e s = (s, err e)

abbrev pub from_option : {S A : Type 0} → Err → Option A → S → S × Result A
from_option e none s = (s, err e)
from_option e (some a) s = (s, ok a)

abbrev pub written_result : Written → Result (Unit {0})
written_result written = ok tt
written_result missing = err object_missing
written_result (rejected e) = err (api_error e)

module _ (c : Client) where
  -- A change of the timers.
  abbrev pub on_timers : (Timers → Timers) → Action c (Unit {0})
  on_timers f (s, ts) = ((s, f ts), ok tt)

  -- A read whose caller reports an absent object as an error.
  abbrev pub read_secret : String → String → Action c Secret
  read_secret namespace name (s, ts) = elim (c.get s namespace name) [
    | found x ↦ ((s, ts), ok x)
    | absent ↦ ((s, ts), err object_missing)
    | refused e ↦ ((s, ts), err (api_error e))
  ]

  abbrev pub update_secret : Secret → Action c (Unit {0})
  update_secret x (s, ts) = let (t, w) = c.update s x in ((t, ts), written_result w)

  abbrev pub create_secret : Secret → Action c (Unit {0})
  create_secret x (s, ts) = let (t, w) = c.create s x in ((t, ts), written_result w)

-- What the code relies on of the functions that Runtime stands for: an owner reference leaves an
-- object's name, namespace and data, and an integer that was formatted is parsed back.
pub record IsSound (r : Runtime) : Type 0 where
  pub owned :
      (cr : ArgoCd) (x y : Secret)
      → r.set_controller_reference cr x ≡ some y
      → (y.name ≡ x.name) × (y.namespace ≡ x.namespace) × (y.data_map ≡ x.data_map)
  pub parse-format : (n : ℤ) → r.parse_int (r.format_int n) ≡ some n

-- If a run ends with no error, its state satisfies Q.
abbrev pub Ends : {S B : Type 0} → (S → Type 0) → S × Result B → Type 0
Ends {B = B} Q t = (b : B) → t.1 ≡ ok b → Q t.0

-- A sequence that succeeds: its first part does, and the rest goes on from there.
Ends-continue :
    {S A B : Type 0} (Q : S → Type 0) (t : S × Result A) (f : A → S → S × Result B)
    → ((a : A) → t.1 ≡ ok a → Ends Q (f a t.0))
    → Ends Q (continue t f)
Ends-continue Q (s, ok a) f k = k a refl
Ends-continue Q (s, err e) f k = λ b h. absurd (ground arith)

pub Ends->>= :
    {S A B : Type 0} (Q : S → Type 0) (m : S → S × Result A) (f : A → S → S × Result B) (s : S)
    → ((a : A) → (m s).1 ≡ ok a → Ends Q (f a (m s).0))
    → Ends Q ((m >>= f) s)
unfolding ◌>>=◌
Ends->>= Q m f s k = Ends-continue Q (m s) f k

pub Ends->> :
    {S B : Type 0} (Q : S → Type 0) (m : S → S × Result (Unit {0})) (f : S → S × Result B) (s : S)
    → ((m s).1 ≡ ok tt → Ends Q (f (m s).0))
    → Ends Q ((m >> f) s)
unfolding ◌>>◌
Ends->> Q m f s k = Ends-continue Q (m s) (λ _. f) (λ a h. k h)

pub from_option-ok :
    {S A : Type 0} (e : Err) (o : Option A) (s : S) (a : A)
    → (from_option e o s).1 ≡ ok a
    → o ≡ some a
from_option-ok e none s a h = absurd (ground arith)
from_option-ok e (some b) s a h = ground arith

-- The steps of a sequence whose first part is known to succeed.
pub >>=-ok :
    {S A B : Type 0} (m : S → S × Result A) (f : A → S → S × Result B) (s t : S) (a : A)
    → m s ≡ (t, ok a)
    → (m >>= f) s ≡ f a t
unfolding ◌>>=◌
>>=-ok m f s t a h = rw h

pub >>-ok :
    {S B : Type 0} (m : S → S × Result (Unit {0})) (k : S → S × Result B) (s t : S)
    → m s ≡ (t, ok tt)
    → (m >> k) s ≡ k t
unfolding ◌>>◌
>>-ok m k s t h = rw h
