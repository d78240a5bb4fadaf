-- ===== src/Base/Runs.antt =====
-- How a Go call ends: it returns an error or nil, or it panics. A method that works on a mutable
-- receiver gives the new state with its end; a read of the API server finds an object, reports that
-- it is absent, or fails.
use Prim.Native.String.{String}
use mathlib.Core.List.{List}

pub data Outcome : Type 0 where
  done : Outcome
  failed : String → Outcome
  panicked : Outcome

-- client.Client.Get
pub data Reply {ℓ} (A : Type ℓ) : Type ℓ where
  found : A → Reply A
  absent : Reply A
  refused : String → Reply A

-- client.Client.List
pub data Listing {ℓ} (A : Type ℓ) : Type ℓ where
  listed : List A → Listing A
  unlisted : String → Listing A

abbrev pub Run {ℓ} : Type ℓ → Type ℓ
Run S = S × Outcome

-- `if err := m; err != nil { return err }`, then f.
infixl 5 ◌then_do◌
unfoldable pub ◌then_do◌ {ℓ} : {S : Type ℓ} → Run S → (S → Run S) → Run S
(s, done) then_do f = f s
(s, failed e) then_do f = (s, failed e)
(s, panicked) then_do f = (s, panicked)

-- The end of a write to the API server: done, refused because the object does not exist, or failed.
pub data Written : Type 0 where
  written : Written
  missing : Written
  rejected : String → Written
