-- ===== src/Engine/Index/Indexed.antt =====
-- idx.cpp: an index of the database, the way it is built from entries, and their replay.
use lightdb.Storage.Entry.{Entry, encode}
use lightdb.Storage.Entry.RoundTrip.{Fits}
use lightdb.Storage.File.{Outcome}
use lightdb.Storage.File.ReadBack.{read_back}
use lightdb.Engine.State.{LightDb}
use lightdb.Engine.Index.{is_empty_key}
use lightdb.Common.{ℕ, false, List, [], ◌∷◌, ◌++◌, ◌≡◌, refl, length, ◌<◌, ◌^◌}

unfoldable pub replay {ℓ} : {X : Type ℓ} → (X → Entry → X) → X → List Entry → X
replay apply x [] = x
replay apply x (e ∷ es) = replay apply (apply x e) es

pub replay-append {ℓ} :
    {X : Type ℓ} (apply : X → Entry → X) (x : X) (es fs : List Entry)
    → replay apply x (es ++ fs) ≡ replay apply (replay apply x es) fs
unfolding replay
replay-append apply x [] fs = refl
replay-append apply x (e ∷ es) fs = replay-append apply (apply x e) es fs

-- What the load reads of the state, as opposed to the index.
pub record Same (d d' : LightDb) : Type 0 where
  pub config : d'.config ≡ d.config
  pub clock : d'.clock ≡ d.clock
  pub outcomes : d'.outcomes ≡ d.outcomes

-- An index of the database, the way it is built, and what an entry does to it, for the entries that
-- are alive under a clock.
pub record Indexed (X : Type 0) : Type 1 where
  pub idx : LightDb → X
  pub build : Entry → LightDb → LightDb
  pub apply : X → Entry → X
  pub Alive : (ℕ → ℕ) → Entry → Type 0
  pub build_lem :
      (e : Entry) (d : LightDb)
      → Alive d.clock e
      → Same d (build e d) × (idx (build e d) ≡ apply (idx d) e)
  pub apply-read_back : (x : X) (e : Entry) → apply x (read_back e) ≡ apply x e
  pub Alive-read_back : (c : ℕ → ℕ) (e : Entry) → Alive c e → Alive c (read_back e)
  pub idx-outcomes : (d : LightDb) (os : List Outcome) → idx (record d { outcomes = os }) ≡ idx d

-- The entries that a load brings back.
pub record Loadable (e : Entry) : Type 0 where
  pub fits : Fits e
  pub sized : length (encode e) < 2 ^ 32
  pub has_key : is_empty_key e.key ≡ false
