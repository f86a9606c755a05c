-- ===== src/Prelude/Lru.antt =====
-- The cache of hashicorp/golang-lru that drs-verify uses, as an interface: a cache that may forget
-- entries, but never has one that was not added.
use mathlib.Core.Path.{◌≡◌}
use mathlib.Core.Logic.{◌≢◌}
use mathlib.Core.Option.{Option, none, some}
use drs.Prelude.Text.{Text}

-- Get changes which entry is the next to be evicted, so it has a new state too.
pub record Lru (V S : Type 0) : Type 0 where
  pub get : Text → S → Option V × S
  pub add : Text → V → S → S
  pub remove : Text → S → S

abbrev pub entry : {V S : Type 0} → Lru V S → Text → S → Option V
entry lru k s = (lru.get k s).0

-- What the documentation says of Get, Add and Remove, where the size is positive.
pub record IsLru {V S : Type 0} (lru : Lru V S) : Type 0 where
  pub get_keeps : (j k : Text) (s : S) → entry lru j (lru.get k s).1 ≡ entry lru j s
  pub added : (k : Text) (v : V) (s : S) → entry lru k (lru.add k v s) ≡ some v
  pub add_keeps :
      (j k : Text) (v w : V) (s : S)
      → j ≢ k
      → entry lru j (lru.add k v s) ≡ some w
      → entry lru j s ≡ some w
  pub removed : (k : Text) (s : S) → entry lru k (lru.remove k s) ≡ none
  pub remove_keeps :
      (j k : Text) (w : V) (s : S) → entry lru j (lru.remove k s) ≡ some w → entry lru j s ≡ some w
