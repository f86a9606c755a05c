-- ===== src/Storage/Memory.antt =====
-- MemoryStore of drs-verify/pkg/store/memory.go: each method is one call of the LRU cache, whose
-- lock makes it one step.
use drs.Prelude.{ℕ, Option, none, some, Result, ok, err, ltb, if◌then◌else◌, ◌≡◌, refl, ap}
use drs.Prelude.Lru.{Lru, IsLru}
use drs.Prelude.Text.{Text}
use drs.Storage.Filesystem.{StoreError, not_found}

abbrev pub default_capacity : ℕ
default_capacity = 10000

-- NewMemoryStore has the default for 0.
abbrev pub capacity_or_default : ℕ → ℕ
capacity_or_default n = if ltb 0 n then n else default_capacity

abbrev pub value_or_missing : Option Text → Result StoreError Text
value_or_missing none = err not_found
value_or_missing (some v) = ok v

module _ {S : Type 0} (cache : Lru Text S) where
  unfoldable pub put : Text → Text → S → Option StoreError × S
  put hash jwt s = (none, cache.add hash jwt s)

  unfoldable pub get : Text → S → Result StoreError Text × S
  get hash s = (value_or_missing (cache.get hash s).0, (cache.get hash s).1)

  unfoldable pub delete : Text → S → Option StoreError × S
  delete hash s = (none, cache.remove hash s)

  module _ (laws : IsLru cache) where
    -- Put reports no error, and a Get right after it gives the JWT back; after Delete a Get finds
    -- nothing.
    pub get-put-delete :
        (hash jwt : Text) (s : S)
        → ((put hash jwt s).0 ≡ none)
          × ((get hash (put hash jwt s).1).0 ≡ ok jwt)
          × ((get hash (delete hash s).1).0 ≡ err not_found)
    unfolding put get delete
    get-put-delete hash jwt s = (
      refl,
      ap value_or_missing (laws.added hash jwt s),
      ap value_or_missing (laws.removed hash s),
    )
