-- ===== src/Revocation/Listed.antt =====
-- What concurrent calls of IsRevoked in drs-verify/pkg/revocation/status.go answer from: the list of
-- the last fetch that gave one.
use drs.Prelude.{
  ℕ, zero, suc, ◌*◌, ◌<◌, List, [], ◌∷◌, get_elem?, subst, arith, Result, err, Result-cases, ◌≡◌,
  inl, inr, refl, sym, ap, ◌∙◌, Bool, true, false, some, ok, length,
}
use drs.Prelude.Text.{Text, is_empty}
use drs.Revocation.Status.{StatusCache, Fetch, Error, fetched, refresh, read_bit}
use drs.Revocation.Bits.{all_bits, bit_or_false, get_bit_lem}
use drs.Revocation.FailClosed.{IsListed, read_bit-ok}
use drs.Revocation.Refreshing.{
  Shared, Pc, answered, Move, ask, give_up, published, unpublished, lock_init, overtaken,
  fetch_first, first_list, no_list, fresh, old, lock_refresh, refreshed, fetch_again, refetched,
  read, return, System, pick, Reach, begin, later,
}
use drs.Revocation.Interleaved.{has_seen}

abbrev pub newer : Result Error Text → Text → Text
newer (ok list) old_list = list
newer (err e) old_list = old_list

-- The list after one step of a call: a fetch that gives a list replaces the one before it.
abbrev pub after_move : {i : ℕ} {m m' : Shared} {p p' : Pc} → Move i m p m' p' → Text → Text
after_move (first_list f at _) list = newer (fetched f) list
after_move (no_list f at e _) list = newer (fetched f) list
after_move (refetched f at) list = newer (fetched f) list
after_move _ list = list

-- The list of the last fetch of a run that gave one, and before that the list that the cache began
-- with.
abbrev pub latest : {cache : StatusCache} {s : System} → Reach cache s → Text
latest {cache} begin = cache.bitstring
latest (later reach (pick i mv)) = after_move mv (latest reach)

-- The list is of an accepted size, and the answer is its entry at the index, where the bits of a byte
-- are listed from the highest one on.
abbrev pub IsAnswered : Text → ℕ → Bool → Type 0
IsAnswered bits index b = IsListed bits × (get_elem? (all_bits bits) index ≡ some b)

length-all_bits : (s : Text) → length (all_bits s) ≡ 8 * length s
length-all_bits [] = refl
length-all_bits (b ∷ s) = omega (arith, length-all_bits s)

entry_within :
    (l : List Bool) (i : ℕ) → i < length l → get_elem? l i ≡ some (bit_or_false (get_elem? l i))
entry_within [] i h = absurd (omega arith)
entry_within (b ∷ l) zero h = refl
entry_within (b ∷ l) (suc i) h = entry_within l i (omega arith)

read_bit-IsAnswered :
    (c : StatusCache) (index : ℕ) (b : Bool)
    → IsListed c.bitstring
    → read_bit c index ≡ ok b
    → IsAnswered c.bitstring index b
read_bit-IsAnswered c index b listed h =
    let (within, bit) = read_bit-ok c index b listed h in
    let size = length-all_bits c.bitstring in
    (
      listed,
      entry_within (all_bits c.bitstring) index (omega arith)
          ∙ ap (λ (x : Bool). some x) (sym (bit ∙ get_bit_lem c.bitstring index)),
    )

-- The answer of a step, of a call that has seen a list.
pub new_answer :
    {i : ℕ} {m m' : Shared} {p p' : Pc}
    → Move i m p m' p'
    → (has_seen p ≡ true → IsListed m.cache.bitstring)
    → (index : ℕ) (b : Bool) → p' ≡ answered index (ok b)
    → IsAnswered m.cache.bitstring index b
new_answer {m} (read {index = k}) listed index b h =
    let same : k ≡ index = cc in
    let bit : read_bit m.cache k ≡ ok b = cc in
    subst (λ (n : ℕ). IsAnswered m.cache.bitstring n b) same
      (read_bit-IsAnswered m.cache k b (listed refl) bit)
new_answer (ask _) listed index b h = cc
new_answer give_up listed index b h = cc
new_answer (published _) listed index b h = cc
new_answer (unpublished _) listed index b h = cc
new_answer (lock_init _) listed index b h = cc
new_answer (overtaken _) listed index b h = cc
new_answer (fetch_first _) listed index b h = cc
new_answer (first_list _ _ _) listed index b h = cc
new_answer (no_list _ _ _ _) listed index b h = cc
new_answer (fresh _ _) listed index b h = cc
new_answer (old _ _) listed index b h = cc
new_answer (lock_refresh _) listed index b h = cc
new_answer (refreshed _ _) listed index b h = cc
new_answer (fetch_again _ _) listed index b h = cc
new_answer (refetched _ _) listed index b h = cc
new_answer return listed index b h = cc

newer-refresh :
    (c : StatusCache) (f : Fetch) (at : ℕ)
    → is_empty c.base_url ≡ false
    → (refresh c f at).1.bitstring ≡ newer (fetched f) c.bitstring
unfolding refresh
newer-refresh c f at set = elim (Result-cases (fetched f)) [
  | inl (buf, got) ↦ rw (set, got) refl
  | inr (e, lost) ↦ rw (set, lost) refl
]

pub move-latest :
    {i : ℕ} {m m' : Shared} {p p' : Pc} (mv : Move i m p m' p')
    → is_empty m.cache.base_url ≡ false
    → m'.cache.bitstring ≡ after_move mv m.cache.bitstring
move-latest (first_list f at _) set = newer-refresh _ f at set
move-latest (no_list f at e _) set = newer-refresh _ f at set
move-latest (refetched f at) set = newer-refresh _ f at set
move-latest (ask _) set = refl
move-latest give_up set = refl
move-latest (published _) set = refl
move-latest (unpublished _) set = refl
move-latest (lock_init _) set = refl
move-latest (overtaken _) set = refl
move-latest (fetch_first _) set = refl
move-latest (fresh _ _) set = refl
move-latest (old _ _) set = refl
move-latest (lock_refresh _) set = refl
move-latest (refreshed _ _) set = refl
move-latest (fetch_again _ _) set = refl
move-latest read set = refl
move-latest return set = refl
