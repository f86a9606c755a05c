-- ===== src/Nonce/Claims.antt =====
-- drs-verify/pkg/nonce/store.go over a run of calls of Check: claims and capacity.
use native.Mathlib.Nat.{le_trans}
use drs.Prelude.{
  ◌≤◌, ◌≡◌, inl, inr, refl, ◌∙◌, true, false, List, [], ◌∷◌, none, some, leb, arith, if◌then◌else◌,
  length, All, Bool-cases, Option-cases,
}
use drs.Prelude.Int.{ℤ}
use drs.Prelude.Text.{Text, ◌==◌, ==_iff}
use drs.Nonce.{
  Seen, Store, accepted, replay_detected, store_exhausted, lookup, delete, is_live, evict,
  make_room, insert_if_room, check, check_all,
}

lookup-delete :
    (j k : Text) (m : Seen) → lookup j (delete k m) ≡ (if k == j then none else lookup j m)
unfolding lookup delete
lookup-delete j k [] = ground arith
lookup-delete j k ((i, at) ∷ m) =
    ground (arith, lookup-delete j k m, ==_iff i k, ==_iff i j, ==_iff k j)

module _ (ttl now : ℤ) where
  lookup-evict :
      (j : Text) (at : ℤ) (m : Seen)
      → lookup j m ≡ some at
      → is_live ttl now at ≡ true
      → lookup j (evict ttl now m) ≡ some at
  unfolding lookup evict
  lookup-evict j at [] h live = cc
  lookup-evict j at ((i, t) ∷ m) h live = elim (Bool-cases (i == j)) [
    | inl hit ↦ let same : t ≡ at = ground arith in rw (same, live, hit)
    | inr miss ↦ elim (Bool-cases (is_live ttl now t)) [
      | inl kept ↦ rw (kept, miss) (lookup-evict j at m (rw miss at h) live)
      | inr gone ↦ rw gone (lookup-evict j at m (rw miss at h) live)
    ]
  ]

  length-evict-le : (m : Seen) → length (evict ttl now m) ≤ length m
  unfolding evict
  length-evict-le [] = omega arith
  length-evict-le ((i, t) ∷ m) = ground (arith, length-evict-le m)

  evict-All : (m : Seen) → All (λ e. is_live ttl now e.1 ≡ true) (evict ttl now m)
  unfolding evict
  evict-All [] = tt
  evict-All ((i, t) ∷ m) = elim (Bool-cases (is_live ttl now t)) [
    | inl kept ↦ rw kept (kept, evict-All m)
    | inr gone ↦ rw gone (evict-All m)
  ]

pub length-delete-le : (k : Text) (m : Seen) → length (delete k m) ≤ length m
unfolding delete
length-delete-le k [] = omega arith
length-delete-le k ((i, t) ∷ m) = ground (arith, length-delete-le k m)

-- The claim of `jti` at the time `at` is recorded.
abbrev pub Holds : Text → ℤ → ℤ → Store → Type 0
Holds jti at ttl s = (lookup jti s.seen ≡ some at) × (s.ttl ≡ ttl)

module _ (jti : Text) (at : ℤ) where
  make_room-keeps :
      (s : Store) (now : ℤ) (m : Seen)
      → lookup jti m ≡ some at
      → is_live s.ttl now at ≡ true
      → lookup jti (make_room s now m) ≡ some at
  unfolding make_room
  make_room-keeps s now m h live = ground (arith, lookup-evict s.ttl now jti at m)

  insert-keeps :
      (s : Store) (k : Text) (now : ℤ) (m : Seen)
      → (k == jti) ≡ false
      → lookup jti m ≡ some at
      → Holds jti at s.ttl (insert_if_room s k now m).1
  unfolding insert_if_room lookup
  insert-keeps s k now m other h = elim (Bool-cases (leb s.max_entries (length m))) [
    | inl full ↦ rw full (h, refl)
    | inr room ↦ rw room (rw other h, refl)
  ]

  -- One more Check, of any JTI, at a time at which the claim is live.
  check-keeps :
      (s : Store) (k : Text) (now : ℤ)
      → lookup jti s.seen ≡ some at
      → is_live s.ttl now at ≡ true
      → Holds jti at s.ttl (check s k now).1
  check-keeps s k now h live = elim (Bool-cases (k == jti)) [
    | inl same ↦
        let e : k ≡ jti = (==_iff k jti).0 same in rw e (unfold check in rw (h, live) (h, refl))
    | inr other ↦ elim (Option-cases (lookup k s.seen)) [
      | inl fresh ↦
          unfold check in
          rw fresh (insert-keeps s k now _ other (make_room-keeps s now s.seen h live))
      | inr (t, old) ↦ elim (Bool-cases (is_live s.ttl now t)) [
        | inl live' ↦ unfold check in rw (old, live') (h, refl)
        | inr dead ↦
            let kept =
              make_room-keeps s now (delete k s.seen) (lookup-delete jti k s.seen ∙ (rw other h))
                live in
            unfold check in rw (old, dead) (insert-keeps s k now _ other kept)
      ]
    ]
  ]

  run-keeps :
      (s : Store) (calls : List (Text × ℤ))
      → lookup jti s.seen ≡ some at
      → All (λ c. is_live s.ttl c.1 at ≡ true) calls
      → Holds jti at s.ttl (check_all s calls)
  unfolding check_all
  run-keeps s [] h live = (h, refl)
  run-keeps s ((k, now) ∷ calls) h live =
      let (held, same) = check-keeps s k now h live.0 in
      let later = run-keeps (check s k now).1 calls held (rw same live.1) in
      (later.0, later.1 ∙ same)

replay_of_live :
    (s : Store) (jti : Text) (at now : ℤ)
    → lookup jti s.seen ≡ some at
    → is_live s.ttl now at ≡ true
    → check s jti now ≡ (replay_detected, s)
unfolding check
replay_of_live s jti at now h live = rw (h, live)

insert-accepted :
    (s : Store) (jti : Text) (now : ℤ) (m : Seen)
    → (insert_if_room s jti now m).0 ≡ accepted
    → Holds jti now s.ttl (insert_if_room s jti now m).1
unfolding insert_if_room lookup
insert-accepted s jti now m h = elim (Bool-cases (leb s.max_entries (length m))) [
  | inl full ↦ cc (rw (full, insert_if_room) at h)
  | inr room ↦ rw room (rw ((==_iff jti jti).1 refl) refl, refl)
]

pub accepted-Holds :
    (s : Store) (jti : Text) (now : ℤ)
    → (check s jti now).0 ≡ accepted
    → Holds jti now s.ttl (check s jti now).1
unfolding check
accepted-Holds s jti now h = elim (Option-cases (lookup jti s.seen)) [
  | inl fresh ↦ rw fresh (insert-accepted s jti now _ (rw (fresh, check) at h))
  | inr (t, old) ↦ elim (Bool-cases (is_live s.ttl now t)) [
    | inl live ↦ cc (rw (old, live, check) at h)
    | inr dead ↦ rw (old, dead) (insert-accepted s jti now _ (rw (old, dead, check) at h))
  ]
]

-- Once Check has accepted a JTI, every later Check of it is refused as a replay and changes
-- nothing, whatever calls came between, as long as the claim is live at each of their times.
pub check_replay :
    (s : Store) (jti : Text) (at now : ℤ) (calls : List (Text × ℤ))
    → (check s jti at).0 ≡ accepted
    → All (λ c. is_live s.ttl c.1 at ≡ true) calls
    → is_live s.ttl now at ≡ true
    → check (check_all (check s jti at).1 calls) jti now
      ≡ (replay_detected, check_all (check s jti at).1 calls)
check_replay s jti at now calls h between live =
    let (held, same) = accepted-Holds s jti at h in
    let (still, same') = run-keeps jti at (check s jti at).1 calls held (rw same between) in
    replay_of_live _ jti at now still (rw (same', same) live)

-- The invariant: no more entries than the capacity.
abbrev pub IsBounded : Store → Type 0
IsBounded s = length s.seen ≤ s.max_entries

make_room-le : (s : Store) (now : ℤ) (m : Seen) → length (make_room s now m) ≤ length m
unfolding make_room
make_room-le s now m = ground (arith, length-evict-le s.ttl now m)

insert-IsBounded :
    (s : Store) (jti : Text) (now : ℤ) (m : Seen)
    → length m ≤ s.max_entries
    → IsBounded (insert_if_room s jti now m).1
unfolding insert_if_room
insert-IsBounded s jti now m h = ground arith

-- Check keeps a store within its capacity, on every branch.
pub check-IsBounded :
    (s : Store) (jti : Text) (now : ℤ) → IsBounded s → IsBounded (check s jti now).1
unfolding check
check-IsBounded s jti now h = elim (Option-cases (lookup jti s.seen)) [
  | inl fresh ↦ rw fresh (insert-IsBounded s jti now _ (le_trans (make_room-le s now s.seen) h))
  | inr (t, old) ↦ elim (Bool-cases (is_live s.ttl now t)) [
    | inl live ↦ rw (old, live) h
    | inr dead ↦
        rw (old, dead)
          (insert-IsBounded s jti now _ (
            le_trans (make_room-le s now (delete jti s.seen))
              (le_trans (length-delete-le jti s.seen) h)))
  ]
]

room_exhausted :
    (s : Store) (jti : Text) (now : ℤ) (m : Seen)
    → (insert_if_room s jti now (make_room s now m)).0 ≡ store_exhausted
    → All (λ e. is_live s.ttl now e.1 ≡ true) (insert_if_room s jti now (make_room s now m)).1.seen
      × (s.max_entries ≤ length (insert_if_room s jti now (make_room s now m)).1.seen)
unfolding insert_if_room make_room
room_exhausted s jti now m h = elim (Bool-cases (leb s.max_entries (length m))) [
  | inr room ↦ cc (rw (room, insert_if_room, make_room) at h)
  | inl full ↦ elim (Bool-cases (leb s.max_entries (length (evict s.ttl now m)))) [
    | inr room ↦ cc (rw (full, room, insert_if_room, make_room) at h)
    | inl still ↦ rw (full, still) (evict-All s.ttl now m, ground arith)
  ]
]

-- Check reports exhaustion only where the store is full of claims that are all live.
pub check_exhausted :
    (s : Store) (jti : Text) (now : ℤ)
    → (check s jti now).0 ≡ store_exhausted
    → All (λ e. is_live s.ttl now e.1 ≡ true) (check s jti now).1.seen
      × (s.max_entries ≤ length (check s jti now).1.seen)
unfolding check
check_exhausted s jti now h = elim (Option-cases (lookup jti s.seen)) [
  | inl fresh ↦ rw fresh (room_exhausted s jti now s.seen (rw (fresh, check) at h))
  | inr (t, old) ↦ elim (Bool-cases (is_live s.ttl now t)) [
    | inl live ↦ cc (rw (old, live, check) at h)
    | inr dead ↦
        rw (old, dead) (room_exhausted s jti now (delete jti s.seen) (rw (old, dead, check) at h))
  ]
]
