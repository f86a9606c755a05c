-- ===== src/Middleware/Limited.antt =====
-- Which address drs-verify/pkg/middleware/ratelimit.go counts a request under, and which tokens it
-- takes.
use drs.Prelude.{
  ℕ, Bool, true, false, [], ◌∷◌, ◌++◌, ++-assoc, ++-nil, eqb, last_of, All, arith, ◌≡◌, ◌≢◌, inl,
  inr, refl, sym, ap, ◌∙◌, Bool-cases,
}
use drs.Prelude.Lru.{Lru}
use drs.Prelude.Text.{Text, is_empty, split, split_from}
use drs.Prelude.Trim.{trim_space}
use drs.Middleware.RateLimit.{
  Incoming, Net, Bucket, Limits, passed, too_many_requests, rightmost, client_ip, is_exempt,
  get_or_create, after_global, after_ip, admit,
}

-- A split is not empty, so its last entry does not hang on the default.
last_of-split_from :
    (x y cur s : Text) (sep : ℕ)
    → last_of x (split_from cur sep s) ≡ last_of y (split_from cur sep s)
unfolding split_from last_of
last_of-split_from x y cur [] sep = refl
last_of-split_from x y cur (c ∷ s) sep = elim (Bool-cases (eqb c sep)) [
  | inl ends ↦ rw ends refl
  | inr inside ↦ rw inside (last_of-split_from x y (cur ++ c ∷ []) s sep)
]

split_from-last :
    (x cur s t : Text) (sep : ℕ)
    → last_of x (split_from cur sep (s ++ sep ∷ t)) ≡ last_of x (split_from [] sep t)
unfolding split_from last_of
split_from-last x cur [] t sep =
    let same : eqb sep sep ≡ true = ground arith in rw same (last_of-split_from cur x [] t sep)
split_from-last x cur (c ∷ s) t sep = elim (Bool-cases (eqb c sep)) [
  | inl ends ↦ rw ends (split_from-last cur [] s t sep ∙ last_of-split_from cur x [] t sep)
  | inr inside ↦ rw inside (split_from-last x (cur ++ c ∷ []) s t sep)
]

split_from-one :
    (cur t : Text) (sep : ℕ) → All (λ c. c ≢ sep) t → split_from cur sep t ≡ (cur ++ t) ∷ []
unfolding split_from
split_from-one cur [] sep h = ap (λ (v : Text). v ∷ []) (sym (++-nil cur))
split_from-one cur (c ∷ t) sep (other, h) =
    let apart : eqb c sep ≡ false = ground arith in
    rw apart
      (split_from-one (cur ++ c ∷ []) t sep h ∙ ap (λ (v : Text). v ∷ []) (++-assoc cur (c ∷ []) t))

rightmost-append :
    (s ip : Text) → All (λ c. c ≢ b',') ip → rightmost (s ++ b',' ∷ ip) ≡ trim_space ip
unfolding rightmost split last_of
rightmost-append s ip h =
    ap trim_space (split_from-last [] [] s ip b',' ∙ ap (last_of []) (split_from-one [] ip b',' h))

not_empty : (s t : Text) (c : ℕ) → is_empty (s ++ c ∷ t) ≡ false
not_empty [] t c = refl
not_empty (d ∷ s) t c = refl

-- Behind a trusted proxy a request is counted under the address that the proxy appended, whatever
-- the client put before it; and without one X-Forwarded-For is not read at all.
pub client_ip_proxied :
    (net : Net) (r : Incoming) (spoofed ip : Text)
    → All (λ c. c ≢ b',') ip
    → net.is_ip (trim_space ip) ≡ true
    → (client_ip net true (record r { forwarded_for = spoofed ++ b',' ∷ ip }) ≡ trim_space ip)
      × (client_ip net false (record r { forwarded_for = spoofed ++ b',' ∷ ip })
          ≡ client_ip net false r)
unfolding client_ip
client_ip_proxied net r spoofed ip plain valid =
    (rw (not_empty spoofed ip b',', rightmost-append spoofed ip plain, valid) refl, refl)

module _ {B S : Type 0} (bucket : Bucket B) (buckets : Lru B S) where
  passed_global : (o : Bool × B) (s : S) → (after_global bucket buckets o s).0 ≡ passed → o.0 ≡ true
  passed_global (true, g) s h = refl
  passed_global (false, g) s h = cc

  passed_ip :
      (now : ℕ) (ip : Text) (global : B) (o : Bool × B) (s : S)
      → (after_ip bucket buckets now ip global o s).0 ≡ passed
      → (o.0 ≡ true) × ((bucket.allow now global).0 ≡ true)
  passed_ip now ip global (true, b) s h =
      (refl, passed_global (bucket.allow now global) (buckets.add ip b s) h)
  passed_ip now ip global (false, b) s h = cc

  refused_ip :
      (now : ℕ) (ip : Text) (global : B) (o : Bool × B) (s : S)
      → o.0 ≡ false
      → ((after_ip bucket buckets now ip global o s).0 ≡ too_many_requests)
        × ((after_ip bucket buckets now ip global o s).1.global ≡ global)
  refused_ip now ip global (true, b) s h = cc
  refused_ip now ip global (false, b) s h = (refl, refl)

  -- A health check passes and takes no token. Any other request is let through only with a token of
  -- its address and a global one, and where its address has none left, no global token is taken.
  pub admit_takes :
      (net : Net) (trust_proxy : Bool) (now : ℕ) (r : Incoming) (limits : Limits B S)
      → (is_exempt r.path ≡ true
          → admit bucket buckets net trust_proxy now r limits ≡ (passed, limits))
        × (is_exempt r.path ≡ false
            → (admit bucket buckets net trust_proxy now r limits).0 ≡ passed
            → ((bucket.allow now
                  (get_or_create bucket buckets (client_ip net trust_proxy r) limits.per_ip).0).0
                ≡ true)
              × ((bucket.allow now limits.global).0 ≡ true))
        × (is_exempt r.path ≡ false
            → (bucket.allow now
                (get_or_create bucket buckets (client_ip net trust_proxy r) limits.per_ip).0).0
              ≡ false
            → ((admit bucket buckets net trust_proxy now r limits).0 ≡ too_many_requests)
              × ((admit bucket buckets net trust_proxy now r limits).1.global ≡ limits.global))
  unfolding admit
  admit_takes net trust_proxy now r limits = (
    λ exempt. rw exempt refl,
    λ counted h.
        passed_ip now (client_ip net trust_proxy r) limits.global _ _ (rw (counted, admit) at h),
    λ counted refused.
        rw counted (refused_ip now (client_ip net trust_proxy r) limits.global _ _ refused),
  )
