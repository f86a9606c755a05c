-- ===== src/Resolver/Replies.antt =====
-- Which replies resolveDidWeb of drs-verify/pkg/resolver/did.go takes a key from.
use drs.Prelude.{
  ℕ, suc, ◌+◌, ◌≤◌, false, List, [], ◌∷◌, Option, none, some, eqb, eqb_iff, ltb, length, take,
  arith, ◌≡◌, ◌↔◌, inl, inr, refl, ap, ◌∙◌, Bool-cases,
}
use mathlib.Core.Option.{some-injective}
use drs.Prelude.Text.{Text}
use drs.Resolver.DidKey.{Resolved, key, failed, crashed}
use drs.Resolver.Document.{Method, of_document}
use drs.Resolver.DocumentKeys.{FirstKey, extract_iff}
use drs.Resolver.DidWeb.{
  Reply, unbuilt, unreachable, answered, Network, max_document, settled, read_body, of_reply, fetch,
}

-- The document at the URL, within the limit, names the key.
abbrev pub Serves : Network → Text → Text → Type 0
Serves net url k =
    (body : Text) × (net.http_get url ≡ answered 200 (some body))
    × (length body ≤ max_document)
    × (vms : List Method) × (net.unmarshal_document body ≡ some vms)
    × FirstKey vms k

take-short : (n : ℕ) (s : Text) → length s ≤ n → take n s ≡ s
take-short ℕ.zero [] h = refl
take-short ℕ.zero (c ∷ s) h = absurd (omega arith)
take-short (suc n) [] h = refl
take-short (suc n) (c ∷ s) h = ap (λ (v : Text). c ∷ v) (take-short n s (omega arith))

length-take-long : (n : ℕ) (s : Text) → n ≤ length s → length (take n s) ≡ n
length-take-long ℕ.zero s h = refl
length-take-long (suc n) [] h = absurd (omega arith)
length-take-long (suc n) (c ∷ s) h = ap suc (length-take-long n s (omega arith))

past : (m n : ℕ) → n ≡ m + 1 → ltb m n ≡ false → ⊥
past m n e h = ground arith

-- What is read past the limit tells whether the body is.
limit_passed : (m : ℕ) (s : Text) → (ltb m (length (take (m + 1) s)) ≡ false) ↔ (length s ≤ m)
limit_passed m s = (
  λ h. elim (Bool-cases (ltb m (length s))) [
    | inl long ↦ absurd (past m _ (length-take-long (m + 1) s (ground arith)) h)
    | inr short ↦ ground arith
  ],
  λ h. rw (take-short (m + 1) s (omega arith)) (ground arith),
)

settled-same : (r : Resolved) → (settled r).0 ≡ r
settled-same (key k) = refl
settled-same (failed e) = refl
settled-same crashed = refl

of_document_iff :
    (o : Option (List Method)) (k : Text)
    → (of_document o ≡ key k) ↔ ((vms : List Method) × (o ≡ some vms) × FirstKey vms k)
of_document_iff none k = (λ h. cc, λ (vms, e, named). cc)
of_document_iff (some vms) k = (
  λ h. (vms, refl, (extract_iff vms k).0 h),
  λ (vms', e, named). (extract_iff vms k).1 (rw (some-injective _ _ e) named),
)

read_body_iff :
    (net : Network) (o : Option Text) (k : Text)
    → ((read_body net o).0 ≡ key k) ↔ (
        (body : Text) × (o ≡ some body)
        × (length body ≤ max_document)
        × (vms : List Method) × (net.unmarshal_document body ≡ some vms)
        × FirstKey vms k)
read_body_iff net none k = (λ h. cc, λ h. cc (h.1))
read_body_iff net (some body) k =
    elim (Bool-cases (ltb max_document (length (take (max_document + 1) body)))) [
      | inl long ↦ rw long (
        λ h. cc,
        λ (body', e, small, rest0, rest1, rest2).
            let same : body ≡ body' = some-injective _ _ e in
            cc (long, (limit_passed max_document body).1 (rw same small)),
      )
      | inr short ↦
          let small = (limit_passed max_document body).0 short in
          rw (short, settled-same, take-short (max_document + 1) body (omega arith))
            (
              λ h.
                  let (vms, read, named) = (of_document_iff (net.unmarshal_document body) k).0 h in
                  (body, refl, small, vms, read, named),
              λ (body', e, small', vms, read, named).
                  let same : body ≡ body' = some-injective _ _ e in
                  (of_document_iff (net.unmarshal_document body) k).1
                    (vms, ap net.unmarshal_document same ∙ read, named),
            )
    ]

status_same : (a b : ℕ) (o p : Option Text) → answered a o ≡ answered b p → a ≡ b
status_same a b o p h = cc

body_same : (a b : ℕ) (o p : Option Text) → answered a o ≡ answered b p → o ≡ p
body_same a b o p h = cc

of_reply_iff :
    (net : Network) (r : Reply) (k : Text)
    → ((of_reply net r).0 ≡ key k) ↔ (
        (body : Text) × (r ≡ answered 200 (some body))
        × (length body ≤ max_document)
        × (vms : List Method) × (net.unmarshal_document body ≡ some vms)
        × FirstKey vms k)
of_reply_iff net unbuilt k = (λ h. cc, λ h. cc (h.1))
of_reply_iff net unreachable k = (λ h. cc, λ h. cc (h.1))
of_reply_iff net (answered status o) k = elim (Bool-cases (eqb status 200)) [
  | inr other ↦ rw other (
    λ h. cc,
    λ h. absurd (ground (arith, (eqb_iff status 200).1 (status_same status 200 o (some h.0) h.1))),
  )
  | inl fine ↦
      let good : status ≡ 200 = (eqb_iff status 200).0 fine in
      rw fine (
        λ h.
            let (body, e, small, vms, read, named) = (read_body_iff net o k).0 h in
            (
              body,
              ap (answered status) e ∙ ap (λ (n : ℕ). answered n (some body)) good,
              small,
              vms,
              read,
              named,
            ),
        λ (body, e, small, vms, read, named).
            (read_body_iff net o k).1
              (body, body_same status 200 o (some body) e, small, vms, read, named),
      )
]

pub fetch_iff :
    (net : Network) (url k : Text) → ((fetch net false url).0 ≡ key k) ↔ Serves net url k
unfolding fetch
fetch_iff net url k = of_reply_iff net (net.http_get url) k
