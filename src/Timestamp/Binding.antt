-- ===== src/Timestamp/Binding.antt =====
-- What the signed attributes bind to the token, after verifySignedAttrsBinding of
-- drs-verify/pkg/anchor/rfc3161.go.
use drs.Prelude.{
  ◌≡◌, ◌↔◌, ◌⊎◌, inl, inr, refl, sym, ap, subst, Bool, true, false, List, [], ◌∷◌, Option, none,
  some, if◌then◌else◌, ok, Checked, fail_if, ◌>>=◌, ◌>>◌, Bool-cases, >>-eq-ok_iff,
  fail_if-eq-ok_iff, >>=-eq-ok, ok-injective,
}
use drs.Prelude.Text.{Text, ◌==◌, ==_iff}
use drs.Prelude.Guards.{unless_equal}
use drs.Timestamp.Token.{
  Oid, RawValue, SignerInfo, CmsAttribute, Library, oid_tst_info, oid_content_type_attr,
  oid_message_digest_attr, sha256_oid, sha384_oid, sha512_oid,
}
use drs.Timestamp.Attributes.{
  AttributeError, parse_attribute_set, content_type_of, check_content_type_attr, hasher_for,
  digest_of, check_message_digest_attr, check_attributes, attributes_of,
  verify_signed_attrs_binding,
}

unfoldable pub of_type : Oid → List CmsAttribute → List CmsAttribute
of_type oid [] = []
of_type oid (a ∷ rest) =
    let others = of_type oid rest in if a.type_oid == oid then a ∷ others else others

-- Before the type was seen there is one attribute of it, with the property; afterwards there is none.
abbrev Once : Bool → (CmsAttribute → Type 0) → List CmsAttribute → Type 0
Once true P l = l ≡ []
Once false P l = (a : CmsAttribute) × (l ≡ a ∷ []) × P a

module _ (P : CmsAttribute → Type 0) (a : CmsAttribute) (l : List CmsAttribute) where
  Once-cons : (seen : Bool) → Once seen P (a ∷ l) ↔ ((seen ≡ false) × P a × Once true P l)
  Once-cons true = (λ h. cc, λ h. cc)
  Once-cons false = (
    λ (b, e, h). let same : a ≡ b = cc in (refl, rw same h, cc),
    λ (e, h, n). (a, ap (λ (m : List CmsAttribute). a ∷ m) n, h),
  )

×_swap : {A B C : Type 0} → A ↔ (B × C) → A ↔ (C × B)
×_swap (to, from) = (λ a. ((to a).1, (to a).0), λ (c, b). from (b, c))

-- One round of the loop, at an attribute of a type that is looked for.
round_iff :
    {E : Type 0} (P : CmsAttribute → Type 0) (D : Type 0) (a : CmsAttribute) (l : List CmsAttribute)
    (seen : Bool) (e : E) (check next : Checked E)
    → (check ≡ ok tt) ↔ P a
    → (next ≡ ok tt) ↔ (Once true P l × D)
    → ((fail_if seen e >> (check >> next)) ≡ ok tt) ↔ (Once seen P (a ∷ l) × D)
round_iff P D a l seen e check next (to_P, from_P) (to_rest, from_rest) = (
  λ h.
      let (new, more) = (>>-eq-ok_iff _ _ tt).0 h in
      let (right, later) = (>>-eq-ok_iff _ _ tt).0 more in
      let (none_left, d) = to_rest later in
      ((Once-cons P a l seen).1 ((fail_if-eq-ok_iff seen e).0 new, to_P right, none_left), d),
  λ (one, d).
      let (new, right, none_left) = (Once-cons P a l seen).0 one in
      (>>-eq-ok_iff _ _ tt).1 (
        (fail_if-eq-ok_iff seen e).1 new,
        (>>-eq-ok_iff _ _ tt).1 (from_P right, from_rest (none_left, d)),
      ),
)

other_type :
    (oid : Oid) → (oid == oid_content_type_attr) ≡ true → (oid == oid_message_digest_attr) ≡ false
unfolding ◌==◌
other_type oid h =
    subst (λ (o : Oid). (o == oid_message_digest_attr) ≡ false) (sym ((==_iff oid _).0 h)) refl

module _ (lib : Library) (tst_bytes : Text) (digest_oid : Oid) where
  open lib use {asn1, x509}

  -- SHA-256, SHA-384 or SHA-512, as the object identifier names it
  abbrev pub IsHasher : (Text → Text) → Type 0
  IsHasher hash =
      ((digest_oid ≡ sha256_oid) × (hash ≡ x509.sha256))
      ⊎ ((digest_oid ≡ sha384_oid) × (hash ≡ x509.sha384))
      ⊎ ((digest_oid ≡ sha512_oid) × (hash ≡ x509.sha512))

  hasher_for-eq-ok_iff :
      (hash : Text → Text) → (hasher_for lib digest_oid ≡ ok hash) ↔ IsHasher hash
  unfolding hasher_for ◌==◌
  hasher_for-eq-ok_iff hash = (
    λ h. elim (Bool-cases (digest_oid == sha256_oid)) [
      | inl a ↦ inl ((==_iff _ _).0 a, sym (ok-injective (rw a at h)))
      | inr a ↦ elim (Bool-cases (digest_oid == sha384_oid)) [
        | inl b ↦ inr (inl ((==_iff _ _).0 b, sym (ok-injective (rw (a, b) at h))))
        | inr b ↦ elim (Bool-cases (digest_oid == sha512_oid)) [
          | inl c ↦ inr (inr ((==_iff _ _).0 c, sym (ok-injective (rw (a, b, c) at h))))
          | inr c ↦ cc (rw (a, b, c) at h)
        ]
      ]
    ],
    λ h. elim h [
      | inl (e, same) ↦ rw (e, same) refl
      | inr (inl (e, same)) ↦ rw (e, same) refl
      | inr (inr (e, same)) ↦ rw (e, same) refl
    ],
  )

  -- The attribute's only value is the object identifier id-ct-TSTInfo.
  abbrev pub IsTstContent : CmsAttribute → Type 0
  IsTstContent a = asn1.object_identifier a.values.bytes ≡ some (oid_tst_info, [])

  -- The attribute's only value is the digest of the TSTInfo.
  abbrev pub IsTstDigest : CmsAttribute → Type 0
  IsTstDigest a =
      (hash : Text → Text) × IsHasher hash
      × (asn1.octet_string a.values.bytes ≡ some (hash tst_bytes, []))

  -- Among the attributes are one content type and one message digest, which are the token's.
  abbrev pub BindsToken : List CmsAttribute → Type 0
  BindsToken attrs =
      ((a : CmsAttribute) × (of_type oid_content_type_attr attrs ≡ a ∷ []) × IsTstContent a)
      × ((a : CmsAttribute) × (of_type oid_message_digest_attr attrs ≡ a ∷ []) × IsTstDigest a)

  content_type_of_iff :
      (o : Option (Oid × Text)) → (content_type_of lib o ≡ ok tt) ↔ (o ≡ some (oid_tst_info, []))
  content_type_of_iff none = (λ h. cc, λ h. cc)
  content_type_of_iff (some (oid, b ∷ rest)) = (λ h. cc, λ h. cc)
  content_type_of_iff (some (oid, [])) =
      let (to, from) = unless_equal AttributeError.other_content_type oid oid_tst_info in
      (λ h. cc (to h), λ h. from (cc))

  digest_of_iff :
      (o : Option (Text × Text))
      → (digest_of lib tst_bytes digest_oid o ≡ ok tt)
        ↔ ((hash : Text → Text) × IsHasher hash × (o ≡ some (hash tst_bytes, [])))
  digest_of_iff none = (λ h. cc, λ h. cc)
  digest_of_iff (some (declared, b ∷ rest)) = (λ h. cc, λ h. cc)
  digest_of_iff (some (declared, [])) = (
    λ h.
        let (hash, e, same) = >>=-eq-ok (hasher_for lib digest_oid) _ h in
        let agree =
          (unless_equal AttributeError.digest_mismatch declared (hash tst_bytes)).0 same in
        (hash, (hasher_for-eq-ok_iff hash).0 e, rw agree refl),
    λ (hash, named, e).
        let agree : declared ≡ hash tst_bytes = cc in
        rw ((hasher_for-eq-ok_iff hash).1 named, ◌>>=◌)
          ((unless_equal AttributeError.digest_mismatch declared (hash tst_bytes)).1 agree),
  )

  check_attributes_iff :
      (ct_seen md_seen : Bool) (attrs : List CmsAttribute)
      → (check_attributes lib tst_bytes digest_oid ct_seen md_seen attrs ≡ ok tt) ↔ (
          Once ct_seen IsTstContent (of_type oid_content_type_attr attrs)
          × Once md_seen IsTstDigest (of_type oid_message_digest_attr attrs))
  unfolding check_attributes of_type check_content_type_attr check_message_digest_attr
  check_attributes_iff false md [] = (λ h. cc, λ ((a, e, h), k). cc)
  check_attributes_iff true false [] = (λ h. cc, λ (k, (a, e, h)). cc)
  check_attributes_iff true true [] = (λ h. (refl, refl), λ h. refl)
  check_attributes_iff ct md (a ∷ rest) = elim (Bool-cases (a.type_oid == oid_content_type_attr)) [
    | inl hit ↦
        rw (hit, other_type a.type_oid hit)
          (round_iff IsTstContent _ a _ ct _ _ _ (content_type_of_iff _)
            (check_attributes_iff true md rest))
    | inr miss ↦ elim (Bool-cases (a.type_oid == oid_message_digest_attr)) [
      | inl hit ↦
          rw (miss, hit)
            (×_swap (
              round_iff IsTstDigest _ a _ md _ _ _ (digest_of_iff _)
                (×_swap (check_attributes_iff ct true rest))))
      | inr other ↦ rw (miss, other) (check_attributes_iff ct md rest)
    ]
  ]

  abbrev binding_of : Option (RawValue × Text) → Checked AttributeError
  binding_of o = attributes_of lib o >>= check_attributes lib tst_bytes digest_oid false false

  binding_of_iff :
      (o : Option (RawValue × Text))
      → (binding_of o ≡ ok tt) ↔ (
          (outer : RawValue) × (rest : Text) × (attrs : List CmsAttribute) × (o
            ≡ some (outer, rest))
          × (parse_attribute_set lib outer.bytes ≡ ok attrs)
          × BindsToken attrs)
  binding_of_iff none = (λ h. cc, λ h. cc)
  binding_of_iff (some (outer, rest)) = (
    λ h.
        let (attrs, read, checked) = >>=-eq-ok (parse_attribute_set lib outer.bytes) _ h in
        (outer, rest, attrs, refl, read, (check_attributes_iff false false attrs).0 checked),
    λ (outer', rest', attrs, e, read, binds).
        let same : outer ≡ outer' = cc in
        rw (same, read) ((check_attributes_iff false false attrs).1 binds),
  )

module _ (lib : Library) (si : SignerInfo) (tst_bytes : Text) where
  -- The signed attributes decode, in full, to a list that binds the given bytes.
  abbrev pub IsBound : Type 0
  IsBound =
      (outer : RawValue) × (rest : Text) × (attrs : List CmsAttribute) × (lib.asn1.raw_value
          si.signed_attrs.full_bytes
        ≡ some (outer, rest))
      × (parse_attribute_set lib outer.bytes ≡ ok attrs)
      × BindsToken lib tst_bytes si.digest_algorithm attrs

  -- The signed attributes of a SignerInfo pass exactly when they decode, in full, to a list with one
  -- content type, the identifier of a TSTInfo, and one message digest, which is that of the given
  -- bytes under the SignerInfo's hash algorithm, SHA-256, SHA-384 or SHA-512.
  pub verify_signed_attrs_binding-eq-ok_iff :
      (verify_signed_attrs_binding lib si tst_bytes ≡ ok tt) ↔ IsBound
  unfolding verify_signed_attrs_binding
  verify_signed_attrs_binding-eq-ok_iff =
      binding_of_iff lib tst_bytes si.digest_algorithm
        (lib.asn1.raw_value si.signed_attrs.full_bytes)
