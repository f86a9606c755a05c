-- ===== src/Timestamp/Answered.antt =====
-- When TSAClient of drs-verify/pkg/anchor/rfc3161.go returns a token.
use drs.Prelude.{
  ℕ, zero, suc, ◌+◌, ◌≤◌, ◌<◌, ◌≡◌, ◌↔◌, refl, sym, ◌∙◌, ap, subst, Bool, true, false, ◌&&◌, [],
  ◌∷◌, Option, none, some, ltb, length, take, ok, arith, Bool-cases, inl, inr, >>=-eq-ok, >>=-ok,
  >>-eq-ok_iff, ok-injective,
}
use mathlib.Core.Option.{some-injective}
use drs.Prelude.Text.{Text}
use drs.Prelude.Guards.{unless_equal, unless_eq, if_above}
use drs.Timestamp.Token.{sha256_oid}
use drs.Timestamp.Client.{
  Body, Response, Web, ClientError, found, read_limited, build_timestamp_request, post_request,
  timestamp, tsa_response_content_type, tsa_request_content_type, tsa_response_size_limit,
}

take_all : (n : ℕ) (s : Text) → length s ≤ n → take n s ≡ s
take_all zero [] h = refl
take_all zero (b ∷ s) h = absurd (omega arith)
take_all (suc n) [] h = refl
take_all (suc n) (b ∷ s) h = ap (λ (t : Text). b ∷ t) (take_all n s (omega arith))

take_short : (n : ℕ) (s : Text) → length (take n s) < n → take n s ≡ s
take_short zero s h = absurd (omega arith)
take_short (suc n) [] h = refl
take_short (suc n) (b ∷ s) h = ap (λ (t : Text). b ∷ t) (take_short n s (omega arith))

found-eq-ok :
    {A : Type 0} (e : ClientError) (o : Option A) (a : A) → (found e o ≡ ok a) ↔ (o ≡ some a)
found-eq-ok e none a = (λ h. cc, λ h. cc)
found-eq-ok e (some b) a = (λ h. cc, λ h. cc)

read_limited_sound :
    (n : ℕ) (body : Body) (token : Text)
    → read_limited (n + 1) body ≡ some token
    → length token ≤ n
    → (body.content ≡ token) × (body.broken ≡ false)
unfolding read_limited
read_limited_sound n body token h small =
    elim (Bool-cases (body.broken && ltb (length body.content) (n + 1))) [
      | inl failed ↦ cc (rw failed at h)
      | inr fine ↦
          let taken : take (n + 1) body.content ≡ token = some-injective _ _ (rw fine at h) in
          let short : length (take (n + 1) body.content) ≤ n = rw taken small in
          let whole = take_short (n + 1) body.content (omega arith) in
          (sym whole ∙ taken, intact body.broken (length body.content) fine (rw whole at short))
    ]
  where
    intact : (b : Bool) (k : ℕ) → (b && ltb k (n + 1)) ≡ false → k ≤ n → b ≡ false
    intact b k e l = ground arith

read_limited_complete :
    (n : ℕ) (body : Body)
    → body.broken ≡ false
    → length body.content ≤ n
    → read_limited (n + 1) body ≡ some body.content
unfolding read_limited
read_limited_complete n body fine small =
    rw (fine, take_all (n + 1) body.content (omega arith)) refl

module _ (web : Web) (endpoint : Text) where
  -- The answer of the authority that a client takes: a whole body within the limit, of the type of
  -- a timestamp reply, to the SHA-256 request for the hash.
  pub record IsAnswer (hash token : Text) : Type 0 where
    pub req : Text
    pub resp : Response
    pub marshalled :
        web.marshal (record {
          version = 1;
          hash_algorithm = sha256_oid;
          hashed_message = hash;
          cert_req = true;
        })
        ≡ some req
    pub is_url : web.is_url endpoint ≡ true
    pub posted : web.post endpoint tsa_request_content_type req ≡ some resp
    pub status : resp.status_code ≡ 200
    pub content_type : resp.content_type ≡ tsa_response_content_type
    pub whole : resp.body.broken ≡ false
    pub content : resp.body.content ≡ token
    pub within : length token ≤ tsa_response_size_limit

  post_request_iff :
      (req : Text) (resp : Response)
      → (post_request web endpoint req ≡ ok resp) ↔ (
          (web.is_url endpoint ≡ true)
          × (web.post endpoint tsa_request_content_type req ≡ some resp))
  unfolding post_request
  post_request_iff req resp = elim (Bool-cases (web.is_url endpoint)) [
    | inl good ↦ rw good (λ h. (refl, (found-eq-ok _ _ _).0 h), λ h. (found-eq-ok _ _ _).1 h.1)
    | inr bad ↦ rw bad (λ h. cc, λ h. cc)
  ]

  module _ (hash token : Text) where
    timestamp_sound : timestamp web endpoint hash ≡ ok token → IsAnswer hash token
    unfolding timestamp build_timestamp_request
    timestamp_sound h =
        let (req, marshalled, h1) = >>=-eq-ok (found _ (web.marshal _)) _ h in
        let (resp, posted, h2) = >>=-eq-ok (post_request web endpoint req) _ h1 in
        let (status, h3) = (>>-eq-ok_iff _ _ _).0 h2 in
        let (content_type, h4) = (>>-eq-ok_iff _ _ _).0 h3 in
        let (token', body_read, h5) =
          >>=-eq-ok (found _ (read_limited (tsa_response_size_limit + 1) resp.body)) _ h4 in
        let (within, h6) = (>>-eq-ok_iff _ _ _).0 h5 in
        let small = (if_above _ tsa_response_size_limit (length token')).0 within in
        let (content, whole) =
          read_limited_sound tsa_response_size_limit resp.body token'
            ((found-eq-ok _ _ _).0 body_read) small in
        let (is_url, answered) = (post_request_iff req resp).0 posted in
        let answer : IsAnswer hash token' = record {
          req = req;
          resp = resp;
          marshalled = (found-eq-ok _ _ _).0 marshalled;
          is_url = is_url;
          posted = answered;
          status = (unless_eq _ resp.status_code 200).0 status;
          content_type =
              (unless_equal _ resp.content_type tsa_response_content_type).0 content_type;
          whole = whole;
          content = content;
          within = small;
        } in
        subst (λ (t : Text). IsAnswer hash t) (ok-injective h6) answer

    timestamp_complete : IsAnswer hash token → timestamp web endpoint hash ≡ ok token
    unfolding timestamp build_timestamp_request
    timestamp_complete h = >>=-ok _ _ h.req _ ((found-eq-ok _ _ _).1 h.marshalled) (
        >>=-ok _ _ h.resp _ ((post_request_iff h.req h.resp).1 (h.is_url, h.posted)) (
          (>>-eq-ok_iff _ _ _).1 (
            (unless_eq _ h.resp.status_code 200).1 h.status,
            (>>-eq-ok_iff _ _ _).1 (
              (unless_equal _ h.resp.content_type tsa_response_content_type).1 h.content_type,
              >>=-ok _ _ token _
                  ((found-eq-ok _ _ _).1 (
                    read_limited_complete tsa_response_size_limit h.resp.body h.whole
                      (rw h.content h.within)
                    ∙ ap (λ (t : Text). some t) h.content))
                  ((>>-eq-ok_iff _ _ _).1
                    ((if_above _ tsa_response_size_limit (length token)).1 h.within, refl)),
            ),
          )))

    -- The client returns a token exactly when the request for the hash encodes and is answered with
    -- status 200, the type of a timestamp reply, and a whole body of at most 64 KiB: the token.
    pub timestamp-eq-ok_iff : (timestamp web endpoint hash ≡ ok token) ↔ IsAnswer hash token
    timestamp-eq-ok_iff = (timestamp_sound, timestamp_complete)
