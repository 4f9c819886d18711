-- ===== src/Security/Authenticator/Verdicts.antt =====
-- Whom the authenticator lets in (_ThreadAuthenticator.run of zprocess/security.py).
use zprocess.Base.{
  ℕ, ◌≡◌, refl, Bool, ◌&&◌, some, List, [], ◌∷◌, map, ◌==◌, if◌then◌else◌, contains, bytes, arith,
  Bool-cases, inl, inr,
}
use zprocess.Security.Authenticator.{
  zap_version, zap_mechanism, requested, waiting, verdict, response, run,
}

-- A request with credentials.
pub record Request : Type 0 where
  pub version : ℕ
  pub request_id : ℕ
  pub domain : ℕ
  pub address : ℕ
  pub identity : ℕ
  pub mechanism : ℕ
  pub credential : ℕ
  pub more : List ℕ

abbrev pub frames : Request → List ℕ
frames r =
    r.version ∷ r.request_id ∷ r.domain ∷ r.address ∷ r.identity ∷ r.mechanism ∷ r.credential
    ∷ r.more

-- The request is of this version and mechanism, for this domain, with the key of an allowed client.
abbrev pub is_allowed : (ℕ → ℕ) → ℕ → List ℕ → Request → Bool
is_allowed encode zap_domain allowed_clients r =
    r.version == zap_version
    && r.mechanism == zap_mechanism
    && r.domain == zap_domain
    && contains (encode r.credential) allowed_clients

-- an answer to a request: OK for the key of an allowed client, and an error without a user otherwise
abbrev pub Answers : (ℕ → ℕ) → ℕ → List ℕ → Request → List ℕ → Type 0
Answers encode zap_domain allowed_clients r answer =
    (text : ℕ) × (answer ≡ (
      if is_allowed encode zap_domain allowed_clients r
      then zap_version
        ∷ r.request_id
        ∷ bytes "200"
        ∷ bytes "OK"
        ∷ encode r.credential
        ∷ bytes ""
        ∷ []
      else zap_version ∷ r.request_id ∷ bytes "400" ∷ text ∷ bytes "" ∷ bytes "" ∷ []))

-- one answer for each request, the newest first
abbrev pub AllAnswered :
    (ℕ → ℕ) → ℕ → List ℕ → List Request → List (List ℕ) → List (List ℕ) → Type 0
AllAnswered encode zap_domain allowed_clients [] before sent = sent ≡ before
AllAnswered encode zap_domain allowed_clients (r ∷ requests) before sent =
    (answer : List ℕ) × Answers encode zap_domain allowed_clients r answer
    × AllAnswered encode zap_domain allowed_clients requests (answer ∷ before) sent

response-Answers :
    (encode : ℕ → ℕ) (zap_domain : ℕ) (allowed_clients : List ℕ) (r : Request)
    → (answer : List ℕ) × (response encode zap_domain allowed_clients (frames r) ≡ some answer)
      × Answers encode zap_domain allowed_clients r answer
unfolding response verdict
response-Answers encode zap_domain allowed_clients r =
    elim (Bool-cases (r.version == zap_version)) [
      | inr v ↦ (
        zap_version
            ∷ r.request_id
            ∷ bytes "400"
            ∷ bytes "Invalid version"
            ∷ bytes ""
            ∷ bytes ""
            ∷ [],
        ground arith,
        (bytes "Invalid version", ground arith),
      )
      | inl v ↦ elim (Bool-cases (r.mechanism == zap_mechanism)) [
        | inr m ↦ (
          zap_version
              ∷ r.request_id
              ∷ bytes "400"
              ∷ bytes "Security mechanism not supported"
              ∷ bytes ""
              ∷ bytes ""
              ∷ [],
          ground arith,
          (bytes "Security mechanism not supported", ground arith),
        )
        | inl m ↦ elim (Bool-cases (r.domain == zap_domain)) [
          | inr d ↦ (
            zap_version
                ∷ r.request_id
                ∷ bytes "400"
                ∷ bytes "Unknown domain"
                ∷ bytes ""
                ∷ bytes ""
                ∷ [],
            ground arith,
            (bytes "Unknown domain", ground arith),
          )
          | inl d ↦ elim (Bool-cases (contains (encode r.credential) allowed_clients)) [
            | inr k ↦ (
              zap_version
                  ∷ r.request_id
                  ∷ bytes "400"
                  ∷ bytes "Unknown key"
                  ∷ bytes ""
                  ∷ bytes ""
                  ∷ [],
              ground arith,
              (bytes "Unknown key", ground arith),
            )
            | inl k ↦ (
              zap_version
                  ∷ r.request_id
                  ∷ bytes "200"
                  ∷ bytes "OK"
                  ∷ encode r.credential
                  ∷ bytes ""
                  ∷ [],
              ground arith,
              (0, ground arith),
            )
          ]
        ]
      ]
    ]

-- The authenticator answers any number of requests that have credentials, one by one and in their order,
-- without an end: with OK and the key if the version, the mechanism and the domain are right and the key
-- is that of an allowed client, and with an error and no user otherwise.
pub run-AllAnswered :
    (encode : ℕ → ℕ) (zap_domain : ℕ) (allowed_clients : List ℕ) (requests : List Request)
    (before : List (List ℕ))
    → (sent : List (List ℕ)) × (run encode zap_domain allowed_clients
          (map (λ r. requested (frames r)) requests)
          before
        ≡ (waiting, sent))
      × AllAnswered encode zap_domain allowed_clients requests before sent
unfolding run
run-AllAnswered encode zap_domain allowed_clients [] before = (before, refl, refl)
run-AllAnswered encode zap_domain allowed_clients (r ∷ requests) before =
    let (answer, e, a) = response-Answers encode zap_domain allowed_clients r in
    let (sent, f, b) =
      run-AllAnswered encode zap_domain allowed_clients requests (answer ∷ before) in
    (sent, ground (arith, e, f), (answer, a, b))
