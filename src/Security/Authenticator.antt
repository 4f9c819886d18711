-- ===== src/Security/Authenticator.antt =====
-- class _ThreadAuthenticator of zprocess/security.py: the thread that answers ZAP requests. `encode` is
-- z85's. A request is a list of frames.
pub mod Verdicts
use zprocess.Base.{
  ℕ, Bool, true, false, not, Option, none, some, List, [], ◌∷◌, ◌==◌, if◌then◌else◌, contains,
  bytes,
}

abbrev pub zap_version : ℕ
zap_version = bytes "1.0"

abbrev pub zap_mechanism : ℕ
zap_mechanism = bytes "CURVE"

-- What the socket gives: a request, or the end of its context.
pub data Event : Type 0 where
  requested : List ℕ → Event
  context_terminated : Event

-- How the thread stands: it waits, it has returned, or it has crashed, on a request with too few frames.
pub data State : Type 0 where
  waiting returned crashed : State

-- status code, status text and user id
abbrev pub Verdict : Type 0
Verdict = ℕ × ℕ × ℕ

abbrev pub refusal : ℕ → Verdict
refusal text = (bytes "400", text, bytes "")

abbrev pub check_key : List ℕ → ℕ → Verdict
check_key allowed_clients key =
    if contains key allowed_clients
    then (bytes "200", bytes "OK", key)
    else refusal (bytes "Unknown key")

-- the checks of `run`; none where the request has no credentials to check
unfoldable pub verdict : (ℕ → ℕ) → ℕ → List ℕ → ℕ → ℕ → ℕ → List ℕ → Option Verdict
verdict encode zap_domain allowed_clients version domain mechanism credentials =
    if not (version == zap_version)
    then some (refusal (bytes "Invalid version"))
    else (if not (mechanism == zap_mechanism)
        then some (refusal (bytes "Security mechanism not supported"))
        else (if not (domain == zap_domain)
            then some (refusal (bytes "Unknown domain"))
            else elim credentials [
              | [] ↦ none
              | credential ∷ more ↦ some (check_key allowed_clients (encode credential))
            ]))

-- the answer to a request; none where the thread crashes
unfoldable pub response : (ℕ → ℕ) → ℕ → List ℕ → List ℕ → Option (List ℕ)
response encode zap_domain allowed_clients
      (version ∷ request_id ∷ domain ∷ address ∷ identity ∷ mechanism ∷ credentials) =
    elim (verdict encode zap_domain allowed_clients version domain mechanism credentials) [
      | none ↦ none
      | some (status_code, status_text, user_id) ↦
          some (zap_version ∷ request_id ∷ status_code ∷ status_text ∷ user_id ∷ bytes "" ∷ [])
    ]
response encode zap_domain allowed_clients _ = none

-- `run`, with the answers sent, the newest first
unfoldable pub run : (ℕ → ℕ) → ℕ → List ℕ → List Event → List (List ℕ) → State × List (List ℕ)
run encode zap_domain allowed_clients [] sent = (waiting, sent)
run encode zap_domain allowed_clients (context_terminated ∷ events) sent = (returned, sent)
run encode zap_domain allowed_clients (requested frames ∷ events) sent =
    elim (response encode zap_domain allowed_clients frames) [
      | none ↦ (crashed, sent)
      | some answer ↦ run encode zap_domain allowed_clients events (answer ∷ sent)
    ]
