-- ===== src/Progress/Tokens.antt =====
-- ProgressToken and ProgressTokenManager (mcp/progress.go).
use Prim.Native.String.{◌++◌ as join}
use gomcp.Prelude.{
  ℕ, ◌+◌, ◌-◌, Bool, true, false, String, Option, none, some, List, [], ◌∷◌, ltb, if◌then◌else◌,
  Dict, lookup, insert, string_key, Result, ok, err,
}
use gomcp.Progress.Floats.{Float64, lt_float, minus_one_float}

pub record ProgressToken : Type 0 where
  pub token : String
  pub request_id : String
  pub created_at : ℕ
  pub last_update : ℕ
  pub is_active : Bool
  pub last_progress : Float64
  pub protocol_version : String

pub record ProgressTokenManager : Type 0 where
  pub tokens : Dict String ProgressToken

pub data TokenError : Type 0 where
  token_not_found token_inactive progress_decreased : TokenError

abbrev pub new_progress_token_manager : ProgressTokenManager
new_progress_token_manager = record { tokens = [] }

-- What the random numbers of one call give: their hexadecimal digits, or, where they fail, the
-- decimal digits of the time.
pub data Randomness : Type 0 where
  random_digits time_digits : String → Randomness

unfoldable pub token_text : Randomness → String → String
token_text (random_digits hex) request_id = join "progress_" hex
token_text (time_digits nanoseconds) request_id =
    join "progress_" (join nanoseconds (join "_" request_id))

abbrev pub new_token : ℕ → String → String → String → ProgressToken
new_token now token request_id protocol_version = record {
  token = token;
  request_id = request_id;
  created_at = now;
  last_update = now;
  is_active = true;
  last_progress = minus_one_float;
  protocol_version = protocol_version;
}

-- Without random numbers the answer is a text that the manager does not store.
unfoldable pub generate_token_for_version :
    ProgressTokenManager → ℕ → Randomness → String → String → ProgressTokenManager × String
generate_token_for_version ptm now (time_digits digits) request_id protocol_version =
    (ptm, token_text (time_digits digits) request_id)
generate_token_for_version ptm now (random_digits hex) request_id protocol_version =
    let token = token_text (random_digits hex) request_id in
    (
      record ptm {
        tokens = insert token (new_token now token request_id protocol_version) ptm.tokens;
      },
      token,
    )

unfoldable pub validate_token : ProgressTokenManager → String → Bool
validate_token ptm token = elim (lookup token ptm.tokens) [
  | none ↦ false
  | some progress_token ↦ progress_token.is_active
]

unfoldable pub update_token :
    ProgressTokenManager → ℕ → String → Result TokenError ProgressTokenManager
update_token ptm now token = elim (lookup token ptm.tokens) [
  | none ↦ err token_not_found
  | some progress_token ↦
      if progress_token.is_active
      then ok (record ptm {
        tokens = insert token (record progress_token { last_update = now }) ptm.tokens;
      })
      else err token_inactive
]

unfoldable pub update_token_with_progress :
    ProgressTokenManager → ℕ → String → Float64 → Result TokenError ProgressTokenManager
update_token_with_progress ptm now token progress = elim (lookup token ptm.tokens) [
  | none ↦ err token_not_found
  | some t ↦
      if t.is_active
      then if lt_float progress t.last_progress
        then err progress_decreased
        else ok (record ptm {
          tokens =
              insert token (record t { last_progress = progress; last_update = now }) ptm.tokens;
        })
      else err token_inactive
]

unfoldable pub get_last_progress : ProgressTokenManager → String → Option Float64
get_last_progress ptm token = elim (lookup token ptm.tokens) [
  | none ↦ none
  | some progress_token ↦ some progress_token.last_progress
]

unfoldable pub deactivate_token :
    ProgressTokenManager → String → Result TokenError ProgressTokenManager
deactivate_token ptm token = elim (lookup token ptm.tokens) [
  | none ↦ err token_not_found
  | some progress_token ↦ ok (record ptm {
    tokens = insert token (record progress_token { is_active = false }) ptm.tokens;
  })
]

-- The tokens that stay, and how many go.
unfoldable pub unexpired : ℕ → ℕ → Dict String ProgressToken → Dict String ProgressToken × ℕ
unexpired now expiration [] = ([], 0)
unexpired now expiration ((text, t) ∷ tokens) =
    let rest = unexpired now expiration tokens in
    if ltb expiration (now - t.last_update)
    then (rest.0, rest.1 + 1)
    else ((text, t) ∷ rest.0, rest.1)

unfoldable pub cleanup_expired_tokens : ProgressTokenManager → ℕ → ℕ → ProgressTokenManager × ℕ
cleanup_expired_tokens ptm now expiration = (
  record ptm { tokens = (unexpired now expiration ptm.tokens).0 },
  (unexpired now expiration ptm.tokens).1,
)

unfoldable pub active_texts : Dict String ProgressToken → List String
active_texts [] = []
active_texts ((text, t) ∷ tokens) =
    if t.is_active then text ∷ active_texts tokens else active_texts tokens

unfoldable pub get_active_tokens : ProgressTokenManager → List String
get_active_tokens ptm = active_texts ptm.tokens
