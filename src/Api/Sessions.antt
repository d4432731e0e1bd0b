-- ===== src/Api/Sessions.antt =====
-- The routes for tokens of backend/app/main.py: issuing, refreshing, the signing keys, and the
-- OAuth tokens that are kept in the vault. `role` is what the route's `require_role` gives.
use Prim.Native.String.append.{cons}
use gitvibe_dev.Prelude.{
  ℕ, ◌<◌, [], ◌∷◌, String-cases, arith, ◌≡◌, refl, ◌⊎◌, inl, inr, String, Bool, false, Bool-cases,
  Option, none, some, List, ◌==◌, ap, eq_iff, if◌then◌else◌,
}
use gitvibe_dev.Prelude.Int.{ℤ}
use gitvibe_dev.Exc.{Result, ok, raised, http}
use gitvibe_dev.Json.{Value, null, int, str, arr, nil, obj, Fields, end, field, of_strings}
use gitvibe_dev.Json.Dict.{get, get_or, put, get-put, get-put_self}
use gitvibe_dev.Json.Convert.{Builtins, str_of, lower, concat, first_code}
use gitvibe_dev.Audit.{AuditEvent, security}
use gitvibe_dev.Tokens.{
  Service, SigningKey, AuthContext, Draws, Issued, issue_token_pair, rotate_refresh_token,
  rotate_signing_key, signing_state_key, refresh_state_key,
}
use gitvibe_dev.Tokens.Codec.{Jwt}
use gitvibe_dev.Reviews.{first_chars}
use gitvibe_dev.Api.{oauth_vault_key}

-- What these routes change: the token service, with the vault, and the audit log.
pub record Sessions : Type 0 where
  pub tokens : Service
  pub audit : List AuditEvent

-- `x_bootstrap_token is not None and secrets.compare_digest(...)`
abbrev is_bootstrap : Option String → String → Bool
is_bootstrap none bootstrap_admin_token = false
is_bootstrap (some x_bootstrap_token) bootstrap_admin_token =
    x_bootstrap_token == bootstrap_admin_token

abbrev announce :
    {A : Type 0} → String → String → Fields → Result A → Sessions → Result A × Sessions
announce event actor details (ok issued) s =
    (ok issued, record s { audit = security event actor details s.audit })
announce event actor details (raised e) s = (raised e, s)

module _ {Token : Type 0} (jwt : Jwt Token) (hash : Token → String) (now : ℕ) (d : Draws) where
  -- `issue_token`
  unfoldable pub issue_token :
      Option String → String → String → String → Sessions → Result (Issued Token) × Sessions
  unfolding issue_token_pair
  issue_token x_bootstrap_token bootstrap_admin_token username role s =
      if is_bootstrap x_bootstrap_token bootstrap_admin_token
      then (let (issued, tokens) = issue_token_pair jwt hash username role now d s.tokens in
          announce "token_issued" username (field "role" (str role) end) issued
            (record s { tokens = tokens }))
      else (
        raised (http 401 "Invalid bootstrap token."),
        record s {
          audit =
              security "bootstrap_token_rejected" username
                (field "reason" (str "invalid bootstrap token") end) s.audit;
        },
      )

  -- `refresh_token`
  unfoldable pub refresh_token : Builtins → Token → Sessions → Result (Issued Token) × Sessions
  unfolding rotate_refresh_token
  refresh_token py token s =
      let (issued, tokens) = rotate_refresh_token jwt hash py now d token s.tokens in
      announce "refresh_token_rotated" "refresh-flow"
        (field "status" (str "success")
          (field "token_fingerprint" (str (first_chars 16 (hash token))) end))
        issued (record s { tokens = tokens })

-- `rotate_signing_key`, the route; `new` is the key that is drawn.
unfoldable pub rotate_key : Result AuthContext → SigningKey → Sessions → Result Fields × Sessions
unfolding rotate_signing_key
rotate_key (raised e) new s = (raised e, s)
rotate_key (ok context) new s =
    let (kid, tokens) = rotate_signing_key new s.tokens in
    (
      ok (field "status" (str "rotated") (field "kid" (str kid) end)),
      record s {
        tokens = tokens;
        audit =
            security "jwt_signing_key_rotated" context.subject (field "kid" (str kid) end) s.audit;
      },
    )

pub record OauthTokenStoreRequest : Type 0 where
  pub provider : String
  pub owner : String
  pub access_token : String
  pub expires_at : Option ℤ
  pub scopes : List String

abbrev int_or_null : Option ℤ → Value
int_or_null none = null
int_or_null (some n) = int n

abbrev pub stored_entry : String → String → OauthTokenStoreRequest → Fields
stored_entry fingerprint updated_by payload = field "provider" (str payload.provider) (
    field "owner" (str payload.owner) (
      field "access_token" (str payload.access_token) (
        field "token_fingerprint" (str fingerprint) (
          field "expires_at" (int_or_null payload.expires_at) (
            field "scopes" (arr (of_strings payload.scopes))
              (field "updated_by" (str updated_by) end))))))

-- `store_oauth_token`; `sha256` gives the digest in hexadecimal.
unfoldable pub store_oauth_token :
    (String → String)
    → Result AuthContext
    → OauthTokenStoreRequest
    → Sessions
    → Result Fields × Sessions
unfolding oauth_vault_key
store_oauth_token sha256 (raised e) payload s = (raised e, s)
store_oauth_token sha256 (ok context) payload s =
    let fingerprint = sha256 payload.access_token in
    (
      ok (
          field "status" (str "stored") (
            field "provider" (str payload.provider) (
              field "owner" (str payload.owner)
                (field "token_fingerprint" (str (first_chars 16 fingerprint)) end)))),
      record s {
        tokens = record s.tokens {
          vault =
              put (oauth_vault_key payload.provider payload.owner)
                (obj (stored_entry fingerprint context.subject payload)) s.tokens.vault;
        };
        audit =
            security "oauth_token_stored" context.subject
              (field "provider" (str payload.provider) (field "owner" (str payload.owner) end))
              s.audit;
      },
    )

abbrev token_metadata : Builtins → Option Value → Result Fields
token_metadata py (some (obj stored)) = ok (
    field "provider" (get_or "provider" null stored) (
      field "owner" (get_or "owner" null stored) (
        field "token_fingerprint"
          (str (first_chars 16 (str_of py (get_or "token_fingerprint" (str "") stored))))
          (field "expires_at" (get_or "expires_at" null stored)
            (field "scopes" (get_or "scopes" (arr nil) stored) end)))))
token_metadata py _ = raised (http 404 "OAuth token not found.")

-- `oauth_token_metadata`
unfoldable pub oauth_token_metadata :
    Builtins → Result AuthContext → String → String → Sessions → Result Fields
unfolding oauth_vault_key
oauth_token_metadata py (raised e) provider owner s = raised e
oauth_token_metadata py (ok context) provider owner s =
    token_metadata py (get (oauth_vault_key provider owner) s.tokens.vault)

oauth_first : (provider owner : String) → first_code (oauth_vault_key provider owner) ≡ 111
unfolding first_code oauth_vault_key
oauth_first provider owner =
    ap first_code (cons "o" "auth::" (concat (lower provider ∷ "::" ∷ lower owner ∷ [])))

-- The keys of OAuth tokens are none of the keys of the token service.
keys_differ :
    (provider owner key : String)
    → (first_code key < 111) ⊎ (111 < first_code key)
    → (oauth_vault_key provider owner == key) ≡ false
keys_differ provider owner key far = elim (String-cases (oauth_vault_key provider owner) key) [
  | inl same ↦ absurd (omega (arith, far, oauth_first provider owner, ap first_code same))
  | inr differ ↦ differ
]

-- Once an OAuth token is stored, its metadata is found under any spelling of the provider and the
-- owner that differs in case only, has the first 16 characters of the fingerprint and not the token,
-- and the signing keys and the refresh sessions in the vault stay as they were.
pub oauth_token_metadata-store_oauth_token :
    (sha256 : String → String) (py : Builtins) (operator admin : AuthContext)
    (payload : OauthTokenStoreRequest) (provider owner : String) (s : Sessions)
    → lower provider ≡ lower payload.provider
    → lower owner ≡ lower payload.owner
    → let after = (store_oauth_token sha256 (ok operator) payload s).1 in
      (oauth_token_metadata py (ok admin) provider owner after
        ≡ ok (
            field "provider" (str payload.provider) (
              field "owner" (str payload.owner) (
                field "token_fingerprint" (str (first_chars 16 (sha256 payload.access_token))) (
                  field "expires_at"
                    (int_or_null payload.expires_at)
                    (field "scopes" (arr (of_strings payload.scopes)) end))))))
      × (get signing_state_key after.tokens.vault ≡ get signing_state_key s.tokens.vault)
      × (get refresh_state_key after.tokens.vault ≡ get refresh_state_key s.tokens.vault)
unfolding store_oauth_token oauth_token_metadata oauth_vault_key first_code
oauth_token_metadata-store_oauth_token sha256 py operator admin payload provider owner s p o = (
  rw (p, o, get-put_self),
  rw (get-put, keys_differ payload.provider payload.owner signing_state_key (inl (omega arith))),
  rw (get-put, keys_differ payload.provider payload.owner refresh_state_key (inr (omega arith))),
)

-- A token is issued only for the bootstrap token; otherwise the answer is an error 401, the tokens
-- stay as they are and the attempt is noted.
pub issue_token-IsGuarded :
    {Token : Type 0} (jwt : Jwt Token) (hash : Token → String) (now : ℕ) (d : Draws)
    (x_bootstrap_token : Option String) (bootstrap_admin_token username role : String)
    (s : Sessions)
    → (x_bootstrap_token ≡ some bootstrap_admin_token)
      ⊎ (issue_token jwt hash now d x_bootstrap_token bootstrap_admin_token username role s ≡ (
        raised (http 401 "Invalid bootstrap token."),
        record s {
          audit =
              security "bootstrap_token_rejected" username
                (field "reason" (str "invalid bootstrap token") end)
                s.audit;
        },
      ))
unfolding issue_token
issue_token-IsGuarded jwt hash now d none bootstrap username role s = inr refl
issue_token-IsGuarded jwt hash now d (some x) bootstrap username role s =
    elim (Bool-cases (x == bootstrap)) [
      | inl same ↦ inl (ap some ((eq_iff x bootstrap).0 same))
      | inr other ↦ inr (rw other)
    ]
