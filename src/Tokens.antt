-- ===== src/Tokens.antt =====
-- TokenService of backend/app/security.py: JWTs, refresh tokens and the ring of signing keys.
-- PyJWT and SHA-256 are parameters. Times are readings of the clock in millionths of a second.
pub mod Codec
pub mod Keys
pub mod Verify
pub mod Refresh
pub mod SigningState
pub mod Tests
use gitvibe_dev.Prelude.{
  ℕ, zero, suc, ◌+◌, ◌*◌, ◌/◌, String, Bool, true, false, not, ◌||◌, ◌&&◌, Option, none, some, List,
  [], ◌∷◌, ◌++◌, take, contains, nat_eq, ◌==◌, if◌then◌else◌,
}
use gitvibe_dev.Prelude.Int.{ℤ, pos, negsuc, sub_ℕ, ltb_ℤ, ◌+ℤ◌, ◌*ℤ◌}
use gitvibe_dev.Exc.{Exc, Result, ok, raised, http, key_error, ◌>>=◌}
use gitvibe_dev.Json.{Value, int, str, arr, obj, Items, nil, cons, Fields, end, field}
use gitvibe_dev.Json.Dict.{get, get_or, put, del}
use gitvibe_dev.Json.Convert.{Builtins, str_of, int_of, is_empty, is_text}
use Codec.{Jwt, Decoded, payload, expired, invalid}

-- `ROLE_LEVELS`
unfoldable pub role_level : String → Option ℕ
role_level role =
    if role == "viewer"
    then some 10
    else if role == "operator"
    then some 20
    else if role == "admin"
    then some 30
    else none

pub record SigningKey : Type 0 where
  pub kid : String
  pub key : String

pub record Service : Type 0 where
  pub access_token_ttl_minutes : ℤ
  pub refresh_token_ttl_hours : ℤ
  pub token_max_previous_keys : ℕ
  pub current : SigningKey
  pub previous : List SigningKey
  pub vault : Fields

abbrev pub signing_state_key : String
signing_state_key = "jwt_signing_state"

abbrev pub refresh_state_key : String
refresh_state_key = "refresh_sessions"

abbrev pub encode_key : SigningKey → Value
encode_key k = obj (field "kid" (str k.kid) (field "key" (str k.key) end))

abbrev pub encode_keys : List SigningKey → Items
encode_keys [] = nil
encode_keys (k ∷ ks) = cons (encode_key k) (encode_keys ks)

-- `_persist_signing_state`
unfoldable pub persist_signing_state : Service → Service
persist_signing_state s = record s {
  vault =
      put signing_state_key
        (obj (
          field "current" (encode_key s.current)
            (field "previous" (arr (encode_keys s.previous)) end)))
        s.vault;
}

-- `keys[kid] = key` on a dict of keys by id
unfoldable pub put_key : SigningKey → List SigningKey → List SigningKey
put_key k [] = k ∷ []
put_key k (j ∷ ks) = let rest = put_key k ks in if j.kid == k.kid then k ∷ ks else j ∷ rest

unfoldable pub put_keys : List SigningKey → List SigningKey → List SigningKey
unfolding put_key
put_keys [] keys = keys
put_keys (k ∷ ks) keys = put_keys ks (put_key k keys)

-- `_signing_keys_by_id`
unfoldable pub signing_keys_by_id : Service → List SigningKey
unfolding put_keys
signing_keys_by_id s = put_keys s.previous (s.current ∷ [])

unfoldable pub find_key : String → List SigningKey → Option String
find_key kid [] = none
find_key kid (k ∷ ks) = if k.kid == kid then some k.key else find_key kid ks

-- `candidate_keys.extend(...)`: the test sees the keys that the call itself has added.
unfoldable pub extend_new : List String → List SigningKey → List String
extend_new found [] = found
extend_new found (k ∷ ks) =
    extend_new (if contains k.key found then found else found ++ k.key ∷ []) ks

-- The keys to try for a token whose header names the key id `kid`, if any.
unfoldable pub candidate_keys : Option Value → List SigningKey → List String
unfolding find_key extend_new
candidate_keys (some (str kid)) keys =
    extend_new (elim (find_key kid keys) [ none ↦ [] | some key ↦ key ∷ [] ]) keys
candidate_keys _ keys = extend_new [] keys

abbrev pub unauthorized : String → Exc
unauthorized detail = http 401 detail

-- A text that is not empty.
abbrev pub text_of : Option Value → Option String
text_of (some (str s)) = if is_empty s then none else some s
text_of _ = none

module _ {Token : Type 0} (jwt : Jwt Token) where
  -- The loop over the candidate keys.
  unfoldable pub try_keys : ℕ → Token → String → List String → Result Fields
  try_keys now raw_token expected_type [] = raised (unauthorized "Invalid token.")
  try_keys now raw_token expected_type (key ∷ keys) = elim (jwt.decode now raw_token key) [
    | payload p ↦
        if is_text expected_type (get "type" p)
        then ok p
        else raised (unauthorized "Unexpected token type.")
    | expired ↦ raised (unauthorized "Token expired.")
    | invalid ↦ try_keys now raw_token expected_type keys
  ]

  -- `_decode_token`
  unfoldable pub decode_token : ℕ → Token → String → Service → Result Fields
  unfolding try_keys candidate_keys signing_keys_by_id
  decode_token now raw_token expected_type s = elim (jwt.header raw_token) [
    | none ↦ raised (unauthorized "Malformed token header.")
    | some header ↦
        try_keys now raw_token expected_type
          (candidate_keys (get "kid" header) (signing_keys_by_id s))
  ]

pub record AuthContext : Type 0 where
  pub subject : String
  pub role : String
  pub csrf_token : String
  pub token_id : String

-- The checks of `verify_access_token` on the payload.
unfoldable pub context_of :
    Option String → Option String → Option String → Option String → Result AuthContext
unfolding role_level
context_of (some subject) (some role) (some csrf_token) (some token_id) = elim (role_level role) [
  | none ↦ raised (unauthorized "Unknown role in token.")
  | some level ↦
      ok (record { subject = subject; role = role; csrf_token = csrf_token; token_id = token_id })
]
context_of _ _ _ _ = raised (unauthorized "Invalid access token payload.")

unfoldable pub verify_access_token :
    {Token : Type 0} → Jwt Token → ℕ → Token → Service → Result AuthContext
unfolding decode_token context_of
verify_access_token jwt now raw_token s = decode_token jwt now raw_token "access" s >>= λ p.
    context_of (text_of (get "sub" p)) (text_of (get "role" p)) (text_of (get "csrf" p))
      (text_of (get "jti" p))

-- What `issue_token_pair` draws: a CSRF token and the ids of the two tokens.
pub record Draws : Type 0 where
  pub csrf_token : String
  pub token_id : String
  pub refresh_id : String

pub record Issued (Token : Type 0) : Type 0 where
  pub access_token : Token
  pub refresh_token : Token
  pub expires_in : ℤ
  pub csrf_token : String
  pub role : String

unfoldable pub access_payload : String → String → Draws → ℕ → ℤ → Fields
access_payload subject role d iat exp = field "sub" (str subject) (
    field "role" (str role) (
      field "type" (str "access") (
        field "csrf" (str d.csrf_token) (
          field "jti" (str d.token_id) (field "iat" (int (pos iat)) (field "exp" (int exp) end))))))

unfoldable pub refresh_payload : String → String → Draws → ℕ → ℤ → Fields
refresh_payload subject role d iat exp = field "sub" (str subject) (
    field "role" (str role) (
      field "type" (str "refresh")
        (field "jti" (str d.refresh_id) (field "iat" (int (pos iat)) (field "exp" (int exp) end)))))

-- `int(t)` of a time in millionths of a second: it is cut towards zero.
abbrev pub whole_seconds : ℤ → ℤ
whole_seconds (pos t) = pos (t / 1_000_000)
whole_seconds (negsuc t) = sub_ℕ 0 (suc t / 1_000_000)

-- The expiry times of the two tokens: `int((now + ttl).timestamp())`. A lifetime may be negative, and
-- then the token has expired when it is made; times that `datetime` cannot hold are left out.
abbrev pub access_exp : ℕ → Service → ℤ
access_exp now s = whole_seconds (pos now +ℤ s.access_token_ttl_minutes *ℤ pos 60_000_000)

abbrev pub refresh_exp : ℕ → Service → ℤ
refresh_exp now s = whole_seconds (pos now +ℤ s.refresh_token_ttl_hours *ℤ pos 3_600_000_000)

unfoldable pub new_access_token :
    {Token : Type 0} → Jwt Token → String → String → ℕ → Draws → Service → Token
unfolding access_payload
new_access_token jwt subject role now d s =
    jwt.encode (access_payload subject role d (now / 1_000_000) (access_exp now s)) s.current.key
      s.current.kid

unfoldable pub new_refresh_token :
    {Token : Type 0} → Jwt Token → String → String → ℕ → Draws → Service → Token
unfolding refresh_payload
new_refresh_token jwt subject role now d s =
    jwt.encode (refresh_payload subject role d (now / 1_000_000) (refresh_exp now s)) s.current.key
      s.current.kid

-- `isinstance(details, dict) and int(details.get("expires_at", 0)) > current_ts`
abbrev pub is_live : ℕ → Value → Result Bool
is_live current_ts (obj details) = elim (int_of (get_or "expires_at" (int (pos 0)) details)) [
  | raised e ↦ raised e
  | ok expires_at ↦ ok (ltb_ℤ (pos current_ts) expires_at)
]
is_live current_ts _ = ok false

unfoldable pub live_sessions : ℕ → Fields → Result Fields
live_sessions current_ts end = ok end
live_sessions current_ts (field token_hash details rest) = is_live current_ts details >>= λ live.
    live_sessions current_ts rest >>= λ filtered.
    ok (if live then field token_hash details filtered else filtered)

abbrev pub count_sessions : Fields → ℕ
count_sessions end = 0
count_sessions (field k v d) = suc (count_sessions d)

abbrev pub stored_sessions : Service → Fields
stored_sessions s = elim (get_or refresh_state_key (obj end) s.vault) [ obj d ↦ d | _ ↦ end ]

-- `_save_refresh_sessions`
abbrev pub save_refresh_sessions : Fields → Service → Service
save_refresh_sessions sessions s = record s { vault = put refresh_state_key (obj sessions) s.vault }

-- The vault is written if a session was dropped.
unfoldable pub keep_live : Result Fields → Service → Result Fields × Service
keep_live (raised e) s = (raised e, s)
keep_live (ok filtered) s = (
  ok filtered,
  if nat_eq (count_sessions filtered) (count_sessions (stored_sessions s))
      then s
      else save_refresh_sessions filtered s,
)

-- `_load_refresh_sessions`
unfoldable pub load_refresh_sessions : ℕ → Service → Result Fields × Service
unfolding live_sessions keep_live
load_refresh_sessions now s = keep_live (live_sessions (now / 1_000_000) (stored_sessions s)) s

abbrev pub session : String → String → ℤ → Value
session subject role expires_at = obj (
    field "subject" (str subject)
      (field "role" (str role) (field "expires_at" (int expires_at) end)))

module _ {Token : Type 0} (jwt : Jwt Token) (hash : Token → String) where
  -- The end of `issue_token_pair`, with the sessions that were loaded.
  unfoldable pub save_pair :
      String → String → ℕ → Draws → Result Fields → Service → Result (Issued Token) × Service
  unfolding new_access_token new_refresh_token
  save_pair subject role now d (raised e) s = (raised e, s)
  save_pair subject role now d (ok sessions) s =
      let refresh_token = new_refresh_token jwt subject role now d s in
      (
        ok (record {
          access_token = new_access_token jwt subject role now d s;
          refresh_token = refresh_token;
          expires_in = s.access_token_ttl_minutes *ℤ pos 60;
          csrf_token = d.csrf_token;
          role = role;
        }),
        save_refresh_sessions
            (put (hash refresh_token) (session subject role (refresh_exp now s)) sessions) s,
      )

  unfoldable pub issue_token_pair :
      String → String → ℕ → Draws → Service → Result (Issued Token) × Service
  unfolding role_level load_refresh_sessions save_pair
  issue_token_pair subject role now d s = elim (role_level role) [
    | none ↦ (raised (http 400 "Invalid role."), s)
    | some level ↦
        let (sessions, s') = load_refresh_sessions now s in save_pair subject role now d sessions s'
  ]

  -- `str(payload[key])`
  abbrev required : Builtins → String → Fields → Result String
  required py key p = elim (get key p) [ none ↦ raised key_error | some v ↦ ok (str_of py v) ]

  unfoldable pub reissue_for :
      Result String → Result String → ℕ → Draws → Service → Result (Issued Token) × Service
  unfolding issue_token_pair
  reissue_for (ok subject) (ok role) now d s = issue_token_pair subject role now d s
  reissue_for (ok subject) (raised e) now d s = (raised e, s)
  reissue_for (raised e) role now d s = (raised e, s)

  unfoldable pub reissue : Builtins → Fields → ℕ → Draws → Service → Result (Issued Token) × Service
  unfolding reissue_for
  reissue py p now d s = reissue_for (required py "sub" p) (required py "role" p) now d s

  -- `sessions.pop(token_hash, None)` and what follows it
  unfoldable pub take_session :
      Builtins
      → Fields
      → String
      → ℕ
      → Draws
      → Result Fields
      → Service
      → Result (Issued Token) × Service
  unfolding reissue
  take_session py p token_hash now d (raised e) s = (raised e, s)
  take_session py p token_hash now d (ok sessions) s = elim (get token_hash sessions) [
    | none ↦ (raised (unauthorized "Refresh token is invalid or already rotated."), s)
    | some existing ↦ reissue py p now d (save_refresh_sessions (del token_hash sessions) s)
  ]

  unfoldable pub rotate_decoded :
      Builtins → ℕ → Draws → Token → Result Fields → Service → Result (Issued Token) × Service
  unfolding take_session load_refresh_sessions
  rotate_decoded py now d refresh_token (raised e) s = (raised e, s)
  rotate_decoded py now d refresh_token (ok p) s =
      let (sessions, s') = load_refresh_sessions now s in
      take_session py p (hash refresh_token) now d sessions s'

  unfoldable pub rotate_refresh_token :
      Builtins → ℕ → Draws → Token → Service → Result (Issued Token) × Service
  unfolding decode_token rotate_decoded
  rotate_refresh_token py now d refresh_token s =
      rotate_decoded py now d refresh_token (decode_token jwt now refresh_token "refresh" s) s

-- `new` is the key that the call draws; its id is returned.
unfoldable pub rotate_signing_key : SigningKey → Service → String × Service
unfolding persist_signing_state
rotate_signing_key new s = (
  new.kid,
  persist_signing_state (record s {
    current = new;
    previous = take s.token_max_previous_keys (s.current ∷ s.previous);
  }),
)
