-- ===== src/Tokens/Codec.antt =====
-- What TokenService of backend/app/security.py uses of PyJWT with HS256, and what it relies on.
use gitvibe_dev.Prelude.{true, false, ℕ, ◌*◌, ◌≤◌, String, ◌≡◌, ◌≢◌, Option, none, some}
use gitvibe_dev.Prelude.Int.{ℤ, pos, ltb_ℤ, ◌*ℤ◌}
use gitvibe_dev.Json.{int, str, Fields}
use gitvibe_dev.Json.Dict.{get}

pub data Decoded : Type 0 where
  payload : Fields → Decoded
  -- ExpiredSignatureError
  expired : Decoded
  -- any other InvalidTokenError
  invalid : Decoded

-- A token is a text that the service does not look into: its type is left open.
pub record Jwt (Token : Type 0) : Type 0 where
  -- `jwt.encode(payload, key, headers={"kid": kid})`
  pub encode : Fields → String → String → Token
  -- `jwt.get_unverified_header`; `none` is an InvalidTokenError
  pub header : Token → Option Fields
  -- `jwt.decode(token, key)` at a time
  pub decode : ℕ → Token → String → Decoded

-- A payload of the claims that PyJWT checks: its issue and expiry times, in seconds, and texts for
-- its subject and its id. It has no claim of a time before which it does not hold and none of an
-- audience.
pub record IsTimed (p : Fields) (iat : ℕ) (exp : ℤ) : Type 0 where
  pub issued : get "iat" p ≡ some (int (pos iat))
  pub expires : get "exp" p ≡ some (int exp)
  pub not_before : get "nbf" p ≡ none
  pub audience : get "aud" p ≡ none
  pub subject : (sub : String) × (get "sub" p ≡ some (str sub))
  pub token_id : (jti : String) × (get "jti" p ≡ some (str jti))

-- The documented behaviour: the header gives the key id back; with its key a token decodes to its
-- payload from the time it was issued up to its expiry, and raises from then on, if its claims are
-- such; with another key
-- it does not verify.
pub record JwtLaws {Token : Type 0} (jwt : Jwt Token) : Type 0 where
  pub header-encode :
      (p : Fields) (key kid : String)
      → (h : Fields) × (jwt.header (jwt.encode p key kid) ≡ some h) × (get "kid" h ≡ some (str kid))
  pub decode_live :
      (p : Fields) (key kid : String) (now iat : ℕ) (exp : ℤ)
      → IsTimed p iat exp
      → iat * 1_000_000 ≤ now
      → ltb_ℤ (pos now) (exp *ℤ pos 1_000_000) ≡ true
      → jwt.decode now (jwt.encode p key kid) key ≡ payload p
  pub decode_late :
      (p : Fields) (key kid : String) (now iat : ℕ) (exp : ℤ)
      → IsTimed p iat exp
      → iat * 1_000_000 ≤ now
      → ltb_ℤ (pos now) (exp *ℤ pos 1_000_000) ≡ false
      → jwt.decode now (jwt.encode p key kid) key ≡ expired
  pub decode_other :
      (p : Fields) (key kid other : String) (now : ℕ)
      → other ≢ key
      → jwt.decode now (jwt.encode p key kid) other ≡ invalid
