-- ===== src/Tokens/Verify.antt =====
-- Which tokens `_decode_token` and `verify_access_token` of backend/app/security.py accept.
use gitvibe_dev.Prelude.Int.{ℤ, pos, ltb_ℤ, ◌*ℤ◌}
use gitvibe_dev.Prelude.{
  true, false, ℕ, zero, suc, ◌*◌, ◌/◌, ◌≤◌, String, ◌≡◌, ◌≢◌, refl, ◌∙◌, Option, none, some, List,
  [], ◌∷◌, All, take, arith, eq_refl,
}
use gitvibe_dev.Exc.{ok, raised, http, ◌>>=◌}
use gitvibe_dev.Json.{str, Fields}
use gitvibe_dev.Json.Dict.{get}
use gitvibe_dev.Json.Convert.{is_empty, is_text}
use gitvibe_dev.Tokens.Codec.{Jwt, JwtLaws, IsTimed}
use gitvibe_dev.Tokens.{
  Service, SigningKey, Draws, AuthContext, signing_keys_by_id, find_key, candidate_keys, try_keys,
  decode_token, verify_access_token, context_of, access_payload, access_exp, new_access_token,
  role_level, text_of, rotate_signing_key, put_keys, put_key,
}
use gitvibe_dev.Tokens.Keys.{
  IsFresh, find_key-put_key, find_key-put_keys, candidate_keys_first, try_keys_none, All-extend_new,
  All-find_key,
}

module _ {Token : Type 0} (jwt : Jwt Token) (laws : JwtLaws jwt) (p : Fields) (key kid : String)
    (s : Service) where
  abbrev token : Token
  token = jwt.encode p key kid

  -- What `_decode_token` does with a token whose key id the ring knows.
  decode_token_first :
      (now : ℕ) (expected_type : String)
      → find_key kid (signing_keys_by_id s) ≡ some key
      → (rest : List String) × (decode_token jwt now token expected_type s
          ≡ try_keys jwt now token expected_type (key ∷ rest))
  unfolding decode_token
  decode_token_first now expected_type e =
      let (h, at, names) = laws.header-encode p key kid in
      let (rest, first) = candidate_keys_first kid key (signing_keys_by_id s) e in
      (rest, rw (at, names, first, decode_token))

  -- A token that a key of the ring signed is accepted from its issue up to its expiry.
  pub decode_token_known :
      (now iat : ℕ) (exp : ℤ) (expected_type : String)
      → find_key kid (signing_keys_by_id s) ≡ some key
      → IsTimed p iat exp
      → get "type" p ≡ some (str expected_type)
      → iat * 1_000_000 ≤ now
      → ltb_ℤ (pos now) (exp *ℤ pos 1_000_000) ≡ true
      → decode_token jwt now token expected_type s ≡ ok p
  unfolding try_keys
  decode_token_known now iat exp expected_type e timed type_of from until =
      let (rest, first) = decode_token_first now expected_type e in
      first
      ∙ rw (
        laws.decode_live p key kid now iat exp timed from until,
        try_keys,
        type_of,
        is_text,
        eq_refl,
      )

  -- From its expiry on a token that a key of the ring signed, with texts for its subject and its id
  -- and neither an audience nor a time before which it does not hold, is refused as expired.
  pub decode_token_late :
      (now iat : ℕ) (exp : ℤ) (expected_type : String)
      → find_key kid (signing_keys_by_id s) ≡ some key
      → IsTimed p iat exp
      → iat * 1_000_000 ≤ now
      → ltb_ℤ (pos now) (exp *ℤ pos 1_000_000) ≡ false
      → decode_token jwt now token expected_type s ≡ raised (http 401 "Token expired.")
  unfolding try_keys
  decode_token_late now iat exp expected_type e timed from late =
      let (rest, first) = decode_token_first now expected_type e in
      first ∙ rw (laws.decode_late p key kid now iat exp timed from late, try_keys)

  -- A token that no key of the ring signed is refused at any time and for any type, whatever key
  -- id it names.
  pub decode_token_unknown :
      (now : ℕ) (expected_type : String)
      → All (λ k. k.key ≢ key) (signing_keys_by_id s)
      → decode_token jwt now token expected_type s ≡ raised (http 401 "Invalid token.")
  unfolding decode_token candidate_keys
  decode_token_unknown now expected_type foreign =
      let (h, at, names) = laws.header-encode p key kid in
      rw (at, names, decode_token)
        (try_keys_none jwt laws now p key kid expected_type _ (
          All-extend_new (λ k. k ≢ key) _ (signing_keys_by_id s)
            (start (find_key kid (signing_keys_by_id s)) refl) foreign))
    where
      start :
          (o : Option String)
          → find_key kid (signing_keys_by_id s) ≡ o
          → All (λ k. k ≢ key) (elim o [ none ↦ [] | some k ↦ k ∷ [] ])
      start none e = tt
      start (some k) e = (All-find_key (λ j. j ≢ key) kid k (signing_keys_by_id s) foreign e, tt)

IsFresh-take :
    (n : ℕ) (kid : String) (keys : List SigningKey) → IsFresh kid keys → IsFresh kid (take n keys)
IsFresh-take zero kid keys f = tt
IsFresh-take (suc n) kid [] f = tt
IsFresh-take (suc n) kid (k ∷ keys) f = (f.0, IsFresh-take n kid keys f.1)

ring_after_rotation :
    (new k : SigningKey) (keys : List SigningKey) (m : ℕ)
    → 1 ≤ m
    → IsFresh k.kid keys
    → find_key k.kid (put_keys (take m (k ∷ keys)) (new ∷ [])) ≡ some k.key
ring_after_rotation new k keys zero h f = elim h [ ]
ring_after_rotation new k keys (suc n) h f =
    unfold put_keys in
    find_key-put_keys k.kid (take n keys) (put_key k (new ∷ [])) (IsFresh-take n k.kid keys f)
    ∙ find_key-put_key k.kid k (new ∷ [])
    ∙ rw eq_refl

text_of_str : (t : String) → is_empty t ≡ false → text_of (some (str t)) ≡ some t
text_of_str t h = rw h

module _ (subject role : String) (d : Draws) where
  -- The context that an access token stands for.
  abbrev pub context : AuthContext
  context = record {
    subject = subject;
    role = role;
    csrf_token = d.csrf_token;
    token_id = d.token_id;
  }

  -- The texts that a token carries are not empty, and its role is known.
  pub record IsComplete : Type 0 where
    pub level : ℕ
    pub known : role_level role ≡ some level
    pub has_subject : is_empty subject ≡ false
    pub has_role : is_empty role ≡ false
    pub has_csrf : is_empty d.csrf_token ≡ false
    pub has_id : is_empty d.token_id ≡ false

module _ {Token : Type 0} (jwt : Jwt Token) (laws : JwtLaws jwt) (subject role : String) (now : ℕ)
    (d : Draws) (s : Service) where
  -- As long as the ring of a service holds the key of `s`, the service accepts the access token
  -- that `s` made, until the token expires.
  pub verify_access_token-new :
      (later : ℕ) (s' : Service)
      → IsComplete subject role d
      → find_key s.current.kid (signing_keys_by_id s') ≡ some s.current.key
      → now ≤ later
      → ltb_ℤ (pos later) (access_exp now s *ℤ pos 1_000_000) ≡ true
      → verify_access_token jwt later (new_access_token jwt subject role now d s) s'
        ≡ ok (context subject role d)
  unfolding verify_access_token new_access_token
  verify_access_token-new later s' c e from until =
      let p = access_payload subject role d (now / 1_000_000) (access_exp now s) in
      let decoded : decode_token jwt later (jwt.encode p s.current.key s.current.kid) "access" s'
          ≡ ok p =
        decode_token_known jwt laws p s.current.key s.current.kid s' later (now / 1_000_000)
          (access_exp now s) "access" e
          (record {
            issued = refl;
            expires = refl;
            not_before = refl;
            audience = refl;
            subject = (subject, refl);
            token_id = (d.token_id, refl);
          })
          refl (omega arith) until in
      rw (
        decoded,
        ◌>>=◌,
        text_of_str subject c.has_subject,
        text_of_str role c.has_role,
        text_of_str d.csrf_token c.has_csrf,
        text_of_str d.token_id c.has_id,
        c.known,
        context_of,
      )

  -- After the signing key is rotated, access tokens of the key before it are accepted until they
  -- expire, if at least one previous key is kept and no key of the ring repeats the id of the
  -- current one.
  pub verify-rotate_signing_key :
      (later : ℕ) (new : SigningKey)
      → IsComplete subject role d
      → 1 ≤ s.token_max_previous_keys
      → IsFresh s.current.kid s.previous
      → now ≤ later
      → ltb_ℤ (pos later) (access_exp now s *ℤ pos 1_000_000) ≡ true
      → verify_access_token jwt later
          (new_access_token jwt subject role now d s)
          (rotate_signing_key new s).1
        ≡ ok (context subject role d)
  unfolding signing_keys_by_id rotate_signing_key
  verify-rotate_signing_key later new c keeps fresh =
      verify_access_token-new later (rotate_signing_key new s).1 c
        (ring_after_rotation new s.current s.previous s.token_max_previous_keys keeps fresh)
