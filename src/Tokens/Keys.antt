-- ===== src/Tokens/Keys.antt =====
-- The ring of signing keys of backend/app/security.py, and which of its keys a token is tried with.
use gitvibe_dev.Prelude.{
  ℕ, String, ◌≡◌, ◌≢◌, refl, subst, ◌∙◌, inl, inr, Bool, true, false, some, List, [], ◌∷◌, ◌++◌,
  All, All-append, contains, Bool-cases, arith, ◌==◌, eq_iff, eq_refl, if◌then◌else◌,
}
use gitvibe_dev.Exc.{raised}
use gitvibe_dev.Json.{str, Fields}
use gitvibe_dev.Tokens.Codec.{Jwt, JwtLaws}
use gitvibe_dev.Tokens.{
  Service, SigningKey, put_key, put_keys, signing_keys_by_id, find_key, extend_new, candidate_keys,
  unauthorized, try_keys,
}

pub find_key-put_key :
    (kid : String) (k : SigningKey) (keys : List SigningKey)
    → find_key kid (put_key k keys) ≡ (if k.kid == kid then some k.key else find_key kid keys)
unfolding find_key put_key
find_key-put_key kid k [] = refl
find_key-put_key kid k (j ∷ keys) =
    ground
      (arith, eq_iff k.kid kid, eq_iff j.kid kid, eq_iff j.kid k.kid, find_key-put_key kid k keys)

-- None of the keys has this id.
abbrev pub IsFresh : String → List SigningKey → Type 0
IsFresh kid = All (λ k. (k.kid == kid) ≡ false)

pub find_key-put_keys :
    (kid : String) (ks keys : List SigningKey)
    → IsFresh kid ks
    → find_key kid (put_keys ks keys) ≡ find_key kid keys
unfolding put_keys
find_key-put_keys kid [] keys f = refl
find_key-put_keys kid (k ∷ ks) keys f =
    find_key-put_keys kid ks (put_key k keys) f.1 ∙ find_key-put_key kid k keys ∙ rw f.0

pub find_key_current :
    (s : Service)
    → IsFresh s.current.kid s.previous
    → find_key s.current.kid (signing_keys_by_id s) ≡ some s.current.key
unfolding signing_keys_by_id
find_key_current s f =
    find_key-put_keys s.current.kid s.previous (s.current ∷ []) f ∙ (unfold find_key in rw eq_refl)

extend_new_first :
    (key : String) (found : List String) (keys : List SigningKey)
    → (rest : List String) × (extend_new (key ∷ found) keys ≡ key ∷ rest)
unfolding extend_new
extend_new_first key found [] = (found, refl)
extend_new_first key found (k ∷ keys) = elim (Bool-cases (contains k.key (key ∷ found))) [
  | inl old ↦ rw old (extend_new_first key found keys)
  | inr new ↦ rw new (extend_new_first key (found ++ k.key ∷ []) keys)
]

-- The key that the header names is tried first.
pub candidate_keys_first :
    (kid key : String) (keys : List SigningKey)
    → find_key kid keys ≡ some key
    → (rest : List String) × (candidate_keys (some (str kid)) keys ≡ key ∷ rest)
unfolding candidate_keys
candidate_keys_first kid key keys e = rw e (extend_new_first key [] keys)

-- Every key that is tried is one of the ring.
pub All-extend_new {κ} :
    (P : String → Type κ) (found : List String) (keys : List SigningKey)
    → All P found
    → All (λ k. P k.key) keys
    → All P (extend_new found keys)
unfolding extend_new
All-extend_new P found [] a b = a
All-extend_new P found (k ∷ keys) a b =
    All-extend_new P (if contains k.key found then found else found ++ k.key ∷ []) keys
      (grown (contains k.key found)) b.1
  where
    grown : (c : Bool) → All P (if c then found else found ++ k.key ∷ [])
    grown true = a
    grown false = All-append P found (k.key ∷ []) a (b.0, tt)

pub All-find_key {κ} :
    (P : String → Type κ) (kid key : String) (keys : List SigningKey)
    → All (λ k. P k.key) keys
    → find_key kid keys ≡ some key
    → P key
unfolding find_key
All-find_key P kid key [] a e = cc
All-find_key P kid key (k ∷ keys) a e = elim (Bool-cases (k.kid == kid)) [
  | inl same ↦ let eq : k.key ≡ key = cc (rw same at e) in subst P eq a.0
  | inr other ↦ All-find_key P kid key keys a.1 (rw other at e)
]

module _ {Token : Type 0} (jwt : Jwt Token) (laws : JwtLaws jwt) where
  pub try_keys_none :
      (now : ℕ) (p : Fields) (key kid expected_type : String) (keys : List String)
      → All (λ k. k ≢ key) keys
      → try_keys jwt now (jwt.encode p key kid) expected_type keys
        ≡ raised (unauthorized "Invalid token.")
  unfolding try_keys
  try_keys_none now p key kid expected_type [] a = refl
  try_keys_none now p key kid expected_type (k ∷ keys) a =
      rw (laws.decode_other p key kid k now a.0, try_keys)
        (try_keys_none now p key kid expected_type keys a.1)
