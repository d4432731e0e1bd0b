-- ===== src/Tokens/Tests.antt =====
-- The token service at concrete inputs. A token is its payload, its key and its key id.
use gitvibe_dev.Prelude.{
  true, false, ℕ, ◌≡◌, ◌≢◌, refl, String, Option, none, some, [], ◌∷◌, arith, ◌==◌, eq_refl,
  ne_of_eq_false, if◌then◌else◌, inl, inr, String-cases,
}
use gitvibe_dev.Prelude.Int.{ℤ, pos, ltb_ℤ, ◌*ℤ◌, ◌+ℤ◌}
use gitvibe_dev.Exc.{ok, raised, http}
use gitvibe_dev.Json.{Value, str, int, obj, Fields, end, field}
use gitvibe_dev.Json.Dict.{get}
use gitvibe_dev.Json.Convert.{Builtins, int_of}
use gitvibe_dev.Tokens.{
  Service, Draws, Issued, decode_token, verify_access_token, new_access_token, rotate_signing_key,
  rotate_refresh_token, refresh_state_key, session, refresh_payload, new_refresh_token,
  access_payload, signing_keys_by_id, find_key, role_level,
}
use gitvibe_dev.Tokens.Codec.{Jwt, JwtLaws, IsTimed, Decoded, payload, expired, invalid}
use gitvibe_dev.Tokens.Verify.{
  IsComplete, context, decode_token_known, decode_token_late, decode_token_unknown,
  verify_access_token-new, verify-rotate_signing_key,
}
use gitvibe_dev.Tokens.SigningState.{
  load_signing_state, signing_state, load_signing_state-rotate_signing_key,
}
use gitvibe_dev.Tokens.Refresh.{rotate_refresh_token_once}

abbrev pub Plain : Type 0
Plain = Fields × String × String

unfoldable pub decode_timed : ℕ → Fields → Option Value → Decoded
decode_timed now p (some (int exp)) =
    if ltb_ℤ (pos now) (exp *ℤ pos 1_000_000) then payload p else expired
decode_timed now p _ = payload p

unfoldable pub decode_plain : ℕ → Plain → String → Decoded
unfolding decode_timed
decode_plain now (p, key, kid) k = if k == key then decode_timed now p (get "exp" p) else invalid

abbrev pub plain : Jwt Plain
plain = record {
  encode = λ p key kid. (p, key, kid);
  header = λ t. some (field "kid" (str t.2) end);
  decode = decode_plain;
}

live :
    (p : Fields) (key kid : String) (now iat : ℕ) (exp : ℤ)
    → IsTimed p iat exp
    → ltb_ℤ (pos now) (exp *ℤ pos 1_000_000) ≡ true
    → decode_plain now (p, key, kid) key ≡ payload p
unfolding decode_plain
live p key kid now iat exp timed until = rw (timed.expires, eq_refl, until)

late :
    (p : Fields) (key kid : String) (now iat : ℕ) (exp : ℤ)
    → IsTimed p iat exp
    → ltb_ℤ (pos now) (exp *ℤ pos 1_000_000) ≡ false
    → decode_plain now (p, key, kid) key ≡ expired
unfolding decode_plain
late p key kid now iat exp timed over = rw (timed.expires, eq_refl, over)

other :
    (p : Fields) (key kid k : String) (now : ℕ)
    → k ≢ key
    → decode_plain now (p, key, kid) k ≡ invalid
unfolding decode_plain
other p key kid k now ne = elim (String-cases k key) [
  | inl e ↦ absurd (ne e)
  | inr differs ↦ rw differs
]

plain-JwtLaws : JwtLaws plain
plain-JwtLaws = record {
  header-encode = λ p key kid. (field "kid" (str kid) end, refl, refl);
  decode_live = λ p key kid now iat exp timed from until. live p key kid now iat exp timed until;
  decode_late = λ p key kid now iat exp timed from over. late p key kid now iat exp timed over;
  decode_other = λ p key kid k now ne. other p key kid k now ne;
}

abbrev pub service : Service
service = record {
  access_token_ttl_minutes = pos 15;
  refresh_token_ttl_hours = pos 24;
  token_max_previous_keys = 3;
  current = record { kid = "k2"; key = "second" };
  previous = record { kid = "k1"; key = "first" } ∷ [];
  vault = end;
}

abbrev pub draws : Draws
draws = record { csrf_token = "c1"; token_id = "t1"; refresh_id = "r1" }

abbrev more_draws : Draws
more_draws = record { csrf_token = "c2"; token_id = "t2"; refresh_id = "r2" }

complete : IsComplete "ada" "operator" draws
unfolding role_level
complete = record {
  level = 20;
  known = refl;
  has_subject = refl;
  has_role = refl;
  has_csrf = refl;
  has_id = refl;
}

-- Issued at 1,000 seconds, good for a quarter of an hour.
unfoldable pub claims : Fields
unfolding access_payload
claims = access_payload "ada" "operator" draws 1_000 (pos 1_900)

claims-IsTimed : IsTimed claims 1_000 (pos 1_900)
unfolding claims ◌+ℤ◌ ◌*ℤ◌
claims-IsTimed = record {
  issued = refl;
  expires = refl;
  not_before = refl;
  audience = refl;
  subject = ("ada", refl);
  token_id = ("t1", refl);
}

decode_token_known_tried :
    decode_token plain 1_500_000_000 (claims, "first", "k1") "access" service ≡ ok claims
unfolding signing_keys_by_id find_key claims ◌+ℤ◌ ◌*ℤ◌
decode_token_known_tried =
    decode_token_known plain plain-JwtLaws claims "first" "k1" service 1_500_000_000 1_000
      (pos 1_900) "access" refl claims-IsTimed refl (omega arith) refl

decode_token_late_example :
    decode_token plain 1_900_000_000 (claims, "first", "k1") "access" service
    ≡ raised (http 401 "Token expired.")
unfolding signing_keys_by_id find_key claims ◌+ℤ◌ ◌*ℤ◌
decode_token_late_example =
    decode_token_late plain plain-JwtLaws claims "first" "k1" service 1_900_000_000 1_000
      (pos 1_900) "access" refl claims-IsTimed (omega arith) refl

decode_token_unknown_example :
    decode_token plain 1_500_000_000 (claims, "third", "k1") "access" service
    ≡ raised (http 401 "Invalid token.")
unfolding signing_keys_by_id find_key claims ◌+ℤ◌ ◌*ℤ◌
decode_token_unknown_example =
    decode_token_unknown plain plain-JwtLaws claims "third" "k1" service 1_500_000_000 "access"
      (ne_of_eq_false "second" "third" refl, (ne_of_eq_false "first" "third" refl, tt))

verify_access_token-new_tried :
    verify_access_token plain 1_000_000_001
      (new_access_token plain "ada" "operator" 1_000_000_000 draws service)
      service
    ≡ ok (context "ada" "operator" draws)
unfolding signing_keys_by_id find_key claims ◌+ℤ◌ ◌*ℤ◌
verify_access_token-new_tried =
    verify_access_token-new plain plain-JwtLaws "ada" "operator" 1_000_000_000 draws service
      1_000_000_001 service complete refl (omega arith) refl

verify-rotate_signing_key_example :
    verify_access_token plain 1_000_000_001
      (new_access_token plain "ada" "operator" 1_000_000_000 draws service)
      (rotate_signing_key (record { kid = "k3"; key = "third" }) service).1
    ≡ ok (context "ada" "operator" draws)
unfolding ◌+ℤ◌ ◌*ℤ◌
verify-rotate_signing_key_example =
    verify-rotate_signing_key plain plain-JwtLaws "ada" "operator" 1_000_000_000 draws service
      1_000_000_001 (record { kid = "k3"; key = "third" }) complete (omega arith) (refl, tt)
      (omega arith) refl

-- The hash of a token is the id that it carries.
abbrev hash : Plain → String
hash t = elim (get "jti" t.0) [ some (str id) ↦ id | _ ↦ "" ]

abbrev py : Builtins
py = record { repr = λ v. "?"; parse_float = λ s. none }

-- A service whose vault has the session of the refresh token below.
abbrev one_session : Service
one_session = record service {
  vault =
      field refresh_state_key (obj (field "r1" (session "ada" "operator" (pos 87_400)) end)) end;
}

abbrev refresh_token : Plain
refresh_token = (refresh_payload "ada" "operator" draws 1_000 (pos 87_400), "second", "k2")

abbrev rotated : Issued Plain
rotated = record {
  access_token = new_access_token plain "ada" "operator" 1_000_000_000 more_draws one_session;
  refresh_token = new_refresh_token plain "ada" "operator" 1_000_000_000 more_draws one_session;
  expires_in = pos 900;
  csrf_token = "c2";
  role = "operator";
}

rotate_once :
    (rotate_refresh_token plain hash py 1_000_000_000 more_draws refresh_token one_session).0
    ≡ ok rotated
unfolding rotate_refresh_token decode_plain int_of ◌+ℤ◌ ◌*ℤ◌
rotate_once = refl

rotate_refresh_token_once_example :
    (rotate_refresh_token plain hash py 1_000_000_001 draws refresh_token
      (rotate_refresh_token plain hash py 1_000_000_000 more_draws refresh_token one_session).1).0
    ≢ ok rotated
unfolding new_refresh_token refresh_payload ◌+ℤ◌ ◌*ℤ◌
rotate_refresh_token_once_example =
    rotate_refresh_token_once plain hash py 1_000_000_000 1_000_000_001 more_draws draws
      refresh_token one_session rotated rotated rotate_once (ne_of_eq_false "r2" "r1" refl)

load_signing_state-rotate_signing_key_example :
    (let (state, after) = load_signing_state "s3cret" end in
      load_signing_state "changed" after ≡ (state, after))
    × (let rotated = (rotate_signing_key (record { kid = "k2"; key = "n3w" }) service).1 in
        load_signing_state "changed" rotated.vault ≡ (signing_state rotated, rotated.vault))
load_signing_state-rotate_signing_key_example =
    load_signing_state-rotate_signing_key "s3cret" "changed" end
      (record { kid = "k2"; key = "n3w" }) service
