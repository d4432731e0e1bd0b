-- ===== src/Tokens/SigningState.antt =====
-- `TokenService._load_signing_state` of backend/app/security.py: the signing keys over a restart.
use gitvibe_dev.Prelude.{String, ◌≡◌, refl, Option, none, some, ◌&&◌, if◌then◌else◌}
use gitvibe_dev.Json.{Value, arr, nil, obj, Fields, end, field}
use gitvibe_dev.Json.Dict.{get, put, has, get-put_self}
use gitvibe_dev.Tokens.{
  Service, SigningKey, encode_key, encode_keys, signing_state_key, persist_signing_state,
  rotate_signing_key,
}

abbrev pub initial_state : String → Fields
initial_state secret_key =
    field "current" (encode_key (record { kid = "initial"; key = secret_key }))
      (field "previous" (arr nil) end)

-- `isinstance(loaded, dict) and "current" in loaded and "previous" in loaded`
unfoldable pub as_state : Option Value → Option Fields
as_state (some (obj state)) =
    if has "current" state && has "previous" state then some state else none
as_state _ = none

abbrev pub load_or_init : Option Fields → String → Fields → Fields × Fields
load_or_init (some state) secret_key vault = (state, vault)
load_or_init none secret_key vault =
    (initial_state secret_key, put signing_state_key (obj (initial_state secret_key)) vault)

-- The state, and the vault after it
unfoldable pub load_signing_state : String → Fields → Fields × Fields
unfolding as_state
load_signing_state secret_key vault =
    load_or_init (as_state (get signing_state_key vault)) secret_key vault

-- `self._signing_state`, as the dict that it is
abbrev pub signing_state : Service → Fields
signing_state s =
    field "current" (encode_key s.current) (field "previous" (arr (encode_keys s.previous)) end)

load_again :
    (loaded : Option Fields) (secret_key new_secret : String) (vault : Fields)
    → as_state (get signing_state_key vault) ≡ loaded
    → let (state, after) = load_or_init loaded secret_key vault in
      load_signing_state new_secret after ≡ (state, after)
unfolding load_signing_state as_state
load_again (some state) secret_key new_secret vault e = rw e
load_again none secret_key new_secret vault e = rw get-put_self

-- A start finds the signing keys that the start before it left in the vault, whatever its secret
-- key is, and leaves the vault alone. So does a start after a rotation: it finds the new key as the
-- current one, with the previous keys that the rotation kept.
pub load_signing_state-rotate_signing_key :
    (secret_key new_secret : String) (vault : Fields) (new : SigningKey) (s : Service)
    → (let (state, after) = load_signing_state secret_key vault in
        load_signing_state new_secret after ≡ (state, after))
      × (let rotated = (rotate_signing_key new s).1 in
          load_signing_state new_secret rotated.vault ≡ (signing_state rotated, rotated.vault))
unfolding load_signing_state as_state rotate_signing_key persist_signing_state
load_signing_state-rotate_signing_key secret_key new_secret vault new s = (
  load_again (as_state (get signing_state_key vault)) secret_key new_secret vault refl,
  rw get-put_self,
)
