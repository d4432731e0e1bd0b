-- ===== src/Vault.antt =====
-- backend/app/vault.py: a dict that is kept encrypted in a file.
-- SHA-256, Fernet and the JSON texts are parameters; permissions of files are left out, since a
-- failure to set them is only logged.
pub mod Sorted
pub mod Contents
pub mod Tests
use gitvibe_dev.Prelude.{String, Bool, Option, none, some, if◌then◌else◌}
use gitvibe_dev.Exc.{Result, ok, raised, value_error, vault_error}
use gitvibe_dev.Json.{Value, obj, Fields, end}
use gitvibe_dev.Json.Dict.{get_or, put, del, has}

-- The libraries: `derive` is `_derive_fernet_key`, `draw` the randomness of a call of `encrypt`.
pub record Crypto (Key Text Bytes : Type 0) : Type 0 where
  pub derive : (master_key : String) → Key
  pub encrypt : (key : Key) (draw : String) → Bytes → Bytes
  -- `none` is an InvalidToken
  pub decrypt : Key → Bytes → Option Bytes
  pub is_blank : Bytes → Bool
  pub encode : Text → Bytes
  -- `none` is a UnicodeDecodeError
  pub decode : Bytes → Option Text
  -- `json.dumps(payload, sort_keys=True)`
  pub dumps : Fields → Text
  -- `none` is a JSONDecodeError
  pub loads : Text → Option Value

pub record LocalVault (Key Bytes : Type 0) : Type 0 where
  pub fernet : Key
  -- What the file holds, if there is one
  pub file : Option Bytes

module _ {Key Text Bytes : Type 0} (crypto : Crypto Key Text Bytes) where
  abbrev pub as_object : Option Value → Result Fields
  as_object none = raised (vault_error "Vault payload is corrupted.")
  as_object (some (obj d)) = ok d
  as_object (some _) = raised (vault_error "Vault payload must be a JSON object.")

  abbrev pub parse : Option Bytes → Result Fields
  parse none = raised (vault_error "Vault decryption failed. Invalid master key.")
  parse (some plaintext) = elim (crypto.decode plaintext) [
    | none ↦ raised value_error
    | some text ↦ as_object (crypto.loads text)
  ]

  -- `_read_unlocked`
  unfoldable pub read_file : Key → Option Bytes → Result Fields
  read_file key none = ok end
  read_file key (some ciphertext) =
      if crypto.is_blank ciphertext then ok end else parse (crypto.decrypt key ciphertext)

  unfoldable pub read : LocalVault Key Bytes → Result Fields
  unfolding read_file
  read v = read_file v.fernet v.file

  -- `_write_unlocked`
  unfoldable pub write : String → Fields → LocalVault Key Bytes → LocalVault Key Bytes
  write draw payload v = record v {
    file = some (crypto.encrypt v.fernet draw (crypto.encode (crypto.dumps payload)));
  }

  -- `__init__` and `_ensure_storage`, on the file that is there
  unfoldable pub open_vault : String → String → Option Bytes → LocalVault Key Bytes
  unfolding write
  open_vault draw master_key (some bytes) = record {
    fernet = crypto.derive master_key;
    file = some bytes;
  }
  open_vault draw master_key none =
      write draw end (record { fernet = crypto.derive master_key; file = none })

  -- `get`
  unfoldable pub get_value : String → Value → LocalVault Key Bytes → Result Value
  unfolding read
  get_value key default v = elim (read v) [ raised e ↦ raised e | ok d ↦ ok (get_or key default d) ]

  -- What an operation does with the dict that was read
  abbrev pub with_contents :
      (Fields → LocalVault Key Bytes)
      → Result Fields
      → LocalVault Key Bytes
      → Result (Unit {0}) × LocalVault Key Bytes
  with_contents change (raised e) v = (raised e, v)
  with_contents change (ok d) v = (ok tt, change d)

  -- `set`
  unfoldable pub set_value :
      String → String → Value → LocalVault Key Bytes → Result (Unit {0}) × LocalVault Key Bytes
  unfolding read write
  set_value draw key value v = with_contents (λ d. write draw (put key value d) v) (read v) v

  -- `delete`
  unfoldable pub delete_value :
      String → String → LocalVault Key Bytes → Result (Unit {0}) × LocalVault Key Bytes
  unfolding read write
  delete_value draw key v =
      with_contents (λ d. if has key d then write draw (del key d) v else v) (read v) v

  -- `rotate_master_key`
  unfoldable pub rotate_master_key :
      String → String → LocalVault Key Bytes → Result (Unit {0}) × LocalVault Key Bytes
  unfolding read write
  rotate_master_key draw new_master_key v =
      with_contents (λ d. write draw d (record v { fernet = crypto.derive new_master_key }))
        (read v) v
