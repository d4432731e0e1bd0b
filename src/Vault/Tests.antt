-- ===== src/Vault/Tests.antt =====
-- The vault at concrete inputs. A sealed text carries its key.
use gitvibe_dev.Prelude.{
  String, ◌≡◌, ◌≢◌, refl, false, Option, none, some, ◌==◌, eq_refl, ne_of_eq_false, String-cases,
  inl, inr, if◌then◌else◌,
}
use gitvibe_dev.Prelude.Int.{pos}
use gitvibe_dev.Exc.{Exc, ok, raised, vault_error}
use gitvibe_dev.Json.{null, int, str, obj, Fields, end, field}
use gitvibe_dev.Vault.{
  Crypto, LocalVault, read, get_value, set_value, delete_value, rotate_master_key, open_vault,
}
use gitvibe_dev.Vault.Sorted.{sorted_fields}
use gitvibe_dev.Vault.Contents.{
  CryptoLaws, get_value-set_value, get_value-delete_value, rotate_master_key_lem,
  unreadable_unchanged,
}

pub data Blob : Type 0 where
  plain : Fields → Blob
  sealed : String → Blob → Blob

abbrev open_blob : String → Blob → Option Blob
open_blob k (plain d) = none
open_blob k (sealed j b) = if k == j then some b else none

abbrev decode_blob : Blob → Option Fields
decode_blob (plain d) = some d
decode_blob (sealed k b) = none

abbrev pub toy : Crypto String Fields Blob
toy = record {
  derive = λ k. k;
  encrypt = λ key draw b. sealed key b;
  decrypt = open_blob;
  is_blank = λ b. false;
  encode = plain;
  decode = decode_blob;
  dumps = λ d. d;
  loads = λ d. some (obj (sorted_fields d));
}

wrong : (key other : String) (b : Blob) → other ≢ key → open_blob other (sealed key b) ≡ none
wrong key other b ne = elim (String-cases other key) [
  | inl e ↦ absurd (ne e)
  | inr differs ↦ rw differs
]

pub toy-CryptoLaws : CryptoLaws toy
toy-CryptoLaws = record {
  decrypt-encrypt = λ key draw b. rw eq_refl;
  decrypt_other = λ key other draw b ne. wrong key other b ne;
  is_blank-encrypt = λ key draw b. refl;
  decode-encode = λ t. refl;
  loads-dumps = λ d. refl;
}

abbrev contents : Fields
contents = field "a" (int (pos 1)) (field "b" (obj (field "z" null (field "y" null end))) end)

abbrev vault : LocalVault String Blob
vault = record { fernet = "m"; file = some (sealed "m" (plain contents)) }

first_read : read toy (open_vault toy "" "m" none) ≡ ok end
unfolding read open_vault sorted_fields
first_read = refl

vault_reads : read toy vault ≡ ok (sorted_fields contents)
unfolding read
vault_reads = refl

get_value-set_value_example :
    get_value toy "b" null (set_value toy "" "a" (str "new") vault).1
    ≡ ok (obj (field "y" null (field "z" null end)))
unfolding sorted_fields
get_value-set_value_example =
    get_value-set_value toy toy-CryptoLaws "" "a" vault (sorted_fields contents) vault_reads "b"
      null (str "new")

get_value-delete_value_tried : get_value toy "a" null (delete_value toy "" "a" vault).1 ≡ ok null
get_value-delete_value_tried =
    get_value-delete_value toy toy-CryptoLaws "" "a" vault (sorted_fields contents) vault_reads "a"
      null

rotate_master_key_lem_example :
    let v' = (rotate_master_key toy "" "n" vault).1 in
    (get_value toy "a" null v' ≡ ok (int (pos 1)))
    × (read toy (record v' { fernet = "m" })
        ≡ raised (vault_error "Vault decryption failed. Invalid master key."))
unfolding sorted_fields
rotate_master_key_lem_example =
    rotate_master_key_lem toy toy-CryptoLaws "" "n" vault (sorted_fields contents) vault_reads "a"
      null (ne_of_eq_false "n" "m" refl)

abbrev locked : LocalVault String Blob
locked = record vault { fernet = "x" }

abbrev refusal : Exc
refusal = vault_error "Vault decryption failed. Invalid master key."

unreadable_unchanged_tried :
    (set_value toy "" "a" null locked ≡ (raised refusal, locked))
    × (delete_value toy "" "a" locked ≡ (raised refusal, locked))
    × (rotate_master_key toy "" "a" locked ≡ (raised refusal, locked))
unfolding read
unreadable_unchanged_tried = unreadable_unchanged toy "" "a" null locked refusal refl
