-- ===== src/Vault/Contents.antt =====
-- The dict that the vault of backend/app/vault.py stands for, and what its operations do to it.
use gitvibe_dev.Prelude.{
  String, ◌≡◌, ◌≢◌, refl, sym, subst, ap, ◌∙◌, Bool, true, false, Option, none, some, inl, inr,
  Option-cases, String-cases, ◌==◌, eq_refl, if◌then◌else◌,
}
use gitvibe_dev.Exc.{Exc, ok, raised, vault_error}
use gitvibe_dev.Json.{Value, obj, Fields}
use gitvibe_dev.Json.Dict.{get, put, del, has, get-put, get-del}
use gitvibe_dev.Vault.{
  Crypto, LocalVault, read, read_file, write, get_value, set_value, delete_value, rotate_master_key,
  with_contents, parse,
}
use gitvibe_dev.Vault.Sorted.{sorted_fields, sorted_entry, get-sorted_fields}

-- The documented behaviour of Fernet and of JSON.
pub record CryptoLaws {Key Text Bytes : Type 0} (crypto : Crypto Key Text Bytes) : Type 0 where
  pub decrypt-encrypt :
      (key : Key) (draw : String) (b : Bytes)
      → crypto.decrypt key (crypto.encrypt key draw b) ≡ some b
  pub decrypt_other :
      (key other : Key) (draw : String) (b : Bytes)
      → other ≢ key
      → crypto.decrypt other (crypto.encrypt key draw b) ≡ none
  pub is_blank-encrypt :
      (key : Key) (draw : String) (b : Bytes) → crypto.is_blank (crypto.encrypt key draw b) ≡ false
  pub decode-encode : (t : Text) → crypto.decode (crypto.encode t) ≡ some t
  pub loads-dumps : (d : Fields) → crypto.loads (crypto.dumps d) ≡ some (obj (sorted_fields d))

-- An entry of a dict, or the default of `get`
abbrev pub entry_or : Value → Option Value → Value
entry_or default none = default
entry_or default (some v) = v

or_entry :
    (default : Value) (o : Option Value)
    → elim o as (λ _. Value) [ none ↦ default | some w ↦ w ] ≡ entry_or default o
or_entry default none = refl
or_entry default (some v) = refl

sorted_if :
    (b : Bool) (o : Option Value)
    → sorted_entry (if b then none else o) ≡ (if b then none else sorted_entry o)
sorted_if true o = refl
sorted_if false o = refl

-- What `delete` leaves, whether or not the key was there.
del_entry :
    (key j : String) (d : Fields)
    → get key d ≡ none
    → get j d ≡ (if key == j then none else get j d)
del_entry key j d h = elim (String-cases key j) [
  | inl e ↦ rw (e, eq_refl) (subst (λ k. get k d ≡ none) e h)
  | inr ne ↦ rw ne
]

module _ {Key Text Bytes : Type 0} (crypto : Crypto Key Text Bytes) (laws : CryptoLaws crypto) where
  read-write :
      (draw : String) (d : Fields) (v : LocalVault Key Bytes)
      → read crypto (write crypto draw d v) ≡ ok (sorted_fields d)
  unfolding read write
  read-write draw d v =
      let b = crypto.encode (crypto.dumps d) in
      rw (
        laws.is_blank-encrypt v.fernet draw b,
        laws.decrypt-encrypt v.fernet draw b,
        parse,
        laws.decode-encode (crypto.dumps d),
        laws.loads-dumps d,
      )

  get_value-read :
      (key : String) (default : Value) (v : LocalVault Key Bytes) (d : Fields)
      → read crypto v ≡ ok d
      → get_value crypto key default v ≡ ok (entry_or default (get key d))
  unfolding get_value
  get_value-read key default v d h = rw (h, get_value) (ap ok (or_entry default (get key d)))

  get_value-write :
      (draw key : String) (default : Value) (v : LocalVault Key Bytes) (d : Fields)
      → get_value crypto key default (write crypto draw d v)
        ≡ ok (entry_or default (sorted_entry (get key d)))
  get_value-write draw key default v d =
      get_value-read key default (write crypto draw d v) (sorted_fields d) (read-write draw d v)
      ∙ ap (λ o. ok (entry_or default o)) (get-sorted_fields key d)

  wrong_key :
      (draw : String) (d : Fields) (v : LocalVault Key Bytes) (new : Key)
      → new ≢ v.fernet
      → read_file crypto v.fernet (write crypto draw d (record v { fernet = new })).file
        ≡ raised (vault_error "Vault decryption failed. Invalid master key.")
  unfolding read_file write
  wrong_key draw d v new differs =
      let b = crypto.encode (crypto.dumps d) in
      rw (
        laws.is_blank-encrypt new draw b,
        laws.decrypt_other new v.fernet draw b (λ e. differs (sym e)),
        parse,
      )

  module _ (draw key : String) (v : LocalVault Key Bytes) (d : Fields)
      (readable : read crypto v ≡ ok d) where
    -- After `set` on a vault that can be read, `get` finds the value under its key, and under any
    -- other key what was there, with the keys of dicts in order.
    pub get_value-set_value :
        (j : String) (default value : Value)
        → get_value crypto j default (set_value crypto draw key value v).1
          ≡ ok (entry_or default (sorted_entry (if key == j then some value else get j d)))
    unfolding set_value
    get_value-set_value j default value =
        rw (readable, with_contents, set_value)
          (get_value-write draw j default v (put key value d)
            ∙ ap (λ o. ok (entry_or default (sorted_entry o))) (get-put key j value d))

    -- After `delete` on a vault that can be read, `get` finds nothing under the key, and under any
    -- other key what was there, with the keys of dicts in order if the file was written.
    pub get_value-delete_value :
        (j : String) (default : Value)
        → get_value crypto j default (delete_value crypto draw key v).1
          ≡ ok (
              entry_or default
                (if key == j then none else if has key d then sorted_entry (get j d) else get j d))
    unfolding delete_value
    get_value-delete_value j default = elim (Option-cases (get key d)) [
      | inl missing ↦
          rw (readable, with_contents, missing, has, delete_value)
            (get_value-read j default v d readable
              ∙ ap (λ o. ok (entry_or default o)) (del_entry key j d missing))
      | inr (value, there) ↦
          rw (readable, with_contents, there, has, delete_value)
            (get_value-write draw j default v (del key d)
              ∙ ap (λ o. ok (entry_or default (sorted_entry o))) (get-del key j d)
              ∙ ap (λ o. ok (entry_or default o)) (sorted_if (key == j) (get j d)))
    ]

    -- If the vault can be read and the new master key derives another Fernet key than the one in use:
    -- after a rotation of the master key the vault has the same entries, with the keys of dicts in
    -- order, and the file cannot be read with the old key any more.
    pub rotate_master_key_lem :
        (j : String) (default : Value)
        → crypto.derive key ≢ v.fernet
        → let v' = (rotate_master_key crypto draw key v).1 in
          (get_value crypto j default v' ≡ ok (entry_or default (sorted_entry (get j d))))
          × (read crypto (record v' { fernet = v.fernet })
              ≡ raised (vault_error "Vault decryption failed. Invalid master key."))
    unfolding rotate_master_key
    rotate_master_key_lem j default differs =
        rw (readable, with_contents, rotate_master_key)
          (
            get_value-write draw j default (record v { fernet = crypto.derive key }) d,
            wrong_key draw d v (crypto.derive key) differs,
          )

-- A vault that cannot be read is not written: `set`, `delete` and a rotation raise what reading
-- raised, and the file and the key stay as they are.
pub unreadable_unchanged :
    {Key Text Bytes : Type 0} (crypto : Crypto Key Text Bytes) (draw key : String) (value : Value)
    (v : LocalVault Key Bytes) (e : Exc)
    → read crypto v ≡ raised e
    → (set_value crypto draw key value v ≡ (raised e, v))
      × (delete_value crypto draw key v ≡ (raised e, v))
      × (rotate_master_key crypto draw key v ≡ (raised e, v))
unfolding set_value delete_value rotate_master_key
unreadable_unchanged crypto draw key value v e h = (
  rw (h, with_contents, set_value),
  rw (h, with_contents, delete_value),
  rw (h, with_contents, rotate_master_key),
)
