-- ===== src/Github/Once.antt =====
-- A state of the sign-in serves once, and the token that is stored is the one that is found:
-- backend/app/github_service.py on the vault of backend/app/vault.py.
use gitvibe_dev.Prelude.{String, ◌≡◌, ap, ◌∙◌, false, Option, List, inl, inr, eq_refl}
use gitvibe_dev.Exc.{ok, raised, http, ◌>>=◌, Result-cases}
use gitvibe_dev.Json.{Value, null, obj, Fields}
use gitvibe_dev.Json.Dict.{get_or}
use gitvibe_dev.Json.Convert.{lower, is_empty}
use gitvibe_dev.Vault.{Crypto, LocalVault, read, get_value, delete_value, with_contents}
use gitvibe_dev.Vault.Contents.{CryptoLaws, get_value-set_value, get_value-delete_value}
use gitvibe_dev.Vault.Sorted.{sorted_fields}
use gitvibe_dev.Github.{
  GithubConfig, Outside, GithubService, ◌then_do◌, continue, lift, state_vault_key, oauth_vault_key,
}
use gitvibe_dev.Github.Oauth.{
  consume_oauth_state, vault_get, vault_delete, check_state, vault_set, store_token, token_entry,
}
use gitvibe_dev.Github.Requests.{get_access_token, stored_token}

ok_inj : {A : Type 0} {a b : A} → ok a ≡ ok b → a ≡ b
ok_inj h = cc

-- A vault that a value was got from can be read.
pub get_value-readable :
    {Key Text Bytes : Type 0} (crypto : Crypto Key Text Bytes) (key : String) (default x : Value)
    (v : LocalVault Key Bytes)
    → get_value crypto key default v ≡ ok x
    → (d : Fields) × (read crypto v ≡ ok d)
unfolding get_value
get_value-readable crypto key default x v h = elim (Result-cases (read crypto v)) [
  | inl (d, e) ↦ (d, e)
  | inr (e, k) ↦ absurd (cc (rw (k, get_value) at h))
]

module _ {Key Text Bytes : Type 0} (config : GithubConfig) (out : Outside Key Text Bytes)
    (laws : CryptoLaws out.crypto) (state : String) where
  -- Nothing is kept for the state.
  abbrev pub IsSpent : GithubService Key Bytes → Type 0
  IsSpent s = get_value out.crypto (state_vault_key state) null s.vault ≡ ok null

  got :
      (s : GithubService Key Bytes) (d : Fields)
      → read out.crypto s.vault ≡ ok d
      → vault_get config out (state_vault_key state) s
        ≡ (ok (get_or (state_vault_key state) null d), s)
  unfolding vault_get get_value
  got s d readable = rw (readable, get_value, vault_get)

  deleted :
      (s : GithubService Key Bytes) (d : Fields)
      → read out.crypto s.vault ≡ ok d
      → vault_delete config out (state_vault_key state) s ≡ (
        ok tt,
        record s {
          vault = (delete_value out.crypto out.delete_draw (state_vault_key state) s.vault).1;
        },
      )
  unfolding vault_delete delete_value
  deleted s d readable = rw (readable, with_contents, delete_value, vault_delete)

  -- What becomes of a state whose vault can be read.
  consume_oauth_state_lem :
      (redirect_uri : Option String) (s : GithubService Key Bytes) (d : Fields)
      → read out.crypto s.vault ≡ ok d
      → consume_oauth_state config out state redirect_uri s ≡ (
        check_state config out redirect_uri (get_or (state_vault_key state) null d),
        record s {
          vault = (delete_value out.crypto out.delete_draw (state_vault_key state) s.vault).1;
        },
      )
  unfolding consume_oauth_state
  consume_oauth_state_lem redirect_uri s d readable =
      ap
        (continue λ raw. vault_delete config out (state_vault_key state) then_do λ _.
          lift (check_state config out redirect_uri raw))
        (got s d readable)
      ∙ ap
          (continue
            λ _. lift (check_state config out redirect_uri (get_or (state_vault_key state) null d)))
          (deleted s d readable)

  pub consume_oauth_state_spends :
      (redirect_uri : Option String) (s : GithubService Key Bytes) (d : Fields)
      → read out.crypto s.vault ≡ ok d
      → IsSpent (consume_oauth_state config out state redirect_uri s).1
  consume_oauth_state_spends redirect_uri s d readable =
      ap (λ x. get_value out.crypto (state_vault_key state) null x.1.vault)
        (consume_oauth_state_lem redirect_uri s d readable)
      ∙ (rw eq_refl at (
          get_value-delete_value out.crypto laws out.delete_draw (state_vault_key state) s.vault d
            readable (state_vault_key state) null))

  pub spent_entry :
      (s : GithubService Key Bytes) (d : Fields)
      → IsSpent s
      → read out.crypto s.vault ≡ ok d
      → get_or (state_vault_key state) null d ≡ null
  unfolding get_value
  spent_entry s d spent readable = ok_inj (rw (readable, get_value) at spent)

  pub consume_oauth_state_spent :
      (redirect_uri : Option String) (s : GithubService Key Bytes)
      → IsSpent s
      → (consume_oauth_state config out state redirect_uri s).0
        ≡ raised (http 400 "OAuth state is missing or invalid.")
  unfolding check_state
  consume_oauth_state_spent redirect_uri s spent =
      let (d, readable) =
        get_value-readable out.crypto (state_vault_key state) null null s.vault spent in
      ap (λ x. x.0) (consume_oauth_state_lem redirect_uri s d readable)
      ∙ ap (check_state config out redirect_uri) (spent_entry s d spent readable)

-- The token that is stored for an owner is the one that is found for it, however the name is
-- written, if the vault can be read and the token is not empty.
pub get_access_token-store_token :
    {Key Text Bytes : Type 0} (config : GithubConfig) (out : Outside Key Text Bytes)
    (laws : CryptoLaws out.crypto) (owner written access_token : String) (scopes : List String)
    (token_type : String) (s : GithubService Key Bytes) (d : Fields)
    → read out.crypto s.vault ≡ ok d
    → lower written ≡ lower owner
    → is_empty access_token ≡ false
    → get_access_token config out written
        (store_token config out owner access_token scopes token_type s).1
      ≡ ok access_token
unfolding get_access_token store_token vault_set oauth_vault_key sorted_fields
get_access_token-store_token config out laws owner written access_token scopes token_type s d
      readable same full =
    rw (same, get_access_token, oauth_vault_key)
      (ap (λ r. r >>= stored_token)
          (rw eq_refl at (
            get_value-set_value out.crypto laws out.seal_draw (oauth_vault_key owner) s.vault d
              readable (oauth_vault_key owner) null
              (obj (token_entry config out owner access_token scopes token_type))))
        ∙ rw (full, stored_token))
