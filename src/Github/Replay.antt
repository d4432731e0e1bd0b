-- ===== src/Github/Replay.antt =====
-- A callback of the sign-in that is sent again, backend/app/github_service.py.
use Prim.Native.String.append.{cons}
use gitvibe_dev.Prelude.{
  String, ◌≡◌, refl, sym, ap, subst, ◌∙◌, Option, none, some, ◌==◌, arith, [], ◌∷◌, String-cases,
  inl, inr, true, false,
}
use gitvibe_dev.Exc.{Result, ok, raised, http}
use gitvibe_dev.Json.{Value, null, str, Fields}
use gitvibe_dev.Json.Dict.{get, get_or}
use gitvibe_dev.Json.Convert.{lower, concat, str_of, first_code}
use gitvibe_dev.Providers.{Call}
use gitvibe_dev.Vault.{read, get_value}
use gitvibe_dev.Vault.Contents.{CryptoLaws, entry_or, get_value-set_value}
use gitvibe_dev.Vault.Sorted.{sorted_entry, sorted_value}
use gitvibe_dev.Github.{
  GithubConfig, Outside, GithubService, ◌then_do◌, continue, lift, state_vault_key, oauth_vault_key,
  oauth_ready, require_oauth_ready, text_or,
}
use gitvibe_dev.Github.Oauth.{
  consume_oauth_state, exchange_oauth_code, fetch_user, parse_scopes, vault_set, store_token,
}
use gitvibe_dev.Github.Callback.{Logged, unlogged, connect, complete_oauth_callback}
use gitvibe_dev.Github.Requests.{send}
use gitvibe_dev.Github.Once.{
  IsSpent, get_value-readable, spent_entry, consume_oauth_state_spends, consume_oauth_state_spent,
}

oauth_first : (owner : String) → first_code (oauth_vault_key owner) ≡ 111
unfolding first_code oauth_vault_key
oauth_first owner = ap first_code (cons "o" "auth::github::" (concat (lower owner ∷ [])))

state_first : (state : String) → first_code (state_vault_key state) ≡ 103
unfolding first_code state_vault_key
state_first state = ap first_code (cons "g" "ithub_oauth_state::" (concat (state ∷ [])))

keys_differ : (owner state : String) → (oauth_vault_key owner == state_vault_key state) ≡ false
keys_differ owner state = elim (String-cases (oauth_vault_key owner) (state_vault_key state)) [
  | inl same ↦ absurd (omega (arith, oauth_first owner, state_first state, ap first_code same))
  | inr differ ↦ differ
]

null_entry :
    (o : Option Value)
    → elim o as (λ _. Value) [ none ↦ null | some w ↦ w ] ≡ null
    → entry_or null (sorted_entry o) ≡ null
unfolding sorted_value
null_entry none h = refl
null_entry (some v) h = ap sorted_value h

-- A property of the state that every step of a chain of calls keeps is kept by the chain.
module _ {W : Type 0} (P : W → Type 0) where
  abbrev Keeps : {A : Type 0} → Call W A → Type 0
  Keeps call = (w : W) → P w → P (call w).1

  continue-Keeps :
      {A B : Type 0} (next : A → Call W B) (r : Result A × W)
      → ((a : A) → Keeps (next a))
      → P r.1
      → P (continue next r).1
  continue-Keeps next (ok a, w) keeps p = keeps a w p
  continue-Keeps next (raised e, w) keeps p = p

  then-Keeps :
      {A B : Type 0} (call : Call W A) (next : A → Call W B)
      → Keeps call
      → ((a : A) → Keeps (next a))
      → Keeps (call then_do next)
  then-Keeps call next first rest w p = continue-Keeps next (call w) rest (first w p)

module _ {Key Text Bytes : Type 0} (config : GithubConfig) (out : Outside Key Text Bytes)
    (laws : CryptoLaws out.crypto) (state : String) where
  -- A call that keeps the state spent
  abbrev KeepsSpent : {A : Type 0} → Call (GithubService Key Bytes) A → Type 0
  KeepsSpent call = Keeps (IsSpent config out laws state) call

  abbrev SpentLogged : Logged config out → Type 0
  SpentLogged x = IsSpent config out laws state x.0

  vault_set-KeepsSpent :
      (owner : String) (value : Value)
      → KeepsSpent (vault_set config out (oauth_vault_key owner) value)
  unfolding vault_set
  vault_set-KeepsSpent owner value s spent =
      let key = state_vault_key state in
      let (d, readable) = get_value-readable out.crypto key null null s.vault spent in
      get_value-set_value out.crypto laws out.seal_draw (oauth_vault_key owner) s.vault d readable
        key null value
      ∙ rw (keys_differ owner state)
          (ap ok (null_entry (get key d) (spent_entry config out laws state s d spent readable)))

  fetch_user-KeepsSpent : (access_token : String) → KeepsSpent (fetch_user config out access_token)
  unfolding fetch_user send
  fetch_user-KeepsSpent access_token =
      then-Keeps (IsSpent config out laws state) (send config out _) _ (λ s spent. spent)
        (λ a s spent. spent)

  exchange-KeepsSpent :
      (code : String) (uri : Option String) → KeepsSpent (exchange_oauth_code config out code uri)
  unfolding exchange_oauth_code send
  exchange-KeepsSpent code uri =
      then-Keeps (IsSpent config out laws state) (send config out _) _ (λ s spent. spent)
        (λ a s spent. spent)

  connect-Keeps :
      (state_payload token_payload : Fields)
      → Keeps SpentLogged (connect config out state_payload token_payload)
  unfolding connect store_token
  connect-Keeps state_payload token_payload =
      then-Keeps SpentLogged (unlogged config out (fetch_user config out _)) _
        (λ x. fetch_user-KeepsSpent _ x.0)
        λ login.
          then-Keeps SpentLogged (lift (parse_scopes _)) _ (λ x spent. spent)
            λ scopes.
              then-Keeps SpentLogged (unlogged config out (store_token config out _ _ _ _)) _
                (λ x. vault_set-KeepsSpent _ _ x.0) (λ u x spent. spent)

  -- What follows the use of the state in a callback
  rest_of : String → Option String → Fields → Call (Logged config out) Fields
  unfolding complete_oauth_callback
  rest_of code redirect_uri state_payload =
      unlogged config out (
        exchange_oauth_code config out code (
          some
            (text_or redirect_uri (str_of out.py (get_or "redirect_uri" (str "") state_payload)))))
      then_do λ token_payload. connect config out state_payload token_payload

  ready_callback :
      (code : String) (redirect_uri : Option String) (x : Logged config out)
      → oauth_ready config ≡ true
      → complete_oauth_callback config out code state redirect_uri x
        ≡ continue
            (rest_of code redirect_uri)
            (unlogged config out (consume_oauth_state config out state redirect_uri) x)
  unfolding complete_oauth_callback rest_of require_oauth_ready
  ready_callback code redirect_uri x ready = rw (ready, require_oauth_ready) refl

  rest_of-Keeps :
      (code : String) (redirect_uri : Option String) (state_payload : Fields)
      → Keeps SpentLogged (rest_of code redirect_uri state_payload)
  unfolding rest_of
  rest_of-Keeps code redirect_uri state_payload =
      let given =
        some
          (text_or redirect_uri (str_of out.py (get_or "redirect_uri" (str "") state_payload))) in
      then-Keeps SpentLogged {B = Fields}
        (unlogged config out (exchange_oauth_code config out code given))
        (connect config out state_payload) (λ y. exchange-KeepsSpent code given y.0)
        (connect-Keeps state_payload)

  callback_spends :
      (code : String) (redirect_uri : Option String) (x : Logged config out) (d : Fields)
      → oauth_ready config ≡ true
      → read out.crypto x.0.vault ≡ ok d
      → SpentLogged (complete_oauth_callback config out code state redirect_uri x).1
  callback_spends code redirect_uri x d ready readable =
      subst (λ y. SpentLogged y.1) (sym (ready_callback code redirect_uri x ready))
        (continue-Keeps SpentLogged (rest_of code redirect_uri)
          (unlogged config out (consume_oauth_state config out state redirect_uri) x)
          (rest_of-Keeps code redirect_uri)
          (consume_oauth_state_spends config out laws state redirect_uri x.0 d readable))

  spent_callback :
      (code : String) (redirect_uri : Option String) (x : Logged config out)
      → oauth_ready config ≡ true
      → SpentLogged x
      → (complete_oauth_callback config out code state redirect_uri x).0
        ≡ raised (http 400 "OAuth state is missing or invalid.")
  spent_callback code redirect_uri x ready spent =
      ap (λ y. y.0) (ready_callback code redirect_uri x ready)
      ∙ ap
          (λ r.
            (continue (rest_of code redirect_uri)
              (r, (unlogged config out (consume_oauth_state config out state redirect_uri) x).1)).0)
          (consume_oauth_state_spent config out laws state redirect_uri x.0 spent)

-- A state of the sign-in serves once: however a callback with it ended, a later callback with the
-- same state is refused, on a vault that could be read and with a configured GitHub app.
pub complete_oauth_callback_once :
    {Key Text Bytes : Type 0} (config : GithubConfig) (out later : Outside Key Text Bytes)
    (laws : CryptoLaws out.crypto) (code code' state : String)
    (redirect_uri redirect_uri' : Option String) (x : Logged config out) (d : Fields)
    → later.crypto ≡ out.crypto
    → oauth_ready config ≡ true
    → read out.crypto x.0.vault ≡ ok d
    → (complete_oauth_callback config later code' state redirect_uri'
        (complete_oauth_callback config out code state redirect_uri x).1).0
      ≡ raised (http 400 "OAuth state is missing or invalid.")
complete_oauth_callback_once config out later laws code code' state redirect_uri redirect_uri' x d
      same ready readable =
    spent_callback config later (subst (λ c. CryptoLaws c) (sym same) laws) state code'
      redirect_uri' _ ready
      (subst
        (λ c.
          get_value c (state_vault_key state) null
            (complete_oauth_callback config out code state redirect_uri x).1.0.vault
          ≡ ok null)
        (sym same) (callback_spends config out laws state code redirect_uri x d ready readable))
