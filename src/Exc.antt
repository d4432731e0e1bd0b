-- ===== src/Exc.antt =====
-- Exceptions as values: what a function of the program returns or raises.
use Prim.Native.String.{String}
use gitvibe_dev.Prelude.{ℕ, Bool, true, false, if◌then◌else◌, ◌≡◌, refl, ◌⊎◌, inl, inr}

-- `http` is FastAPI's HTTPException, `ai_error` the AIProviderError of ai_service.py; `provider_error` to `workflow_error` are the error classes of
-- backend/app/platform, which carry a status code; the others are named after their classes, and
-- `other` is any other class.
pub data Exc : Type 0 where
  http : (status_code : ℕ) (detail : String) → Exc
  provider_error agent_error plugin_error workflow_error :
      (status_code : ℕ) (message : String) → Exc
  type_error value_error key_error : Exc
  vault_error ai_error : (message : String) → Exc
  other : (message : String) → Exc

pub data Result {ℓ} (A : Type ℓ) : Type ℓ where
  ok : A → Result A
  raised : Exc → Result A

infixl 10 ◌>>=◌
abbrev pub ◌>>=◌ {ℓ κ} : {A : Type ℓ} {B : Type κ} → Result A → (A → Result B) → Result B
ok a >>= f = f a
raised e >>= f = raised e

-- A chain of steps returns only if each of them does.
module _ {ℓ κ} {A : Type ℓ} {B : Type κ} where
  pub bind_ok :
      (step : Result A) (rest : A → Result B) {out : B}
      → (step >>= rest) ≡ ok out
      → (value : A) × (step ≡ ok value) × (rest value ≡ ok out)
  bind_ok (ok value) rest returned = (value, refl, returned)
  bind_ok (raised e) rest returned = cc

pub Result-cases {ℓ} :
    {A : Type ℓ} (r : Result A) → ((a : A) × (r ≡ ok a)) ⊎ ((e : Exc) × (r ≡ raised e))
Result-cases (ok a) = inl (a, refl)
Result-cases (raised e) = inr (e, refl)

-- What is returned past a test that raises.
pub passed_test {ℓ} :
    {A : Type ℓ} (test : Bool) (e : Exc) (a b : A)
    → (if test then raised e else ok a) ≡ ok b
    → (test ≡ false) × (a ≡ b)
passed_test true e a b h = cc
passed_test false e a b h = (refl, cc)
