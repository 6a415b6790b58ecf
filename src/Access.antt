-- ===== src/Access.antt =====
-- ai-console/src/lib/server/connector-access.ts: who may use which shared connection of a connector, and
-- for which actions.
pub mod Texts
pub mod Actions
pub mod Grants
pub mod Save
pub mod Sound
pub mod Replaced
pub mod Removed
pub mod Sane
pub mod Reached
mod Tests
use ai_base.Common.{ℕ, String, ◌≡◌, refl, List, Bool, true, false, Option}

-- A return, or an `IntegrationStoreError` with its message and its HTTP status.
pub data Accessed {ℓ} (A : Type ℓ) : Type ℓ where
  returned : A → Accessed A
  store_error : String → ℕ → Accessed A

infixl 5 ◌>>=◌
abbrev pub ◌>>=◌ {ℓ ℓ'} : {S : Type ℓ} {R : Type ℓ'} → Accessed S → (S → Accessed R) → Accessed R
store_error message status >>= next = store_error message status
returned value >>= next = next value

-- A return comes from a return of the first part.
pub >>=-returned {ℓ ℓ'} :
    {S : Type ℓ} {R : Type ℓ'} (first : Accessed S) (next : S → Accessed R) {end : R}
    → (first >>= next) ≡ returned end
    → (value : S) × (first ≡ returned value) × (next value ≡ returned end)
>>=-returned (store_error message status) next h = cc
>>=-returned (returned value) next h = (value, refl, h)

pub returned-injective {ℓ} : {A : Type ℓ} {a b : A} → returned a ≡ returned b → a ≡ b
returned-injective h = cc

-- `if (test) throw …`, and what follows.
unfoldable pub refuse_if {ℓ} : {A : Type ℓ} → Bool → String → ℕ → Accessed A → Accessed A
refuse_if true message status next = store_error message status
refuse_if false message status next = next

pub refuse_if-returned {ℓ} :
    {A : Type ℓ} (test : Bool) (message : String) (status : ℕ) (next : Accessed A) {end : A}
    → refuse_if test message status next ≡ returned end
    → (test ≡ false) × (next ≡ returned end)
unfolding refuse_if
refuse_if-returned true message status next h = cc
refuse_if-returned false message status next h = (refl, h)

-- A connection as `listConnectorConnections` gives it.
pub record Connection : Type 0 where
  pub service : String
  pub connection_name : String
  pub configured : Bool
  pub auth_type : String
  pub display_name : String

-- The platform, the connector service and the other tables of the database.
pub record Outside : Type 0 where
  -- `toLowerCase()`
  pub lower : String → String
  -- `new Date(text).toISOString()`, `none` where the date is invalid.
  pub iso_date : String → Option String
  -- `new Date(a) >= new Date(b)`
  pub not_before : String → String → Bool
  -- The ids of the actions that `getConnectorProvider` gives, or its error.
  pub provider : String → Accessed (List String)
  pub connections : Accessed (List Connection)
  -- An employee's binding of the connection that is not revoked.
  pub has_binding : String → String → Bool
  -- An organization that is active and configured.
  pub has_organization : String → Bool
