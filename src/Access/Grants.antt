-- ===== src/Access/Grants.antt =====
-- `normalizeGrants`.
use ai_base.Common.{
  ℕ, zero, suc, String, List, [], ◌∷◌, Bool, true, false, not, ◌&&◌, Option, none, some, ◌<>◌, ltb,
  length, if◌then◌else◌, ◌===◌,
}
use ai_base.Text.{is_empty, decimal}
use ai_base.Json.{Json, null, bool, int, str, arr, obj, Fields, end, get_field}
use ai_base.Access.{Accessed, returned, store_error, refuse_if, Outside, ◌>>=◌}
use ai_base.Access.Texts.{required_text, optional_timestamp, unique_texts}
use ai_base.Access.Actions.{check_actions, check_count}

abbrev pub max_grants : ℕ
max_grants = 500

pub data PrincipalType : Type 0 where
  user group : PrincipalType

pub record SharedConnectorGrant : Type 0 where
  pub id : String
  pub principal_type : PrincipalType
  pub principal_issuer : String
  pub principal_subject : Option String
  pub principal_email : Option String
  pub group_name : Option String
  pub action_ids : List String
  pub starts_at : Option String
  pub expires_at : Option String
  pub enabled : Bool

-- `Boolean(value)`, `undefined` included.
unfoldable pub is_given : Option Json → Bool
is_given none = false
is_given (some null) = false
is_given (some (bool b)) = b
is_given (some (int zero)) = false
is_given (some (str s)) = not (is_empty s)
is_given (some value) = true

-- `Boolean(text)` for a text or `null`.
unfoldable pub is_filled : Option String → Bool
is_filled none = false
is_filled (some s) = not (is_empty s)

-- `typeof grant === "object"`: an array is an object without the source's keys.
unfoldable pub grant_fields : Json → Option Fields
grant_fields (obj fields) = some fields
grant_fields (arr vs) = some end
grant_fields value = none

unfoldable pub principal_type_of : Option Json → Option PrincipalType
principal_type_of (some (str s)) =
    if s === "user" then some user else if s === "group" then some group else none
principal_type_of value = none

-- `grant.enabled !== false`
unfoldable pub is_enabled : Option Json → Bool
is_enabled (some (bool b)) = b
is_enabled value = true

-- The text of a field that is given.
unfoldable pub given_text : Option Json → String → ℕ → Accessed (Option String)
given_text value label max_length =
    if is_given value
    then (required_text value label max_length >>= λ s. returned (some s))
    else returned none

unfoldable pub lowered : Outside → Option String → Option String
lowered outside none = none
lowered outside (some s) = some (outside.lower s)

-- `startsAt && expiresAt && new Date(startsAt) >= new Date(expiresAt)`
unfoldable pub is_reversed : Outside → Option String → Option String → Bool
is_reversed outside (some starts) (some expires) = outside.not_before starts expires
is_reversed outside starts expires = false

-- The principal of a grant: subject, email and group name.
unfoldable pub read_principal :
    Outside → PrincipalType → Fields → Accessed (Option String × Option String × Option String)
read_principal outside user fields =
    given_text (get_field fields "principalSubject") "员工 Subject" 512 >>= λ subject.
    given_text (get_field fields "principalEmail") "员工邮箱" 320 >>= λ email.
    returned (subject, lowered outside email, none)
read_principal outside group fields =
    required_text (get_field fields "groupName") "群组名称" 255 >>= λ name.
    returned (none, none, some (outside.lower name))

unfoldable pub is_anonymous : PrincipalType → Option String → Option String → Bool
is_anonymous user subject email = not (is_filled subject) && not (is_filled email)
is_anonymous group subject email = false

module _ (outside : Outside) (issuer : String) (known : List String) where
  -- The grant, from the check of its timestamps on.
  unfoldable pub finish_grant :
      String
      → PrincipalType
      → Fields
      → List String
      → Option String
      → Option String
      → Accessed SharedConnectorGrant
  finish_grant id principal fields actions starts expires =
      refuse_if (is_reversed outside starts expires) "授权结束时间必须晚于开始时间" 400 (
        read_principal outside principal fields >>= λ who.
        refuse_if (is_anonymous principal who.0 who.1) "员工授权必须填写邮箱或 Subject" 400 (
          returned (record {
            id = id;
            principal_type = principal;
            principal_issuer = issuer;
            principal_subject = who.0;
            principal_email = who.1;
            group_name = who.2;
            action_ids = actions;
            starts_at = starts;
            expires_at = expires;
            enabled = is_enabled (get_field fields "enabled");
          })))

  unfoldable pub read_grant : ℕ → String → PrincipalType → Fields → Accessed SharedConnectorGrant
  read_grant index id principal fields =
      let actions = unique_texts (get_field fields "actionIds") in
      check_count ("第 " <> decimal (suc index) <> " 条授权至少选择一个 Action") actions (
        check_actions known actions (
          optional_timestamp outside (get_field fields "startsAt") "授权开始时间" >>= λ starts.
          optional_timestamp outside (get_field fields "expiresAt") "授权结束时间" >>= λ expires.
          finish_grant id principal fields actions starts expires))

  -- The callback of `grants.map`. `randomUUID()` is a function of the index.
  unfoldable pub normalize_grant : ℕ → String → Json → Accessed SharedConnectorGrant
  normalize_grant index id grant = elim (grant_fields grant) [
    | none ↦ store_error ("第 " <> decimal (suc index) <> " 条授权无效") 400
    | some fields ↦ elim (principal_type_of (get_field fields "principalType")) [
      | none ↦ store_error ("第 " <> decimal (suc index) <> " 条授权对象类型无效") 400
      | some principal ↦ read_grant index id principal fields
    ]
  ]

  unfoldable pub normalize_each :
      ℕ → (ℕ → String) → List Json → Accessed (List SharedConnectorGrant)
  normalize_each index uuid [] = returned []
  normalize_each index uuid (g ∷ gs) = normalize_grant index (uuid index) g >>= λ grant.
      normalize_each (suc index) uuid gs >>= λ rest. returned (grant ∷ rest)

unfoldable pub normalize_grants :
    Outside → String → String → (ℕ → String) → List Json → Accessed (List SharedConnectorGrant)
normalize_grants outside issuer service uuid grants =
    refuse_if (ltb max_grants (length grants)) "授权规则不能超过 500 条" 400
      (outside.provider service >>= λ known. normalize_each outside issuer known 0 uuid grants)
