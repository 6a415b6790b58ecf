-- ===== src/Console/Admitted.antt =====
-- Which requests `proxy` lets through.
use ai_base.Common.{
  ℕ, String, ◌≡◌, ◌↔◌, ◌⊎◌, refl, true, false, Option, none, some, inl, inr, Bool-cases, arith,
  if◌then◌else◌,
}
use ai_base.Text.{is_empty}
use ai_base.Console.{Outside, Env, Headers}
use ai_base.Console.Identity.{is_dev}
use ai_base.Console.Proxy.{
  next, is_public_path, is_self_service_path, assertion_email, is_admin_email, session_email,
  invalid_response, proxy_role, proxy_email, proxy_session, proxy,
}

module _ (outside : Outside) (env : Env) where
  -- The email that the request shows, "" if none.
  abbrev pub shown_email : Headers → String → String
  shown_email input session =
      if is_empty (assertion_email outside env input)
      then session
      else assertion_email outside env input

  -- The development identity is enabled, or an email is shown, and the path is for every employee or the
  -- email is an administrator's.
  pub MayPass : String → String → Type 0
  MayPass path email =
      (is_dev env ≡ true)
      ⊎ ((is_empty email ≡ false)
          × ((is_self_service_path path ≡ true) ⊎ (is_admin_email outside env email ≡ true)))

  pub IsAdmitted : String → Headers → ℕ → Type 0
  IsAdmitted path input now =
      (is_public_path path ≡ true)
      ⊎ ((session : String) × (session_email outside env input now ≡ some session)
          × MayPass path (shown_email input session))

  email-admitted :
      (path email : String) → (proxy_email outside env path email ≡ next) ↔ MayPass path email
  unfolding proxy_email proxy_role MayPass
  email-admitted path email = (λ h. ground arith, λ h. ground arith)

  session-admitted :
      (path : String) (input : Headers) (found : Option String)
      → (proxy_session outside env path input found ≡ next)
        ↔ ((session : String) × (found ≡ some session) × MayPass path (shown_email input session))
  unfolding proxy_session invalid_response
  session-admitted path input none = (λ h. absurd cc, λ h. absurd cc)
  session-admitted path input (some session) =
      let (to, from) = email-admitted path (shown_email input session) in
      (λ h. (session, refl, to h), λ h. from (ground arith))

  -- `proxy` lets a request through exactly where its path is public, or it carries no session token or one
  -- that verifies, and the development identity is enabled or the request shows an email, for a path of
  -- every employee or of an administrator.
  pub proxy-IsAdmitted :
      (path : String) (input : Headers) (now : ℕ)
      → (proxy outside env path input now ≡ next) ↔ IsAdmitted path input now
  unfolding proxy IsAdmitted
  proxy-IsAdmitted path input now =
      let (to, from) = session-admitted path input (session_email outside env input now) in
      elim (Bool-cases (is_public_path path)) [
        | inl public ↦ (λ h. inl public, λ h. rw (proxy, public) refl)
        | inr closed ↦
            (λ h. inr (to (rw (proxy, closed) at h)), λ h. rw (proxy, closed) (from (ground arith)))
      ]
