-- ===== src/Auth/Layers.antt =====
-- The two layers together, as `authMiddleware` puts them before the handlers of order-service and
-- portfolio-service.
use tradesphere.Base.{ℕ, ◌≡◌, ◌⊎◌, refl, sym, ap, ◌∙◌, inl, inr, true, Bool-cases, List, [], ◌∷◌}
use mathlib.Core.Path.{subst}
use tradesphere.Text.{Text, codes}
use tradesphere.Auth.{
  Jwt, Answer, rejected, served, Bucket, Clients, authorize, require_auth, admit, rate_limit,
}
use tradesphere.Auth.Tokens.{IsAuthorized, authorize-IsAuthorized}

module _ {L S B : Type 0} (j : Jwt) (env : Text) (uuid_text : ℕ → Text) (b : Bucket L)
    (next : Text → S → B × S) where
  -- RateLimit(RequireAuth(next)), for some roles
  unfoldable pub layers : List Text → ℕ → Text → Text → Clients L × S → Answer B × (Clients L × S)
  layers allowed now remote_addr header =
      rate_limit b (require_auth j env uuid_text allowed next now header) now remote_addr

  -- The variable authMiddleware of the two services
  abbrev pub auth_middleware : ℕ → Text → Text → Clients L × S → Answer B × (Clients L × S)
  auth_middleware = layers (codes "user" ∷ [])

  -- The request was answered with `r` by the handler: the client's bucket allows it, RequireAuth lets
  -- it through as some user, and the answer and the state are those of the handler for this user.
  abbrev pub IsServed : List Text → ℕ → Text → Text → Clients L → S → B → Type 0
  IsServed allowed now remote_addr header clients s r =
      (user : Text) × ((admit b now remote_addr clients).0 ≡ true)
      × IsAuthorized j env uuid_text allowed now header user
      × ((r, (layers allowed now remote_addr header (clients, s)).1.1) ≡ next user s)

  abbrev answer_or : B → Answer B → B
  answer_or r (rejected message code) = r
  answer_or r (served x) = x

  authorize_cases :
      (a : Answer Text)
      → ((user : Text) × (a ≡ served user))
        ⊎ ((message : Text) × (code : ℕ) × (a ≡ rejected message code))
  authorize_cases (rejected message code) = inr (message, code, refl)
  authorize_cases (served user) = inl (user, refl)

  -- A request is rejected, and then the handler's state is as it was; or the client's bucket allows it,
  -- RequireAuth lets it through as the user of a token, and the answer and the state are those of the
  -- handler for this user.
  pub layers_cases :
      (allowed : List Text) (now : ℕ) (remote_addr header : Text) (clients : Clients L) (s : S)
      → let out = layers allowed now remote_addr header (clients, s) in
        ((message : Text) × (code : ℕ) × (out.0 ≡ rejected message code) × (out.1.1 ≡ s))
        ⊎ ((r : B) × (out.0 ≡ served r) × IsServed allowed now remote_addr header clients s r)
  unfolding layers
  layers_cases allowed now remote_addr header clients s =
      elim (Bool-cases (admit b now remote_addr clients).0) [
        | inr full ↦ inl (codes "too many requests", 429, rw full, rw full)
        | inl room ↦ elim (authorize_cases (authorize j env uuid_text allowed now header)) [
          | inr (message, code, no_user) ↦
              inl
                (message, code, rw (room, require_auth, no_user), rw (room, require_auth, no_user))
          | inl (user, found) ↦ inr (
            (next user s).0,
            rw (room, require_auth, found),
            (
              user,
              room,
              authorize-IsAuthorized j env uuid_text allowed now header user found,
              rw (room, require_auth, found),
            ),
          )
        ]
      ]

  -- An answer of the handler was given in this way.
  pub layers-IsServed :
      (allowed : List Text) (now : ℕ) (remote_addr header : Text) (clients : Clients L) (s : S)
      (r : B)
      → (layers allowed now remote_addr header (clients, s)).0 ≡ served r
      → IsServed allowed now remote_addr header clients s r
  layers-IsServed allowed now remote_addr header clients s r h =
      elim (layers_cases allowed now remote_addr header clients s) [
        | inl (message, code, e, _) ↦ absurd (cc)
        | inr (r', e, done) ↦
            let same : r' ≡ r = ap (answer_or r) (sym e ∙ h) in
            subst (IsServed allowed now remote_addr header clients s) same done
      ]
