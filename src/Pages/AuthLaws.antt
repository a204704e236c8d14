-- ===== src/Pages/AuthLaws.antt =====
-- How `callback` and `logout` of app/auth.py end.
use keekars_pi_vpn.Base.{
  ◌≡◌, refl, sym, ◌⊎◌, inl, inr, false, Option, none, some, is_nil, Result, ok, err, Bool-cases,
}
use keekars_pi_vpn.Base.Text.{Text, codes}
use keekars_pi_vpn.Pages.Response.{User, Visit, redirect}
use keekars_pi_vpn.Pages.Auth.{
  Sso, SsoError, Claims, user_with, user_of_claims, user_of_token, login_failed, signed_in,
  callback,
}

pub Result-cases :
    {E A : Type 0} (r : Result E A) → ((a : A) × (r ≡ ok a)) ⊎ ((e : E) × (r ≡ err e))
Result-cases (ok a) = inl (a, refl)
Result-cases (err e) = inr (e, refl)

-- The sign-in library answered with claims, and this is the user that they name.
pub record IsConfirmed (claims : Result SsoError (Option Claims)) (user : User) : Type 0 where
  pub confirmed : (c : Claims) × ((claims ≡ ok (some c)) × (c.sub ≡ some user.sub))
  pub named : is_nil user.sub ≡ false

user_with_cases :
    (o : Option Text) (c : Claims)
    → o ≡ c.sub
    → ((user : User) × (IsConfirmed (ok (some c)) user × (user_with o c ≡ ok user)))
      ⊎ (user_with o c ≡ err login_failed)
user_with_cases none c h = inr refl
user_with_cases (some sub) c h = elim (Bool-cases (is_nil sub)) [
  | inl e ↦ inr (rw e refl)
  | inr e ↦ inl (
    record { sub = sub; email = c.email; name = c.name },
    (record { confirmed = (c, (refl, sym h)); named = e }, rw e refl),
  )
]

pub user_of_token_cases :
    (r : Result SsoError (Option Claims))
    → ((user : User) × (IsConfirmed r user × (user_of_token r ≡ ok user)))
      ⊎ (user_of_token r ≡ err login_failed)
unfolding user_of_claims
user_of_token_cases (err e) = inr refl
user_of_token_cases (ok none) = inr refl
user_of_token_cases (ok (some c)) = user_with_cases c.sub c refl

module _ {World : Type 0} (sso : Sso World) where
  pub callback_cases :
      (v : Visit World)
      → ((user : User) × (IsConfirmed (sso.authorize_access_token v).0 user
            × (callback sso v
                ≡ (ok (redirect (codes "/")), signed_in (sso.authorize_access_token v).1 user))))
        ⊎ (callback sso v ≡ (err login_failed, (sso.authorize_access_token v).1))
  unfolding callback
  callback_cases v = elim (user_of_token_cases (sso.authorize_access_token v).0) [
    | inl (user, (c, e)) ↦ inl (user, (c, rw e refl))
    | inr e ↦ inr (rw e refl)
  ]
