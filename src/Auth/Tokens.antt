-- ===== src/Auth/Tokens.antt =====
-- internal/auth/manager.go: how often a token is taken.
use termdock.Base.{
  ℕ, ◌+◌, ◌≤◌, ◌≡◌, refl, true, false, List, [], ◌∷◌, Option, none, some, arith, ◌⊎◌, inl, inr,
  length, if◌then◌else◌,
}
use termdock.Base.Text.{Text, text_eq}
use termdock.Auth.{
  Crypto, Manager, new_manager, new_with_token, exchange, issue, revoke, revoke_all, forget,
  cookie_identifier, cookie_for,
}
use termdock.Auth.Operations.{Operation, logs_in, logs_out, clears, apply, apply_all}

module _ (crypto : Crypto) where
  abbrev keep_some : Option Text → List Text → List Text
  keep_some none cookies = cookies
  keep_some (some cookie) cookies = cookie ∷ cookies

  -- The cookie that an operation gives.
  unfoldable pub given : Operation → Manager → Option Text
  given (logs_in now random token) m = (exchange crypto now random token m).0
  given (logs_out _) m = none
  given clears m = none

  -- The cookies that a list of operations gives, one after the other.
  unfoldable pub all_given : List Operation → Manager → List Text
  all_given [] m = []
  all_given (o ∷ os) m = keep_some (given o m) (all_given os (apply crypto o m))

  -- A used one-time token stays used.
  apply-used :
      (o : Operation) (m : Manager)
      → m.token_valid ≡ false
      → ((apply crypto o m).token_valid ≡ false) × (given o m ≡ none)
  unfolding apply given exchange revoke revoke_all
  apply-used (logs_in now random token) m h = ground arith
  apply-used (logs_out cookie) m h = by_identifier (cookie_identifier crypto cookie)
    where
      by_identifier :
          (i : Option Text)
          → ((forget i m).token_valid ≡ false) × (given (logs_out cookie) m ≡ none)
      by_identifier none = (h, refl)
      by_identifier (some _) = (h, refl)
  apply-used clears m h = (h, refl)

  all_given-used : (os : List Operation) (m : Manager) → m.token_valid ≡ false → all_given os m ≡ []
  unfolding all_given
  all_given-used [] m h = refl
  all_given-used (o ∷ os) m h =
      let (used, nothing) = apply-used o m h in
      rw (nothing, all_given-used os (apply crypto o m) used) refl

  -- A one-time token stays one, and is used once a cookie is given.
  apply-once :
      (o : Operation) (m : Manager)
      → m.reusable ≡ false
      → ((apply crypto o m).reusable ≡ false)
        × ((given o m ≡ none) ⊎ ((apply crypto o m).token_valid ≡ false))
  unfolding apply given exchange issue revoke revoke_all
  apply-once (logs_in now none token) m h = ground arith
  apply-once (logs_in now (some bytes) token) m h = ground arith
  apply-once (logs_out cookie) m h = by_identifier (cookie_identifier crypto cookie)
    where
      by_identifier :
          (i : Option Text)
          → ((forget i m).reusable ≡ false)
            × ((given (logs_out cookie) m ≡ none) ⊎ ((forget i m).token_valid ≡ false))
      by_identifier none = (h, inl refl)
      by_identifier (some _) = (h, inl refl)
  apply-once clears m h = (h, inl refl)

  all_given-once :
      (os : List Operation) (m : Manager) → m.reusable ≡ false → length (all_given os m) ≤ 1
  unfolding all_given
  all_given-once [] m h = ground arith
  all_given-once (o ∷ os) m h = elim (apply-once o m h).1 [
    | inl nothing ↦ rw nothing (all_given-once os (apply crypto o m) (apply-once o m h).0)
    | inr used ↦ rw (all_given-used os (apply crypto o m) used) (ground arith)
  ]

  -- Of any operations on a manager that was made with a random token, at most one login gets a
  -- cookie.
  pub new_manager-once :
      (lifetime : ℕ) (token : Option (List ℕ)) (random : Option Text) (m : Manager)
      (os : List Operation)
      → new_manager crypto lifetime token random ≡ some m
      → length (all_given os m) ≤ 1
  unfolding new_manager new_with_token
  new_manager-once lifetime none random m os h = ground arith
  new_manager-once lifetime (some token) none m os h = ground arith
  new_manager-once lifetime (some token) (some key) m os h = all_given-once os m (ground arith)

  -- What the setting of a reusable token never loses.
  abbrev IsOpen : Text → Text → ℕ → Manager → Type 0
  IsOpen token key lifetime m =
      (m.token_hash ≡ crypto.hash token)
      × (m.token_valid ≡ true)
      × (m.reusable ≡ true)
      × (m.key ≡ key)
      × (m.lifetime ≡ lifetime)

  apply-IsOpen :
      (token key : Text) (lifetime : ℕ) (o : Operation) (m : Manager)
      → IsOpen token key lifetime m
      → IsOpen token key lifetime (apply crypto o m)
  unfolding apply exchange issue revoke revoke_all
  apply-IsOpen token key lifetime (logs_in now none given) m h = ground arith
  apply-IsOpen token key lifetime (logs_in now (some bytes) given) m h = ground arith
  apply-IsOpen token key lifetime (logs_out cookie) m h =
      by_identifier (cookie_identifier crypto cookie)
    where
      by_identifier : (i : Option Text) → IsOpen token key lifetime (forget i m)
      by_identifier none = h
      by_identifier (some _) = h
  apply-IsOpen token key lifetime clears m h = h

  apply_all-IsOpen :
      (token key : Text) (lifetime : ℕ) (os : List Operation) (m : Manager)
      → IsOpen token key lifetime m
      → IsOpen token key lifetime (apply_all crypto os m)
  unfolding apply_all
  apply_all-IsOpen token key lifetime [] m h = h
  apply_all-IsOpen token key lifetime (o ∷ os) m h =
      apply_all-IsOpen token key lifetime os (apply crypto o m)
        (apply-IsOpen token key lifetime o m h)

  exchange-IsOpen :
      (token key : Text) (lifetime now : ℕ) (bytes : List ℕ) (candidate : Text) (m : Manager)
      → IsOpen token key lifetime m
      → (exchange crypto now (some bytes) candidate m).0 ≡ (
          if text_eq (crypto.hash candidate) (crypto.hash token)
          then some (cookie_for crypto key (crypto.encode bytes) (now + lifetime))
          else none)
  unfolding exchange issue
  exchange-IsOpen token key lifetime now bytes candidate m
        (hash, valid, once, same_key, same_lifetime) =
      rw (hash, valid, same_key, same_lifetime) (ground arith)

  new_with_token-IsOpen :
      (token key : Text) (lifetime : ℕ) (m : Manager)
      → new_with_token crypto lifetime token (some key) ≡ some m
      → IsOpen token key lifetime m
  unfolding new_with_token
  new_with_token-IsOpen token key lifetime m h = ground arith

  -- A manager with a chosen token answers every login for which an identifier is drawn, after any
  -- operations: one whose token has the same hash gets a cookie signed with the first key,
  -- another gets none.
  pub new_with_token-always :
      (lifetime : ℕ) (token key : Text) (m : Manager) (os : List Operation) (now : ℕ)
      (bytes : List ℕ) (candidate : Text)
      → new_with_token crypto lifetime token (some key) ≡ some m
      → (exchange crypto now (some bytes) candidate (apply_all crypto os m)).0 ≡ (
          if text_eq (crypto.hash candidate) (crypto.hash token)
          then some (cookie_for crypto key (crypto.encode bytes) (now + lifetime))
          else none)
  new_with_token-always lifetime token key m os now bytes candidate h =
      exchange-IsOpen token key lifetime now bytes candidate (apply_all crypto os m)
        (apply_all-IsOpen token key lifetime os m (new_with_token-IsOpen token key lifetime m h))
