-- ===== src/Auth/Lifetime.antt =====
-- internal/auth/manager.go: how long a login lasts, over any operations of the manager.
use termdock.Base.{
  ℕ, ◌+◌, ◌≡◌, refl, sym, ◌∙◌, Bool, true, false, not, List, [], ◌∷◌, Option, none, some, arith,
  ltb, all, is_some,
}
use termdock.Base.Text.{Text, text_eq_self, split}
use termdock.Base.Maps.{lookup, lookup-insert, lookup-remove}
use termdock.Auth.{
  Crypto, IsCrypto, Manager, validate, cookie_for, cookie_identifier, issue, exchange, revoke,
  revoke_all, prune, forget, dot, payload_of, identifier_of_parts, check_cookie, open_cookie,
  split_payload, known,
}
use termdock.Auth.Cookies.{validate-cookie_for}
use termdock.Auth.Operations.{
  Operation, logs_in, logs_out, clears, apply, apply_all, redraws, spares, takes, lookup-prune-none,
  apply_all-keeps, apply_all-key, exchange-listed,
}

module _ (crypto : Crypto) where
  abbrev unlisted : Option Text → List (Text × ℕ) → Bool
  unlisted none sessions = true
  unlisted (some identifier) sessions = not (is_some (lookup identifier sessions))

  unknown :
      (now : ℕ) (opened : Option (Text × ℕ)) (sessions : List (Text × ℕ))
      → unlisted (elim opened [ none ↦ none | some (identifier, _) ↦ some identifier ]) sessions
        ≡ true
      → known crypto now opened sessions ≡ false
  unknown now none sessions h = refl
  unknown now (some (identifier, expires)) sessions h = ground arith

  check_cookie-unlisted :
      (now : ℕ) (parts : List Text) (m : Manager)
      → unlisted (identifier_of_parts crypto parts) m.sessions ≡ true
      → check_cookie crypto now (payload_of crypto parts) m ≡ false
  check_cookie-unlisted now [] m h = refl
  check_cookie-unlisted now (p ∷ []) m h = refl
  check_cookie-unlisted now (p ∷ q ∷ []) m h = opened (crypto.decode p) (crypto.decode q) h
    where
      opened :
          (x y : Option Text)
          → unlisted
              (elim x [
                | none ↦ none
                | some bytes ↦ elim (split_payload crypto bytes) [
                  | none ↦ none
                  | some (identifier, _) ↦ some identifier
                ]
              ])
              m.sessions
            ≡ true
          → check_cookie crypto now
              (elim x [
                | none ↦ none
                | some bytes ↦ elim y [ none ↦ none | some s ↦ some (bytes, s) ]
              ])
              m
            ≡ false
      opened none y h = refl
      opened (some bytes) none h = refl
      opened (some bytes) (some s) h =
          ground (arith, unknown now (split_payload crypto bytes) m.sessions)
  check_cookie-unlisted now (p ∷ q ∷ r ∷ rest) m h = refl

  -- A cookie that no longer opens as one of a kept session is refused.
  validate-unlisted :
      (now : ℕ) (cookie : Text) (m : Manager)
      → unlisted (cookie_identifier crypto cookie) m.sessions ≡ true
      → validate crypto now cookie m ≡ false
  unfolding validate open_cookie cookie_identifier
  validate-unlisted now cookie m h = check_cookie-unlisted now (split dot cookie) m h

  unlisted-apply :
      (identifier : Text) (o : Operation) (m : Manager)
      → redraws crypto identifier o ≡ false
      → lookup identifier m.sessions ≡ none
      → lookup identifier (apply crypto o m).sessions ≡ none
  unfolding apply exchange issue revoke revoke_all lookup
  unlisted-apply identifier (logs_in now none token) m h k =
      ground (arith, lookup-prune-none crypto now identifier m.sessions)
  unlisted-apply identifier (logs_in now (some bytes) token) m h k = ground (
    arith,
    lookup-prune-none crypto now identifier m.sessions,
    lookup-insert (crypto.encode bytes) identifier (now + m.lifetime) (prune crypto now m.sessions),
  )
  unlisted-apply identifier (logs_out cookie) m h k = removed (cookie_identifier crypto cookie)
    where
      removed : (other : Option Text) → lookup identifier (forget other m).sessions ≡ none
      removed none = k
      removed (some id) = ground (arith, lookup-remove id identifier m.sessions)
  unlisted-apply identifier clears m h k = refl

  unlisted-apply_all :
      (identifier : Text) (os : List Operation) (m : Manager)
      → all (λ o. not (redraws crypto identifier o)) os ≡ true
      → lookup identifier m.sessions ≡ none
      → lookup identifier (apply_all crypto os m).sessions ≡ none
  unfolding apply_all
  unlisted-apply_all identifier [] m h k = k
  unlisted-apply_all identifier (o ∷ os) m h k =
      unlisted-apply_all identifier os (apply crypto o m) (ground arith)
        (unlisted-apply identifier o m (ground arith) k)

  abbrev pub redraws_of : Option Text → Operation → Bool
  redraws_of none o = false
  redraws_of (some identifier) o = redraws crypto identifier o

  -- Whatever cookie a page presents, once it has logged out with it, no list of operations that does
  -- not draw its session's identifier again makes the cookie valid, at any time.
  pub logged_out-refused :
      (cookie : Text) (m : Manager) (os : List Operation) (later : ℕ)
      → all (λ o. not (redraws_of (cookie_identifier crypto cookie) o)) os ≡ true
      → validate crypto later cookie (apply_all crypto os (revoke crypto cookie m)) ≡ false
  unfolding revoke
  logged_out-refused cookie m os later h =
      validate-unlisted later cookie (apply_all crypto os (revoke crypto cookie m))
        (by_identifier (cookie_identifier crypto cookie) h)
    where
      by_identifier :
          (identifier : Option Text)
          → all (λ o. not (redraws_of identifier o)) os ≡ true
          → unlisted identifier (apply_all crypto os (forget identifier m)).sessions ≡ true
      by_identifier none h = refl
      by_identifier (some identifier) h =
          rw
            (unlisted-apply_all identifier os (forget (some identifier) m) h (
              ground
                (arith, lookup-remove identifier identifier m.sessions, text_eq_self identifier)))
            refl

  validate-listed :
      (laws : IsCrypto crypto) (later : ℕ) (key : Text) (b : ℕ) (bytes : List ℕ) (expires : ℕ)
      (m : Manager)
      → m.key ≡ key
      → lookup (crypto.encode (b ∷ bytes)) m.sessions ≡ some expires
      → validate crypto later (cookie_for crypto key (crypto.encode (b ∷ bytes)) expires) m
        ≡ ltb later expires
  validate-listed laws later key b bytes expires m same listed =
      rw (sym same, validate-cookie_for crypto laws later b bytes expires m, listed) (ground arith)

  -- With packages that keep their laws, a login with the token that is still taken, for which a
  -- random identifier is drawn, gives a cookie. After any operations that log in before its
  -- expiry and with other identifiers, or log out other cookies, the cookie is valid at exactly
  -- the times before the login's time plus the lifetime.
  pub exchange-lasts :
      (laws : IsCrypto crypto) (now b : ℕ) (bytes : List ℕ) (token : Text) (m : Manager)
      (os : List Operation) (later : ℕ)
      → takes crypto token m ≡ true
      → all (spares crypto (crypto.encode (b ∷ bytes)) (now + m.lifetime)) os ≡ true
      → ((exchange crypto now (some (b ∷ bytes)) token m).0
          ≡ some (cookie_for crypto m.key (crypto.encode (b ∷ bytes)) (now + m.lifetime)))
        × (validate crypto later
              (cookie_for crypto m.key (crypto.encode (b ∷ bytes)) (now + m.lifetime))
              (apply_all crypto os (exchange crypto now (some (b ∷ bytes)) token m).1)
            ≡ ltb later (now + m.lifetime))
  exchange-lasts laws now b bytes token m os later h k =
      let (given, key, listed) = exchange-listed crypto now (b ∷ bytes) token m h in
      let after = (exchange crypto now (some (b ∷ bytes)) token m).1 in
      (
        given,
        validate-listed laws later m.key b bytes (now + m.lifetime) (apply_all crypto os after)
            (apply_all-key crypto os after ∙ key)
            (apply_all-keeps crypto (crypto.encode (b ∷ bytes)) (now + m.lifetime) os after k
              listed),
      )
