-- ===== src/Auth/Operations.antt =====
-- internal/auth/manager.go: lists of operations of the manager, and what they keep of a session.
use termdock.Base.{
  ℕ, ◌+◌, ◌≡◌, refl, ◌∙◌, Bool, true, false, not, ◌&&◌, List, [], ◌∷◌, Option, none, some, arith,
  ltb, all,
}
use termdock.Base.Text.{Text, text_eq, text_eq_self}
use termdock.Base.Maps.{lookup, lookup-insert, lookup-remove}
use termdock.Auth.{
  Crypto, Manager, cookie_for, cookie_identifier, issue, exchange, revoke, revoke_all, prune,
  forget,
}

-- What the handlers ask of the manager: `Exchange`, `Revoke` and `RevokeAll`.
pub data Operation : Type 0 where
  logs_in : ℕ → Option (List ℕ) → Text → Operation
  logs_out : Text → Operation
  clears : Operation

abbrev pub names : Text → Option Text → Bool
names identifier none = false
names identifier (some other) = text_eq other identifier

module _ (crypto : Crypto) where
  unfoldable pub apply : Operation → Manager → Manager
  apply (logs_in now random token) m = (exchange crypto now random token m).1
  apply (logs_out cookie) m = revoke crypto cookie m
  apply clears m = revoke_all m

  unfoldable pub apply_all : List Operation → Manager → Manager
  apply_all [] m = m
  apply_all (o ∷ os) m = apply_all os (apply o m)

  abbrev draws : Text → Option (List ℕ) → Bool
  draws identifier none = false
  draws identifier (some bytes) = text_eq (crypto.encode bytes) identifier

  -- Does the operation draw the identifier again?
  abbrev pub redraws : Text → Operation → Bool
  redraws identifier (logs_in _ random _) = draws identifier random
  redraws identifier (logs_out _) = false
  redraws identifier clears = false

  -- The operation is before the expiry, draws another identifier, and logs another one out.
  abbrev pub spares : Text → ℕ → Operation → Bool
  spares identifier expires (logs_in now random _) =
      ltb now expires && not (draws identifier random)
  spares identifier expires (logs_out cookie) =
      not (names identifier (cookie_identifier crypto cookie))
  spares identifier expires clears = false

  lookup-prune-some :
      (now : ℕ) (identifier : Text) (expires : ℕ) (sessions : List (Text × ℕ))
      → ltb now expires ≡ true
      → lookup identifier sessions ≡ some expires
      → lookup identifier (prune crypto now sessions) ≡ some expires
  unfolding lookup prune
  lookup-prune-some now identifier expires [] h k = k
  lookup-prune-some now identifier expires ((other, end) ∷ sessions) h k =
      ground (arith, lookup-prune-some now identifier expires sessions)

  pub lookup-prune-none :
      (now : ℕ) (identifier : Text) (sessions : List (Text × ℕ))
      → lookup identifier sessions ≡ none
      → lookup identifier (prune crypto now sessions) ≡ none
  unfolding lookup prune
  lookup-prune-none now identifier [] k = refl
  lookup-prune-none now identifier ((other, end) ∷ sessions) k =
      ground (arith, lookup-prune-none now identifier sessions)

  -- The fields that no operation changes.
  apply-key : (o : Operation) (m : Manager) → (apply o m).key ≡ m.key
  unfolding apply exchange issue revoke revoke_all
  apply-key (logs_in now none token) m = ground arith
  apply-key (logs_in now (some bytes) token) m = ground arith
  apply-key (logs_out cookie) m = ground arith
  apply-key clears m = refl

  apply-keeps :
      (identifier : Text) (expires : ℕ) (o : Operation) (m : Manager)
      → spares identifier expires o ≡ true
      → lookup identifier m.sessions ≡ some expires
      → lookup identifier (apply o m).sessions ≡ some expires
  unfolding apply exchange issue revoke
  apply-keeps identifier expires (logs_in now none token) m h k =
      ground (arith, lookup-prune-some now identifier expires m.sessions)
  apply-keeps identifier expires (logs_in now (some bytes) token) m h k = ground (
    arith,
    lookup-prune-some now identifier expires m.sessions,
    lookup-insert (crypto.encode bytes) identifier (now + m.lifetime) (prune crypto now m.sessions),
  )
  apply-keeps identifier expires (logs_out cookie) m h k =
      removed (cookie_identifier crypto cookie) h
    where
      removed :
          (other : Option Text)
          → not (names identifier other) ≡ true
          → lookup identifier (forget other m).sessions ≡ some expires
      removed none h = k
      removed (some id) h = ground (arith, lookup-remove id identifier m.sessions)
  apply-keeps identifier expires clears m h k = ground arith

  pub apply_all-keeps :
      (identifier : Text) (expires : ℕ) (os : List Operation) (m : Manager)
      → all (spares identifier expires) os ≡ true
      → lookup identifier m.sessions ≡ some expires
      → lookup identifier (apply_all os m).sessions ≡ some expires
  unfolding apply_all
  apply_all-keeps identifier expires [] m h k = k
  apply_all-keeps identifier expires (o ∷ os) m h k =
      apply_all-keeps identifier expires os (apply o m) (ground arith)
        (apply-keeps identifier expires o m (ground arith) k)

  pub apply_all-key : (os : List Operation) (m : Manager) → (apply_all os m).key ≡ m.key
  unfolding apply_all
  apply_all-key [] m = refl
  apply_all-key (o ∷ os) m = apply_all-key os (apply o m) ∙ apply-key o m

  -- Is the token the one that the manager still takes?
  abbrev pub takes : Text → Manager → Bool
  takes token m = m.token_valid && text_eq (crypto.hash token) m.token_hash

  pub exchange-listed :
      (now : ℕ) (bytes : List ℕ) (token : Text) (m : Manager)
      → takes token m ≡ true
      → ((exchange crypto now (some bytes) token m).0
          ≡ some (cookie_for crypto m.key (crypto.encode bytes) (now + m.lifetime)))
        × ((exchange crypto now (some bytes) token m).1.key ≡ m.key)
        × (lookup (crypto.encode bytes) (exchange crypto now (some bytes) token m).1.sessions
            ≡ some (now + m.lifetime))
  unfolding exchange issue
  exchange-listed now bytes token m h = ground (
    arith,
    lookup-insert (crypto.encode bytes) (crypto.encode bytes) (now + m.lifetime)
        (prune crypto now m.sessions),
    text_eq_self (crypto.encode bytes),
  )
