-- ===== src/Auth.antt =====
-- internal/auth/manager.go: tokens and login cookies. What Go's crypto, base64 and time packages do
-- is a parameter.
pub mod Cookies
pub mod Operations
pub mod Lifetime
pub mod Tokens
mod Tests
use termdock.Base.{
  ℕ, suc, ◌+◌, ◌≤◌, ◌<◌, ◌≡◌, Bool, true, false, not, ◌&&◌, ◌||◌, List, [], ◌∷◌, ◌++◌, Option, none,
  some, ltb, ◌==◌, if◌then◌else◌, length, All, ◌≢◌,
}
use termdock.Base.Text.{Text, text_eq, split, trim}
use termdock.Base.Maps.{lookup, insert, remove}

-- `sha256.Sum256`, HMAC-SHA256, `base64.RawURLEncoding` and the RFC3339Nano form of a time. Bytes
-- are numbers.
pub record Crypto : Type 0 where
  pub hash : Text → Text
  pub sign : Text → Text → Text
  pub encode : List ℕ → Text
  pub decode : Text → Option (List ℕ)
  pub format : ℕ → Text
  pub parse : Text → Option ℕ

pub record Manager : Type 0 where
  pub token_hash : Text
  pub token_valid : Bool
  pub reusable : Bool
  pub key : Text
  pub lifetime : ℕ
  pub sessions : List (Text × ℕ)

abbrev pub separator : ℕ
separator = b'~'

abbrev pub dot : ℕ
dot = b'.'

-- The text before and behind the first separator, none where there is none.
unfoldable pub cut : ℕ → Text → Option (Text × Text)
cut c [] = none
cut c (x ∷ xs) =
    if x == c
    then some ([], xs)
    else elim (cut c xs) [ none ↦ none | some (before, after) ↦ some (x ∷ before, after) ]

abbrev pub is_empty : Text → Bool
is_empty [] = true
is_empty _ = false

abbrev pub forget : Option Text → Manager → Manager
forget none manager = manager
forget (some identifier) manager = record manager { sessions = remove identifier manager.sessions }

module _ (crypto : Crypto) where
  unfoldable pub new_with_token : ℕ → Text → Option Text → Option Manager
  new_with_token lifetime token random = elim random [
    | none ↦ none
    | some key ↦
        if is_empty (trim token)
        then none
        else some (record {
          token_hash = crypto.hash token;
          token_valid = true;
          reusable = true;
          key = key;
          lifetime = lifetime;
          sessions = [];
        })
  ]

  -- `New` is given its random token in base64.
  unfoldable pub new_manager : ℕ → Option (List ℕ) → Option Text → Option Manager
  unfolding new_with_token
  new_manager lifetime none random = none
  new_manager lifetime (some token) random =
      elim (new_with_token lifetime (crypto.encode token) random) [
        | none ↦ none
        | some manager ↦ some (record manager { reusable = false })
      ]

  abbrev pub split_parts : Option (Text × Text) → Option (Text × ℕ)
  split_parts none = none
  split_parts (some (before, after)) =
      if is_empty before || is_empty after
      then none
      else elim (crypto.parse after) [ none ↦ none | some expires ↦ some (before, expires) ]

  unfoldable pub split_payload : Text → Option (Text × ℕ)
  unfolding cut
  split_payload payload = split_parts (cut separator payload)

  abbrev pub payload_of : List Text → Option (Text × Text)
  payload_of (payload ∷ signature ∷ []) = elim (crypto.decode payload) [
    | none ↦ none
    | some bytes ↦ elim (crypto.decode signature) [ none ↦ none | some s ↦ some (bytes, s) ]
  ]
  payload_of _ = none

  -- The decoded payload and signature of a cookie.
  unfoldable pub open_cookie : Text → Option (Text × Text)
  open_cookie cookie = payload_of (split dot cookie)

  abbrev pub before_expiry : ℕ → Option ℕ → Bool
  before_expiry now none = false
  before_expiry now (some expires) = ltb now expires

  abbrev pub known : ℕ → Option (Text × ℕ) → List (Text × ℕ) → Bool
  known now none sessions = false
  known now (some (identifier, expires)) sessions =
      ltb now expires && before_expiry now (lookup identifier sessions)

  abbrev pub check_cookie : ℕ → Option (Text × Text) → Manager → Bool
  check_cookie now none manager = false
  check_cookie now (some (payload, signature)) manager =
      text_eq signature (crypto.sign manager.key payload)
      && known now (split_payload payload) manager.sessions

  unfoldable pub validate : ℕ → Text → Manager → Bool
  unfolding open_cookie split_payload
  validate now cookie manager = check_cookie now (open_cookie cookie) manager

  abbrev pub identifier_of_parts : List Text → Option Text
  identifier_of_parts (payload ∷ _ ∷ []) = elim (crypto.decode payload) [
    | none ↦ none
    | some bytes ↦ elim (split_payload bytes) [
      | none ↦ none
      | some (identifier, _) ↦ some identifier
    ]
  ]
  identifier_of_parts _ = none

  -- `cookieIdentifier`, which does not look at the signature.
  unfoldable pub cookie_identifier : Text → Option Text
  cookie_identifier cookie = identifier_of_parts (split dot cookie)

  unfoldable pub revoke : Text → Manager → Manager
  revoke cookie manager = forget (cookie_identifier cookie) manager

  -- The sessions that have not expired.
  unfoldable pub prune : ℕ → List (Text × ℕ) → List (Text × ℕ)
  prune now [] = []
  prune now ((identifier, expires) ∷ rest) =
      if ltb now expires then (identifier, expires) ∷ prune now rest else prune now rest

  unfoldable pub payload : Text → ℕ → Text
  payload identifier expires = identifier ++ (separator ∷ crypto.format expires)

  unfoldable pub cookie_for : Text → Text → ℕ → Text
  unfolding payload
  cookie_for key identifier expires =
      crypto.encode (payload identifier expires)
      ++ (dot ∷ crypto.encode (crypto.sign key (payload identifier expires)))

  -- `random` is what `rand.Read` gives for the identifier.
  unfoldable pub issue : ℕ → Option (List ℕ) → ℕ → Manager → Option Text × Manager
  issue now random expires manager = elim random [
    | none ↦ (none, record manager { sessions = prune now manager.sessions })
    | some bytes ↦ (
      some (cookie_for manager.key (crypto.encode bytes) expires),
      record manager {
        sessions = insert (crypto.encode bytes) expires (prune now manager.sessions);
      },
    )
  ]

  unfoldable pub exchange : ℕ → Option (List ℕ) → Text → Manager → Option Text × Manager
  unfolding issue
  exchange now random token manager =
      if not manager.token_valid || not (text_eq (crypto.hash token) manager.token_hash)
      then (none, manager)
      else issue now random (now + manager.lifetime)
          (record manager { token_valid = manager.reusable })

unfoldable pub revoke_all : Manager → Manager
revoke_all manager = record manager { sessions = [] }

-- What is documented of the packages: base64 texts hold letters, digits, "-" and "_", are not empty
-- for bytes, and decode to what was encoded; times read back as they were written.
pub record IsCrypto (crypto : Crypto) : Type 0 where
  pub decodes : (bytes : List ℕ) → crypto.decode (crypto.encode bytes) ≡ some bytes
  pub alphabet : (bytes : List ℕ) → All (λ c. (c ≢ dot) × (c ≢ separator)) (crypto.encode bytes)
  pub full : (b : ℕ) (bytes : List ℕ) → is_empty (crypto.encode (b ∷ bytes)) ≡ false
  pub parses : (t : ℕ) → crypto.parse (crypto.format t) ≡ some t
  pub written : (t : ℕ) → is_empty (crypto.format t) ≡ false
