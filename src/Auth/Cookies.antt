-- ===== src/Auth/Cookies.antt =====
-- internal/auth/manager.go: a cookie that was issued reads back.
use termdock.Base.{ℕ, ◌≡◌, ◌≢◌, refl, ◌&&◌, List, [], ◌∷◌, ◌++◌, some, arith, ltb, All, ==_iff}
use termdock.Base.Text.{Text, text_eq_self}
use termdock.Base.Maps.{lookup}
use termdock.Base.Splits.{Free, differs, split-Free, split-append}
use termdock.Auth.{
  Crypto, IsCrypto, Manager, cut, dot, separator, split_payload, payload_of, open_cookie,
  before_expiry, identifier_of_parts, validate, payload, cookie_for, cookie_identifier,
}

cut-append : (c : ℕ) (xs ys : Text) → Free c xs → cut c (xs ++ (c ∷ ys)) ≡ some (xs, ys)
unfolding cut
cut-append c [] ys h = ground (arith, ==_iff c c)
cut-append c (x ∷ xs) ys (n, h) = rw (differs x c n, cut-append c xs ys h) refl

All-first : (text : Text) → All (λ c. (c ≢ dot) × (c ≢ separator)) text → Free dot text
All-first [] h = tt
All-first (c ∷ cs) ((d, s), h) = (d, All-first cs h)

All-second : (text : Text) → All (λ c. (c ≢ dot) × (c ≢ separator)) text → Free separator text
All-second [] h = tt
All-second (c ∷ cs) ((d, s), h) = (s, All-second cs h)

payload_of-pair :
    (crypto : Crypto) (p q : Text) {x y : Text}
    → crypto.decode p ≡ some x
    → crypto.decode q ≡ some y
    → payload_of crypto (p ∷ q ∷ []) ≡ some (x, y)
payload_of-pair crypto p q h k = ground arith

identifier_of_parts-pair :
    (crypto : Crypto) (p q : Text) {x identifier : Text} {expires : ℕ}
    → crypto.decode p ≡ some x
    → split_payload crypto x ≡ some (identifier, expires)
    → identifier_of_parts crypto (p ∷ q ∷ []) ≡ some identifier
identifier_of_parts-pair crypto p q h k = ground arith

module _ (crypto : Crypto) (laws : IsCrypto crypto) where
  split_payload-payload :
      (b : ℕ) (bytes : List ℕ) (expires : ℕ)
      → split_payload crypto (payload crypto (crypto.encode (b ∷ bytes)) expires)
        ≡ some (crypto.encode (b ∷ bytes), expires)
  unfolding split_payload payload
  split_payload-payload b bytes expires =
      let identifier = crypto.encode (b ∷ bytes) in
      rw
        (cut-append separator identifier (crypto.format expires)
          (All-second identifier (laws.alphabet (b ∷ bytes))))
        (rw (laws.full b bytes, laws.written expires, laws.parses expires) refl)

  pub open_cookie-cookie_for :
      (key identifier : Text) (expires : ℕ)
      → open_cookie crypto (cookie_for crypto key identifier expires)
        ≡ some
            (payload crypto identifier expires, crypto.sign key (payload crypto identifier expires))
  unfolding open_cookie cookie_for
  open_cookie-cookie_for key identifier expires =
      let text = payload crypto identifier expires in
      let signature = crypto.sign key text in
      rw
        (
          split-append dot (crypto.encode text) (crypto.encode signature)
              (All-first (crypto.encode text) (laws.alphabet text)),
          split-Free dot (crypto.encode signature)
              (All-first (crypto.encode signature) (laws.alphabet signature)),
        )
        (payload_of-pair crypto (crypto.encode text) (crypto.encode signature) (laws.decodes text)
          (laws.decodes signature))

  -- A cookie of the manager is good exactly until its own expiry, while its session is kept.
  pub validate-cookie_for :
      (now b : ℕ) (bytes : List ℕ) (expires : ℕ) (manager : Manager)
      → validate crypto now
          (cookie_for crypto manager.key (crypto.encode (b ∷ bytes)) expires)
          manager
        ≡ (ltb now expires
            && before_expiry crypto now (lookup (crypto.encode (b ∷ bytes)) manager.sessions))
  unfolding validate
  validate-cookie_for now b bytes expires manager =
      rw (open_cookie-cookie_for manager.key (crypto.encode (b ∷ bytes)) expires) (
        rw
          (
            text_eq_self
                (crypto.sign manager.key (payload crypto (crypto.encode (b ∷ bytes)) expires)),
            split_payload-payload b bytes expires,
          )
          refl)

  pub cookie_identifier-cookie_for :
      (key : Text) (b : ℕ) (bytes : List ℕ) (expires : ℕ)
      → cookie_identifier crypto (cookie_for crypto key (crypto.encode (b ∷ bytes)) expires)
        ≡ some (crypto.encode (b ∷ bytes))
  unfolding cookie_identifier cookie_for
  cookie_identifier-cookie_for key b bytes expires =
      let text = payload crypto (crypto.encode (b ∷ bytes)) expires in
      let signature = crypto.sign key text in
      rw
        (
          split-append dot (crypto.encode text) (crypto.encode signature)
              (All-first (crypto.encode text) (laws.alphabet text)),
          split-Free dot (crypto.encode signature)
              (All-first (crypto.encode signature) (laws.alphabet signature)),
        )
        (identifier_of_parts-pair crypto (crypto.encode text) (crypto.encode signature)
          (laws.decodes text) (split_payload-payload b bytes expires))
