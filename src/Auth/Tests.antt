-- ===== src/Auth/Tests.antt =====
-- internal/auth/manager.go: the theorems on concrete managers.
use termdock.Base.{
  ℕ, ◌+◌, ◌-◌, ◌≤◌, ◌≡◌, refl, true, false, List, [], ◌∷◌, Option, none, some, arith, length, leb,
  if◌then◌else◌, All, ◌≢◌, ◌++◌,
}
use termdock.Base.Text.{Text}
use termdock.Auth.{
  Crypto, IsCrypto, Manager, dot, separator, cookie_for, cookie_identifier, split_payload, cut,
  payload, exchange, validate, revoke, new_manager, new_with_token,
}
use termdock.Auth.Operations.{Operation, logs_in, logs_out, clears, apply_all}
use termdock.Auth.Lifetime.{exchange-lasts, logged_out-refused}
use termdock.Auth.Tokens.{all_given, new_manager-once}

abbrev shift : List ℕ → Text
shift [] = []
shift (b ∷ bs) = (b + 200) ∷ shift bs

abbrev shift_back : Text → Option (List ℕ)
shift_back [] = some []
shift_back (c ∷ cs) =
    let rest = shift_back cs in
    if leb 200 c then elim rest [ none ↦ none | some bs ↦ some ((c - 200) ∷ bs) ] else none

abbrev read_time : Text → Option ℕ
read_time (t ∷ []) = some t
read_time _ = none

-- Packages that hash by copying, sign by concatenation and encode by a shift.
abbrev toy : Crypto
toy = record {
  hash = λ token. token;
  sign = λ key text. key ++ text;
  encode = shift;
  decode = shift_back;
  format = λ t. t ∷ [];
  parse = read_time;
}

shift_back-shift : (bytes : List ℕ) → shift_back (shift bytes) ≡ some bytes
shift_back-shift [] = refl
shift_back-shift (b ∷ bs) = rw (shift_back-shift bs) (ground arith)

shift-alphabet : (bytes : List ℕ) → All (λ c. (c ≢ dot) × (c ≢ separator)) (shift bytes)
shift-alphabet [] = tt
shift-alphabet (b ∷ bs) = ((λ h. ground arith, λ h. ground arith), shift-alphabet bs)

toy_laws : IsCrypto toy
toy_laws = record {
  decodes = shift_back-shift;
  alphabet = shift-alphabet;
  full = λ b bytes. refl;
  parses = λ t. refl;
  written = λ t. refl;
}

abbrev one_time : Manager
one_time = record {
  token_hash = 7 ∷ [];
  token_valid = true;
  reusable = false;
  key = 5 ∷ [];
  lifetime = 100;
  sessions = [];
}

-- Another page's login, with a wrong token, and a logout with a text that is no cookie.
abbrev busy : List Operation
busy = logs_in 20 (some (9 ∷ [])) (8 ∷ []) ∷ logs_out (1 ∷ 2 ∷ []) ∷ []

exchange-lasts_example :
    ((exchange toy 10 (some (3 ∷ [])) (7 ∷ []) one_time).0
      ≡ some (cookie_for toy (5 ∷ []) (203 ∷ []) 110))
    × (validate toy 50
          (cookie_for toy (5 ∷ []) (203 ∷ []) 110)
          (apply_all toy busy (exchange toy 10 (some (3 ∷ [])) (7 ∷ []) one_time).1)
        ≡ true)
unfolding cookie_identifier
exchange-lasts_example = exchange-lasts toy toy_laws 10 3 [] (7 ∷ []) one_time busy 50 refl refl

abbrev logged_in : Manager
logged_in = record one_time { token_valid = false; sessions = (203 ∷ [], 110) ∷ [] }

abbrev its_cookie : Text
its_cookie = cookie_for toy (5 ∷ []) (203 ∷ []) 110

logged_out-refused_example :
    validate toy 50 its_cookie (apply_all toy busy (revoke toy its_cookie logged_in)) ≡ false
unfolding cookie_identifier split_payload cut cookie_for payload
logged_out-refused_example = logged_out-refused toy its_cookie logged_in busy 50 refl

-- Three logins with the right token.
abbrev greedy : List Operation
greedy =
    logs_in 10 (some (3 ∷ [])) (203 ∷ [])
    ∷ logs_in 20 (some (4 ∷ [])) (203 ∷ [])
    ∷ clears
    ∷ logs_in 30 (some (5 ∷ [])) (203 ∷ [])
    ∷ []

abbrev random_manager : Manager
random_manager = record {
  token_hash = 203 ∷ [];
  token_valid = true;
  reusable = false;
  key = 5 ∷ [];
  lifetime = 100;
  sessions = [];
}

new_manager-once_example : length (all_given toy greedy random_manager) ≤ 1
unfolding new_manager new_with_token
new_manager-once_example =
    new_manager-once toy 100 (some (3 ∷ [])) (some (5 ∷ [])) random_manager greedy refl
