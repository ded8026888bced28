-- ===== src/Config/Sources.antt =====
-- internal/config/config.go: what one source of settings leaves of the ones before it.
use termdock.Base.{
  ◌≡◌, refl, ap, ◌∙◌, Bool, true, false, List, [], ◌∷◌, Option, none, some, arith, if◌then◌else◌,
}
use termdock.Base.Int.{ℤ, pos, negsuc}
use termdock.Base.Text.{Text, text_eq, codes}
use termdock.Config.{
  Config, Terminal, DiskConfig, Start, or_text, or_positive, or_count, positive,
  parse_optional_duration, with_durations, read_durations, with_terminal,
}
use termdock.Config.Loading.{below}

-- The first text that is not empty.
abbrev pub first_set : List Text → Text
first_set [] = []
first_set ([] ∷ texts) = first_set texts
first_set ((c ∷ cs) ∷ texts) = c ∷ cs

-- A number that is not negative.
abbrev pub IsCount : ℤ → Type 0
IsCount z = below z 0 ≡ false

-- The address, the shell and the tunnel's mode are the first that are set, the working directory is
-- the root, at least one session is allowed, and no timeout is negative.
abbrev pub IsFrom : List Text → List Text → List Text → Config → Type 0
IsFrom listens shells modes cfg =
    (cfg.listen ≡ first_set listens)
    × (cfg.terminal.shell ≡ first_set shells)
    × (cfg.cloudflare.mode ≡ first_set modes)
    × (cfg.terminal.working_dir ≡ codes "/")
    × (below cfg.terminal.max_sessions 1 ≡ false)
    × (IsCount cfg.terminal.idle_timeout
        × IsCount cfg.terminal.max_lifetime
        × IsCount cfg.terminal.session_retention)

-- A text of the configuration file, empty where there is no file.
abbrev pub file_text : (DiskConfig → Text) → Start → Text → Text
file_text get start [] = []
file_text get start (c ∷ cs) = elim (start.decoded (c ∷ cs)) [ none ↦ [] | some disk ↦ get disk ]

-- Where there is a value, it has the property.
abbrev pub Holds {ℓ κ} : {A : Type ℓ} → (A → Type κ) → Option A → Type κ
Holds P none = Unit
Holds P (some a) = P a

abbrev pub HasCounts : Terminal → Type 0
HasCounts t = IsCount t.idle_timeout × IsCount t.max_lifetime × IsCount t.session_retention

-- What the durations leave of the other two.
abbrev pub SameBut : Terminal → Terminal → Type 0
SameBut t u =
    (u.shell ≡ t.shell) × (u.working_dir ≡ t.working_dir) × (u.max_sessions ≡ t.max_sessions)

pub or_positive-sessions :
    (z current : ℤ) → below current 1 ≡ false → below (or_positive z current) 1 ≡ false
or_positive-sessions (pos n) current h = ground arith
or_positive-sessions (negsuc n) current h = h

pub or_count-sessions :
    (z : Option ℤ) (current : ℤ) → below current 1 ≡ false → below (or_count z current) 1 ≡ false
or_count-sessions none current h = h
or_count-sessions (some z) current h = or_positive-sessions z current h

module _ (start : Start) where
  duration-IsCount :
      (value : Text) (current : ℤ)
      → IsCount current
      → Holds IsCount (parse_optional_duration start value current)
  unfolding parse_optional_duration
  duration-IsCount value current h =
      by_tests (text_eq value []) (text_eq value (codes "0")) (start.parse_duration value)
    where
      by_tests :
          (a b : Bool) (parsed : Option ℤ)
          → Holds IsCount (if a then some current else if b then some (pos 0) else positive parsed)
      by_tests true b parsed = h
      by_tests false true parsed = refl
      by_tests false false none = tt
      by_tests false false (some (pos n)) = ground arith
      by_tests false false (some (negsuc n)) = tt

  with_durations-counts :
      (idle lifetime retention : Option ℤ) (t : Terminal)
      → Holds IsCount idle
      → Holds IsCount lifetime
      → Holds IsCount retention
      → Holds (λ u. HasCounts u × SameBut t u) (with_durations start idle lifetime retention t)
  with_durations-counts (some _) (some _) (some _) t h k l = ((h, k, l), (refl, refl, refl))
  with_durations-counts none _ _ t h k l = tt
  with_durations-counts (some _) none _ t h k l = tt
  with_durations-counts (some _) (some _) none t h k l = tt

  pub read_durations-counts :
      (idle lifetime retention : Text) (t : Terminal)
      → HasCounts t
      → Holds (λ u. HasCounts u × SameBut t u) (read_durations start idle lifetime retention t)
  read_durations-counts idle lifetime retention t h =
      with_durations-counts (parse_optional_duration start idle t.idle_timeout)
        (parse_optional_duration start lifetime t.max_lifetime)
        (parse_optional_duration start retention t.session_retention) t
        (duration-IsCount idle t.idle_timeout h.0) (duration-IsCount lifetime t.max_lifetime h.1)
        (duration-IsCount retention t.session_retention h.2)

  pub or_text-first :
      (value current : Text) (rest : List Text)
      → current ≡ first_set rest
      → or_text value current ≡ first_set (value ∷ rest)
  or_text-first [] current rest h = h
  or_text-first (c ∷ cs) current rest h = refl

  pub with_terminal-IsFrom :
      (read : Option Terminal) (t : Terminal) (cfg : Config) (ls ss ms : List Text)
      → Holds (λ u. HasCounts u × SameBut t u) read
      → cfg.listen ≡ first_set ls
      → t.shell ≡ first_set ss
      → cfg.cloudflare.mode ≡ first_set ms
      → t.working_dir ≡ codes "/"
      → below t.max_sessions 1 ≡ false
      → Holds (IsFrom ls ss ms) (with_terminal start read cfg)
  with_terminal-IsFrom none t cfg ls ss ms h l s m w n = tt
  with_terminal-IsFrom (some u) t cfg ls ss ms (counts, (shell, dir, sessions)) l s m w n =
      (l, shell ∙ s, m, dir ∙ w, ap (λ (z : ℤ). below z 1) sessions ∙ n, counts)
