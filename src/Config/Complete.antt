-- ===== src/Config/Complete.antt =====
-- internal/config/config.go: the settings of `Load` beside the address, the shell and the tunnel's
-- mode, each from the environment, the file or the default.
use termdock.Base.{
  ℕ, ◌≡◌, refl, ap, subst, sym, ◌∙◌, Bool, true, false, List, [], ◌∷◌, Option, none, some, arith,
  if◌then◌else◌, Bool-cases, inl, inr,
}
use termdock.Base.Int.{ℤ, pos, negsuc}
use termdock.Base.Text.{Text, text_eq, codes}
use mathlib.Core.Option.{some-injective, none-ne-some}
use termdock.Config.{
  Config, Terminal, Security, DiskConfig, Info, Start, or_some, or_positive, or_count, positive,
  is_writable, defaults, merge, apply_environment, parse_optional_duration, with_durations,
  with_terminal, file_terminal, file_others, environment_terminal, environment_others,
}
use termdock.Config.Loading.{below, validate, checked, over, merged, from_file, file_settings, load}
use termdock.Config.Sources.{first_set, Holds, or_text-first}

-- What an empty file would set.
abbrev no_file : DiskConfig
no_file = record {
  listen = [];
  shell = [];
  working_dir = [];
  max_sessions = pos 0;
  idle_timeout = [];
  max_lifetime = [];
  session_retention = [];
  trusted_origins = none;
  trusted_proxies = none;
  cookie_secure = none;
  max_message_size = pos 0;
  cloudflare = record { mode = []; binary = []; token_file = [] };
}

abbrev pub file_values : Start → Text → DiskConfig
file_values start [] = no_file
file_values start (c ∷ cs) = elim (start.decoded (c ∷ cs)) [ none ↦ no_file | some disk ↦ disk ]

-- A value that may be given, and the default.
abbrev given {ℓ} : {A : Type ℓ} → Option A → A → A
given none default = default
given (some value) default = value

-- The first number that is positive, or the default.
abbrev first_positive : List ℤ → ℤ → ℤ
first_positive [] default = default
first_positive (z ∷ zs) default = if below z 1 then first_positive zs default else z

abbrev or_zero : Option ℤ → ℤ
or_zero none = pos 0
or_zero (some z) = z

-- What a duration's text says: nothing, "0", or what `time.ParseDuration` reads.
abbrev IsRead : Start → ℤ → Text → ℤ → Type 0
IsRead start default [] z = z ≡ default
IsRead start default (c ∷ cs) z =
    (if text_eq (c ∷ cs) (codes "0") then some (pos 0) else start.parse_duration (c ∷ cs)) ≡ some z

-- The security settings: of the file, or the defaults.
abbrev IsSecured : DiskConfig → Security → Type 0
IsSecured disk security =
    (security.trusted_origins ≡ given disk.trusted_origins [])
    × (security.trusted_proxies ≡ given disk.trusted_proxies [])
    × (security.cookie_secure ≡ given disk.cookie_secure true)
    × (security.max_message_size ≡ first_positive (disk.max_message_size ∷ []) (pos 65536))

-- The program's path, the token's path, the number of sessions and the three durations, given
-- their texts and numbers, the first that counts first.
abbrev IsChosen : Start → List Text → List Text → List ℤ → Text × Text × Text → Config → Type 0
IsChosen start binaries tokens counts (idle, lifetime, retention) cfg =
    (cfg.cloudflare.binary ≡ first_set binaries)
    × (cfg.cloudflare.token_file ≡ first_set tokens)
    × (cfg.terminal.max_sessions ≡ first_positive counts (pos 1))
    × (IsRead start (pos 0) idle cfg.terminal.idle_timeout
        × IsRead start (pos 0) lifetime cfg.terminal.max_lifetime
        × IsRead start (pos 3600000000000) retention cfg.terminal.session_retention)

abbrev default_binary : Text
default_binary = codes "/usr/local/bin/cloudflared"

abbrev default_token : Text
default_token = codes "/etc/webterm/cloudflare-token"

-- What the file leaves.
abbrev IsFiled : Start → DiskConfig → Config → Type 0
IsFiled start disk cfg =
    IsSecured disk cfg.security
    × IsChosen start (disk.cloudflare.binary ∷ default_binary ∷ [])
        (disk.cloudflare.token_file ∷ default_token ∷ []) (disk.max_sessions ∷ [])
        (disk.idle_timeout, disk.max_lifetime, disk.session_retention) cfg

abbrev env_or : Start → Text → Text → Text
env_or start name text = first_set (start.getenv name ∷ text ∷ [])

-- What the environment leaves of it.
abbrev pub IsComplete : Start → DiskConfig → Config → Type 0
IsComplete start disk cfg =
    IsSecured disk cfg.security
    × IsChosen start
        (start.getenv (codes "WEBTERM_CLOUDFLARED") ∷ disk.cloudflare.binary ∷ default_binary ∷ [])
        (start.getenv (codes "WEBTERM_CLOUDFLARE_TOKEN_FILE")
          ∷ disk.cloudflare.token_file
          ∷ default_token
          ∷ [])
        (or_zero (start.atoi (start.getenv (codes "WEBTERM_MAX_SESSIONS")))
          ∷ disk.max_sessions
          ∷ [])
        (
          env_or start (codes "WEBTERM_IDLE_TIMEOUT") disk.idle_timeout,
          env_or start (codes "WEBTERM_MAX_LIFETIME") disk.max_lifetime,
          env_or start (codes "WEBTERM_SESSION_RETENTION") disk.session_retention,
        )
        cfg

or_some-given {ℓ} : {A : Type ℓ} (o : Option A) (a : A) → or_some o a ≡ given o a
or_some-given none a = refl
or_some-given (some b) a = refl

or_positive-first :
    (z current : ℤ) (zs : List ℤ) (default : ℤ)
    → current ≡ first_positive zs default
    → or_positive z current ≡ first_positive (z ∷ zs) default
or_positive-first (pos n) current zs default h = ground arith
or_positive-first (negsuc n) current zs default h = h

or_count-first :
    (z : Option ℤ) (current : ℤ) (zs : List ℤ) (default : ℤ)
    → current ≡ first_positive zs default
    → or_count z current ≡ first_positive (or_zero z ∷ zs) default
or_count-first none current zs default h = h
or_count-first (some z) current zs default h = or_positive-first z current zs default h

positive-some : (parsed : Option ℤ) (z : ℤ) → positive parsed ≡ some z → parsed ≡ some z
positive-some none z e = e
positive-some (some (pos n)) z e = e
positive-some (some (negsuc n)) z e = absurd (none-ne-some z e)

module _ (start : Start) where
  parse-IsRead :
      (text : Text) (current z : ℤ)
      → parse_optional_duration start text current ≡ some z
      → IsRead start current text z
  unfolding parse_optional_duration
  parse-IsRead [] current z e = sym (some-injective current z e)
  parse-IsRead (c ∷ cs) current z e = elim (Bool-cases (text_eq (c ∷ cs) (codes "0"))) [
    | inl zero ↦ rw zero (by_test true zero e)
    | inr other ↦ rw other (by_test false other e)
  ]
    where
      by_test :
          (b : Bool)
          → text_eq (c ∷ cs) (codes "0") ≡ b
          → (if text_eq (c ∷ cs) (codes "0")
              then some (pos 0)
              else positive (start.parse_duration (c ∷ cs)))
            ≡ some z
          → (if b then some (pos 0) else start.parse_duration (c ∷ cs)) ≡ some z
      by_test true k h = ground arith
      by_test false k h = positive-some (start.parse_duration (c ∷ cs)) z (ground arith)

  -- A text of the environment counts before the file's.
  IsRead-first :
      (env text : Text) (default filed z : ℤ)
      → IsRead start default text filed
      → IsRead start filed env z
      → IsRead start default (first_set (env ∷ text ∷ [])) z
  IsRead-first [] [] default filed z h k = k ∙ h
  IsRead-first [] (c ∷ cs) default filed z h k = h ∙ ap some (sym k)
  IsRead-first (c ∷ cs) text default filed z h k = k

  with_durations-Holds {ℓ} :
      (P : Config → Type ℓ) (idle lifetime retention : Option ℤ) (t : Terminal) (cfg : Config)
      → ((i l r : ℤ)
          → idle ≡ some i
          → lifetime ≡ some l
          → retention ≡ some r
          → P (record cfg {
            terminal = record t { idle_timeout = i; max_lifetime = l; session_retention = r };
          }))
      → Holds P (with_terminal start (with_durations start idle lifetime retention t) cfg)
  with_durations-Holds P (some i) (some l) (some r) t cfg f = f i l r refl refl refl
  with_durations-Holds P none _ _ t cfg f = tt
  with_durations-Holds P (some _) none _ t cfg f = tt
  with_durations-Holds P (some _) (some _) none t cfg f = tt

  merge-IsFiled :
      (disk : DiskConfig) → Holds (IsFiled start disk) (merge start disk (defaults start))
  unfolding merge defaults
  merge-IsFiled disk =
      let d = defaults start in
      let t = file_terminal start disk d.terminal in
      with_durations-Holds (IsFiled start disk)
        (parse_optional_duration start disk.idle_timeout t.idle_timeout)
        (parse_optional_duration start disk.max_lifetime t.max_lifetime)
        (parse_optional_duration start disk.session_retention t.session_retention) t
        (file_others start disk d)
        (λ i l r e f g. (
          (
            or_some-given disk.trusted_origins [],
            or_some-given disk.trusted_proxies [],
            or_some-given disk.cookie_secure true,
            or_positive-first disk.max_message_size (pos 65536) [] (pos 65536) refl,
          ),
          (
            or_text-first start disk.cloudflare.binary default_binary (default_binary ∷ []) refl,
            or_text-first start disk.cloudflare.token_file default_token (default_token ∷ []) refl,
            or_positive-first disk.max_sessions (pos 1) [] (pos 1) refl,
            (
              parse-IsRead disk.idle_timeout (pos 0) i e,
              parse-IsRead disk.max_lifetime (pos 0) l f,
              parse-IsRead disk.session_retention (pos 3600000000000) r g,
            ),
          ),
        ))

  environment-IsComplete :
      (disk : DiskConfig) (cfg : Config)
      → IsFiled start disk cfg
      → Holds (IsComplete start disk) (apply_environment start cfg)
  unfolding apply_environment
  environment-IsComplete disk cfg (secured, (binary, token, count, (idle, lifetime, retention))) =
      let t = environment_terminal start cfg.terminal in
      let idle_text = start.getenv (codes "WEBTERM_IDLE_TIMEOUT") in
      let lifetime_text = start.getenv (codes "WEBTERM_MAX_LIFETIME") in
      let retention_text = start.getenv (codes "WEBTERM_SESSION_RETENTION") in
      with_durations-Holds (IsComplete start disk)
        (parse_optional_duration start idle_text t.idle_timeout)
        (parse_optional_duration start lifetime_text t.max_lifetime)
        (parse_optional_duration start retention_text t.session_retention) t
        (environment_others start cfg)
        (λ i l r e f g. (
          secured,
          (
            or_text-first start (start.getenv (codes "WEBTERM_CLOUDFLARED")) cfg.cloudflare.binary
                (disk.cloudflare.binary ∷ default_binary ∷ []) binary,
            or_text-first start (start.getenv (codes "WEBTERM_CLOUDFLARE_TOKEN_FILE"))
                cfg.cloudflare.token_file (disk.cloudflare.token_file ∷ default_token ∷ []) token,
            or_count-first (start.atoi (start.getenv (codes "WEBTERM_MAX_SESSIONS")))
                cfg.terminal.max_sessions (disk.max_sessions ∷ []) (pos 1) count,
            (
              IsRead-first idle_text disk.idle_timeout (pos 0) cfg.terminal.idle_timeout i idle
                  (parse-IsRead idle_text cfg.terminal.idle_timeout i e),
              IsRead-first lifetime_text disk.max_lifetime (pos 0) cfg.terminal.max_lifetime l
                  lifetime (parse-IsRead lifetime_text cfg.terminal.max_lifetime l f),
              IsRead-first retention_text disk.session_retention (pos 3600000000000)
                  cfg.terminal.session_retention r retention
                  (parse-IsRead retention_text cfg.terminal.session_retention r g),
            ),
          ),
        ))

  merged-IsFiled :
      (decoded : Option DiskConfig)
      → Holds
          (IsFiled start (elim decoded [ none ↦ no_file | some disk ↦ disk ]))
          (merged start decoded)
  merged-IsFiled none = tt
  merged-IsFiled (some disk) = merge-IsFiled disk

  from_file-IsFiled :
      (c : ℕ) (cs : Text) (info : Option Info)
      → Holds (IsFiled start (file_values start (c ∷ cs))) (from_file start (c ∷ cs) info)
  from_file-IsFiled c cs none = tt
  from_file-IsFiled c cs (some info) = elim (Bool-cases (is_writable info)) [
    | inl e ↦ rw e tt
    | inr e ↦ rw e (merged-IsFiled (start.decoded (c ∷ cs)))
  ]

  file_settings-IsFiled :
      (path : Text) → Holds (IsFiled start (file_values start path)) (file_settings start path)
  unfolding defaults
  file_settings-IsFiled [] = ((refl, refl, refl, refl), (refl, refl, refl, (refl, refl, refl)))
  file_settings-IsFiled (c ∷ cs) = from_file-IsFiled c cs (start.stat (c ∷ cs))

  over-IsComplete :
      (disk : DiskConfig) (read : Option Config)
      → Holds (IsFiled start disk) read
      → Holds (IsComplete start disk) (over start read)
  over-IsComplete disk none h = tt
  over-IsComplete disk (some cfg) h = environment-IsComplete disk cfg h

  checked-kept {ℓ} :
      (P : Config → Type ℓ) (read : Option Config) → Holds P read → Holds P (checked start read)
  checked-kept P none h = tt
  checked-kept P (some cfg) h = elim (Bool-cases (validate start cfg)) [
    | inl e ↦ rw e h
    | inr e ↦ rw e tt
  ]

-- The settings of a successful `Load` that `IsFrom` leaves out come from their sources.
pub load-IsComplete :
    (start : Start) (path : Text) (cfg : Config)
    → load start path ≡ some cfg
    → IsComplete start (file_values start path) cfg
unfolding load
load-IsComplete start path cfg e = subst (Holds (IsComplete start (file_values start path))) e (
    checked-kept start (IsComplete start (file_values start path)) _
      (over-IsComplete start (file_values start path) _ (file_settings-IsFiled start path)))
