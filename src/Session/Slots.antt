-- ===== src/Session/Slots.antt =====
-- internal/server/server.go and internal/session/limiter.go: no slot is lost and none is released
-- twice, in whatever order handlers, processes and clean-ups run.
use termdock.Base.{
  ℕ, suc, ◌≤◌, ◌<◌, ◌≡◌, refl, ◌∙◌, Bool, true, false, ◌&&◌, List, [], ◌∷◌, ◌++◌, Option, none,
  some, arith, if◌then◌else◌, Bool-cases, Option-cases, inl, inr, length, length-append, length-set,
  get_elem?, ltb, leb, ◌-◌, ◌⊎◌, subst, sym, ap,
}
use termdock.Session.{Limiter, acquire, release, PersistentSession, new_persistent_session}
use termdock.Session.Host.{
  Host, closed_session, current_closed, vacate, leave, start_session, reuse_or_start,
  terminal_session, close_terminal_session, clean_up, change_session, is_current_session, Step,
  asks, attaches, detaches, closes, cleans, logs_out, Reach, start, next,
}

abbrev pub occupied : Option ℕ → ℕ
occupied none = 0
occupied (some _) = 1

-- The current session is one that was started.
abbrev InRange : Option ℕ → ℕ → Type 0
InRange none n = Unit
InRange (some i) n = i < n

pub record Inv (maximum : ℕ) (h : Host) : Type 0 where
  pub slots : h.limiter.active ≡ occupied h.current
  pub bound : h.limiter.maximum ≡ maximum
  pub started : InRange h.current (length h.sessions)

release-counts :
    (l : Limiter) → ((release l).active ≡ l.active - 1) × ((release l).maximum ≡ l.maximum)
unfolding release
release-counts l = ground arith

occupied-le-one : (current : Option ℕ) → occupied current ≤ 1
occupied-le-one none = omega arith
occupied-le-one (some i) = omega arith

vacate-Inv : (maximum : ℕ) (h : Host) → Inv maximum h → Inv maximum (vacate h)
unfolding vacate
vacate-Inv maximum h v = record {
  slots = omega (arith, release-counts h.limiter, v.slots, occupied-le-one h.current);
  bound = omega (arith, release-counts h.limiter, v.bound);
  started = tt;
}

-- A session is started exactly if a slot is free and the process starts.
start_session-cases :
    (starts : Bool) (h : Host)
    → (((start_session starts h).0 ≡ none)
        × ((start_session starts h).1.current ≡ h.current)
        × ((start_session starts h).1.sessions ≡ h.sessions)
        × ((start_session starts h).1.limiter.active ≡ h.limiter.active)
        × ((start_session starts h).1.limiter.maximum ≡ h.limiter.maximum)
        × ((starts && ltb h.limiter.active h.limiter.maximum) ≡ false))
      ⊎ (((start_session starts h).0 ≡ some (length h.sessions))
          × ((start_session starts h).1.current ≡ some (length h.sessions))
          × ((start_session starts h).1.sessions
              ≡ h.sessions ++ (new_persistent_session h.retention ∷ []))
          × ((start_session starts h).1.limiter.active ≡ suc h.limiter.active)
          × ((start_session starts h).1.limiter.maximum ≡ h.limiter.maximum)
          × ((starts && ltb h.limiter.active h.limiter.maximum) ≡ true))
unfolding start_session acquire release
start_session-cases true h = elim (Bool-cases (leb h.limiter.maximum h.limiter.active)) [
  | inl full ↦ inl (ground arith)
  | inr free ↦ inr (ground arith)
]
start_session-cases false h = inl (ground arith)

start_session-Inv :
    (maximum : ℕ) (starts : Bool) (h : Host)
    → h.current ≡ none
    → Inv maximum h
    → Inv maximum (start_session starts h).1
start_session-Inv maximum starts h e v = elim (start_session-cases starts h) [
  | inl (_, same, kept, active, bound, _) ↦ record {
    slots = omega (arith, active, v.slots, ap occupied same);
    bound = bound ∙ v.bound;
    started =
        subst (λ c. InRange c (length (start_session starts h).1.sessions)) (sym (same ∙ e)) tt;
  }
  | inr (_, now, more, active, bound, _) ↦ record {
    slots = omega (arith, active, v.slots, ap occupied now, ap occupied e);
    bound = bound ∙ v.bound;
    started =
        subst (λ c. InRange c (length (start_session starts h).1.sessions)) (sym now)
          (omega (
            arith,
            ap length more,
            length-append h.sessions (new_persistent_session h.retention ∷ []),
          ));
  }
]

reuse_or_start-Inv :
    (maximum : ℕ) (current : Option ℕ) (starts : Bool) (h : Host)
    → h.current ≡ current
    → Inv maximum h
    → Inv maximum (reuse_or_start current starts h).1
reuse_or_start-Inv maximum none starts h e v = start_session-Inv maximum starts h e v
reuse_or_start-Inv maximum (some i) starts h e v = v

terminal_session-Inv :
    (maximum : ℕ) (starts : Bool) (h : Host)
    → Inv maximum h
    → Inv maximum (terminal_session starts h).1
unfolding terminal_session
terminal_session-Inv maximum starts h v = elim (Bool-cases (current_closed h.current h.sessions)) [
  | inl ended ↦
      rw ended (
        start_session-Inv maximum starts (vacate h) (unfold vacate in refl)
          (vacate-Inv maximum h v))
  | inr alive ↦ rw alive (reuse_or_start-Inv maximum h.current starts h refl v)
]

change_session-Inv :
    (maximum i : ℕ) (change : PersistentSession → PersistentSession) (h : Host)
    → Inv maximum h
    → Inv maximum (change_session i change h)
unfolding change_session
change_session-Inv maximum i change h v = elim (Option-cases (get_elem? h.sessions i)) [
  | inl e ↦ rw (e, change_session) v
  | inr (s, e) ↦
      rw (e, change_session)
        (record {
          slots = v.slots;
          bound = v.bound;
          started = subst (InRange h.current) (sym (length-set h.sessions i (change s))) v.started;
        })
]

if_Inv :
    (maximum : ℕ) (test : Bool) (h k : Host)
    → Inv maximum h
    → Inv maximum k
    → Inv maximum (if test then h else k)
if_Inv maximum true h k v w = v
if_Inv maximum false h k v w = w

leave-Inv :
    (maximum : ℕ) (current : Option ℕ) (h : Host) → Inv maximum h → Inv maximum (leave current h)
leave-Inv maximum none h v = v
leave-Inv maximum (some i) h v = vacate-Inv maximum h v

close_terminal_session-Inv :
    (maximum : ℕ) (h : Host) → Inv maximum h → Inv maximum (close_terminal_session h)
unfolding close_terminal_session
close_terminal_session-Inv maximum h v = leave-Inv maximum h.current h v

Step-Inv : (maximum : ℕ) {h k : Host} → Step h k → Inv maximum h → Inv maximum k
Step-Inv maximum {h} (asks starts) v = terminal_session-Inv maximum starts h v
Step-Inv maximum {h} (attaches i connection) v = change_session-Inv maximum i _ h v
Step-Inv maximum {h} (detaches i connection id now) v = change_session-Inv maximum i _ h v
Step-Inv maximum {h} (closes i) v = change_session-Inv maximum i _ h v
Step-Inv maximum {h} (cleans i s e c) v =
    unfold clean_up in
    if_Inv maximum (is_current_session i h.current) _ _ (vacate-Inv maximum h v) v
Step-Inv maximum {h} logs_out v = close_terminal_session-Inv maximum h v

pub Reach-Inv : {maximum retention : ℕ} {h : Host} → Reach maximum retention h → Inv maximum h
Reach-Inv start = record { slots = refl; bound = refl; started = tt }
Reach-Inv {maximum} (next r step) = Step-Inv maximum step (Reach-Inv r)

-- In every reachable state the number of slots in use is one if the server has a current session
-- and zero otherwise: no order of handlers, logouts, exits and clean-ups loses or frees a slot twice.
pub slots_match :
    {maximum retention : ℕ} {h : Host}
    → Reach maximum retention h
    → h.limiter.active ≡ occupied h.current
slots_match r = (Reach-Inv r).slots

-- The answer is an open session, which is the current one then.
abbrev pub Gives : Option ℕ × Host → Type 0
Gives (answer, h) =
    (i : ℕ) × (answer ≡ some i)
    × (h.current ≡ some i)
    × (closed_session (get_elem? h.sessions i) ≡ false)

get_elem?-last {ℓ} :
    {A : Type ℓ} (xs : List A) (x : A) → get_elem? (xs ++ (x ∷ [])) (length xs) ≡ some x
get_elem?-last [] x = refl
get_elem?-last (y ∷ ys) x = get_elem?-last ys x

start_session-Gives :
    (h : Host) → h.limiter.active ≡ 0 → 0 < h.limiter.maximum → Gives (start_session true h)
unfolding new_persistent_session
start_session-Gives h idle positive = elim (start_session-cases true h) [
  | inl (_, _, _, _, _, full) ↦ absurd (ground arith)
  | inr (given, now, more, _, _, _) ↦ (
    length h.sessions,
    given,
    now,
    ap (λ l. closed_session (get_elem? l (length h.sessions))) more
        ∙ ap closed_session (get_elem?-last h.sessions (new_persistent_session h.retention)),
  )
]

reuse_or_start-Gives :
    (current : Option ℕ) (h : Host)
    → h.current ≡ current
    → h.limiter.active ≡ occupied current
    → 0 < h.limiter.maximum
    → current_closed current h.sessions ≡ false
    → Gives (reuse_or_start current true h)
reuse_or_start-Gives none h e slots positive alive = start_session-Gives h slots positive
reuse_or_start-Gives (some i) h e slots positive alive = (i, refl, e, alive)

-- Where at least one session is allowed and a process can be started, a handler that asks for the
-- terminal session gets one, whatever has happened before: it is open, and the current one.
pub terminal_session-Gives :
    {maximum retention : ℕ} {h : Host}
    → Reach maximum retention h
    → 0 < maximum
    → Gives (terminal_session true h)
unfolding terminal_session
terminal_session-Gives {maximum} {h} r positive =
    let v = Reach-Inv r in
    let w = vacate-Inv maximum h v in
    elim (Bool-cases (current_closed h.current h.sessions)) [
      | inl ended ↦ rw ended (
          start_session-Gives (vacate h) (unfold vacate in w.slots)
            (omega (arith, w.bound, positive)))
      | inr alive ↦
          rw alive
            (reuse_or_start-Gives h.current h refl v.slots (omega (arith, v.bound, positive)) alive)
    ]
