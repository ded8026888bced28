-- ===== src/Session/Reaper.antt =====
-- internal/server/persistent_session.go: `reapDetached`, which ends a session that no browser has
-- been attached to for its retention. Times are nanoseconds since a common origin.
use termdock.Base.{
  ℕ, suc, ◌+◌, ◌-◌, ◌≤◌, ◌≡◌, ◌↔◌, ◌⊎◌, Bool, true, false, not, ◌&&◌, Option, none, some, arith,
  if◌then◌else◌, Option-cases, inl, inr, leb, ◌==◌, is_some, eq_self,
}
use termdock.Session.{PersistentSession, attach, close}

-- What a round of the loop goes on with: it waits to be woken, it looks again whether the session is
-- still detached since a time, or it sleeps.
pub data Plan : Type 0 where
  wait : Plan
  expire : ℕ → Plan
  sleep : ℕ → Plan

abbrev pub plan_for : Bool → Option ℕ → ℕ → ℕ → Plan
plan_for true detached_at retention now = wait
plan_for false none retention now = wait
plan_for false (some t) retention now =
    if leb (t + retention) now then expire t else sleep (t + retention - now)

-- The first part of a round, under the mutex, and the time that it reads then.
unfoldable pub plan : ℕ → PersistentSession → Plan
plan now s = plan_for (is_some s.client) s.detached_at s.retention now

abbrev pub same_time : Option ℕ → ℕ → Bool
same_time none t = false
same_time (some u) t = u == t

unfoldable pub still_detached : ℕ → PersistentSession → Bool
still_detached t s = not (is_some s.client) && same_time s.detached_at t

abbrev pub follow : Plan → PersistentSession → PersistentSession
follow wait s = s
follow (expire t) s = if still_detached t s then (close s).1 else s
follow (sleep r) s = s

-- A round during which nothing else happens.
unfoldable pub reap_round : ℕ → PersistentSession → PersistentSession
unfolding plan
reap_round now s = follow (plan now s) s

-- A round ends an open session exactly if it has no client and was detached at least its retention
-- ago.
pub reap_round-ends :
    (now : ℕ) (s : PersistentSession)
    → s.is_closed ≡ false
    → ((reap_round now s).is_closed ≡ true)
      ↔ ((t : ℕ) × (s.detached_at ≡ some t) × (t + s.retention ≤ now) × (s.client ≡ none))
unfolding reap_round plan still_detached close
reap_round-ends now s o = elim (Option-cases s.detached_at) [
  | inl e ↦ (λ h. absurd (ground arith), λ (t, d, _, _). absurd (ground arith))
  | inr (t, e) ↦
      (λ h. (t, e, ground arith, ground arith), λ (u, d, l, c). ground (arith, eq_self t))
]

-- Two rounds end a session that stays detached: the first one sleeps at most until the retention is
-- over, and the second one, which runs no sooner than that, ends it.
pub reap_round-twice :
    (t first second : ℕ) (s : PersistentSession)
    → s.is_closed ≡ false
    → s.client ≡ none
    → s.detached_at ≡ some t
    → first + (t + s.retention - first) ≤ second
    → ((plan first s ≡ expire t) ⊎ (plan first s ≡ sleep (t + s.retention - first)))
      × ((reap_round second (reap_round first s)).is_closed ≡ true)
unfolding reap_round plan still_detached close
reap_round-twice t first second s o c d w = (ground arith, ground (arith, eq_self t))

-- The reaper does not keep the mutex between its last look and the end of the session: a connection
-- that attaches in between is closed with the session, although it has only just been accepted.
pub reaped-just_attached :
    (t now connection : ℕ) (s : PersistentSession)
    → s.is_closed ≡ false
    → plan now s ≡ expire t
    → still_detached t s ≡ true
    → let joined = attach connection s in
      (joined.id ≡ some (suc s.client_id))
      × ((close joined.session).0 ≡ some connection)
      × ((close joined.session).1.is_closed ≡ true)
unfolding attach close
reaped-just_attached t now connection s o p d = ground arith
