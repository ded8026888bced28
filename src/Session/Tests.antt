-- ===== src/Session/Tests.antt =====
-- The theorems on terminal sessions (internal/server/persistent_session.go and server.go), applied
-- at small runs.
use termdock.Base.{◌≡◌, refl, ◌⊎◌, true, [], ◌∷◌, none, some, arith}
use termdock.Session.{PersistentSession, new_persistent_session, attach, detach, write}
use termdock.Session.Host.{Host, terminal_session, asks, Reach, start, next, fresh}
use termdock.Session.Slots.{occupied, Gives, slots_match, terminal_session-Gives}
use termdock.Session.Clients.{joins, leaves, outputs, changes, replaced-inert, newest-attached}
use termdock.Session.Reaper.{expire, sleep, plan, reap_round, reap_round-twice}

abbrev started : Host
started = (terminal_session true (fresh 1 100)).1

started-Reach : Reach 1 100 started
started-Reach = next start (asks true)

slots_match_example : started.limiter.active ≡ occupied started.current
slots_match_example = slots_match started-Reach

terminal_session-Gives_example : Gives (terminal_session true started)
terminal_session-Gives_example = terminal_session-Gives started-Reach (omega arith)

abbrev session : PersistentSession
session = new_persistent_session 100

replaced-inert_example :
    let later = changes (joins 2 ∷ []) (attach 1 session).session in
    (write 1 1 (97 ∷ []) later ≡ none) × (detach 1 1 5 later ≡ later)
unfolding new_persistent_session
replaced-inert_example = replaced-inert 1 5 (97 ∷ []) (joins 2 ∷ []) session refl refl

newest-attached_example :
    let later = changes (leaves 9 0 5 ∷ outputs true 6 ∷ []) (attach 1 session).session in
    (later.client ≡ some 1) × (write 1 1 (97 ∷ []) later ≡ some (97 ∷ []))
unfolding new_persistent_session
newest-attached_example =
    newest-attached 1 (97 ∷ []) (leaves 9 0 5 ∷ outputs true 6 ∷ []) session refl refl

-- A session whose browser left at time 7.
abbrev left : PersistentSession
left = detach 1 1 7 (attach 1 session).session

reap_round-twice_example :
    ((plan 10 left ≡ expire 7) ⊎ (plan 10 left ≡ sleep 97))
    × ((reap_round 107 (reap_round 10 left)).is_closed ≡ true)
unfolding new_persistent_session attach detach
reap_round-twice_example = reap_round-twice 7 10 107 left refl refl refl (omega arith)
