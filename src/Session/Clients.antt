-- ===== src/Session/Clients.antt =====
-- internal/server/persistent_session.go: which connection a session belongs to, while handlers of
-- replaced connections still run.
use termdock.Base.{
  ℕ, suc, ◌≤◌, ◌<◌, ◌≡◌, refl, Bool, true, false, not, ◌||◌, List, [], ◌∷◌, Option, none, some,
  arith, Bool-cases, inl, inr, ◌==◌, ◌⊎◌, all, is_some, eq_self, ap, ◌∙◌,
}
use termdock.Session.{
  PersistentSession, attach, detach, write, publish, publish_to, close, is_current_client,
}

-- What the handlers and the reader of the terminal do to a session.
pub data Change : Type 0 where
  joins : ℕ → Change
  leaves : ℕ → ℕ → ℕ → Change
  outputs : Bool → ℕ → Change
  ends : Change

unfoldable pub change : Change → PersistentSession → PersistentSession
change (joins connection) s = (attach connection s).session
change (leaves connection id now) s = detach connection id now s
change (outputs written now) s = (publish written now s).1
change ends s = (close s).1

unfoldable pub changes : List Change → PersistentSession → PersistentSession
changes [] s = s
changes (c ∷ cs) s = changes cs (change c s)

abbrev pub joining : Change → Bool
joining (joins _) = true
joining _ = false

abbrev pub some_join : List Change → Bool
some_join [] = false
some_join (c ∷ cs) = joining c || some_join cs

-- A closed session has no client, and no attachment before `id` is the current one any more.
abbrev AtLeast : ℕ → PersistentSession → Type 0
AtLeast id s = (id ≤ s.client_id) × ((not s.is_closed || not (is_some s.client)) ≡ true)

abbrev Past : ℕ → PersistentSession → Type 0
Past id s =
    ((id < s.client_id) ⊎ (s.is_closed ≡ true))
    × ((not s.is_closed || not (is_some s.client)) ≡ true)

-- Output changes a session at most as a detachment does.
publish-keeps {ℓ} :
    (P : PersistentSession → Type ℓ) (written : Bool) (now : ℕ) (s : PersistentSession)
    → ((connection id : ℕ) → P (detach connection id now s))
    → P s
    → P (publish written now s).1
unfolding publish
publish-keeps P written now s left h = by_client s.client written
  where
    by_client : (client : Option ℕ) (b : Bool) → P (publish_to client b now s).1
    by_client none b = h
    by_client (some connection) true = h
    by_client (some connection) false = left connection s.client_id

detach-AtLeast :
    (id connection n now : ℕ) (s : PersistentSession)
    → AtLeast id s
    → AtLeast id (detach connection n now s)
unfolding detach
detach-AtLeast id connection n now s h = ground arith

change-AtLeast :
    (id : ℕ) (c : Change) (s : PersistentSession) → AtLeast id s → AtLeast id (change c s)
unfolding change attach close
change-AtLeast id (joins connection) s h = ground arith
change-AtLeast id (leaves connection n now) s h = detach-AtLeast id connection n now s h
change-AtLeast id (outputs written now) s h =
    publish-keeps (AtLeast id) written now s (λ c n. detach-AtLeast id c n now s h) h
change-AtLeast id ends s h = ground arith

detach-Past :
    (id connection n now : ℕ) (s : PersistentSession)
    → Past id s
    → Past id (detach connection n now s)
unfolding detach
detach-Past id connection n now s h = ground arith

change-Past : (id : ℕ) (c : Change) (s : PersistentSession) → Past id s → Past id (change c s)
unfolding change attach close
change-Past id (joins connection) s h = ground arith
change-Past id (leaves connection n now) s h = detach-Past id connection n now s h
change-Past id (outputs written now) s h =
    publish-keeps (Past id) written now s (λ c n. detach-Past id c n now s h) h
change-Past id ends s h = ground arith

changes-Past :
    (id : ℕ) (cs : List Change) (s : PersistentSession) → Past id s → Past id (changes cs s)
unfolding changes
changes-Past id [] s h = h
changes-Past id (c ∷ cs) s h = changes-Past id cs (change c s) (change-Past id c s h)

join-Past :
    (id : ℕ) (c : Change) (s : PersistentSession)
    → joining c ≡ true
    → AtLeast id s
    → Past id (change c s)
unfolding change attach
join-Past id (joins connection) s j h = ground arith
join-Past id (leaves connection n now) s j h = absurd (ground arith)
join-Past id (outputs written now) s j h = absurd (ground arith)
join-Past id ends s j h = absurd (ground arith)

joined-Past :
    (id : ℕ) (cs : List Change) (s : PersistentSession)
    → some_join cs ≡ true
    → AtLeast id s
    → Past id (changes cs s)
unfolding changes
joined-Past id [] s j h = absurd (ground arith)
joined-Past id (c ∷ cs) s j h = elim (Bool-cases (joining c)) [
  | inl now ↦ changes-Past id cs (change c s) (join-Past id c s now h)
  | inr later ↦ joined-Past id cs (change c s) (ground arith) (change-AtLeast id c s h)
]

Past-not_current :
    (connection id : ℕ) (s : PersistentSession)
    → Past id s
    → is_current_client connection id s ≡ false
unfolding is_current_client
Past-not_current connection id s h = ground arith

-- Once another connection has joined the session, the input of the handler of the connection that it
-- replaced does not reach the terminal, and the detachment of that handler, whenever it comes and
-- whatever has joined, left, been printed or ended meanwhile, changes nothing. The session was open
-- when the replaced connection joined. A message of that handler with a new terminal size is not
-- covered: the code looks for no client there.
pub replaced-inert :
    (connection now : ℕ) (bytes : List ℕ) (cs : List Change) (s : PersistentSession)
    → s.is_closed ≡ false
    → some_join cs ≡ true
    → let later = changes cs (attach connection s).session in
      (write connection (suc s.client_id) bytes later ≡ none)
      × (detach connection (suc s.client_id) now later ≡ later)
unfolding attach write detach
replaced-inert connection now bytes cs s o j =
    let past = joined-Past (suc s.client_id) cs (attach connection s).session j (ground arith) in
    let inert =
      Past-not_current connection (suc s.client_id) (changes cs (attach connection s).session)
        past in
    rw inert (refl, refl)

attached-current :
    (connection : ℕ) (s : PersistentSession)
    → s.is_closed ≡ false
    → is_current_client connection (suc s.client_id) (attach connection s).session ≡ true
unfolding attach is_current_client
attached-current connection s o = ground (arith, eq_self connection, eq_self (suc s.client_id))

-- What leaves the newest connection alone: detachments of older ones, and output that arrives.
abbrev pub spares : ℕ → Change → Bool
spares id (joins connection) = false
spares id (leaves connection n now) = not (n == id)
spares id (outputs written now) = written
spares id ends = false

publish_to-written :
    (client : Option ℕ) (now : ℕ) (s : PersistentSession) → (publish_to client true now s).1 ≡ s
publish_to-written none now s = refl
publish_to-written (some c) now s = refl

spared-unchanged :
    (connection id : ℕ) (c : Change) (s : PersistentSession)
    → spares id c ≡ true
    → is_current_client connection id s ≡ true
    → change c s ≡ s
unfolding change publish detach is_current_client
spared-unchanged connection id (joins _) s h k = absurd (ground arith)
spared-unchanged connection id (leaves other n now) s h k = ground arith
spared-unchanged connection id (outputs true now) s h k = publish_to-written s.client now s
spared-unchanged connection id (outputs false now) s h k = absurd (ground arith)
spared-unchanged connection id ends s h k = absurd (ground arith)

spared-changes :
    (connection id : ℕ) (cs : List Change) (s : PersistentSession)
    → all (spares id) cs ≡ true
    → is_current_client connection id s ≡ true
    → changes cs s ≡ s
unfolding changes
spared-changes connection id [] s h k = refl
spared-changes connection id (c ∷ cs) s h k =
    let same = spared-unchanged connection id c s (ground arith) k in
    ap (changes cs) same ∙ spared-changes connection id cs s (ground arith) k

-- A connection that attaches to an open session stays attached, and its input reaches the terminal,
-- however many handlers of other attachments detach meanwhile and however much output is written to
-- it, until another connection joins, a write fails or the session ends.
pub newest-attached :
    (connection : ℕ) (bytes : List ℕ) (cs : List Change) (s : PersistentSession)
    → s.is_closed ≡ false
    → all (spares (suc s.client_id)) cs ≡ true
    → let later = changes cs (attach connection s).session in
      (later.client ≡ some connection)
      × (write connection (suc s.client_id) bytes later ≡ some bytes)
unfolding attach write
newest-attached connection bytes cs s o h =
    let mine = attached-current connection s o in
    let same =
      spared-changes connection (suc s.client_id) cs (attach connection s).session h mine in
    rw same (ground arith, rw mine refl)
