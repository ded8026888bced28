-- ===== src/Tmux/Names.antt =====
-- internal/server/tmux.go: which names the server holds and types, over all of its routes.
use termdock.Base.{
  ℕ, ◌≡◌, refl, Bool, true, false, not, ◌&&◌, ◌||◌, List, [], ◌∷◌, Option, none, some, arith,
  if◌then◌else◌, Bool-cases, inl, inr,
}
use termdock.Base.Text.{Text, text_eq, codes}
use termdock.Session.{
  PersistentSession, Target, names_session, clear_tmux_target, rename_tmux_target, renamed,
}
use termdock.Tmux.{
  valid_name, has_failed, Tools, Tmux, Reply, refused, accepted, tell, typed_part, type_line,
}
use termdock.Tmux.Routes.{
  create_session, set_default_target, follow_rename, rename_session, rename_in, leave_killed,
  kill_session, leave_line,
}
use termdock.Tmux.Typing.{
  IsSafe, leaves, typed_part-IsSafe, valid_or_empty, valid_target, session_named, IsNamed,
  All-append,
}

-- A reply that changes nothing or one whose state keeps the names: the tests before it do not matter.
pub guarded :
    (b : Bool) (status : ℕ) (t : Tmux) (rest : Reply × Tmux)
    → IsNamed t
    → (b ≡ false → IsNamed rest.1)
    → IsNamed (if b then (refused status, t) else rest).1
guarded true status t rest h k = h
guarded false status t rest h k = k refl

pub valid-kept : (name : Text) → not (valid_name name) ≡ false → valid_name name ≡ true
valid-kept name h = ground arith

pub clear-valid :
    (name : Text) (session : PersistentSession)
    → valid_target session.tmux_target ≡ true
    → valid_target (clear_tmux_target name session).tmux_target ≡ true
unfolding clear_tmux_target
clear-valid name session h = by_test (names_session name session.tmux_target)
  where
    by_test :
        (b : Bool)
        → valid_target (if b then record session { tmux_target = none } else session).tmux_target
          ≡ true
    by_test true = refl
    by_test false = h

first_default :
    (name default : Text)
    → valid_name name ≡ true
    → valid_or_empty default ≡ true
    → valid_or_empty (if text_eq default [] then name else default) ≡ true
first_default name default valid h = ground arith

abbrev pub new_session_command : Text → Text → List Text
new_session_command name working_dir =
    codes "new-session" ∷ codes "-d" ∷ codes "-s" ∷ name ∷ codes "-c" ∷ working_dir ∷ []

both-valid :
    (old_name name : Text)
    → not (valid_name old_name) || not (valid_name name) ≡ false
    → valid_name name ≡ true
both-valid old_name name h = ground arith

pub first-valid : (a b : Bool) → not a || not b ≡ false → a ≡ true
first-valid a b h = ground arith

dropped_default :
    (name default : Text)
    → valid_or_empty default ≡ true
    → valid_or_empty (if text_eq default name then [] else default) ≡ true
dropped_default name default h = ground arith

pub create_session-IsNamed :
    (tools : Tools) (logged_in : Bool) (name : Option Text) (working_dir : Text) (t : Tmux)
    → IsNamed t
    → IsNamed (create_session tools logged_in name working_dir t).1
unfolding create_session
create_session-IsNamed tools false name working_dir t h = h
create_session-IsNamed tools true none working_dir t h = h
create_session-IsNamed tools true (some name) working_dir t h =
    guarded (not (valid_name name)) 400 t _ h (λ valid.
      guarded (not tools.available) 503 t _ h (λ _.
        guarded (has_failed (tools.run (new_session_command name working_dir))) _
          (tell (new_session_command name working_dir) t)
          (
            accepted 201,
            record (tell (new_session_command name working_dir) t) {
              default_tmux = if text_eq t.default_tmux [] then name else t.default_tmux;
            },
          )
          h (λ _. (first_default name t.default_tmux (valid-kept name valid) h.0, h.1, h.2))))

pub set_default-IsNamed :
    (tools : Tools) (logged_in : Bool) (name : Option Text) (t : Tmux)
    → IsNamed t
    → IsNamed (set_default_target tools logged_in name t).1
unfolding set_default_target
set_default-IsNamed tools false name t h = h
set_default-IsNamed tools true none t h = h
set_default-IsNamed tools true (some name) t h =
    guarded (not (text_eq name []) && not (valid_name name)) 400 t _ h (λ valid.
      guarded
        (not (text_eq name [])
          && has_failed (tools.run (codes "has-session" ∷ codes "-t" ∷ name ∷ [])))
        404 t (accepted 200, record t { default_tmux = name }) h (λ _. (ground arith, h.1, h.2)))

rename_in-named :
    (old_name name : Text) (s : Option PersistentSession)
    → valid_name name ≡ true
    → session_named s ≡ true
    → session_named (rename_in old_name name s) ≡ true
unfolding rename_tmux_target
rename_in-named old_name name none valid h = refl
rename_in-named old_name name (some session) valid h = by_target session.tmux_target h
  where
    by_target :
        (target : Option Target)
        → valid_target target ≡ true
        → valid_target (renamed old_name name target) ≡ true
    by_target none h = refl
    by_target (some target) h = ground arith

follow_rename-IsNamed :
    (old_name name : Text) (t : Tmux)
    → valid_name name ≡ true
    → IsNamed t
    → IsNamed (follow_rename old_name name t)
unfolding follow_rename
follow_rename-IsNamed old_name name t valid h =
    (ground arith, rename_in-named old_name name t.session valid h.1, h.2)

pub rename_session-IsNamed :
    (tools : Tools) (logged_in : Bool) (old_name : Text) (input : Option Text) (t : Tmux)
    → IsNamed t
    → IsNamed (rename_session tools logged_in old_name input t).1
unfolding rename_session
rename_session-IsNamed tools false old_name input t h = h
rename_session-IsNamed tools true old_name none t h = h
rename_session-IsNamed tools true old_name (some name) t h =
    let command = codes "rename-session" ∷ codes "-t" ∷ old_name ∷ name ∷ [] in
    let exists =
      λ (n : Text). not (has_failed (tools.run (codes "has-session" ∷ codes "-t" ∷ n ∷ []))) in
    guarded (not (valid_name old_name) || not (valid_name name)) 400 t _ h (λ valid.
      elim (Bool-cases (text_eq name old_name)) [
        | inl e ↦ rw e h
        | inr e ↦ rw e (
            guarded (not tools.available) 503 t _ h (λ _.
              guarded (not (exists old_name)) 404 t _ h (λ _. guarded (exists name) 409 t _ h (λ _.
                guarded (has_failed (tools.run command)) _ (tell command t)
                  (accepted 200, follow_rename old_name name (tell command t)) h
                  (λ _.
                    follow_rename-IsNamed old_name name (tell command t)
                      (both-valid old_name name valid) h)))))
      ])

leave_killed-IsNamed :
    (tools : Tools) (name : Text) (s : Option PersistentSession) (t : Tmux)
    → session_named s ≡ true
    → IsNamed t
    → IsNamed (leave_killed tools name s t)
unfolding leave_killed
leave_killed-IsNamed tools name none t k h = h
leave_killed-IsNamed tools name (some session) t k h =
    by_test (names_session name session.tmux_target)
  where
    by_test :
        (named : Bool)
        → IsNamed (
            if◌then◌else◌ {A = Tmux} named
              (record (type_line tools leave_line t) {
                session = some (clear_tmux_target name session);
              })
              t)
    by_test false = h
    by_test true = (
      h.0,
      clear-valid name session k,
      All-append IsSafe t.typed (typed_part tools leave_line) h.2
          (typed_part-IsSafe tools leave_line leaves),
    )

pub kill_session-IsNamed :
    (tools : Tools) (logged_in : Bool) (name : Text) (t : Tmux)
    → IsNamed t
    → IsNamed (kill_session tools logged_in name t).1
unfolding kill_session
kill_session-IsNamed tools false name t h = h
kill_session-IsNamed tools true name t h =
    let command = codes "kill-session" ∷ codes "-t" ∷ name ∷ [] in
    let left = tell command (leave_killed tools name t.session t) in
    let left_named = leave_killed-IsNamed tools name t.session t h.1 h in
    guarded (not (valid_name name)) 400 t _ h (λ _. guarded (not tools.available) 503 t _ h (λ _.
      guarded (has_failed (tools.run command)) 404 left
        (
          accepted 204,
          record left {
            default_tmux = if text_eq left.default_tmux name then [] else left.default_tmux;
          },
        )
        left_named
        (λ _. (dropped_default name left.default_tmux left_named.0, left_named.1, left_named.2))))
