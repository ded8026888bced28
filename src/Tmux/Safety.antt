-- ===== src/Tmux/Safety.antt =====
-- internal/server/tmux.go: the names and the typed text over all requests.
use termdock.Base.{◌≡◌, Bool, true, false, not, ◌||◌, List, [], ◌∷◌, Option, none, some, All}
use termdock.Base.Text.{Text}
use termdock.Session.{PersistentSession, Target}
use termdock.Tmux.{valid_name, valid_index, Tools, Tmux, switch_tmux_target, typed_part, type_line}
use termdock.Tmux.Routes.{
  attach_session, select_window, detach_session, detach_from, detach_in, leave_line, Request,
  creates, attaches, selects, detaches, defaults, renames, kills, answer, answer_all,
}
use termdock.Tmux.Typing.{
  IsSafe, leaves, typed_part-IsSafe, valid_target, session_named, IsNamed, IsDecimal, All-append,
  switch_tmux_target-IsNamed, settle_switch-IsNamed,
}
use termdock.Tmux.Names.{
  guarded, valid-kept, clear-valid, first-valid, create_session-IsNamed, set_default-IsNamed,
  rename_session-IsNamed, kill_session-IsNamed,
}

attach_session-IsNamed :
    (tools : Tools) (logged_in : Bool) (name : Text) (t : Tmux)
    → IsDecimal tools
    → IsNamed t
    → IsNamed (attach_session tools logged_in name t).1
unfolding attach_session
attach_session-IsNamed tools false name t d h = h
attach_session-IsNamed tools true name t d h = guarded (not (valid_name name)) 400 t _ h (λ valid.
    guarded (not tools.available) 503 t _ h (λ _.
      settle_switch-IsNamed 409 (switch_tmux_target tools name none t)
        (switch_tmux_target-IsNamed tools name none t d (valid-kept name valid) h)))

select_window-IsNamed :
    (tools : Tools) (logged_in : Bool) (name raw : Text) (t : Tmux)
    → IsDecimal tools
    → IsNamed t
    → IsNamed (select_window tools logged_in name raw t).1
unfolding select_window
select_window-IsNamed tools false name raw t d h = h
select_window-IsNamed tools true name raw t d h =
    let window = some (tools.number raw) in
    guarded (not (valid_name name) || not (valid_index raw)) 400 t _ h (λ valid.
      settle_switch-IsNamed 404 (switch_tmux_target tools name window t) (
        switch_tmux_target-IsNamed tools name window t d
          (first-valid (valid_name name) (valid_index raw) valid) h))

detach_from-IsNamed :
    (tools : Tools) (target : Option Target) (session : PersistentSession) (t : Tmux)
    → valid_target session.tmux_target ≡ true
    → IsNamed t
    → IsNamed (detach_from tools target session t).1
detach_from-IsNamed tools none session t k h = h
detach_from-IsNamed tools (some target) session t k h =
    let safe =
      All-append IsSafe t.typed (typed_part tools leave_line) h.2
        (typed_part-IsSafe tools leave_line leaves) in
    guarded tools.write_fails 500 (type_line tools leave_line t) _ (h.0, h.1, safe)
      (λ _. (h.0, clear-valid target.session session k, safe))

detach_in-IsNamed :
    (tools : Tools) (s : Option PersistentSession) (t : Tmux)
    → session_named s ≡ true
    → IsNamed t
    → IsNamed (detach_in tools s t).1
detach_in-IsNamed tools none t k h = h
detach_in-IsNamed tools (some session) t k h =
    detach_from-IsNamed tools session.tmux_target session t k h

answer-IsNamed :
    (tools : Tools) (logged_in : Bool) (r : Request) (t : Tmux)
    → IsDecimal tools
    → IsNamed t
    → IsNamed (answer tools logged_in r t).1
unfolding answer detach_session
answer-IsNamed tools logged_in (creates name working_dir) t d h =
    create_session-IsNamed tools logged_in name working_dir t h
answer-IsNamed tools logged_in (attaches name) t d h =
    attach_session-IsNamed tools logged_in name t d h
answer-IsNamed tools logged_in (selects name raw) t d h =
    select_window-IsNamed tools logged_in name raw t d h
answer-IsNamed tools false detaches t d h = h
answer-IsNamed tools true detaches t d h = detach_in-IsNamed tools t.session t h.1 h
answer-IsNamed tools logged_in (defaults name) t d h = set_default-IsNamed tools logged_in name t h
answer-IsNamed tools logged_in (renames old_name name) t d h =
    rename_session-IsNamed tools logged_in old_name name t h
answer-IsNamed tools logged_in (kills name) t d h = kill_session-IsNamed tools logged_in name t h

-- Whatever names, indices and windows the requests carry and however tmux answers them, if the
-- default session and the current target have names that the pattern allows and only safe text
-- has been typed, this stays so: what a write types into the terminal is the key that leaves tmux, or
-- "tmux attach-session -t" with a target of letters, digits and "_", ".", "-", ":" on a line of
-- its own, or the beginning of these that a failing write gets through. `%d` must print decimal
-- digits.
pub answer_all-IsNamed :
    (requests : List (Tools × Bool × Request)) (t : Tmux)
    → All (λ (request : Tools × Bool × Request). IsDecimal request.0) requests
    → IsNamed t
    → IsNamed (answer_all requests t)
unfolding answer_all
answer_all-IsNamed [] t d h = h
answer_all-IsNamed ((tools, logged_in, r) ∷ requests) t (d, ds) h =
    answer_all-IsNamed requests (answer tools logged_in r t).1 ds
      (answer-IsNamed tools logged_in r t d h)
