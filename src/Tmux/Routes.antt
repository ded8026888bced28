-- ===== src/Tmux/Routes.antt =====
-- internal/server/tmux.go: the routes themselves, `createTmuxSession`, `attachTmuxSession`,
-- `selectTmuxWindow`, `detachTmuxSession`, `setDefaultTmuxTarget`, `renameTmuxSession` and
-- `killTmuxSession`.
use termdock.Base.{
  ℕ, Bool, true, false, not, ◌&&◌, ◌||◌, List, [], ◌∷◌, Option, none, some, if◌then◌else◌,
}
use termdock.Base.Text.{Text, text_eq, codes, includes}
use termdock.Session.{
  PersistentSession, Target, names_session, clear_tmux_target, rename_tmux_target,
}
use termdock.Tmux.{
  valid_name, valid_index, has_failed, output_of, Tools, Tmux, Reply, refused, accepted, Switched,
  switched, unavailable, failed, tell, type_line, switch_tmux_target,
}

abbrev pub leave_line : Text
leave_line = 2 ∷ b'd' ∷ []

abbrev pub settle_switch : ℕ → Switched × Tmux → Reply × Tmux
settle_switch taken (switched, t) = (accepted 200, t)
settle_switch taken (unavailable, t) = (refused taken, t)
settle_switch taken (failed, t) = (refused 404, t)

abbrev pub rename_in : Text → Text → Option PersistentSession → Option PersistentSession
rename_in old_name name none = none
rename_in old_name name (some session) = some (rename_tmux_target old_name name session)

-- What `renameTmuxSession` does once tmux has renamed the session.
unfoldable pub follow_rename : Text → Text → Tmux → Tmux
unfolding rename_tmux_target
follow_rename old_name name t = record t {
  default_tmux = if text_eq t.default_tmux old_name then name else t.default_tmux;
  session = rename_in old_name name t.session;
}

module _ (tools : Tools) where
  unfoldable pub create_session : Bool → Option Text → Text → Tmux → Reply × Tmux
  create_session false name working_dir t = (refused 401, t)
  create_session true none working_dir t = (refused 400, t)
  create_session true (some name) working_dir t =
      let command =
        codes "new-session" ∷ codes "-d" ∷ codes "-s" ∷ name ∷ codes "-c" ∷ working_dir ∷ [] in
      let outcome = tools.run command in
      let told = tell command t in
      if not (valid_name name)
      then (refused 400, t)
      else if not tools.available
      then (refused 503, t)
      else if has_failed outcome
      then (
        refused (if includes (codes "duplicate session") (output_of outcome) then 409 else 500),
        told,
      )
      else (
        accepted 201,
        record told { default_tmux = if text_eq t.default_tmux [] then name else t.default_tmux },
      )

  unfoldable pub attach_session : Bool → Text → Tmux → Reply × Tmux
  unfolding switch_tmux_target
  attach_session false name t = (refused 401, t)
  attach_session true name t =
      if not (valid_name name)
      then (refused 400, t)
      else if not tools.available
      then (refused 503, t)
      else settle_switch 409 (switch_tmux_target tools name none t)

  unfoldable pub select_window : Bool → Text → Text → Tmux → Reply × Tmux
  unfolding switch_tmux_target
  select_window false name raw t = (refused 401, t)
  select_window true name raw t =
      if not (valid_name name) || not (valid_index raw)
      then (refused 400, t)
      else settle_switch 404 (switch_tmux_target tools name (some (tools.number raw)) t)

  -- `detachTmuxSession` with a terminal, given its current target.
  abbrev pub detach_from : Option Target → PersistentSession → Tmux → Reply × Tmux
  detach_from none session t = (refused 409, t)
  detach_from (some current) session t =
      let after = type_line tools leave_line t in
      if tools.write_fails then (refused 500, after) else (
        accepted 200,
        record after { session = some (clear_tmux_target current.session session) },
      )

  abbrev pub detach_in : Option PersistentSession → Tmux → Reply × Tmux
  detach_in none t = (refused 409, t)
  detach_in (some session) t = detach_from session.tmux_target session t

  unfoldable pub detach_session : Bool → Tmux → Reply × Tmux
  detach_session false t = (refused 401, t)
  detach_session true t = detach_in t.session t

  -- The body's session, none where it does not decode.
  unfoldable pub set_default_target : Bool → Option Text → Tmux → Reply × Tmux
  set_default_target false input t = (refused 401, t)
  set_default_target true none t = (refused 400, t)
  set_default_target true (some name) t =
      let unset = text_eq name [] in
      if not unset && not (valid_name name)
      then (refused 400, t)
      else if not unset && has_failed (tools.run (codes "has-session" ∷ codes "-t" ∷ name ∷ []))
      then (refused 404, t)
      else (accepted 200, record t { default_tmux = name })

  abbrev has_session : Text → Bool
  has_session name = not (has_failed (tools.run (codes "has-session" ∷ codes "-t" ∷ name ∷ [])))

  unfoldable pub rename_session : Bool → Text → Option Text → Tmux → Reply × Tmux
  unfolding follow_rename
  rename_session false old_name input t = (refused 401, t)
  rename_session true old_name none t = (refused 400, t)
  rename_session true old_name (some name) t =
      let command = codes "rename-session" ∷ codes "-t" ∷ old_name ∷ name ∷ [] in
      let outcome = tools.run command in
      if not (valid_name old_name) || not (valid_name name)
      then (refused 400, t)
      else if text_eq name old_name
      then (accepted 200, t)
      else if not tools.available
      then (refused 503, t)
      else if not (has_session old_name)
      then (refused 404, t)
      else if has_session name
      then (refused 409, t)
      else if has_failed outcome
      then (
        refused (if includes (codes "duplicate session") (output_of outcome) then 409 else 500),
        tell command t,
      )
      else (accepted 200, follow_rename old_name name (tell command t))

  -- The terminal is told to leave the session that is about to end, whether the write fails or not.
  unfoldable pub leave_killed : Text → Option PersistentSession → Tmux → Tmux
  leave_killed name none t = t
  leave_killed name (some session) t =
      if names_session name session.tmux_target
      then record (type_line tools leave_line t) { session = some (clear_tmux_target name session) }
      else t

  unfoldable pub kill_session : Bool → Text → Tmux → Reply × Tmux
  unfolding leave_killed
  kill_session false name t = (refused 401, t)
  kill_session true name t =
      let command = codes "kill-session" ∷ codes "-t" ∷ name ∷ [] in
      let left = tell command (leave_killed name t.session t) in
      if not (valid_name name)
      then (refused 400, t)
      else if not tools.available
      then (refused 503, t)
      else if has_failed (tools.run command)
      then (refused 404, left)
      else (
        accepted 204,
        record left {
          default_tmux = if text_eq left.default_tmux name then [] else left.default_tmux;
        },
      )

-- A request that changes the state, with the world that it meets.
pub data Request : Type 0 where
  creates : Option Text → Text → Request
  attaches : Text → Request
  selects : Text → Text → Request
  detaches : Request
  defaults : Option Text → Request
  renames : Text → Option Text → Request
  kills : Text → Request

unfoldable pub answer : Tools → Bool → Request → Tmux → Reply × Tmux
answer tools logged_in (creates name working_dir) t =
    create_session tools logged_in name working_dir t
answer tools logged_in (attaches name) t = attach_session tools logged_in name t
answer tools logged_in (selects name raw) t = select_window tools logged_in name raw t
answer tools logged_in detaches t = detach_session tools logged_in t
answer tools logged_in (defaults name) t = set_default_target tools logged_in name t
answer tools logged_in (renames old_name name) t = rename_session tools logged_in old_name name t
answer tools logged_in (kills name) t = kill_session tools logged_in name t

unfoldable pub answer_all : List (Tools × Bool × Request) → Tmux → Tmux
answer_all [] t = t
answer_all ((tools, logged_in, r) ∷ rest) t = answer_all rest (answer tools logged_in r t).1
