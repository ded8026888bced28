-- ===== src/Tmux/Panel.antt =====
-- internal/app/static/app.js: the page's tmux dialog, with its list of sessions and its buttons.
use termdock.Base.{
  ℕ, Bool, true, false, List, [], ◌∷◌, Option, none, some, if◌then◌else◌, length, select,
}
use termdock.Base.Text.{Text, text_eq, codes, includes, split, trim}
use termdock.Session.{Target}
use termdock.FileManager.{Locale, Sign, flip, number_sign, date_sign, first_part, second_part}
use termdock.FileManager.Sorting.{sort_rows}

pub record TmuxSession : Type 0 where
  pub name : Text
  pub windows : ℕ
  pub attached : Bool
  pub created_at : Text
  pub last_activity : Text

-- The texts of the status line.
pub data Status : Type 0 where
  detecting : Status
  not_installed : List Text → Status
  current : Target → Status
  unconnected : Status
  empty : Status
  no_match : Status
  showing : ℕ → ℕ → Status
  said : Text → Status

pub record Panel : Type 0 where
  pub is_open : Bool
  pub tab_active : Bool
  -- `tmuxSessionData` and `tmuxCurrentTarget`
  pub session_data : List TmuxSession
  pub current_target : Option Target
  pub cards : List TmuxSession
  pub status : Status
  pub is_error : Bool
  pub create_hidden : Bool
  pub search_disabled : Bool
  pub sort_disabled : Bool
  pub hint : Text
  pub hint_hidden : Bool
  pub search : Text
  pub sort : Text
  pub new_name : Text

-- What `tmuxRequest` gives: a response, or the message of its error.
abbrev pub error_message : Text → Text → Text
error_message body fallback = if text_eq (trim body) [] then fallback else trim body

-- The list of sessions as the server answers it: an error's message, no tmux with the help it
-- offers, or the sessions with the current target and the hint.
pub data Listing : Type 0 where
  unread : Text → Listing
  absent : Option (List Text) → Listing
  present : List TmuxSession → Option Target → Text → Listing

abbrev pub help_of : Option (List Text) → List Text
help_of none = codes "服务器未安装 tmux，无法使用会话管理" ∷ []
help_of (some help) = help

abbrev pub target_status : Option Target → Status
target_status none = unconnected
target_status (some target) = current target

abbrev pub list_status : List TmuxSession → List TmuxSession → Status
list_status [] [] = empty
list_status [] (_ ∷ _) = no_match
list_status (card ∷ cards) all = showing (length (card ∷ cards)) (length all)

module _ (locale : Locale) where
  abbrev pub needle_of : Panel → Text
  needle_of p = locale.lower (trim p.search)

  abbrev pub matches : Text → TmuxSession → Bool
  matches needle session = includes needle (locale.lower session.name)

  unfoldable pub value_sign : Text → TmuxSession → TmuxSession → Sign
  value_sign field left right =
      if text_eq field (codes "created")
      then date_sign (locale.date left.created_at) (locale.date right.created_at)
      else if text_eq field (codes "windows")
      then number_sign left.windows right.windows
      else locale.collate left.name right.name

  unfoldable pub compare_sessions : Text → Text → TmuxSession → TmuxSession → Sign
  unfolding value_sign
  compare_sessions field direction left right =
      let result = value_sign field left right in
      if text_eq direction (codes "desc") then flip result else result

  abbrev pub order_of : Panel → TmuxSession → TmuxSession → Sign
  order_of p = compare_sessions (first_part (split b':' p.sort)) (second_part (split b':' p.sort))

  -- `renderTmuxSessions`
  unfoldable pub render_sessions : Panel → Panel
  render_sessions p =
      let shown = sort_rows (order_of p) (select (matches (needle_of p)) p.session_data) in
      record p { cards = shown; status = list_status shown p.session_data }

  -- `loadTmuxSessions` up to its request.
  unfoldable pub begin_load : Panel → Panel
  begin_load p = record p { cards = []; status = detecting; is_error = false }

  -- `loadTmuxSessions` from the answer on.
  unfoldable pub finish_load : Listing → Panel → Panel
  unfolding render_sessions
  finish_load (unread message) p = record p { status = said message; is_error = true }
  finish_load (absent help) p = record p {
    session_data = [];
    status = not_installed (help_of help);
    create_hidden = true;
    search_disabled = true;
    sort_disabled = true;
    hint_hidden = true;
  }
  finish_load (present sessions target hint) p = render_sessions (record p {
    session_data = sessions;
    current_target = target;
    status = target_status target;
    create_hidden = false;
    search_disabled = false;
    sort_disabled = false;
    hint = hint;
    hint_hidden = text_eq hint [];
  })

  -- The fields "tmux-search" and "tmux-sort".
  unfoldable pub on_search : Text → Panel → Panel
  on_search text p = render_sessions (record p { search = text })

  unfoldable pub on_sort : Text → Panel → Panel
  on_sort text p = render_sessions (record p { sort = text })

-- `closeTmux`, which also a click on the backdrop and the close button call; closing the dialog by
-- any other way makes the tab inactive too.
unfoldable pub close_tmux : Panel → Panel
close_tmux p = record p { is_open = false; tab_active = false }

-- The click on the tab: does it load the sessions?
unfoldable pub on_tab : Panel → Bool × Panel
unfolding close_tmux
on_tab p =
    if p.is_open
    then (false, close_tmux p)
    else (true, record p { is_open = true; tab_active = true })

-- What the buttons ask of the server.
pub data Wish : Type 0 where
  wants_detach : Wish
  wants_attach : Text → Wish
  wants_rename : Text → Text → Wish
  wants_delete : Text → Wish
  wants_create : Text → Wish

abbrev pub is_session : Text → Option Target → Bool
is_session name none = false
is_session name (some target) = text_eq target.session name

-- The card's first button leaves the session that was the current one when the card was made.
unfoldable pub on_connect : TmuxSession → Option Target → Wish
on_connect card target =
    if is_session card.name target then wants_detach else wants_attach card.name

-- Given the prompt's answer, `none` where it is cancelled.
unfoldable pub on_rename : TmuxSession → Option Text → Option Wish
on_rename card none = none
on_rename card (some name) =
    if text_eq (trim name) card.name then none else some (wants_rename card.name (trim name))

unfoldable pub on_delete : TmuxSession → Bool → Option Wish
on_delete card confirmed = if confirmed then some (wants_delete card.name) else none

-- The submitted form, up to its request.
unfoldable pub on_create : Panel → Wish × Panel
on_create p = (wants_create (trim p.new_name), record p { is_error = false })

-- What follows the answer to a wish, `some` message of an error: are the sessions loaded again?
unfoldable pub settle_wish : Wish → Option Text → Panel → Bool × Panel
unfolding close_tmux
settle_wish wish (some message) p = (false, record p { status = said message; is_error = true })
settle_wish wants_detach none p = (true, record p { current_target = none })
settle_wish (wants_attach _) none p = (false, close_tmux p)
settle_wish (wants_rename _ _) none p = (true, p)
settle_wish (wants_delete _) none p = (true, p)
settle_wish (wants_create _) none p = (true, record p { new_name = [] })
