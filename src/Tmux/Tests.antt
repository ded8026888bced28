-- ===== src/Tmux/Tests.antt =====
-- internal/server/tmux.go: the theorems on a concrete server.
use termdock.Base.{refl, ◌+◌, ◌%◌, Bool, true, false, List, [], ◌∷◌, none, some, arith}
use termdock.Base.Text.{Text, codes}
use termdock.Session.{new_persistent_session}
use termdock.Tmux.{Tools, Tmux, succeeds}
use termdock.Tmux.Routes.{Request, creates, attaches, selects, kills, answer_all}
use termdock.Tmux.Typing.{IsNamed, IsDecimal}
use termdock.Tmux.Safety.{answer_all-IsNamed}
use termdock.Base.{Perm, length, select}
use termdock.FileManager.{Locale, number_sign}
use termdock.FileManager.Order.{IsCollation}
use termdock.Tmux.Panel.{TmuxSession, Panel, detecting, matches, needle_of, render_sessions}
use termdock.Tmux.Order.{AreInPlace, by_name, descending, render_sessions-sorts}

-- Every command ends well, and a number is printed by its last digit.
abbrev willing : Tools
willing = record {
  available = true;
  run = λ arguments. succeeds [];
  write_fails = false;
  written = 0;
  number = λ raw. 3;
  digits = λ n. (48 + n % 10) ∷ [];
}

willing-IsDecimal : IsDecimal willing
willing-IsDecimal n = ground arith

abbrev started : Tmux
started = record {
  default_tmux = [];
  session = some (new_persistent_session 100);
  typed = [];
  commands = [];
}

abbrev work : List (Tools × Bool × Request)
work =
    (willing, true, creates (some (codes "work")) (codes "/"))
    ∷ (willing, true, attaches (codes "work"))
    ∷ (willing, true, attaches (codes "a;reboot"))
    ∷ (willing, true, selects (codes "work") (codes "3"))
    ∷ (willing, true, kills (codes "work"))
    ∷ []

answer_all-IsNamed_example : IsNamed (answer_all work started)
unfolding new_persistent_session
answer_all-IsNamed_example =
    answer_all-IsNamed work started
      (
        willing-IsDecimal,
        (willing-IsDecimal, (willing-IsDecimal, (willing-IsDecimal, (willing-IsDecimal, tt)))),
      )
      (refl, refl, tt)

-- Names are collated by their length, and every time is the same.
abbrev by_length : Locale
by_length = record {
  lower = λ text. text;
  collate = λ a b. number_sign (length a) (length b);
  date = λ text. some 0;
}

by_length-IsCollation : IsCollation by_length
by_length-IsCollation = record { flips = λ a b. ground arith; collates = λ a b c h k. ground arith }

abbrev listed : Text → TmuxSession
listed name = record {
  name = name;
  windows = 1;
  attached = false;
  created_at = [];
  last_activity = [];
}

abbrev dialog : Panel
dialog = record {
  is_open = true;
  tab_active = true;
  session_data = listed (codes "web") ∷ listed (codes "db") ∷ listed (codes "worker") ∷ [];
  current_target = none;
  cards = [];
  status = detecting;
  is_error = false;
  create_hidden = false;
  search_disabled = false;
  sort_disabled = false;
  hint = [];
  hint_hidden = true;
  search = codes " w";
  sort = codes "name:desc";
  new_name = [];
}

render_sessions-sorts_example :
    Perm
      (render_sessions by_length dialog).cards
      (select (matches by_length (needle_of by_length dialog)) dialog.session_data)
    × AreInPlace by_length by_name descending (render_sessions by_length dialog).cards
render_sessions-sorts_example =
    render_sessions-sorts by_length by_name descending dialog by_length-IsCollation refl
      (λ h. ground arith, (λ h. ground arith, (λ h. ground arith, tt)))
