-- ===== src/FileManager/Loading.antt =====
-- internal/app/static/app.js, `loadFiles`, and the listeners of internal/app/static/file-manager.js: the
-- listing that is shown while loads overtake each other.
use termdock.Base.{
  ℕ, zero, suc, ◌≡◌, refl, ap, ◌∙◌, Bool, true, false, not, ◌&&◌, List, [], ◌∷◌, map, Perm,
  Bool-cases, Option-cases, inl, inr,
}
use termdock.Base.Text.{Text}
use termdock.FileManager.{Entry, Row, Manager, Locale, entry_of, update_selection, compare_rows}
use termdock.FileManager.Sorting.{sort_rows, sort_rows-perm}
use termdock.FileManager.View.{
  apply_view, enhance_row, enhance_rows, on_search, on_sort, on_select_all, check_row, toggle_at,
  on_toggle, query_of, field_of, direction_of,
}
use termdock.FileManager.Menu.{
  Dismissal, pressed, key_pressed, blurred, resized, on_dismissal, hide_context_menu,
}
use termdock.FileManager.Order.{map-entry_of-filter}
use termdock.FileManager.Listing.{
  Answer, refused, listed, new_row, begin_load, finish_load, needs_enhancement, on_mutations,
  arrive,
}
use mathlib.Core.List.Perm

-- The answers arrive in any order, whatever the order of the requests.
pub data Event : Type 0 where
  asks : Event
  answered : Answer → Event
  searches : Text → Event
  sorts : Text → Event
  toggles : ℕ → Event
  checks_all : Bool → Event
  dismisses : Dismissal → Event

pub record Listing : Type 0 where
  pub path : Text
  pub parent : Text
  pub entries : List Entry

-- The page shows the directory, its way up and the entries of one answer, in some order.
abbrev pub Shows : Listing → Manager → Type 0
Shows listing m =
    (m.current_path ≡ listing.path)
    × (m.parent_path ≡ listing.parent)
    × Perm (map entry_of m.rows) listing.entries

-- The listing of the last answer that was not refused, as far as there is one.
abbrev pub last_listed : Listing → List Event → Listing
last_listed listing [] = listing
last_listed listing (asks ∷ events) = last_listed listing events
last_listed listing (answered (refused text) ∷ events) = last_listed listing events
last_listed listing (answered (listed path parent entries) ∷ events) =
    last_listed (record { path = path; parent = parent; entries = entries }) events
last_listed listing (searches text ∷ events) = last_listed listing events
last_listed listing (sorts value ∷ events) = last_listed listing events
last_listed listing (toggles i ∷ events) = last_listed listing events
last_listed listing (checks_all checked ∷ events) = last_listed listing events
last_listed listing (dismisses how ∷ events) = last_listed listing events

entries-new_row : (entries : List Entry) → map entry_of (map new_row entries) ≡ entries
entries-new_row [] = refl
entries-new_row (entry ∷ entries) = ap (λ (es : List Entry). entry ∷ es) (entries-new_row entries)

entries-map :
    (change : Row → Row) (rows : List Row)
    → ((row : Row) → entry_of (change row) ≡ entry_of row)
    → map entry_of (map change rows) ≡ map entry_of rows
entries-map change [] h = refl
entries-map change (row ∷ rows) h =
    ap (λ (e : Entry). e ∷ map entry_of (map change rows)) (h row)
    ∙ ap (λ (es : List Entry). entry_of row ∷ es) (entries-map change rows h)

entry-enhance_row : (row : Row) → entry_of (enhance_row row) ≡ entry_of row
entry-enhance_row row = elim (Option-cases row.checkbox) [
  | inl e ↦ rw e refl
  | inr (c, e) ↦ rw e refl
]

entry-check_row : (checked : Bool) (row : Row) → entry_of (check_row checked row) ≡ entry_of row
entry-check_row checked row = elim (Option-cases row.checkbox) [
  | inl e ↦ rw e refl
  | inr (c, e) ↦ elim (Bool-cases row.hidden) [
    | inl h ↦ rw e (rw h refl)
    | inr h ↦ rw e (rw h refl)
  ]
]

entries-toggle_at : (i : ℕ) (rows : List Row) → map entry_of (toggle_at i rows) ≡ map entry_of rows
entries-toggle_at i [] = refl
entries-toggle_at zero (row ∷ rows) = elim (Option-cases row.checkbox) [
  | inl e ↦ rw e refl
  | inr (c, e) ↦ rw e refl
]
entries-toggle_at (suc i) (row ∷ rows) =
    ap (λ (es : List Entry). entry_of row ∷ es) (entries-toggle_at i rows)

module _ (locale : Locale) where
  unfoldable pub change : Event → Manager → Manager
  unfolding arrive on_search on_sort on_toggle on_select_all on_dismissal
  change asks m = begin_load m
  change (answered answer) m = arrive locale answer m
  change (searches text) m = on_search locale text m
  change (sorts value) m = on_sort locale value m
  change (toggles i) m = on_toggle i m
  change (checks_all checked) m = on_select_all checked m
  change (dismisses how) m = on_dismissal how m

  unfoldable pub change_all : List Event → Manager → Manager
  unfolding change
  change_all [] m = m
  change_all (event ∷ events) m = change_all events (change event m)

  apply_view-Shows :
      (listing : Listing) (m : Manager) → Shows listing m → Shows listing (apply_view locale m)
  unfolding apply_view update_selection
  apply_view-Shows listing m (p, q, h) =
      let order = compare_rows locale (field_of m) (direction_of m) in
      (
        p,
        q,
        rw (map-entry_of-filter locale (query_of locale m) (sort_rows order m.rows))
            (Perm.trans (Perm.map entry_of (sort_rows-perm order m.rows)) h),
      )

  on_mutations-Shows :
      (listing : Listing) (m : Manager) → Shows listing m → Shows listing (on_mutations locale m)
  unfolding on_mutations enhance_rows
  on_mutations-Shows listing m (p, q, h) = elim (Bool-cases (needs_enhancement m.rows)) [
    | inl e ↦ rw e (
        apply_view-Shows listing (record m { rows = map enhance_row m.rows })
          (p, q, rw (entries-map enhance_row m.rows entry-enhance_row) h))
    | inr e ↦ rw e (p, q, h)
  ]

  on_dismissal-Shows :
      (listing : Listing) (how : Dismissal) (m : Manager)
      → Shows listing m
      → Shows listing (on_dismissal how m)
  unfolding on_dismissal hide_context_menu
  on_dismissal-Shows listing (pressed is_inside) m h =
      elim (Bool-cases (not m.menu_hidden && not is_inside)) [ inl e ↦ rw e h | inr e ↦ rw e h ]
  on_dismissal-Shows listing (key_pressed true) m h = h
  on_dismissal-Shows listing (key_pressed false) m h = h
  on_dismissal-Shows listing blurred m h = h
  on_dismissal-Shows listing resized m h = h

  change-Shows :
      (listing : Listing) (event : Event) (events : List Event) (m : Manager)
      → Shows listing m
      → ((next : Listing)
          → Shows next (change event m)
          → Shows (last_listed next events) (change_all events (change event m)))
      → Shows (last_listed listing (event ∷ events)) (change_all events (change event m))
  unfolding change arrive on_search on_sort on_toggle on_select_all update_selection
  change-Shows listing asks events m h later = later listing h
  change-Shows listing (answered (refused text)) events m h later = later listing h
  change-Shows listing (answered (listed path parent entries)) events m h later =
      let next : Listing = record { path = path; parent = parent; entries = entries } in
      later next (
        on_mutations-Shows next (finish_load (listed path parent entries) m)
          (refl, refl, rw (entries-new_row entries) (Perm.refl entries)))
  change-Shows listing (searches text) events m h later =
      later listing (apply_view-Shows listing (record m { search = text }) h)
  change-Shows listing (sorts value) events m h later =
      later listing (apply_view-Shows listing (record m { sort = value }) h)
  change-Shows listing (toggles i) events m (p, q, h) later =
      later listing (p, q, rw (entries-toggle_at i m.rows) h)
  change-Shows listing (checks_all checked) events m (p, q, h) later =
      later listing (p, q, rw (entries-map (check_row checked) m.rows (entry-check_row checked)) h)
  change-Shows listing (dismisses how) events m h later =
      later listing (on_dismissal-Shows listing how m h)

-- If the page shows a listing, then after any loads, whose answers come in any order, searches,
-- changes of the order and of the checkboxes and closings of the menu it shows the one of the last answer that was not
-- refused, or else the one before: its directory, its way up and its entries, in some order. This is
-- the last answer to come, not the answer to the last request.
pub change_all-Shows :
    (locale : Locale) (listing : Listing) (events : List Event) (m : Manager)
    → Shows listing m
    → Shows (last_listed listing events) (change_all locale events m)
unfolding change_all
change_all-Shows locale listing [] m h = h
change_all-Shows locale listing (event ∷ events) m h =
    change-Shows locale listing event events m h
      (λ next k. change_all-Shows locale next events (change locale event m) k)
