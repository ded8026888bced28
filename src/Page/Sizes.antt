-- ===== src/Page/Sizes.antt =====
-- internal/app/static/app.js: the files panel's attributes, and the texts of `size` and of an upload.
use native.Mathlib.Nat.{le-div_iff_mul-le, div-mul-le_self}
use termdock.Base.{
  ℕ, ◌+◌, ◌*◌, ◌/◌, ◌≤◌, ◌<◌, ◌≡◌, refl, true, false, not, List, [], ◌∷◌, arith, ltb, ◌==◌,
  Bool-cases, inl, inr, ltb→lt, if◌then◌else◌,
}
use termdock.Page.{
  FilesPanel, Event, tab_clicked, close_clicked, backdrop_clicked, key_pressed, refresh_clicked,
  parent_clicked, open_clicked, path_key_pressed, path_typed, answered, set_files_panel_open, go_to,
  handle, handle_all, Size, whole, scaled, size, tenths, upload_percent,
}

-- The panel, the workspace, the tab and the backdrop say the same about whether the panel is open.
abbrev pub Agrees : FilesPanel → Type 0
Agrees p =
    (p.workspace_collapsed ≡ p.collapsed)
    × (p.tab_active ≡ not p.collapsed)
    × (p.tab_expanded ≡ not p.collapsed)
    × (p.panel_hidden ≡ p.collapsed)
    × (p.backdrop_hidden ≡ p.collapsed)

handle-Agrees : (e : Event) (p : FilesPanel) → Agrees p → Agrees (handle e p).1
unfolding handle set_files_panel_open go_to
handle-Agrees tab_clicked p h = ground arith
handle-Agrees close_clicked p h = ground arith
handle-Agrees backdrop_clicked p h = ground arith
handle-Agrees (key_pressed escape dialog_open) p h = ground arith
handle-Agrees refresh_clicked p h = h
handle-Agrees parent_clicked p h = h
handle-Agrees open_clicked p h = h
handle-Agrees (path_key_pressed true) p h = h
handle-Agrees (path_key_pressed false) p h = h
handle-Agrees (path_typed text) p h = h
handle-Agrees (answered path parent) p h = h

-- After any clicks, keys and answers the panel, the workspace, the tab and the backdrop agree on
-- whether the files panel is open.
pub handle_all-Agrees : (es : List Event) (p : FilesPanel) → Agrees p → Agrees (handle_all es p)
unfolding handle_all
handle_all-Agrees [] p h = h
handle_all-Agrees (e ∷ es) p h = handle_all-Agrees es (handle e p).1 (handle-Agrees e p h)

not-ltb : (a b : ℕ) → ltb a b ≡ false → b ≤ a
not-ltb a b h = ground arith

-- The number is the value, or at most half of a tenth of its unit away from it, for a unit that the
-- value fills.
abbrev pub IsNear : ℕ → Size → Type 0
IsNear value (whole n) = (n ≡ value) × (value < 1024)
IsNear value (scaled unit t) =
    (unit ≤ value) × (20 * value ≤ 2 * t * unit + unit) × (2 * t * unit ≤ 20 * value + unit)

-- The size that a file's row or an upload shows is the file's size, exactly below 1024 bytes and else
-- rounded to a tenth of a unit, of KB, MB and GB, that it fills.
pub size-IsNear : (value : ℕ) → IsNear value (size value)
unfolding size
size-IsNear value = elim (Bool-cases (ltb value 1024)) [
  | inl small ↦ rw small (refl, ltb→lt value 1024 small)
  | inr large ↦ rw large (by_unit (not-ltb value 1024 large))
]
  where
    by_unit :
        1024 ≤ value
        → IsNear value (
            if ltb value 1048576
            then scaled 1024 (tenths value 1024)
            else if ltb value 1073741824
            then scaled 1048576 (tenths value 1048576)
            else scaled 1073741824 (tenths value 1073741824))
    by_unit h = elim (Bool-cases (ltb value 1048576)) [
      | inl e ↦ rw e (h, omega arith, omega arith)
      | inr e ↦ rw e (elim (Bool-cases (ltb value 1073741824)) [
        | inl f ↦ rw f (not-ltb value 1048576 e, omega arith, omega arith)
        | inr f ↦ rw f (not-ltb value 1073741824 f, omega arith, omega arith)
      ])
    ]

positive : (total : ℕ) → 0 < total → (total == 0) ≡ false
positive total h = ground arith

share-grows :
    (loaded more total : ℕ)
    → loaded ≤ more
    → 0 < total
    → (200 * loaded + total) / (2 * total) ≤ (200 * more + total) / (2 * total)
share-grows loaded more total h k =
    (le-div_iff_mul-le {k = 2 * total} (omega arith)).1
      (omega (arith, div-mul-le_self (200 * loaded + total) (2 * total)))

full_share : (total : ℕ) → 0 < total → 100 ≤ (200 * total + total) / (2 * total)
full_share total k = (le-div_iff_mul-le {k = 2 * total} (omega arith)).1 (omega arith)

-- The percentage of an upload that is not empty never falls as more is loaded, is at most 100, and
-- is 100 once everything is loaded.
pub upload_percent-grows :
    (loaded more total : ℕ)
    → loaded ≤ more
    → 0 < total
    → (upload_percent loaded total ≤ upload_percent more total)
      × (upload_percent more total ≤ 100)
      × (upload_percent total total ≡ 100)
unfolding upload_percent
upload_percent-grows loaded more total h k = rw (positive total k) (
  omega (arith, share-grows loaded more total h k),
  omega arith,
  omega (arith, full_share total k),
)
