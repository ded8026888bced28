-- ===== src/FileManager/Pasting.antt =====
-- internal/app/static/file-manager.js: `operation` and `pasteClipboard`, in the parts between which
-- other handlers of the page may run.
use termdock.Base.{
  ◌≡◌, refl, ap, ◌∙◌, ◌⊎◌, inl, inr, is_some, ◌||◌, Bool, true, false, List, [], ◌∷◌, Option, none,
  some, map, arith, if◌then◌else◌,
}
use termdock.Base.Text.{Text}
use termdock.FileManager.{
  Entry, Manager, Locale, Mode, copy, move, Clipboard, path_of, update_selection,
}
use termdock.FileManager.Menu.{Payload, transfer_files, transfer_to, set_clipboard, paste_clipboard}
use termdock.FileManager.Listing.{
  Answer, refused, listed, load_files, load_and_enhance, new_row, needs_enhancement, on_mutations,
}
use termdock.FileManager.View.{enhance_rows, apply_view}

-- Before the request.
unfoldable pub begin_operation : Manager → Manager
begin_operation m = record m { file_error = [] }

-- The server's reply: none for 2xx, the text of a refusal otherwise. The answer is the listing that
-- an accepted operation loads.
unfoldable pub end_operation : Locale → Option Text → Answer → Manager → Manager × Bool
end_operation locale none answer m = (load_and_enhance locale answer m, true)
end_operation locale (some text) answer m = (record m { file_error = text }, false)

abbrev pub after_move : Option Clipboard → Option Clipboard
after_move none = none
after_move (some c) = elim c.mode [ copy ↦ some c | move ↦ none ]

-- What `pasteClipboard` does once its operation has ended: it reads the clipboard again. Where that
-- is null by then, reading its mode throws, and nothing follows.
unfoldable pub end_paste : Manager × Bool → Manager
end_paste (m, true) = record m { clipboard = after_move m.clipboard }
end_paste (m, false) = m

abbrev continue_paste : Option Payload → Locale → Option Text → Answer → Manager → Manager
continue_paste none locale reply answer m = m
continue_paste (some payload) locale reply answer m =
    end_paste (end_operation locale reply answer (begin_operation m))

-- A whole paste during which no other handler runs.
unfoldable pub paste_alone : Locale → Option Text → Answer → Manager → Option Payload × Manager
paste_alone locale reply answer m =
    (paste_clipboard m, continue_paste (paste_clipboard m) locale reply answer m)

if_clipboard :
    (test : Bool) (locale : Locale) (m : Manager)
    → (if test then enhance_rows locale m else m).clipboard ≡ m.clipboard
unfolding enhance_rows apply_view update_selection
if_clipboard true locale m = refl
if_clipboard false locale m = refl

load_and_enhance-clipboard :
    (locale : Locale) (answer : Answer) (m : Manager)
    → (load_and_enhance locale answer m).clipboard ≡ m.clipboard
unfolding load_and_enhance on_mutations load_files
load_and_enhance-clipboard locale (refused text) m = refl
load_and_enhance-clipboard locale (listed path parent entries) m =
    if_clipboard (needs_enhancement (map new_row entries)) locale
      (load_files (listed path parent entries) m)

abbrev is_copy : Mode → Bool
is_copy copy = true
is_copy move = false

paste_clipboard-some :
    (c : Clipboard) (m : Manager)
    → m.clipboard ≡ some c
    → paste_clipboard m ≡ some (transfer_files c.mode c.paths m.current_path)
unfolding paste_clipboard
paste_clipboard-some c m e = ap (transfer_to m.current_path) e

paste_clipboard-none : (m : Manager) → m.clipboard ≡ none → paste_clipboard m ≡ none
unfolding paste_clipboard
paste_clipboard-none m e = ap (transfer_to m.current_path) e

-- What the next paste asks for, after one that the server accepted.
paste-after_move :
    (c : Clipboard) (how : Mode) (m : Manager)
    → c.mode ≡ how
    → m.clipboard ≡ after_move (some c)
    → paste_clipboard m
      ≡ (if is_copy how then some (transfer_files c.mode c.paths m.current_path) else none)
paste-after_move c copy m k e = paste_clipboard-some c m (ground arith)
paste-after_move c move m k e = paste_clipboard-none m (ground arith)

-- A paste with no other handler in between asks the server once, for the clipboard's paths and
-- mode. A move that the server accepts empties the clipboard, so that a further paste asks for
-- nothing; after an accepted copy, and after a refused operation, a further paste asks for the same
-- paths, for the directory that is shown then. A refusal keeps the rows and shows the server's text.
pub paste_alone-outcome :
    (locale : Locale) (reply : Option Text) (answer : Answer) (c : Clipboard) (m : Manager)
    → m.clipboard ≡ some c
    → let (request, after) = paste_alone locale reply answer m in
      (request ≡ some (transfer_files c.mode c.paths m.current_path))
      × (paste_clipboard after ≡ (
          if is_some reply || is_copy c.mode
          then some (transfer_files c.mode c.paths after.current_path)
          else none))
      × ((reply ≡ none) ⊎ ((after.rows ≡ m.rows) × (reply ≡ some after.file_error)))
unfolding paste_alone end_paste end_operation begin_operation
paste_alone-outcome locale none answer c m e =
    let request = paste_clipboard-some c m e in
    let loaded = load_and_enhance locale answer (begin_operation m) in
    rw request (
      refl,
      paste-after_move c c.mode (record loaded { clipboard = after_move loaded.clipboard }) refl
          (ap after_move (load_and_enhance-clipboard locale answer (begin_operation m) ∙ e)),
      inl refl,
    )
paste_alone-outcome locale (some text) answer c m e =
    rw (paste_clipboard-some c m e)
      (refl, paste_clipboard-some c (record m { file_error = text }) e, inr (refl, refl))

-- A cut that the user makes while a paste is under way is forgotten when the operation of that
-- paste has been accepted: the clipboard is empty then, and pasting asks for nothing.
pub cut_during_paste-lost :
    (locale : Locale) (answer : Answer) (entry : Entry) (entries : List Entry) (m : Manager)
    → let cut_meanwhile = set_clipboard (entry ∷ entries) move (begin_operation m) in
      (paste_clipboard cut_meanwhile
        ≡ some (transfer_files move (map path_of (entry ∷ entries)) m.current_path))
      × (paste_clipboard (end_paste (end_operation locale none answer cut_meanwhile)) ≡ none)
unfolding paste_clipboard end_paste end_operation begin_operation set_clipboard
cut_during_paste-lost locale answer entry entries m = (
  refl,
  ground (
    arith,
    load_and_enhance-clipboard locale answer
        (set_clipboard (entry ∷ entries) move (begin_operation m)),
  ),
)
