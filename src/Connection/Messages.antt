-- ===== src/Connection/Messages.antt =====
-- internal/app/static/app.js: what the page sends over the socket.
use mathlib.Core.List.{append-nil, append_assoc}
use termdock.Base.{
  ◌≤◌, ◌<◌, sym, ap, ℕ, zero, suc, ◌≡◌, refl, inl, inr, false, ◌&&◌, ◌∙◌, List, [], ◌∷◌, ◌++◌,
  Option, some, arith, ◌==◌, Bool-cases, if◌then◌else◌, length-take, length-drop, take-append-drop,
  All, take, drop, length, get_elem?,
}
use termdock.Connection.{
  ReadyState, Status, open_state, Page, state_of, cancel_reconnect, resize_terminal, run_frame,
  on_open, on_data, send, send_all, Message, chunks, input_chunk_size, is_open,
}

module _ {ℓ} {A : Type ℓ} where
  flatten : List (List A) → List A
  flatten [] = []
  flatten (part ∷ parts) = part ++ flatten parts

flatten-chunks :
    (fuel size : ℕ) (bytes : List ℕ)
    → 0 < size
    → length bytes ≤ fuel
    → flatten (chunks fuel size bytes) ≡ bytes
unfolding flatten chunks
flatten-chunks fuel size [] h l = refl
flatten-chunks zero size (b ∷ bs) h l = elim l [ ]
flatten-chunks (suc fuel) size (b ∷ bs) h l =
    ap (λ rest. take size (b ∷ bs) ++ rest)
      (flatten-chunks fuel size (drop size (b ∷ bs)) h (omega (arith, length-drop size (b ∷ bs))))
    ∙ take-append-drop size (b ∷ bs)

-- No message is empty or longer than `size`.
abbrev pub IsSmall : ℕ → List ℕ → Type 0
IsSmall size part = (0 < length part) × (length part ≤ size)

chunks-IsSmall :
    (fuel size : ℕ) (bytes : List ℕ)
    → 0 < size
    → length bytes ≤ fuel
    → All (IsSmall size) (chunks fuel size bytes)
unfolding chunks
chunks-IsSmall fuel size [] h l = tt
chunks-IsSmall zero size (b ∷ bs) h l = elim l [ ]
chunks-IsSmall (suc fuel) size (b ∷ bs) h l = (
  (omega (arith, length-take size (b ∷ bs)), omega (arith, length-take size (b ∷ bs))),
  chunks-IsSmall fuel size (drop size (b ∷ bs)) h (omega (arith, length-drop size (b ∷ bs))),
)

-- The input that socket `i` took, in the order of sending.
abbrev pub input_of : ℕ → List (ℕ × Message) → List ℕ
input_of i [] = []
input_of i ((j, Message.input part) ∷ older) =
    if i == j then input_of i older ++ part else input_of i older
input_of i ((j, Message.resize _ _) ∷ older) = input_of i older

-- Every input message on socket `i` is small.
abbrev pub SmallInputs : ℕ → List (ℕ × Message) → Type 0
SmallInputs size [] = Unit
SmallInputs size ((j, Message.input part) ∷ older) = IsSmall size part × SmallInputs size older
SmallInputs size ((j, Message.resize _ _) ∷ older) = SmallInputs size older

send_sent :
    (i : ℕ) (part : List ℕ) (p : Page)
    → p.socket ≡ some i
    → (send (Message.input part) p).sent ≡ (i, Message.input part) ∷ p.sent
send_sent i part p e = ground arith

send_socket :
    (i : ℕ) (part : List ℕ) (p : Page)
    → p.socket ≡ some i
    → (send (Message.input part) p).socket ≡ some i
send_socket i part p e = ground arith

send_all_lem :
    (i size : ℕ) (parts : List (List ℕ)) (p : Page)
    → p.socket ≡ some i
    → All (IsSmall size) parts
    → SmallInputs size p.sent
    → (input_of i (send_all parts p).sent ≡ input_of i p.sent ++ flatten parts)
      × SmallInputs size (send_all parts p).sent
unfolding flatten
send_all_lem i size [] p e a h = (sym (append-nil (input_of i p.sent)), h)
send_all_lem i size (part ∷ parts) p e (a, more) h =
    let now = send_sent i part p e in
    let (whole, small) =
      send_all_lem i size parts (send (Message.input part) p) (send_socket i part p e) more
        (rw now (a, h)) in
    (
      whole
          ∙ ap (λ l. input_of i l ++ flatten parts) now
          ∙ ground (arith, append_assoc (input_of i p.sent) part (flatten parts)),
      small,
    )

open_sends :
    (i : ℕ) (bytes : List ℕ) (p : Page)
    → p.socket ≡ some i
    → get_elem? p.sockets i ≡ some open_state
    → on_data bytes p ≡ send_all (chunks (length bytes) input_chunk_size bytes) p
unfolding on_data
open_sends i bytes p e o = elim (Bool-cases (is_open (state_of p.socket p.sockets))) [
  | inl yes_open ↦ simp yes_open
  | inr not_open ↦ absurd (closed_contradiction i p.socket p.sockets e o not_open)
]
  where
    closed_contradiction :
        (i : ℕ) (socket : Option ℕ) (xs : List ReadyState)
        → socket ≡ some i
        → get_elem? xs i ≡ some open_state
        → is_open (state_of socket xs) ≡ false
        → ⊥
    closed_contradiction i socket xs e o n = ground arith

-- What the user types goes out on the open socket whole and in order, in messages of at most
-- 32 KiB.
pub on_data-delivers :
    (i : ℕ) (bytes : List ℕ) (p : Page)
    → p.socket ≡ some i
    → get_elem? p.sockets i ≡ some open_state
    → SmallInputs input_chunk_size p.sent
    → (input_of i (on_data bytes p).sent ≡ input_of i p.sent ++ bytes)
      × SmallInputs input_chunk_size (on_data bytes p).sent
on_data-delivers i bytes p e o h =
    let small = chunks-IsSmall (length bytes) input_chunk_size bytes (omega arith) (omega arith) in
    let whole = flatten-chunks (length bytes) input_chunk_size bytes (omega arith) (omega arith) in
    let (same, fits) =
      send_all_lem i input_chunk_size (chunks (length bytes) input_chunk_size bytes) p e small h in
    rw (open_sends i bytes p e o) (same ∙ ap (λ l. input_of i p.sent ++ l) whole, fits)

-- With the socket open and the terminal shown, a frame leaves the size that was last sent equal to
-- the fitted one, and sends it on the current socket exactly where it differs.
pub run_frame_synchronises :
    (i cols rows : ℕ) (p : Page)
    → p.socket ≡ some i
    → get_elem? p.sockets i ≡ some open_state
    → p.terminal_hidden ≡ false
    → let q = run_frame (some (cols, rows)) p in
      (q.last_cols ≡ cols)
      × (q.last_rows ≡ rows)
      × (q.sent ≡ (
          if (cols == p.last_cols) && (rows == p.last_rows)
          then p.sent
          else (i, Message.resize cols rows) ∷ p.sent))
unfolding run_frame
run_frame_synchronises i cols rows p e o t = ground arith

-- A socket that has just opened is not told the size where the terminal kept the size that an
-- earlier socket was told: the server's terminal keeps whatever size it has.
pub reopened-size_unsent :
    (i : ℕ) (p : Page)
    → p.socket ≡ some i
    → let q = run_frame (some (p.last_cols, p.last_rows)) (on_open i p) in
      (q.socket ≡ some i) × (q.status ≡ Status.is_connected) × (q.sent ≡ p.sent)
unfolding run_frame on_open resize_terminal cancel_reconnect
reopened-size_unsent i p e = ground arith
