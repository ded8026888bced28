-- ===== src/Upload/Slices.antt =====
-- The bytes of a file by chunks: `file.slice(begin, end)` of the page (internal/app/static/app.js),
-- the write at an offset of the server, and how the two fit.
use native.Mathlib.Nat.{lt-div-mul-add, mul-le-mul_right}
use termdock.Base.{
  ℕ, ◌+◌, ◌-◌, ◌*◌, ◌≤◌, ◌<◌, ◌≡◌, ◌∙◌, List, ◌++◌, arith, ltb, if◌then◌else◌, length, take, drop,
  get_elem?, length-append, length-take, length-drop, get_elem?-append, get_elem?-take,
  get_elem?-drop,
}
use termdock.Upload.{chunks_needed}
use termdock.Upload.Handlers.{write_at}

-- `file.slice(begin, end)`.
abbrev pub slice : List ℕ → ℕ → ℕ → List ℕ
slice bytes begin end = take (end - begin) (drop begin bytes)

module _ (bytes content : List ℕ) (offset : ℕ) (fits : offset + length bytes ≤ length content) where
  pub length-write_at : length (write_at offset bytes content) ≡ length content
  unfolding write_at
  length-write_at = omega (
    arith,
    length-append (take offset content) (bytes ++ drop (offset + length bytes) content),
    length-append bytes (drop (offset + length bytes) content),
    length-take offset content,
    length-drop (offset + length bytes) content,
  )

  pub get_elem?-write_at :
      (p : ℕ)
      → get_elem? (write_at offset bytes content) p ≡ (
          if ltb p offset
          then get_elem? content p
          else if ltb p (offset + length bytes)
          then get_elem? bytes (p - offset)
          else get_elem? content p)
  unfolding write_at
  get_elem?-write_at p = ground (
    arith,
    get_elem?-append (take offset content) (bytes ++ drop (offset + length bytes) content) p,
    get_elem?-append bytes (drop (offset + length bytes) content) (p - offset),
    length-take offset content,
    get_elem?-take offset content p,
    get_elem?-drop (offset + length bytes) content (p - offset - length bytes),
  )

pub length-slice :
    (bytes : List ℕ) (begin end : ℕ)
    → begin ≤ end
    → end ≤ length bytes
    → length (slice bytes begin end) ≡ end - begin
length-slice bytes begin end h k =
    omega (arith, length-take (end - begin) (drop begin bytes), length-drop begin bytes)

pub get_elem?-slice :
    (bytes : List ℕ) (begin end j : ℕ)
    → j < end - begin
    → get_elem? (slice bytes begin end) j ≡ get_elem? bytes (begin + j)
get_elem?-slice bytes begin end j h =
    get_elem?-take (end - begin) (drop begin bytes) j h ∙ get_elem?-drop begin bytes j

pub chunk_before : (i k j c : ℕ) → i < k → j < c → i * c + j < k * c
chunk_before i k j c h l = omega (arith, mul-le-mul_right c h)

pub chunk_after : (i k c : ℕ) → k < i → k * c + c ≤ i * c
chunk_after i k c h = omega (arith, mul-le-mul_right c h)

-- The chunks cover the file.
pub chunks_needed_cover : (size c : ℕ) → 0 < c → size ≤ chunks_needed size c * c
chunks_needed_cover size c h = omega (arith, lt-div-mul-add {a = size + c - 1} {b = c} h)
