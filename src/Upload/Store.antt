-- ===== src/Upload/Store.antt =====
-- The temporary file of a chunked upload (internal/server/upload.go) against the file that the
-- browser sends: what the flags in `Received` promise about the bytes on disk.
use native.Mathlib.Nat.{div-lt_iff_lt-mul, div-add-mod', mod-lt}
use termdock.Base.{
  ℕ, zero, suc, subst, ◌+◌, ◌-◌, ◌*◌, ◌/◌, ◌%◌, ◌≤◌, ◌<◌, min, ◌≡◌, ap, ◌∙◌, ◌≢◌, Bool, true, false,
  List, [], ◌∷◌, some, arith, ◌==◌, if◌then◌else◌, length, set, all, get_elem?, get_elem?-set, take,
  length-take, get_elem?-take, list_ext, replicate,
}
use termdock.Upload.{chunks_needed}
use termdock.Upload.Handlers.{write_at}
use termdock.Upload.Slices.{
  slice, length-write_at, get_elem?-write_at, length-slice, get_elem?-slice, chunk_before,
  chunk_after, chunks_needed_cover,
}

-- Where chunk `i` is flagged, the content has the file's bytes there.
abbrev pub Agrees : List ℕ → ℕ → List Bool → List ℕ → Type 0
Agrees original chunk received content =
    (i j : ℕ)
    → get_elem? received i ≡ some true
    → j < chunk
    → i * chunk + j < length original
    → get_elem? content (i * chunk + j) ≡ get_elem? original (i * chunk + j)

-- The end of chunk `i`.
abbrev pub chunk_end : List ℕ → ℕ → ℕ → ℕ
chunk_end original chunk i = min (length original) (i * chunk + chunk)

never_received : (n i : ℕ) → get_elem? (replicate n false) i ≢ some true
never_received zero i e = cc
never_received (suc n) zero e = cc
never_received (suc n) (suc i) e = never_received n i e

pub all_received :
    (received : List Bool) (i : ℕ)
    → all (λ r. r) received ≡ true
    → i < length received
    → get_elem? received i ≡ some true
all_received [] i h l = elim l [ ]
all_received (r ∷ received) zero h l = ground arith
all_received (r ∷ received) (suc i) h l = all_received received i (ground arith) (omega arith)

module _ (original : List ℕ) (chunk : ℕ) where
  pub Agrees-none : (n : ℕ) (content : List ℕ) → Agrees original chunk (replicate n false) content
  Agrees-none n content i j e h l = absurd (never_received n i e)

  module _ (content : List ℕ) (k : ℕ) (same_length : length content ≡ length original)
      (inside : k * chunk ≤ length original) where
    bytes : List ℕ
    bytes = slice original (k * chunk) (chunk_end original chunk k)

    length-bytes : length bytes ≡ chunk_end original chunk k - k * chunk
    unfolding bytes
    length-bytes =
        length-slice original (k * chunk) (chunk_end original chunk k) (omega arith) (omega arith)

    pub length-write_at_chunk :
        length
          (write_at (k * chunk) (slice original (k * chunk) (chunk_end original chunk k)) content)
        ≡ length original
    unfolding bytes
    length-write_at_chunk =
        length-write_at bytes content (k * chunk) (omega (arith, length-bytes)) ∙ same_length

    -- In the written chunk the bytes are the file's, and elsewhere they are what they were.
    write_at_chunk :
        (i j : ℕ)
        → j < chunk
        → i * chunk + j < length original
        → get_elem? (write_at (k * chunk) bytes content) (i * chunk + j) ≡ (
            if k == i
            then get_elem? original (i * chunk + j)
            else get_elem? content (i * chunk + j))
    unfolding bytes
    write_at_chunk i j hj hp = ground (
      arith,
      get_elem?-write_at bytes content (k * chunk) (omega (arith, length-bytes)) (i * chunk + j),
      length-bytes,
      chunk_before i k j chunk,
      chunk_after i k chunk,
      ap (λ (t : ℕ). t * chunk) {x = k} {y = i},
      get_elem?-bytes (i * chunk + j),
    )
      where
        get_elem?-bytes :
            (p : ℕ)
            → k * chunk ≤ p
            → p < chunk_end original chunk k
            → get_elem? bytes (p - k * chunk) ≡ get_elem? original p
        get_elem?-bytes p h l =
            get_elem?-slice original (k * chunk) (chunk_end original chunk k) (p - k * chunk)
              (omega arith)
            ∙ ap (get_elem? original) (omega arith)

  -- A write of a chunk's bytes keeps the promise, with that chunk flagged.
  pub Agrees-write_at :
      (received : List Bool) (content : List ℕ) (k : ℕ)
      → k < length received
      → length content ≡ length original
      → k * chunk ≤ length original
      → Agrees original chunk received content
      → Agrees original chunk
          (set received k true)
          (write_at (k * chunk) (slice original (k * chunk) (chunk_end original chunk k)) content)
  unfolding bytes
  Agrees-write_at received content k hk hl he agree i j e hj hp = ground (
    arith,
    write_at_chunk content k hl he i j hj hp,
    get_elem?-set received k i true hk,
    agree i j,
  )

  module _ (content : List ℕ) (k n : ℕ) (same_length : length content ≡ length original)
      (inside : k * chunk ≤ length original) where
    abbrev whole : List ℕ
    whole = slice original (k * chunk) (chunk_end original chunk k)

    fits : k * chunk + length (take n whole) ≤ length content
    fits = omega (
      arith,
      length-take n whole,
      length-slice original (k * chunk) (chunk_end original chunk k) (omega arith) (omega arith),
    )

    pub length-write_at_part :
        length (write_at (k * chunk) (take n whole) content) ≡ length original
    length-write_at_part = length-write_at (take n whole) content (k * chunk) fits ∙ same_length

    get_elem?-part :
        (p : ℕ)
        → k * chunk ≤ p
        → p < k * chunk + length (take n whole)
        → get_elem? (take n whole) (p - k * chunk) ≡ get_elem? original p
    get_elem?-part p h l =
        get_elem?-take n whole (p - k * chunk) (omega (arith, length-take n whole))
        ∙ get_elem?-slice original (k * chunk) (chunk_end original chunk k) (p - k * chunk) (
            omega (
              arith,
              length-take n whole,
              length-slice original (k * chunk) (chunk_end original chunk k) (omega arith)
                  (omega arith),
            ))
        ∙ ap (get_elem? original) (omega arith)

    -- A write that breaks off keeps the promise as it was.
    pub Agrees-write_at_part :
        (received : List Bool)
        → Agrees original chunk received content
        → Agrees original chunk received (write_at (k * chunk) (take n whole) content)
    Agrees-write_at_part received agree i j e hj hp = ground (
      arith,
      get_elem?-write_at (take n whole) content (k * chunk) fits (i * chunk + j),
      agree i j e hj hp,
      get_elem?-part (i * chunk + j),
    )

  -- With every chunk flagged the content is the file.
  pub Agrees-eq :
      (received : List Bool) (content : List ℕ)
      → 0 < chunk
      → length received ≡ chunks_needed (length original) chunk
      → length content ≡ length original
      → all (λ r. r) received ≡ true
      → Agrees original chunk received content
      → content ≡ original
  Agrees-eq received content h0 hr hl ha agree = list_ext content original hl λ p hp.
      let inside : p / chunk < length received = (div-lt_iff_lt-mul h0).1 (
        omega
          (arith, chunks_needed_cover (length original) chunk h0, ap (λ (t : ℕ). t * chunk) hr)) in
      subst (λ q. get_elem? content q ≡ get_elem? original q) (div-add-mod' p chunk)
        (agree (p / chunk) (p % chunk) (all_received received (p / chunk) ha inside) (mod-lt p h0)
          (omega (arith, div-add-mod' p chunk)))
