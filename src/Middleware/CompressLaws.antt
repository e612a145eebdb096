-- ===== src/Middleware/CompressLaws.antt =====
-- What the client gets of the bytes that a handler writes.
use mathlib.Core.List.{append_assoc, append-nil}
use goupter.Prelude.{
  ◌≡◌, refl, sym, ap, ◌∙◌, inl, inr, String, Bool, true, false, List, [], ◌∷◌, ◌++◌, length,
  length-append, arith, Bool-cases, if◌then◌else◌, ◌&&◌, ◌||◌,
}
use goupter.Prelude.Int.{ℤ, pos, leb_ℤ, ◌<ℤ◌}
use goupter.Middleware.Auth.{contains}
use goupter.Middleware.Compress.{GzipWriter, start, write, write_all, close}

-- All that was written.
unfoldable pub joined : {B : Type 0} → List (List B) → List B
joined [] = []
joined (bytes ∷ rest) = bytes ++ joined rest

unfoldable pub is_empty : {B : Type 0} → List B → Bool
is_empty [] = true
is_empty (b ∷ bytes) = false

abbrev pub fresh : {B : Type 0} → ℤ → List String → String → GzipWriter B
fresh min_length mimes content_type = record {
  min_length = min_length;
  included_mimes = mimes;
  content_type = content_type;
  started = false;
  buf = [];
  encoded = false;
  compressed = [];
  ended = false;
  plain = [];
}

-- The type of the content is one of those to compress, or there is no list of them.
unfoldable pub is_included : (String → String) → List String → String → Bool
is_included media_type [] content_type = true
is_included media_type (mime ∷ mimes) content_type =
    contains (media_type content_type) (mime ∷ mimes)

module _ {B : Type 0} (media_type : String → String) where
  -- A started writer passes everything on to gzip.
  write_all-started :
      (writes : List (List B)) (w : GzipWriter B)
      → w.started ≡ true
      → write_all media_type writes w ≡ record w { compressed = w.compressed ++ joined writes }
  unfolding write_all write joined
  write_all-started [] w h = ground (arith, append-nil w.compressed)
  write_all-started (bytes ∷ rest) w h = ground (
    arith,
    write_all-started rest (record w { compressed = w.compressed ++ bytes }),
    append_assoc w.compressed bytes (joined rest),
  )

  start-is_included :
      (w : GzipWriter B)
      → w.started ≡ false
      → w.encoded ≡ false
      → start media_type w ≡ record w {
        started = true;
        encoded = is_included media_type w.included_mimes w.content_type;
      }
  unfolding start is_included
  start-is_included w h e = ground arith

  write_long :
      (w : GzipWriter B) (bytes : List B)
      → w.started ≡ false
      → w.encoded ≡ false
      → w.compressed ≡ []
      → leb_ℤ w.min_length (pos (length (w.buf ++ bytes))) ≡ true
      → write media_type w bytes ≡ record w {
        started = true;
        encoded = is_included media_type w.included_mimes w.content_type;
        buf = w.buf ++ bytes;
        compressed = w.buf ++ bytes;
      }
  unfolding write
  write_long w bytes s e c long =
      ground (arith, start-is_included (record w { buf = w.buf ++ bytes }), long)

  write_short :
      (w : GzipWriter B) (bytes : List B)
      → w.started ≡ false
      → leb_ℤ w.min_length (pos (length (w.buf ++ bytes))) ≡ false
      → write media_type w bytes ≡ record w { buf = w.buf ++ bytes }
  unfolding write
  write_short w bytes s short = ground (arith, short)

  shorter :
      (m : ℤ) (xs ys : List B)
      → leb_ℤ m (pos (length (xs ++ ys))) ≡ false
      → leb_ℤ m (pos (length xs)) ≡ false
  shorter m xs ys h = ground (arith, length-append xs ys)

  write_all_short :
      (writes : List (List B)) (w : GzipWriter B)
      → w.started ≡ false
      → leb_ℤ w.min_length (pos (length (w.buf ++ joined writes))) ≡ false
      → write_all media_type writes w ≡ record w { buf = w.buf ++ joined writes }
  unfolding write_all joined
  write_all_short [] w s short = ground (arith, append-nil w.buf)
  write_all_short (bytes ∷ rest) w s short =
      let short' = rw (sym (append_assoc w.buf bytes (joined rest))) at short in
      ap (write_all media_type rest)
        (write_short w bytes s (shorter w.min_length (w.buf ++ bytes) (joined rest) short'))
      ∙ (write_all_short rest (record w { buf = w.buf ++ bytes }) s short'
          ∙ ap (λ (b : List B). record w { buf = b }) (append_assoc w.buf bytes (joined rest)))

  write_all_long :
      (writes : List (List B)) (w : GzipWriter B)
      → w.started ≡ false
      → w.encoded ≡ false
      → w.compressed ≡ []
      → leb_ℤ w.min_length (pos (length w.buf)) ≡ false
      → leb_ℤ w.min_length (pos (length (w.buf ++ joined writes))) ≡ true
      → (buf : List B) × (write_all media_type writes w ≡ record w {
        started = true;
        encoded = is_included media_type w.included_mimes w.content_type;
        buf = buf;
        compressed = w.buf ++ joined writes;
      })
  unfolding write_all joined
  write_all_long [] w s e c short long = absurd (ground (arith, append-nil w.buf, short, long))
  write_all_long (bytes ∷ rest) w s e c short long =
      let long' = rw (sym (append_assoc w.buf bytes (joined rest))) at long in
      elim (Bool-cases (leb_ℤ w.min_length (pos (length (w.buf ++ bytes))))) [
        | inl now ↦ (
          w.buf ++ bytes,
          ap (write_all media_type rest) (write_long w bytes s e c now)
              ∙ (write_all-started rest _ refl ∙ regroup (w.buf ++ bytes)),
        )
        | inr later ↦
            let (buf, eq) =
              write_all_long rest (record w { buf = w.buf ++ bytes }) s e c later long' in
            (buf, ap (write_all media_type rest) (write_short w bytes s later) ∙ (eq ∙ regroup buf))
      ]
    where
      regroup :
          (b : List B)
          → record w {
            started = true;
            encoded = is_included media_type w.included_mimes w.content_type;
            buf = b;
            compressed = (w.buf ++ bytes) ++ joined rest;
          }
            ≡ record w {
              started = true;
              encoded = is_included media_type w.included_mimes w.content_type;
              buf = b;
              compressed = w.buf ++ (bytes ++ joined rest);
            }
      regroup b =
          ap
            (λ (sent : List B). record w {
              started = true;
              encoded = is_included media_type w.included_mimes w.content_type;
              buf = b;
              compressed = sent;
            })
            (append_assoc w.buf bytes (joined rest))

  close-started : (w : GzipWriter B) → w.started ≡ true → close w ≡ record w { ended = true }
  unfolding close
  close-started w h = ground arith

  close_waiting :
      (min_length : ℤ) (mimes : List String) (content_type : String) (all : List B)
      → close (record (fresh min_length mimes content_type) { buf = all })
        ≡ record (fresh min_length mimes content_type) {
          buf = all;
          plain = all;
          ended = is_empty all;
        }
  unfolding close is_empty
  close_waiting min_length mimes content_type [] = refl
  close_waiting min_length mimes content_type (b ∷ bytes) = refl

  -- For a positive minimal length, whatever is written in whatever pieces: the response has all bytes
  -- in their order, all through gzip if they are at least as many as that length and all as they are if
  -- not; the header for gzip is set where there are enough bytes and the type is included. The gzip stream
  -- is ended where there are enough bytes, and also, without the header, where there is no byte at all.
  pub close-write_all :
      (writes : List (List B)) (min_length : ℤ) (mimes : List String) (content_type : String)
      → pos 0 <ℤ min_length
      → let w = close (write_all media_type writes (fresh min_length mimes content_type)) in
        let long = leb_ℤ min_length (pos (length (joined writes))) in
        (w.plain ≡ (if long then [] else joined writes))
        × (w.compressed ≡ (if long then joined writes else []))
        × (w.encoded ≡ (long && is_included media_type mimes content_type))
        × (w.ended ≡ (long || is_empty (joined writes)))
  close-write_all writes min_length mimes content_type positive =
      elim (Bool-cases (leb_ℤ min_length (pos (length (joined writes))))) [
        | inl long ↦
            let (buf, sent) =
              write_all_long writes (fresh min_length mimes content_type) refl refl refl
                (ground (arith, positive)) long in
            let closed = ap close sent ∙ close-started _ refl in
            rw long (
              ap (λ (w : GzipWriter B). w.plain) closed,
              ap (λ (w : GzipWriter B). w.compressed) closed,
              ap (λ (w : GzipWriter B). w.encoded) closed,
              ap (λ (w : GzipWriter B). w.ended) closed,
            )
        | inr short ↦
            let waiting = write_all_short writes (fresh min_length mimes content_type) refl short in
            let closed =
              ap close waiting ∙ close_waiting min_length mimes content_type (joined writes) in
            rw short (
              ap (λ (w : GzipWriter B). w.plain) closed,
              ap (λ (w : GzipWriter B). w.compressed) closed,
              ap (λ (w : GzipWriter B). w.encoded) closed,
              ap (λ (w : GzipWriter B). w.ended) closed,
            )
      ]
