-- ===== src/Middleware/Compress.antt =====
-- The `gzipWriter` of pkg/server/middleware/compress.go. `B` is the type of bytes. What the gzip writer is
-- given and what goes to the response as it is are kept apart; compression itself is outside.
use goupter.Prelude.{
  String, Bool, true, false, not, List, [], ◌∷◌, ◌++◌, string_key, length, ◌&&◌, if◌then◌else◌,
}
use goupter.Prelude.Int.{ℤ, pos, leb_ℤ}
use goupter.Middleware.Auth.{contains}

pub record GzipConfig : Type 0 where
  pub level : ℤ
  pub min_length : ℤ
  pub excluded_paths : List String
  pub included_mimes : List String

-- `gzip.DefaultCompression` is -1.
unfoldable pub default_gzip_config : ℤ → GzipConfig
default_gzip_config default_compression = record {
  level = default_compression;
  min_length = pos 1024;
  excluded_paths = [];
  included_mimes =
      "text/html" ∷ "text/css" ∷ "text/plain" ∷ "text/javascript" ∷ "application/javascript"
      ∷ "application/json" ∷ "application/xml" ∷ [];
}

-- `encoded` says that the header Content-Encoding is set, `compressed` is what the gzip writer was given,
-- `ended` that it was closed, and `plain` what was written past it.
pub record GzipWriter (B : Type 0) : Type 0 where
  pub min_length : ℤ
  pub included_mimes : List String
  pub content_type : String
  pub started : Bool
  pub buf : List B
  pub encoded : Bool
  pub compressed : List B
  pub ended : Bool
  pub plain : List B

-- `media_type` is the part of the content type before a ";", trimmed.
module _ {B : Type 0} (media_type : String → String) where
  unfoldable pub start : GzipWriter B → GzipWriter B
  unfolding contains
  start w =
      if w.started
      then w
      else if not (is_empty w.included_mimes)
          && not (contains (media_type w.content_type) w.included_mimes)
      then record w { started = true }
      else record w { started = true; encoded = true }
    where
      is_empty : List String → Bool
      is_empty [] = true
      is_empty (x ∷ xs) = false

  -- `Write`, and `WriteString` of the bytes of a text.
  unfoldable pub write : GzipWriter B → List B → GzipWriter B
  unfolding start
  write w bytes =
      let buf = w.buf ++ bytes in
      let s = start (record w { buf = buf }) in
      if not w.started
      then (if leb_ℤ w.min_length (pos (length buf))
          then record s { compressed = w.compressed ++ buf }
          else record w { buf = buf })
      else record w { compressed = w.compressed ++ bytes }

  unfoldable pub write_all : List (List B) → GzipWriter B → GzipWriter B
  unfolding write
  write_all [] w = w
  write_all (bytes ∷ rest) w = write_all rest (write w bytes)

unfoldable pub close : {B : Type 0} → GzipWriter B → GzipWriter B
close w = elim w.buf [
  | [] ↦ record w { ended = true }
  | b ∷ bytes ↦
      if not w.started
      then record w { plain = w.plain ++ (b ∷ bytes) }
      else record w { ended = true }
]
