-- ===== src/Timeout/Writer.antt =====
-- `bufferedResponseWriter` of pkg/server/middleware/timeout.go. Every method holds `w.mu`, so it is one
-- step; `Header()` hands the map out, and what a handler does to it is the operation `set_header`.
-- Texts that are written are given by their bytes.
use goupter.Prelude.{
  ℕ, String, Bool, true, false, not, ◌&&◌, ◌||◌, Option, none, some, List, [], ◌∷◌, ◌++◌, ◌==◌,
  string_key, length, if◌then◌else◌,
}
use goupter.Prelude.Dict.{insert}
use goupter.Prelude.Int.{ℤ, pos, negsuc, ◌+ℤ◌, ltb_ℤ, int_key}

-- A call on the original writer, gin's.
pub data OutCall : Type 0 where
  out_header : String → List String → OutCall
  out_status : ℤ → OutCall
  out_write : List ℕ → OutCall

pub data WriteError : Type 0 where
  deadline_exceeded : WriteError

-- `size` is -1 until the header is written.
pub record Writer : Type 0 where
  pub header : List (String × List String)
  pub body : List ℕ
  pub status : ℤ
  pub size : ℤ
  pub timed_out : Bool

abbrev pub unwritten : ℤ
unwritten = negsuc 0

unfoldable pub new_writer : Writer
new_writer = record {
  header = [];
  body = [];
  status = pos 200;
  size = unwritten;
  timed_out = false;
}

unfoldable pub set_header : Writer → String → List String → Writer
set_header w key values = record w { header = insert key values w.header }

unfoldable pub write_header : Writer → ℤ → Writer
write_header w code =
    if ltb_ℤ (pos 0) code && not (w.status == code)
    then (if not (w.size == unwritten) then w else record w { status = code })
    else w

unfoldable pub write_header_now : Writer → Writer
write_header_now w = if w.size == unwritten then record w { size = pos 0 } else w

unfoldable pub write : Writer → List ℕ → Writer × ℕ × Option WriteError
unfolding write_header_now
write w bytes =
    if w.timed_out
    then (w, 0, some deadline_exceeded)
    else (let w' = write_header_now w in
        (
          record w' { body = w'.body ++ bytes; size = w'.size +ℤ pos (length bytes) },
          length bytes,
          none,
        ))

unfoldable pub write_string : Writer → List ℕ → Writer × ℕ × Option WriteError
unfolding write
write_string w bytes = write w bytes

unfoldable pub written : Writer → Bool
written w = not (w.size == unwritten)

unfoldable pub flush : Writer → Writer
unfolding write_header_now
flush w = write_header_now w

unfoldable pub mark_timed_out : Writer → Writer
mark_timed_out w = record w { timed_out = true }

-- The loop over the header.
unfoldable pub copy_header : List (String × List String) → List OutCall
copy_header [] = []
copy_header ((key, values) ∷ header) = out_header key values ∷ copy_header header

unfoldable pub is_nil {ℓ} : {A : Type ℓ} → List A → Bool
is_nil [] = true
is_nil (x ∷ xs) = false

-- The calls on the original, and the error that is returned before any call; the error of the
-- original's `Write` is its own.
unfoldable pub commit_to_original : Writer → List OutCall × Option WriteError
unfolding copy_header is_nil
commit_to_original w = if w.timed_out then ([], some deadline_exceeded) else (
  copy_header w.header
      ++ ((if not (w.size == unwritten) || (not (w.status == pos 200) || not (is_nil w.header))
            then out_status w.status ∷ []
            else [])
          ++ (if is_nil w.body then [] else out_write w.body ∷ [])),
  none,
)
