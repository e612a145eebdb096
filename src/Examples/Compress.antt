-- ===== src/Examples/Compress.antt =====
-- Examples about pkg/server/middleware/compress.go. A byte is a number.
use goupter.Prelude.{
  ℕ, ◌≡◌, refl, String, true, false, List, [], ◌∷◌, arith, length, ◌&&◌, ◌||◌, if◌then◌else◌,
  string_key,
}
use goupter.Prelude.Int.{pos, leb_ℤ}
use goupter.Middleware.Compress.{GzipWriter, write_all, close}
use goupter.Middleware.CompressLaws.{joined, fresh, is_included, is_empty, close-write_all}

abbrev as_is : String → String
as_is s = s

abbrev pieces : List (List ℕ)
pieces = (1 ∷ 2 ∷ []) ∷ [] ∷ (3 ∷ []) ∷ (4 ∷ []) ∷ []

close-write_all_example :
    let w = close (write_all as_is pieces (fresh (pos 3) ("text/html" ∷ []) "text/html")) in
    let long = leb_ℤ (pos 3) (pos (length (joined pieces))) in
    (w.plain ≡ (if long then [] else joined pieces))
    × (w.compressed ≡ (if long then joined pieces else []))
    × (w.encoded ≡ (long && is_included as_is ("text/html" ∷ []) "text/html"))
    × (w.ended ≡ (long || is_empty (joined pieces)))
close-write_all_example =
    close-write_all as_is pieces (pos 3) ("text/html" ∷ []) "text/html" (omega arith)

-- An image is compressed as well, and its header does not say so.
abbrev image : GzipWriter ℕ
unfolding close write_all
image = close (write_all as_is pieces (fresh (pos 3) ("text/html" ∷ []) "image/png"))

compressed_image : (image.compressed ≡ 1 ∷ 2 ∷ 3 ∷ 4 ∷ []) × (image.encoded ≡ false)
unfolding image
compressed_image = (refl, refl)

-- With no body the gzip writer is closed all the same, which writes its own bytes.
empty_body : (close (fresh {B = ℕ} (pos 3) [] "")).ended ≡ true
unfolding close
empty_body = refl
