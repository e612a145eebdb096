-- ===== src/Timeout/WriterLaws.antt =====
-- What the buffered writer commits, by what a handler did to it.
use mathlib.Core.List.{append_assoc, append-nil}
use goupter.Prelude.{
  ℕ, String, ◌≡◌, refl, sym, ap, map, ◌∙◌, Bool, true, false, not, ◌&&◌, ◌||◌, none, List, [], ◌∷◌,
  ◌++◌, ◌==◌, string_key, length, if◌then◌else◌, arith,
}
use goupter.Prelude.Dict.{insert}
use goupter.Prelude.Int.{ℤ, pos, ◌+ℤ◌, ◌≤ℤ◌, ltb_ℤ, int_key, int_laws, int_eqb_iff}
use goupter.Timeout.Writer.{
  OutCall, out_header, out_status, out_write, Writer, new_writer, set_header, write_header,
  write_header_now, write, unwritten, commit_to_original, copy_header, is_nil,
}
use goupter.Timeout.Machine.{WriterOp, apply, set_header_op, write_header_op, flush_op, write_op}

-- What a handler does, in order.
pub run_ops : List WriterOp → Writer → Writer
run_ops [] w = w
run_ops (op ∷ ops) w = run_ops ops (apply op w)

-- All bytes written, in order.
unfoldable pub body_of : List WriterOp → List ℕ
body_of [] = []
body_of (write_op bytes ∷ ops) = bytes ++ body_of ops
body_of (op ∷ ops) = body_of ops

-- The header map after the writes to it.
unfoldable pub header_of : List WriterOp → List (String × List String) → List (String × List String)
header_of [] header = header
header_of (set_header_op key values ∷ ops) header = header_of ops (insert key values header)
header_of (op ∷ ops) header = header_of ops header

-- The last positive status before the first write or flush.
unfoldable pub status_of : List WriterOp → ℤ → ℤ
status_of [] status = status
status_of (write_header_op code ∷ ops) status =
    status_of ops (if ltb_ℤ (pos 0) code then code else status)
status_of (set_header_op key values ∷ ops) status = status_of ops status
status_of (flush_op ∷ ops) status = status
status_of (write_op bytes ∷ ops) status = status

-- The header is written by a write or a flush.
unfoldable pub is_written : List WriterOp → Bool
is_written [] = false
is_written (flush_op ∷ ops) = true
is_written (write_op bytes ∷ ops) = true
is_written (op ∷ ops) = is_written ops

header-run_ops :
    (ops : List WriterOp) (w : Writer) → (run_ops ops w).header ≡ header_of ops w.header
unfolding run_ops header_of apply set_header write_header write_header_now write
header-run_ops [] w = refl
header-run_ops (op ∷ ops) w = ground (arith, header-run_ops ops (apply op w))

timed_out-run_ops : (ops : List WriterOp) (w : Writer) → (run_ops ops w).timed_out ≡ w.timed_out
unfolding run_ops apply set_header write_header write_header_now write
timed_out-run_ops [] w = refl
timed_out-run_ops (op ∷ ops) w = ground (arith, timed_out-run_ops ops (apply op w))

body-run_ops :
    (ops : List WriterOp) (w : Writer)
    → w.timed_out ≡ false
    → (run_ops ops w).body ≡ w.body ++ body_of ops
unfolding run_ops body_of apply set_header write_header write_header_now write
body-run_ops [] w h = sym (append-nil w.body)
body-run_ops (set_header_op key values ∷ ops) w h = body-run_ops ops (set_header w key values) h
body-run_ops (write_header_op code ∷ ops) w h =
    ground (arith, body-run_ops ops (write_header w code))
body-run_ops (flush_op ∷ ops) w h = ground (arith, body-run_ops ops (write_header_now w))
body-run_ops (write_op bytes ∷ ops) w h =
    ground (arith, body-run_ops ops (write w bytes).0, append_assoc w.body bytes (body_of ops))

-- The two states of a writer before its mark.
abbrev IsOpen : Writer → Type 0
IsOpen w = (w.timed_out ≡ false) × (unwritten ≤ℤ w.size)

sum_natural :
    (z : ℤ) (n : ℕ) → pos 0 ≤ℤ z → (unwritten ≤ℤ z +ℤ pos n) × ((z +ℤ pos n == unwritten) ≡ false)
sum_natural z n h = (omega int_laws, natural (z +ℤ pos n) (omega int_laws))
  where
    natural : (y : ℤ) → pos 0 ≤ℤ y → (y == unwritten) ≡ false
    natural y h = ground arith

above : (z : ℤ) → unwritten ≤ℤ z → (z == unwritten) ≡ false → pos 0 ≤ℤ z
above z h e = ground arith

apply-IsOpen : (op : WriterOp) (w : Writer) → IsOpen w → IsOpen (apply op w)
unfolding apply set_header write_header write_header_now write
apply-IsOpen (set_header_op key values) w h = ground arith
apply-IsOpen (write_header_op code) w h = ground arith
apply-IsOpen flush_op w h = ground arith
apply-IsOpen (write_op bytes) w h =
    ground
      (arith, sum_natural w.size (length bytes), sum_natural (pos 0) (length bytes), above w.size)

write_settles :
    (w : Writer) (bytes : List ℕ)
    → IsOpen w
    → (((write w bytes).0.size == unwritten) ≡ false) × ((write w bytes).0.status ≡ w.status)
unfolding write write_header_now
write_settles w bytes h =
    ground
      (arith, sum_natural w.size (length bytes), sum_natural (pos 0) (length bytes), above w.size)

status-run_ops :
    (ops : List WriterOp) (w : Writer)
    → IsOpen w
    → (run_ops ops w).status ≡ (if w.size == unwritten then status_of ops w.status else w.status)
unfolding run_ops status_of apply set_header write_header write_header_now write
status-run_ops [] w h = ground arith
status-run_ops (set_header_op key values ∷ ops) w h = status-run_ops ops (set_header w key values) h
status-run_ops (write_header_op code ∷ ops) w h = ground (
  arith,
  int_eqb_iff w.status code,
  status-run_ops ops (write_header w code),
  apply-IsOpen (write_header_op code) w h,
)
status-run_ops (flush_op ∷ ops) w h =
    ground (arith, status-run_ops ops (write_header_now w), apply-IsOpen flush_op w h)
status-run_ops (write_op bytes ∷ ops) w h =
    let w' = (write w bytes).0 in
    let (settled, kept) = write_settles w bytes h in
    status-run_ops ops w' (apply-IsOpen (write_op bytes) w h) ∙ rw settled (kept ∙ ground arith)

size-run_ops :
    (ops : List WriterOp) (w : Writer)
    → IsOpen w
    → ((run_ops ops w).size == unwritten) ≡ ((w.size == unwritten) && not (is_written ops))
unfolding run_ops is_written apply set_header write_header write_header_now write
size-run_ops [] w h = ground arith
size-run_ops (set_header_op key values ∷ ops) w h = size-run_ops ops (set_header w key values) h
size-run_ops (write_header_op code ∷ ops) w h =
    ground (arith, size-run_ops ops (write_header w code), apply-IsOpen (write_header_op code) w h)
size-run_ops (flush_op ∷ ops) w h =
    ground (arith, size-run_ops ops (write_header_now w), apply-IsOpen flush_op w h)
size-run_ops (write_op bytes ∷ ops) w h =
    let w' = (write w bytes).0 in
    let (settled, kept) = write_settles w bytes h in
    size-run_ops ops w' (apply-IsOpen (write_op bytes) w h) ∙ rw settled (ground arith)

-- Each header in its turn.
sent_headers :
    (header : List (String × List String))
    → copy_header header ≡ map (λ h. out_header h.0 h.1) header
unfolding copy_header
sent_headers [] = refl
sent_headers ((key, values) ∷ header) =
    ap (λ (calls : List OutCall). out_header key values ∷ calls) (sent_headers header)

-- What a handler's calls amount to on the original writer.
abbrev pub direct : List WriterOp → List OutCall
direct ops =
    map (λ h. out_header h.0 h.1) (header_of ops [])
    ++ ((if is_written ops
            || (not (status_of ops (pos 200) == pos 200) || not (is_nil (header_of ops [])))
          then out_status (status_of ops (pos 200)) ∷ []
          else [])
        ++ (if is_nil (body_of ops) then [] else out_write (body_of ops) ∷ []))

-- A handler that is done in time has the response that its calls describe, whatever they are: all
-- the headers it set, at their last values; the last positive status that it gave before its first
-- write or flush, or 200; and all the bytes that it wrote, in one write. The status is sent if there
-- was a write or a flush, a header, or a status that is not 200, and an empty body is not written.
pub commit_to_original-run_ops :
    (ops : List WriterOp) → commit_to_original (run_ops ops new_writer) ≡ (direct ops, none)
unfolding commit_to_original new_writer
commit_to_original-run_ops ops = ground (
  arith,
  timed_out-run_ops ops new_writer,
  header-run_ops ops new_writer,
  sent_headers (header_of ops []),
  body-run_ops ops new_writer refl,
  status-run_ops ops new_writer (refl, omega arith),
  size-run_ops ops new_writer (refl, omega arith),
)
