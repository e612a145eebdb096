-- ===== src/Examples/Timeout.antt =====
-- Examples about pkg/server/middleware/timeout.go.
use goupter.Prelude.{ℕ, String, ◌≡◌, refl, true, none, List, [], ◌∷◌}
use goupter.Prelude.Dict.{insert}
use goupter.Prelude.Int.{pos, ◌+ℤ◌}
use goupter.Timeout.Writer.{
  OutCall, out_header, out_status, out_write, Writer, new_writer, set_header, write_header_now,
  write, mark_timed_out, commit_to_original, copy_header, is_nil,
}
use goupter.Timeout.WriterLaws.{
  run_ops, header_of, status_of, body_of, is_written, direct, commit_to_original-run_ops,
}
use goupter.Timeout.Machine.{
  WriterOp, apply, Exchange, start, Reach, working, replied, set_header_op, write_header_op,
  write_op, handle, expire, timing_out, time_out, reply_timeout, here, next,
}
use goupter.Timeout.Safety.{Inv, Refuses, has_timed_out, Reach-Inv}

abbrev gateway_timeout : List OutCall
gateway_timeout = out_status (pos 504) ∷ out_write (116 ∷ []) ∷ []

abbrev text_type : List (String × List String)
text_type = ("Content-Type", "text/plain" ∷ []) ∷ []

-- A handler that writes, is late, and writes on.
abbrev late_writer : Writer
late_writer = record {
  header = text_type;
  body = 104 ∷ [];
  status = pos 200;
  size = pos 1;
  timed_out = true;
}

abbrev late : Exchange String
late = record {
  writer = late_writer;
  worker = working;
  caller = replied;
  expired = true;
  out = gateway_timeout;
}

late-Reach : Reach gateway_timeout start late
unfolding start new_writer apply set_header write_header_now write mark_timed_out insert ◌+ℤ◌
late-Reach =
    let begun : Exchange String = start in
    let typed : Exchange String = record begun {
      writer = apply (set_header_op "Content-Type" ("text/plain" ∷ [])) begun.writer;
    } in
    let wrote : Exchange String = record typed {
      writer = apply (write_op (104 ∷ [])) typed.writer;
    } in
    let due : Exchange String = record wrote { expired = true } in
    let marked : Exchange String = record due {
      caller = timing_out;
      writer = mark_timed_out due.writer;
    } in
    let answered : Exchange String = record marked { caller = replied; out = gateway_timeout } in
    let r1 : Reach gateway_timeout start typed =
      next here (handle (set_header_op "Content-Type" ("text/plain" ∷ [])) refl refl) in
    let r2 : Reach gateway_timeout start wrote = next r1 (handle (write_op (104 ∷ [])) refl refl) in
    let r3 : Reach gateway_timeout start due = next r2 (expire refl) in
    let r4 : Reach gateway_timeout start marked = next r3 (time_out refl refl refl) in
    let r5 : Reach gateway_timeout start answered = next r4 (reply_timeout refl refl) in
    next r5 (handle (write_op (105 ∷ [])) refl refl)

Reach-Inv_example :
    Inv gateway_timeout late
    × ((bytes : List ℕ) → Refuses (has_timed_out late.caller) late.writer bytes)
Reach-Inv_example = Reach-Inv gateway_timeout late late-Reach

abbrev page : List WriterOp
page =
    write_header_op (pos 404)
    ∷ set_header_op "Content-Type" ("text/plain" ∷ [])
    ∷ write_header_op (pos 201)
    ∷ write_op (104 ∷ 105 ∷ [])
    ∷ write_header_op (pos 500)
    ∷ write_op (33 ∷ [])
    ∷ []

page_direct : direct page ≡ (
    out_header "Content-Type" ("text/plain" ∷ [])
    ∷ out_status (pos 201)
    ∷ out_write (104 ∷ 105 ∷ 33 ∷ [])
    ∷ [])
unfolding copy_header is_nil header_of status_of body_of is_written insert
page_direct = refl

commit_to_original-run_ops_example :
    commit_to_original (run_ops page new_writer) ≡ (direct page, none)
commit_to_original-run_ops_example = commit_to_original-run_ops page
