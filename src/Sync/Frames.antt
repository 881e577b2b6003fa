-- ===== src/Sync/Frames.antt =====
-- control-plane/src/domains/sync/sseWriteQueue.ts: the text of the frames of an event stream. A
-- version is printed in decimal, as `BigInt.prototype.toString` prints it.
use Prim.Native.String
use verilink.Base.{
  ◌≡◌, refl, ℕ, zero, suc, ◌+◌, ◌/◌, ◌%◌, Option, none, some, String, if◌then◌else◌, ltb,
}
use verilink.Base.Texts.{str_eq}

abbrev digit_text : ℕ → String
digit_text d = String.slice "0123456789" d (d + 1)

-- The numeral of `n` before `acc`; a number has fewer digits than its successor has units.
abbrev text_from : ℕ → ℕ → String → String
text_from zero n acc = acc
text_from (suc fuel) n acc =
    let more = text_from fuel (n / 10) (String.◌++◌ (digit_text (n % 10)) acc) in
    if ltb n 10 then String.◌++◌ (digit_text n) acc else more

unfoldable pub version_text : ℕ → String
version_text n = text_from (suc n) n ""

abbrev id_line : Option ℕ → String
id_line none = ""
id_line (some id) = String.◌++◌ "id: " (String.◌++◌ (version_text id) "\n")

abbrev event_line : Option String → String
event_line none = ""
event_line (some name) =
    if str_eq name "" then "" else String.◌++◌ "event: " (String.◌++◌ name "\n")

unfoldable pub format_sse_event : Option String → Option ℕ → String → String
unfolding version_text
format_sse_event event id data' =
    String.◌++◌ (id_line id)
      (String.◌++◌ (event_line event) (String.◌++◌ "data: " (String.◌++◌ data' "\n\n")))

unfoldable pub format_sse_comment : String → String
format_sse_comment text = String.◌++◌ ": " (String.◌++◌ text "\n\n")

cursor_frame :
    format_sse_event (some "cursor") (some 120) "{}" ≡ "id: 120\nevent: cursor\ndata: {}\n\n"
unfolding format_sse_event
cursor_frame = refl
