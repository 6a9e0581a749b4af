-- ===== src/A2a/Sse/RoundTrip.antt =====
-- Records that are written as server-sent events are read back by crates/missive-a2a/src/lib.rs.
use missive.Common.{
  ℕ, ◌+◌, ◌≤◌, min, true, false, not, ◌&&◌, Option, none, some, List, [], ◌∷◌, ◌++◌, is_empty, all,
  ltb, ◌≡◌, refl, sym, ap, ◌∙◌, arith, and-split,
}
use missive.Common.Str.{Str, lit, str_eq, str_len}
use missive.Common.Decimal.{u64_max}
use missive.Core.Error.{Result, ok, ◌>>=◌}
use missive.A2a.Sse.{
  SseRecord, SseState, initial, max_sse_event_data_bytes, split_colon, join_lines, read_field,
  dispatch_sse_record, read_sse_line, read_on, read_sse_records,
}
use missive.A2a.Sse.Written.{
  SentRecord, sent_record, is_text, is_text_or_none, total_bytes, is_sendable, line_of, event_lines,
  data_lines_of, written, trim_line_end-text, >>=-pair, >>=-cong, append_nil, append_cons,
}

module _ {ℓ} {S : Type ℓ} (on_record : S → SseRecord → Result S) where
  -- The records one after the other, without a stream.
  unfoldable pub each_record : S → List SentRecord → Result S
  each_record seen [] = ok seen
  each_record seen (r ∷ rs) = on_record seen (sent_record r) >>= λ next. each_record next rs

  read_on-line :
      (s : SseState) (seen : S) (line : Str) (reader : List (Result Str))
      → is_text line ≡ true
      → read_on on_record s seen (line_of line ∷ reader)
        ≡ (read_sse_line on_record s seen line >>= λ read. read_on on_record read.0 read.1 reader)
  unfolding read_on
  read_on-line s seen line reader h =
      ap
        (λ line.
          read_sse_line on_record s seen line >>= λ read. read_on on_record read.0 read.1 reader)
        (trim_line_end-text line h)

  event-line :
      (s : SseState) (seen : S) (event : Str)
      → read_sse_line on_record s seen (lit "event: " ++ event)
        ≡ ok (record s { event_type = some event }, seen)
  unfolding read_sse_line read_field split_colon str_eq
  event-line s seen event = refl

  bytes-fit : (n m : ℕ) → n + m ≤ max_sse_event_data_bytes → min u64_max (n + m) ≡ n + m
  bytes-fit n m h = omega arith

  data-line :
      (s : SseState) (seen : S) (line : Str)
      → s.current_data_bytes + str_len line ≤ max_sse_event_data_bytes
      → read_sse_line on_record s seen (lit "data: " ++ line)
        ≡ ok (
          record s {
            data_lines = s.data_lines ++ line ∷ [];
            current_data_bytes = s.current_data_bytes + str_len line;
          },
          seen,
        )
  unfolding read_sse_line read_field split_colon str_eq
  data-line s seen line h =
      let fits : ltb max_sse_event_data_bytes (s.current_data_bytes + str_len line) ≡ false =
        ground arith in
      rw (bytes-fit s.current_data_bytes (str_len line) h, fits) refl

  abbrev at_lines : Option Str → List Str → ℕ → SseState
  at_lines event lines bytes = record {
    event_type = event;
    data_lines = lines;
    current_data_bytes = bytes;
  }

  at_lines-eq :
      (event : Option Str) (xs ys : List Str) (n m : ℕ)
      → xs ≡ ys
      → n ≡ m
      → at_lines event xs n ≡ at_lines event ys m
  at_lines-eq event xs ys n m e f = rw (e, f) refl

  read_on-data_lines :
      (vs : List Str) (event : Option Str) (xs : List Str) (n : ℕ) (seen : S)
      (reader : List (Result Str))
      → all is_text vs ≡ true
      → n + total_bytes vs ≤ max_sse_event_data_bytes
      → read_on on_record (at_lines event xs n) seen (data_lines_of vs ++ reader)
        ≡ read_on on_record (at_lines event (xs ++ vs) (n + total_bytes vs)) seen reader
  unfolding data_lines_of total_bytes
  read_on-data_lines [] event xs n seen reader h k =
      ap (λ s. read_on on_record s seen reader)
        (at_lines-eq event xs (xs ++ []) n (n + 0) (sym (append_nil xs)) (omega arith))
  read_on-data_lines (v ∷ vs) event xs n seen reader h k =
      let (here, there) = and-split (is_text v) _ h in
      let now : n + str_len v ≤ max_sse_event_data_bytes = omega arith in
      let line : is_text (lit "data: " ++ v) ≡ true = here in
      read_on-line (at_lines event xs n) seen (lit "data: " ++ v) (data_lines_of vs ++ reader) line
      ∙ ap
          (λ called.
            called >>= λ read. read_on on_record read.0 read.1 (data_lines_of vs ++ reader))
          (data-line (at_lines event xs n) seen v now)
      ∙ read_on-data_lines vs event (xs ++ v ∷ []) (n + str_len v) seen reader there (omega arith)
      ∙ ap (λ s. read_on on_record s seen reader)
          (at_lines-eq event ((xs ++ v ∷ []) ++ vs) (xs ++ v ∷ vs) (n + str_len v + total_bytes vs)
            (n + (str_len v + total_bytes vs)) (append_cons xs v vs) (omega arith))

  read_on-event :
      (event : Option Str) (seen : S) (reader : List (Result Str))
      → is_text_or_none event ≡ true
      → read_on on_record initial seen (event_lines event ++ reader)
        ≡ read_on on_record (at_lines event [] 0) seen reader
  read_on-event none seen reader h = refl
  read_on-event (some event) seen reader h =
      read_on-line initial seen (lit "event: " ++ event) reader h
      ∙ ap (λ called. called >>= λ read. read_on on_record read.0 read.1 reader)
          (event-line initial seen event)

  read_on-end :
      (event : Option Str) (lines : List Str) (n : ℕ) (seen : S) (reader : List (Result Str))
      → is_empty lines ≡ false
      → read_on on_record (at_lines event lines n) seen (line_of [] ∷ reader) ≡ (
          on_record seen (record { event_type = event; record_data = join_lines lines }) >>= λ next.
          read_on on_record initial next reader)
  unfolding read_sse_line dispatch_sse_record
  read_on-end event [] n seen reader h = absurd cc
  read_on-end event (line ∷ lines) n seen reader h =
      read_on-line (at_lines event (line ∷ lines) n) seen [] reader refl
      ∙ >>=-pair (on_record seen _) initial (λ read. read_on on_record read.0 read.1 reader)

  sendable-parts :
      (r : SentRecord)
      → is_sendable r ≡ true
      → (is_empty r.lines ≡ false)
        × (is_text_or_none r.event ≡ true)
        × (all is_text r.lines ≡ true)
        × (0 + total_bytes r.lines ≤ max_sse_event_data_bytes)
  unfolding is_sendable
  sendable-parts r h =
      let filled = not (is_empty r.lines) in
      let (abc, d) = and-split (filled && is_text_or_none r.event && all is_text r.lines) _ h in
      let (ab, c) = and-split (filled && is_text_or_none r.event) _ abc in
      let (a, b) = and-split filled _ ab in (ground arith, b, c, ground arith)

  -- Records whose event and lines hold no line end, which have a line of data, and whose lines are
  -- within the limit, are read from the stream that writes them: `read_sse_records` calls `on_record`
  -- with each of them in order, and ends as these calls do.
  pub read_sse_records-written :
      (rs : List SentRecord) (seen : S)
      → all is_sendable rs ≡ true
      → read_sse_records on_record seen (written rs) ≡ each_record seen rs
  unfolding read_sse_records written each_record read_on dispatch_sse_record
  read_sse_records-written [] seen h = refl
  read_sse_records-written (r ∷ rs) seen h =
      let (here, there) = and-split (is_sendable r) _ h in
      let (some_line, event_text, lines_text, fits) = sendable-parts r here in
      read_on-event r.event seen (data_lines_of r.lines ++ line_of [] ∷ written rs) event_text
      ∙ read_on-data_lines r.lines r.event [] 0 seen (line_of [] ∷ written rs) lines_text fits
      ∙ read_on-end r.event r.lines (0 + total_bytes r.lines) seen (written rs) some_line
      ∙ >>=-cong (on_record seen (sent_record r)) _ _
          (λ next. read_sse_records-written rs next there)
