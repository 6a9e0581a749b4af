-- ===== src/A2a/Sse.antt =====
-- crates/missive-a2a/src/lib.rs, lines 3500 to 3660: a stream of server-sent events is read.
--
-- What the calls of `read_line` give is a list: each is a line that is not empty, or fails; after the
-- last, `read_line` reads no bytes. `on_record` is a function that passes its state on.
pub mod Written
pub mod RoundTrip
use missive.Common.{
  ℕ, ◌+◌, min, Bool, true, false, ◌&&◌, ◌||◌, Option, none, some, List, [], ◌∷◌, ◌++◌, is_empty,
  ltb, ◌==◌, if◌then◌else◌,
}
use missive.Common.Str.{Str, lit, str_eq, str_len}
use missive.Common.Decimal.{u64_max}
use missive.Core.Error.{Result, ok, err, ◌>>=◌, fail_if}
use missive.A2a.Card.{protocol_error}

pub record SseRecord : Type 0 where
  pub event_type : Option Str
  pub record_data : Str

-- The variables of the loop. A `usize` has 64 bits.
pub record SseState : Type 0 where
  pub event_type : Option Str
  pub data_lines : List Str
  pub current_data_bytes : ℕ

abbrev pub initial : SseState
initial = record { event_type = none; data_lines = []; current_data_bytes = 0 }

abbrev pub max_sse_event_data_bytes : ℕ
max_sse_event_data_bytes = 16777216

-- `trim_end_matches(['\r', '\n'])`.
abbrev pub is_line_end : ℕ → Bool
is_line_end c = (c == 13) || (c == 10)

abbrev pub keep_line : Bool → ℕ → Str → Str
keep_line true c [] = []
keep_line true c (d ∷ s) = c ∷ d ∷ s
keep_line false c s = c ∷ s

unfoldable pub trim_line_end : Str → Str
trim_line_end [] = []
trim_line_end (c ∷ s) = keep_line (is_line_end c) c (trim_line_end s)

-- `split_once(':')`.
abbrev pub split_here : Bool → ℕ → Str → Option (Str × Str) → Option (Str × Str)
split_here true c s later = some ([], s)
split_here false c s none = none
split_here false c s (some (field, value)) = some (c ∷ field, value)

unfoldable pub split_colon : Str → Option (Str × Str)
split_colon [] = none
split_colon (c ∷ s) = split_here (c == b':') c s (split_colon s)

abbrev pub without_space : Str → Str
without_space [] = []
without_space (c ∷ s) = if c == 32 then s else c ∷ s

abbrev pub field_and_value : Str → Option (Str × Str) → Str × Str
field_and_value line none = (line, [])
field_and_value line (some (field, value)) = (field, without_space value)

-- `join("\n")`.
unfoldable pub join_lines : List Str → Str
join_lines [] = []
join_lines (line ∷ []) = line
join_lines (line ∷ next ∷ rest) = line ++ 10 ∷ join_lines (next ∷ rest)

unfoldable pub read_field : SseState → Str × Str → Result SseState
read_field s (field, value) =
    if str_eq field (lit "event")
    then ok (record s { event_type = some value })
    else if str_eq field (lit "data")
    then (let bytes = min u64_max (s.current_data_bytes + str_len value) in
        fail_if (ltb max_sse_event_data_bytes bytes) (
          protocol_error
            "A2A SSE event from {endpoint} exceeds the {MAX_SSE_EVENT_DATA_BYTES} byte data limit")
        >>= λ fits.
            ok (record s { data_lines = s.data_lines ++ value ∷ []; current_data_bytes = bytes }))
    else ok s

abbrev pub is_comment : Str → Bool
is_comment [] = false
is_comment (c ∷ s) = c == b':'

module _ {ℓ} {S : Type ℓ} (on_record : S → SseRecord → Result S) where
  abbrev pub dispatch_lines : SseState → S → List Str → Result (SseState × S)
  dispatch_lines s seen [] = ok (initial, seen)
  dispatch_lines s seen (line ∷ rest) =
      on_record seen (record { event_type = s.event_type; record_data = join_lines (line ∷ rest) })
      >>= λ next. ok (initial, next)

  unfoldable pub dispatch_sse_record : SseState → S → Result (SseState × S)
  dispatch_sse_record s seen = dispatch_lines s seen s.data_lines

  -- One round of the loop, with the line without its end.
  unfoldable pub read_sse_line : SseState → S → Str → Result (SseState × S)
  read_sse_line s seen field_line =
      if is_empty field_line
      then dispatch_sse_record s seen
      else if is_comment field_line
      then ok (s, seen)
      else (read_field s (field_and_value field_line (split_colon field_line)) >>= λ next.
          ok (next, seen))

  unfoldable pub read_on : SseState → S → List (Result Str) → Result S
  read_on s seen [] = dispatch_sse_record s seen >>= λ done. ok done.1
  read_on s seen (called ∷ reader) = called >>= λ line.
      read_sse_line s seen (trim_line_end line) >>= λ read. read_on read.0 read.1 reader

  unfoldable pub read_sse_records : S → List (Result Str) → Result S
  read_sse_records = read_on initial
