-- ===== src/Tools/Sse/Frames.antt =====
-- tools/sse_probe.py: `StreamResult`, and `_record_frame`, which counts a frame and looks at its fields.
-- Times are in milliseconds since the program started; `decode` is Python's UTF-8 decoder with
-- replacement characters.
use homeassistant_2gig_gc.Prelude.{
  ℕ, ◌+◌, Bool, false, Option, none, List, [], ◌∷◌, ◌++◌, Text, codes, text_Eq, Dict, length, take,
  contains, ltb, strip, starts_with, splitlines, before_first, if◌then◌else◌,
}
use homeassistant_2gig_gc.Tools.Sse.Framing.{Bytes}

pub record StreamResult : Type 0 where
  pub label : Text
  pub connected : Bool
  pub status : Option ℕ
  pub content_type : Text
  pub headers : Dict Text Text
  pub frames : ℕ
  pub bytes_read : ℕ
  pub first_frame_at : Option ℕ
  pub last_frame_at : Option ℕ
  pub max_gap : ℕ
  pub sse_fields : List Text
  pub samples : List Text
  pub error : Text
  pub closed_by_server : Bool
  pub residue : Text
  pub silence_at_close : ℕ
  pub open_for : ℕ
  pub events : ℕ
  pub preamble : Text
  pub chunks : ℕ
  pub read_timed_out : Bool

-- `StreamResult(label=label)`
abbrev pub new_result : Text → StreamResult
new_result label = record {
  label = label;
  connected = false;
  status = none;
  content_type = [];
  headers = [];
  frames = 0;
  bytes_read = 0;
  first_frame_at = none;
  last_frame_at = none;
  max_gap = 0;
  sse_fields = [];
  samples = [];
  error = [];
  closed_by_server = false;
  residue = [];
  silence_at_close = 0;
  open_for = 0;
  events = 0;
  preamble = [];
  chunks = 0;
  read_timed_out = false;
}

abbrev pub field_names : List Text
field_names = codes "event" ∷ codes "data" ∷ codes "id" ∷ codes "retry" ∷ []

abbrev pub keepalive : Text
keepalive = codes "comment(keepalive)"

-- `sse_fields.add(name)`
abbrev pub add_field : List Text → Text → List Text
add_field fields name = if contains fields name then fields else name ∷ fields

-- What one line of a frame adds to the fields.
unfoldable pub note_line : List Text → Text → List Text
note_line fields line =
    let name = strip (before_first b':' line) in
    if contains field_names name
    then add_field fields name
    else if starts_with line (codes ":")
    then add_field fields keepalive
    else fields

unfoldable pub note_lines : List Text → List Text → List Text
unfolding note_line
note_lines fields [] = fields
note_lines fields (line ∷ lines) = note_lines (note_line fields line) lines

-- `_record_frame` behind its test, on the text of the frame.
unfoldable pub record_text : Bool → StreamResult → Text → StreamResult
unfolding note_lines
record_text preamble res text = record res {
  frames = res.frames + 1;
  preamble = if preamble then take 200 text else res.preamble;
  events = if preamble then res.events else res.events + 1;
  sse_fields = note_lines res.sse_fields (splitlines text);
  samples = if ltb (length res.samples) 8 then res.samples ++ take 1500 text ∷ [] else res.samples;
}

abbrev pub unless_empty : Bool → StreamResult → Text → StreamResult
unless_empty preamble res [] = res
unless_empty preamble res (c ∷ text) = record_text preamble res (c ∷ text)

-- `_record_frame`
unfoldable pub record_frame : (Bytes → Text) → Bool → StreamResult → Bytes → StreamResult
unfolding record_text
record_frame decode preamble res raw = unless_empty preamble res (strip (decode raw))

-- One call of `_record_frame` for each frame.
unfoldable pub record_frames : (Bytes → Text) → Bool → StreamResult → List Bytes → StreamResult
unfolding record_frame
record_frames decode preamble res [] = res
record_frames decode preamble res (raw ∷ raws) =
    record_frames decode preamble (record_frame decode preamble res raw) raws
