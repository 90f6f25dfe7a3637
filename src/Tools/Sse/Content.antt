-- ===== src/Tools/Sse/Content.antt =====
-- What a subscriber records of the content of the frames, apart from counts and times.
use homeassistant_2gig_gc.Prelude.{
  ℕ, ◌+◌, ◌≡◌, refl, ap, ◌∙◌, Bool, List, [], ◌∷◌, ◌++◌, Text, length, take, ltb, strip, splitlines,
  if◌then◌else◌,
}
use homeassistant_2gig_gc.Tools.Sse.{
  Bytes, StreamResult, record_text, record_frame, record_frames, unless_empty, note_lines,
}

-- What is recorded of the content: how many frames, their fields, the samples, and the residue.
pub record Content : Type 0 where
  pub frames : ℕ
  pub sse_fields : List Text
  pub samples : List Text
  pub residue : Text

abbrev pub content_of : StreamResult → Content
content_of res = record {
  frames = res.frames;
  sse_fields = res.sse_fields;
  samples = res.samples;
  residue = res.residue;
}

abbrev pub note_text : Content → Text → Content
note_text s [] = s
note_text s (c ∷ text) = record s {
  frames = s.frames + 1;
  sse_fields = note_lines s.sse_fields (splitlines (c ∷ text));
  samples = if ltb (length s.samples) 8 then s.samples ++ take 1500 (c ∷ text) ∷ [] else s.samples;
}

module _ (decode : Bytes → Text) where
  abbrev pub note_frames : Content → List Bytes → Content
  note_frames s [] = s
  note_frames s (raw ∷ raws) = note_frames (note_text s (strip (decode raw))) raws

  content-unless_empty :
      (preamble : Bool) (res : StreamResult) (text : Text)
      → content_of (unless_empty preamble res text) ≡ note_text (content_of res) text
  unfolding record_text
  content-unless_empty preamble res [] = refl
  content-unless_empty preamble res (c ∷ text) = refl

  pub content-record_frames :
      (preamble : Bool) (res : StreamResult) (raws : List Bytes)
      → content_of (record_frames decode preamble res raws) ≡ note_frames (content_of res) raws
  unfolding record_frames
  content-record_frames preamble res [] = refl
  content-record_frames preamble res (raw ∷ raws) =
      content-record_frames preamble (record_frame decode preamble res raw) raws
      ∙ ap (λ s. note_frames s raws) (content-unless_empty preamble res (strip (decode raw)))

  pub note_frames-append :
      (s : Content) (xs ys : List Bytes)
      → note_frames s (xs ++ ys) ≡ note_frames (note_frames s xs) ys
  note_frames-append s [] ys = refl
  note_frames-append s (x ∷ xs) ys = note_frames-append (note_text s (strip (decode x))) xs ys
