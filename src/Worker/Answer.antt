-- ===== src/Worker/Answer.antt =====
-- apps/worker/src/analysis/response-text-stream.ts: an answer's opening is held back until its language
-- shows. The tests by regular expressions, of whether a text is mostly English and of whether it has a
-- Chinese character, are parameters: any tests.
use gist_agent.Base.Text.{concat}
use gist_agent.Base.{String, Bool, true, false, List, [], ◌∷◌, if◌then◌else◌, str_eq}

pub data Mode : Type 0 where
  waiting streaming withheld : Mode

-- `ResponseTextStream`.
pub record TextStream : Type 0 where
  pub mode : Mode
  pub held : String
  pub published : Bool

abbrev pub new_stream : Bool → TextStream
new_stream chinese = record {
  mode = if chinese then waiting else streaming;
  held = "";
  published = false;
}

module _ (is_english has_chinese : String → Bool) where
  -- `push` of a fragment that is not empty, by the mode: the text that it shows, and the stream.
  abbrev pub push_by : Mode → String → TextStream → String × TextStream
  push_by withheld fragment s = ("", s)
  push_by streaming fragment s = (fragment, record s { published = true })
  push_by waiting fragment s =
      let text = concat s.held fragment in
      if is_english text
      then ("", record s { mode = withheld; held = "" })
      else if has_chinese text
      then (text, record { mode = streaming; held = ""; published = true })
      else ("", record s { held = text })

  -- `push`.
  unfoldable pub push : String → TextStream → String × TextStream
  push fragment s = if str_eq fragment "" then ("", s) else push_by s.mode fragment s

  -- All that some fragments show, and the stream after them.
  unfoldable pub push_all : List String → TextStream → String × TextStream
  unfolding push
  push_all [] s = ("", s)
  push_all (f ∷ fs) s = let rest = push_all fs (push f s).1 in (concat (push f s).0 rest.0, rest.1)

-- `finish`: the text that it shows.
unfoldable pub finish_answer : String → TextStream → String
finish_answer content s = if s.published then "" else content

abbrev pub join_all : List String → String
join_all [] = ""
join_all (f ∷ fs) = concat f (join_all fs)
