-- ===== src/Client/Blocks.antt =====
-- `applyBlock` of apps/web/src/stores/chat.ts: what an event does to the blocks of a message.
use gist_agent.Base.Text.{prefix_of, concat}
use gist_agent.Base.{
  ℕ, String, Option, none, some, Bool, true, false, ◌&&◌, List, [], ◌∷◌, ◌++◌, if◌then◌else◌,
  str_eq, is_none, get_or_else, any,
}
use gist_agent.Contracts.{
  EventType, text, text_chunk, reasoning_chunk, done, chart, chart_loading, log, log_update,
  log_remove, analysis_activity, analysis_activity_remove, Activity, ConversationEvent, is_text,
}

-- `MessageBlock`; the fields that are only passed on to the renderer are the text `display`.
pub record Block : Type 0 where
  pub type : EventType
  pub content : Option String
  pub title : Option String
  pub activity : Option Activity
  pub analysis : Option String
  pub row_count : Option ℕ
  pub duration_ms : Option ℕ
  pub chart_data : Option String
  pub query_artifact_id : Option String
  pub chart_artifact_id : Option String
  pub display : String

-- `===` on values that may be undefined.
abbrev pub opt_eq : Option String → Option String → Bool
opt_eq none none = true
opt_eq (some a) (some b) = str_eq a b
opt_eq _ _ = false

abbrev pub activity_id_of : Option Activity → Option String
activity_id_of none = none
activity_id_of (some a) = some a.id

abbrev pub is_activity : EventType → Bool
is_activity analysis_activity = true
is_activity _ = false

abbrev is_log : EventType → Bool
is_log log = true
is_log _ = false

abbrev is_chart : EventType → Bool
is_chart chart = true
is_chart _ = false

abbrev pub is_activity_of : Option String → Block → Bool
is_activity_of id b = is_activity b.type && opt_eq (activity_id_of b.activity) id

-- A log block that still runs: its text starts with 正在.
abbrev pub is_running_log : Option String → Block → Bool
is_running_log title b =
    is_log b.type && opt_eq b.title title && str_eq (prefix_of 2 (get_or_else b.content "")) "正在"

abbrev pub is_empty_chart : Block → Bool
is_empty_chart b = is_chart b.type && is_none b.chart_data

-- A block with a type only.
abbrev pub blank : EventType → Block
blank t = record {
  type = t;
  content = none;
  title = none;
  activity = none;
  analysis = none;
  row_count = none;
  duration_ms = none;
  chart_data = none;
  query_artifact_id = none;
  chart_artifact_id = none;
  display = "";
}

-- `findIndex` and an assignment or a `splice` at the index.
abbrev pub replace_first : (Block → Bool) → Block → List Block → List Block
replace_first p new [] = []
replace_first p new (b ∷ bs) = if p b then new ∷ bs else b ∷ replace_first p new bs

abbrev pub remove_first : (Block → Bool) → List Block → List Block
remove_first p [] = []
remove_first p (b ∷ bs) = if p b then bs else b ∷ remove_first p bs

-- The same from the end.
abbrev pub change_last : (Block → Bool) → (Block → Block) → List Block → List Block
change_last p f [] = []
change_last p f (b ∷ bs) =
    let rest = change_last p f bs in if any p bs then b ∷ rest else (if p b then f b else b) ∷ bs

abbrev pub remove_last : (Block → Bool) → List Block → List Block
remove_last p [] = []
remove_last p (b ∷ bs) =
    let rest = remove_last p bs in if any p bs then b ∷ rest else if p b then bs else b ∷ bs

-- A chunk of text goes to the last block, if that is a text outside of an analysis.
abbrev pub append_text : String → List Block → List Block
append_text s [] = record (blank text) { content = some s } ∷ []
append_text s (b ∷ []) =
    if is_text b.type && is_none b.analysis
    then record b { content = some (concat (get_or_else b.content "") s) } ∷ []
    else b ∷ record (blank text) { content = some s } ∷ []
append_text s (b ∷ c ∷ bs) = b ∷ append_text s (c ∷ bs)

-- The block of an event of any other type.
abbrev pub block_of : ConversationEvent → Block
block_of e = record {
  type = e.type;
  content = e.content;
  title = e.title;
  activity = e.activity;
  analysis = e.analysis;
  row_count = e.row_count;
  duration_ms = e.duration_ms;
  chart_data = e.chart_data;
  query_artifact_id = e.query_artifact_id;
  chart_artifact_id = e.chart_artifact_id;
  display = e.display;
}

abbrev pub put_activity : ConversationEvent → Option Activity → List Block → List Block
put_activity e none bs = bs ++ block_of e ∷ []
put_activity e (some a) bs =
    let new = record (blank analysis_activity) { activity = some a } in
    if any (is_activity_of (some a.id)) bs
    then replace_first (is_activity_of (some a.id)) new bs
    else bs ++ new ∷ []

abbrev pub finish_log : ConversationEvent → Block → Block
finish_log e b = record b {
  content = e.content;
  row_count = e.row_count;
  duration_ms = e.duration_ms;
}

abbrev pub fill_chart : ConversationEvent → Block → Block
fill_chart e b = record b {
  chart_data = e.chart_data;
  query_artifact_id = e.query_artifact_id;
  chart_artifact_id = e.chart_artifact_id;
}

abbrev put_chart : ConversationEvent → List Block → List Block
put_chart e bs =
    if any is_empty_chart bs
    then change_last is_empty_chart (fill_chart e) bs
    else bs ++ fill_chart e (blank chart) ∷ []

-- `applyBlock`, by the type of the event.
abbrev pub apply_typed : EventType → ConversationEvent → List Block → List Block
apply_typed done e bs = bs
apply_typed analysis_activity e bs = put_activity e e.activity bs
apply_typed analysis_activity_remove e bs = remove_first (is_activity_of e.activity_id) bs
apply_typed text_chunk e bs = append_text (get_or_else e.content "") bs
apply_typed reasoning_chunk e bs = bs
apply_typed chart_loading e bs = bs ++ blank chart ∷ []
apply_typed log_update e bs = change_last (is_running_log e.title) (finish_log e) bs
apply_typed log_remove e bs = remove_last (is_running_log e.title) bs
apply_typed chart e bs = put_chart e bs
apply_typed _ e bs = bs ++ block_of e ∷ []

unfoldable pub apply_block : ConversationEvent → List Block → List Block
apply_block e bs = apply_typed e.type e bs
