-- ===== src/Worker/Coalescing.antt =====
-- What the buffer of text fragments keeps: the events as a reader sees them, with adjacent fragments
-- joined.
use gist_agent.Base.Text.{concat}
use gist_agent.Base.{
  String, Bool, Option, none, some, true, false, List, [], ◌∷◌, ◌++◌, ◌≡◌, refl, sym, ap, ◌∙◌,
  if◌then◌else◌, get_or_else, Bool-cases, inl, inr, append_assoc as list_assoc, append-nil,
}
use text.Mathlib.TextLemmas.{append_assoc}
use gist_agent.Contracts.{ConversationEvent, text_chunk}
use gist_agent.Worker.Buffer.{
  is_chunk, TextBuffer, flush, merge, send, Tick, sends, timer, run_buffer, sent,
}

-- The text of an event; one without content has the empty text.
abbrev pub text_of : ConversationEvent → String
text_of e = get_or_else e.content ""

abbrev pub is_fragment : ConversationEvent → Bool
is_fragment e = elim e.type [ text_chunk ↦ true | _ ↦ false ]

abbrev pub with_text : String → ConversationEvent → ConversationEvent
with_text s e = record e { content = some s }

-- A fragment joins the run of fragments after it: its text comes first, and all else is its own.
abbrev pub join_run : ConversationEvent → List ConversationEvent → List ConversationEvent
join_run e [] = with_text (text_of e) e ∷ []
join_run e (f ∷ fs) =
    if is_fragment f
    then with_text (concat (text_of e) (text_of f)) e ∷ fs
    else with_text (text_of e) e ∷ f ∷ fs

-- The events with each run of fragments as one.
abbrev pub joined : List ConversationEvent → List ConversationEvent
joined [] = []
joined (e ∷ es) = let rest = joined es in if is_fragment e then join_run e rest else e ∷ rest

-- What has been sent so far: the published events and the fragment that waits.
abbrev pub held : TextBuffer → List ConversationEvent
held b = elim b.waiting [ none ↦ b.published | some e ↦ b.published ++ e ∷ [] ]

joined-prefix :
    (xs ys zs : List ConversationEvent)
    → joined ys ≡ joined zs
    → joined (xs ++ ys) ≡ joined (xs ++ zs)
joined-prefix [] ys zs h = h
joined-prefix (x ∷ xs) ys zs h =
    ap (λ rest. if is_fragment x then join_run x rest else x ∷ rest) (joined-prefix xs ys zs h)

-- A waiting fragment is one.
abbrev IsBuffer : TextBuffer → Type 0
IsBuffer b = elim b.waiting [ none ↦ Unit {0} | some e ↦ is_chunk e ≡ true ]

join_run-merge :
    (p e : ConversationEvent) (rest : List ConversationEvent)
    → is_chunk e ≡ true
    → join_run (merge p e) rest ≡ join_run p (join_run e rest)
join_run-merge p e [] h = rw h refl
join_run-merge p e (f ∷ fs) h = elim (Bool-cases (is_chunk f)) [
  | inl b ↦
      rw (b, h)
        (ap (λ s. record p { content = some s } ∷ fs)
          (append_assoc (get_or_else p.content "") (get_or_else e.content "")
            (get_or_else f.content "")))
  | inr b ↦ rw (b, h) refl
]

joined-merge :
    (p e : ConversationEvent) (rest : List ConversationEvent)
    → is_chunk p ≡ true
    → is_chunk e ≡ true
    → joined (merge p e ∷ rest) ≡ joined (p ∷ e ∷ rest)
joined-merge p e rest hp he = rw (hp, he) (join_run-merge p e (joined rest) he)

held-flush : (b : TextBuffer) → held (flush b) ≡ held b
unfolding flush
held-flush b =
    elim b.waiting
      as (λ o. held (flush (record b { waiting = o })) ≡ held (record b { waiting = o })) [
        | none ↦ refl
        | some e ↦ refl
      ]

waiting-flush : (b : TextBuffer) → (flush b).waiting ≡ none
unfolding flush
waiting-flush b = elim b.waiting as (λ o. (flush (record b { waiting = o })).waiting ≡ none) [
  | none ↦ refl
  | some e ↦ refl
]

IsBuffer-flush : (b : TextBuffer) → IsBuffer (flush b)
unfolding flush
IsBuffer-flush b = elim b.waiting as (λ o. IsBuffer (flush (record b { waiting = o }))) [
  | none ↦ tt
  | some e ↦ tt
]

published-flush : (b : TextBuffer) → (flush b).published ≡ held b
unfolding flush
published-flush b =
    elim b.waiting
      as (λ o. (flush (record b { waiting = o })).published ≡ held (record b { waiting = o })) [
        | none ↦ refl
        | some e ↦ refl
      ]

send-chunk :
    (e : ConversationEvent) (o : Option ConversationEvent) (done : List ConversationEvent)
    → is_chunk e ≡ true
    → IsBuffer (record { waiting = o; published = done })
    → joined (held (send e (record { waiting = o; published = done })))
      ≡ joined (held (record { waiting = o; published = done }) ++ e ∷ [])
unfolding send
send-chunk e none done h k = rw h refl
send-chunk e (some p) done h k = rw h (
    joined-prefix done (merge p e ∷ []) (p ∷ e ∷ []) (joined-merge p e [] k h)
    ∙ ap joined (sym (list_assoc done (p ∷ []) (e ∷ []))))

send-other :
    (e : ConversationEvent) (b : TextBuffer)
    → is_chunk e ≡ false
    → joined (held (send e b)) ≡ joined (held b ++ e ∷ [])
unfolding send
send-other e b h = rw h (ap (λ xs. joined (xs ++ e ∷ [])) (published-flush b))

send-IsBuffer :
    (e : ConversationEvent) (o : Option ConversationEvent) (done : List ConversationEvent)
    → is_chunk e ≡ true
    → IsBuffer (record { waiting = o; published = done })
    → IsBuffer (send e (record { waiting = o; published = done }))
unfolding send
send-IsBuffer e none done h k = rw h h
send-IsBuffer e (some p) done h k = rw h k

send-IsBuffer_other :
    (e : ConversationEvent) (b : TextBuffer) → is_chunk e ≡ false → IsBuffer (send e b)
unfolding send
send-IsBuffer_other e b h = rw h tt

send-joined :
    (e : ConversationEvent) (b : TextBuffer)
    → IsBuffer b
    → joined (held (send e b)) ≡ joined (held b ++ e ∷ [])
send-joined e b k = elim (Bool-cases (is_chunk e)) [
  | inl h ↦ send-chunk e b.waiting b.published h k
  | inr h ↦ send-other e b h
]

IsBuffer-send : (e : ConversationEvent) (b : TextBuffer) → IsBuffer b → IsBuffer (send e b)
IsBuffer-send e b k = elim (Bool-cases (is_chunk e)) [
  | inl h ↦ send-IsBuffer e b.waiting b.published h k
  | inr h ↦ send-IsBuffer_other e b h
]

-- A fragment whose content is written out.
abbrev plain : ConversationEvent → ConversationEvent
plain e = record e { content = some (get_or_else e.content "") }

join_run-plain :
    (e : ConversationEvent) (rest : List ConversationEvent)
    → join_run (plain e) rest ≡ join_run e rest
join_run-plain e [] = refl
join_run-plain e (f ∷ fs) = elim (Bool-cases (is_chunk f)) [ inl b ↦ rw b refl | inr b ↦ rw b refl ]

joined-join_run :
    (e : ConversationEvent) (rest zs : List ConversationEvent)
    → is_chunk e ≡ true
    → joined (join_run e rest ++ zs) ≡ join_run e (joined (rest ++ zs))
joined-join_run e [] zs h = rw h (join_run-plain e (joined zs))
joined-join_run e (f ∷ fs) zs h = elim (Bool-cases (is_chunk f)) [
  | inl b ↦ rw (b, h) (join_run-merge e f (joined (fs ++ zs)) b)
  | inr b ↦ rw b (rw (h, b) (rw b refl))
]

joined-joined : (xs zs : List ConversationEvent) → joined (joined xs ++ zs) ≡ joined (xs ++ zs)
joined-joined [] zs = refl
joined-joined (x ∷ xs) zs = elim (Bool-cases (is_chunk x)) [
  | inl b ↦ rw b (joined-join_run x (joined xs) zs b ∙ ap (join_run x) (joined-joined xs zs))
  | inr b ↦ rw b (rw b (ap (λ rest. x ∷ rest) (joined-joined xs zs)))
]

joined-append :
    (xs ys zs : List ConversationEvent)
    → joined xs ≡ joined ys
    → joined (xs ++ zs) ≡ joined (ys ++ zs)
joined-append xs ys zs h =
    sym (joined-joined xs zs) ∙ ap (λ es. joined (es ++ zs)) h ∙ joined-joined ys zs

run_buffer-joined :
    (ts : List Tick) (b : TextBuffer)
    → IsBuffer b
    → joined (held (run_buffer ts b)) ≡ joined (held b ++ sent ts)
unfolding run_buffer
run_buffer-joined [] b k = ap joined (sym (append-nil (held b)))
run_buffer-joined (sends e ∷ ts) b k =
    run_buffer-joined ts (send e b) (IsBuffer-send e b k)
    ∙ joined-append (held (send e b)) (held b ++ e ∷ []) (sent ts) (send-joined e b k)
    ∙ ap joined (list_assoc (held b) (e ∷ []) (sent ts))
run_buffer-joined (timer ∷ ts) b k =
    run_buffer-joined ts (flush b) (IsBuffer-flush b)
    ∙ ap (λ xs. joined (xs ++ sent ts)) (held-flush b)

-- However the timer falls, what a buffer has published after its last flush is what was sent, in the same
-- order, when each run of adjacent text fragments is read as its first fragment with the texts of all, one
-- after the other.
pub run_buffer-sent :
    (ts : List Tick)
    → joined (flush (run_buffer ts (record { waiting = none; published = [] }))).published
      ≡ joined (sent ts)
run_buffer-sent ts =
    ap joined (published-flush (run_buffer ts (record { waiting = none; published = [] })))
    ∙ run_buffer-joined ts (record { waiting = none; published = [] }) tt
