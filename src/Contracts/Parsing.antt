-- ===== src/Contracts/Parsing.antt =====
-- packages/contracts/src/index.ts: the messages that a queue or an outbox row carries, read from JavaScript
-- values. The event of a terminal payload is checked for its type and passed on as it is.
use gist_agent.Base.{
  ℕ, String, Bool, true, false, not, ◌==◌, ==_iff, str_eq, if◌then◌else◌, Result, ok, err, ◌>>=◌,
  >>=-eq-ok, ok-injective, eq_iff, ◌↔◌, ◌≡◌, refl, ap, subst, ◌∙◌, arith,
}
use gist_agent.Sql.{Node, Entries, entry_at, get}

pub data ParseFault : Type 0 where
  invalid_generation_job invalid_terminal_payload : ParseFault

-- `GenerationJob`, of version 1.
pub record GenerationJob : Type 0 where
  pub generation_id : String

-- `GenerationTerminalOutboxPayload`, of version 1 and kind generation.terminal.
pub record TerminalPayload : Type 0 where
  pub generation_id : String
  pub user_id : ℕ
  pub conversation_id : String
  pub message_id : String
  pub event : Entries

-- A value of a type, or the error.
abbrev pub text_or : ParseFault → Node → Result ParseFault String
text_or fault (Node.text s) = ok s
text_or fault _ = err fault

abbrev pub number_or : ParseFault → Node → Result ParseFault ℕ
number_or fault (Node.number n) = ok n
number_or fault _ = err fault

abbrev pub object_or : ParseFault → Node → Result ParseFault Entries
object_or fault (Node.object es) = ok es
object_or fault _ = err fault

abbrev pub expect : ParseFault → Bool → Result ParseFault (Unit {0})
expect fault b = if not b then err fault else ok tt

-- `parseGenerationJob`.
unfoldable pub parse_generation_job : Node → Result ParseFault GenerationJob
unfolding get
parse_generation_job v = number_or invalid_generation_job (get "version" v) >>= λ version.
    expect invalid_generation_job (version == 1) >>= λ _.
    text_or invalid_generation_job (get "generationId" v) >>= λ id.
    expect invalid_generation_job (not (str_eq id "")) >>= λ _. ok (record { generation_id = id })

-- `parseGenerationTerminalOutboxPayload`.
unfoldable pub parse_generation_terminal_outbox_payload : Node → Result ParseFault TerminalPayload
unfolding get entry_at
parse_generation_terminal_outbox_payload v =
    number_or invalid_terminal_payload (get "version" v) >>= λ version.
    expect invalid_terminal_payload (version == 1) >>= λ _.
    text_or invalid_terminal_payload (get "kind" v) >>= λ kind.
    expect invalid_terminal_payload (str_eq kind "generation.terminal") >>= λ _.
    text_or invalid_terminal_payload (get "generationId" v) >>= λ generation_id.
    number_or invalid_terminal_payload (get "userId" v) >>= λ user_id.
    text_or invalid_terminal_payload (get "conversationId" v) >>= λ conversation_id.
    text_or invalid_terminal_payload (get "messageId" v) >>= λ message_id.
    object_or invalid_terminal_payload (get "event" v) >>= λ event.
    text_or invalid_terminal_payload (entry_at "type" event) >>= λ _. ok (record {
      generation_id = generation_id;
      user_id = user_id;
      conversation_id = conversation_id;
      message_id = message_id;
      event = event;
    })

text_or-eq-ok :
    (fault : ParseFault) (v : Node) {s : String} → text_or fault v ≡ ok s → v ≡ Node.text s
text_or-eq-ok fault (Node.text t) h = ap Node.text (ok-injective h)
text_or-eq-ok fault _ h = cc

number_or-eq-ok :
    (fault : ParseFault) (v : Node) {n : ℕ} → number_or fault v ≡ ok n → v ≡ Node.number n
number_or-eq-ok fault (Node.number m) h = ap Node.number (ok-injective h)
number_or-eq-ok fault _ h = cc

expect-eq-ok : (fault : ParseFault) (b : Bool) {a : Unit {0}} → expect fault b ≡ ok a → b ≡ true
expect-eq-ok fault true h = refl
expect-eq-ok fault false h = cc

-- What is queued as a job for a generation: a value of version 1 whose generationId is this text.
abbrev pub IsJobFor : Node → String → Type 0
IsJobFor v id =
    (get "version" v ≡ Node.number 1)
    × (get "generationId" v ≡ Node.text id)
    × (str_eq id "" ≡ false)

-- A value is read as a job exactly where it has version 1 and a generationId that is a text and not
-- empty, which the job then has.
pub parse_generation_job_iff :
    (v : Node) (j : GenerationJob) → (parse_generation_job v ≡ ok j) ↔ IsJobFor v j.generation_id
unfolding parse_generation_job
parse_generation_job_iff v j = (reads, writes)
  where
    reads : parse_generation_job v ≡ ok j → IsJobFor v j.generation_id
    reads h =
        let (version, h1, h2) =
          >>=-eq-ok (number_or invalid_generation_job (get "version" v)) _ h in
        let (a, h3, h4) = >>=-eq-ok (expect invalid_generation_job (version == 1)) _ h2 in
        let (id, h5, h6) = >>=-eq-ok (text_or invalid_generation_job (get "generationId" v)) _ h4 in
        let (b, h7, h8) = >>=-eq-ok (expect invalid_generation_job (not (str_eq id ""))) _ h6 in
        let same : id ≡ j.generation_id = ap (λ x. x.generation_id) (ok-injective h8) in
        (
          number_or-eq-ok invalid_generation_job (get "version" v) h1
              ∙ ap Node.number
                  ((==_iff version 1).0 (expect-eq-ok invalid_generation_job (version == 1) h3)),
          text_or-eq-ok invalid_generation_job (get "generationId" v) h5 ∙ ap Node.text same,
          subst (λ s. str_eq s "" ≡ false) same
              (ground (arith, expect-eq-ok invalid_generation_job (not (str_eq id "")) h7)),
        )

    writes : IsJobFor v j.generation_id → parse_generation_job v ≡ ok j
    writes (version, id, given) = rw (parse_generation_job, version, id, given) refl

object_or-eq-ok :
    (fault : ParseFault) (v : Node) {es : Entries} → object_or fault v ≡ ok es → v ≡ Node.object es
object_or-eq-ok fault (Node.object fs) h = ap Node.object (ok-injective h)
object_or-eq-ok fault _ h = cc

-- A value with the fields of a terminal payload, whose event has a type.
abbrev pub IsTerminalFor : Node → TerminalPayload → Type 0
IsTerminalFor v p =
    (get "version" v ≡ Node.number 1)
    × (get "kind" v ≡ Node.text "generation.terminal")
    × (get "generationId" v ≡ Node.text p.generation_id)
    × (get "userId" v ≡ Node.number p.user_id)
    × (get "conversationId" v ≡ Node.text p.conversation_id)
    × (get "messageId" v ≡ Node.text p.message_id)
    × (get "event" v ≡ Node.object p.event)
    × (type : String) × (entry_at "type" p.event ≡ Node.text type)

-- A value is read as a terminal payload exactly where it has version 1, the kind generation.terminal,
-- the payload's identifiers as texts, its user as a number, and its event, an object whose type is a text.
pub parse_generation_terminal_outbox_payload_iff :
    (v : Node) (p : TerminalPayload)
    → (parse_generation_terminal_outbox_payload v ≡ ok p) ↔ IsTerminalFor v p
unfolding parse_generation_terminal_outbox_payload
parse_generation_terminal_outbox_payload_iff v p = (reads, writes)
  where
    reads : parse_generation_terminal_outbox_payload v ≡ ok p → IsTerminalFor v p
    reads h =
        let f = invalid_terminal_payload in
        let (version, h1, k1) = >>=-eq-ok (number_or f (get "version" v)) _ h in
        let (a, h2, k2) = >>=-eq-ok (expect f (version == 1)) _ k1 in
        let (kind, h3, k3) = >>=-eq-ok (text_or f (get "kind" v)) _ k2 in
        let (b, h4, k4) = >>=-eq-ok (expect f (str_eq kind "generation.terminal")) _ k3 in
        let (generation, h5, k5) = >>=-eq-ok (text_or f (get "generationId" v)) _ k4 in
        let (user, h6, k6) = >>=-eq-ok (number_or f (get "userId" v)) _ k5 in
        let (conversation, h7, k7) = >>=-eq-ok (text_or f (get "conversationId" v)) _ k6 in
        let (message, h8, k8) = >>=-eq-ok (text_or f (get "messageId" v)) _ k7 in
        let (event, h9, k9) = >>=-eq-ok (object_or f (get "event" v)) _ k8 in
        let (type, h10, k10) = >>=-eq-ok (text_or f (entry_at "type" event)) _ k9 in
        subst (IsTerminalFor v) (ok-injective k10) (
          number_or-eq-ok f (get "version" v) h1
              ∙ ap Node.number ((==_iff version 1).0 (expect-eq-ok f (version == 1) h2)),
          text_or-eq-ok f (get "kind" v) h3
              ∙ ap Node.text (
                  (eq_iff kind "generation.terminal").0
                    (expect-eq-ok f (str_eq kind "generation.terminal") h4)),
          text_or-eq-ok f (get "generationId" v) h5,
          number_or-eq-ok f (get "userId" v) h6,
          text_or-eq-ok f (get "conversationId" v) h7,
          text_or-eq-ok f (get "messageId" v) h8,
          object_or-eq-ok f (get "event" v) h9,
          type,
          text_or-eq-ok f (entry_at "type" event) h10,
        )

    writes : IsTerminalFor v p → parse_generation_terminal_outbox_payload v ≡ ok p
    writes (version, kind, generation, user, conversation, message, event, type, typed) =
        rw
          (
            parse_generation_terminal_outbox_payload, version, kind, generation, user, conversation,
            message, event, typed,
          )
          refl
