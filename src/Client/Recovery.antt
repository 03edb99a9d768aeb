-- ===== src/Client/Recovery.antt =====
-- `resync` of apps/web/src/stores/chat.ts against `history` of
-- apps/api/src/chat/generation.service.ts.
use gist_agent.Base.{
  ℕ, ◌≤◌, ◌<◌, String, some, true, List, ◌≡◌, refl, sym, ap, ◌∙◌, subst, arith, inl, inr,
  Bool-cases, first_where, ok, ok-injective, ◌==◌, ◌&&◌, ◌||◌, not, is_empty, any,
}
use gist_agent.Contracts.{StreamEvent, is_terminal, is_done}
use gist_agent.Database.{Generation, EventRow, Message, Tables}
use gist_agent.Turns.History.{History, history, answer, is_contiguous, last_of}
use gist_agent.Lifecycle.Log.{events_of}
use gist_agent.Lifecycle.Numbering.{IsNumbered}
use gist_agent.Lifecycle.Delivery.{
  unseen, unseen-is_contiguous, unseen-last_of, unseen-generation_id, history-answer,
}
use gist_agent.Client.Blocks.{Block}
use gist_agent.Client.{
  GenerationState, Store, gap, known, apply_event, apply_events, resync, resync_known, receive,
}
use gist_agent.Client.Sequence.{
  sequence_of, number_of, known-put_eq, apply_events-sequence, known-id, apply_event-again,
}

module _ (parse_blocks : String → List Block) where
  -- Whichever form the answer has.
  resync-answer :
      (g : Generation) (content blocks : String) (state : GenerationState) (now : ℕ) (s : Store)
      (rows : List EventRow)
      → IsNumbered g (events_of g.id rows)
      → known g.id s.generations ≡ some state
      → state.sequence ≤ g.last_sequence
      → sequence_of g.id (
          resync_known parse_blocks state
            (answer g content blocks state.sequence (unseen g.id state.sequence rows))
            now
            s)
        ≡ g.last_sequence
  unfolding answer resync_known
  resync-answer g content blocks state now s rows n k le =
      let es = unseen g.id state.sequence rows in
      let at : sequence_of g.id s ≡ state.sequence = ap number_of k in
      let ids : state.id ≡ g.id = known-id g.id s.generations state k in
      let sent : sequence_of g.id (apply_events es now s) ≡ g.last_sequence =
        apply_events-sequence g.id now es s
          (subst (λ q. is_contiguous q es ≡ true) (sym at)
            (unseen-is_contiguous g state.sequence rows n))
          (unseen-generation_id g state.sequence rows n)
        ∙ ap (λ q. last_of q es) at
        ∙ unseen-last_of g state.sequence rows n le in
      elim (Bool-cases (
        is_contiguous state.sequence es
        && (not (is_empty es) || state.sequence == g.last_sequence)
        && (not (is_terminal g.status) || any (λ e. is_done e.type) es))) [
          | inl b ↦ rw b sent
          | inr b ↦ rw b (ap number_of (known-put_eq _ g.id s.generations ids))
        ]

  resync_found :
      (id : ℕ) (ask : ℕ → History) (now : ℕ) (s : Store) (state : GenerationState)
      → known id s.generations ≡ some state
      → resync parse_blocks id ask now s
        ≡ resync_known parse_blocks state (ask state.sequence) now s
  unfolding resync
  resync_found id ask now s state k = rw (k, resync) refl

  receive_gap_lem :
      (e : StreamEvent) (ask : ℕ → History) (now : ℕ) (s : Store)
      → (apply_event e now s).0 ≡ gap
      → receive parse_blocks e ask now s
        ≡ (apply_event e now (resync parse_blocks e.generation_id ask now s)).1
  unfolding receive
  receive_gap_lem e ask now s h = rw (h, receive) refl

  -- Where a browser knows a generation and has seen no more events than the numbered log has, its
  -- `resync` with the answer of `history` makes it know the number of the last event, whether the
  -- answer is the missing events or a snapshot.
  pub resync-history :
      (user_id now : ℕ) (db : Tables) (g : Generation) (m : Message) (state : GenerationState)
      (s : Store) (ask : ℕ → History)
      → first_where (λ r. r.id == g.id && r.user_id == user_id) db.generations ≡ some g
      → first_where (λ r. r.id == g.response_message_id) db.messages ≡ some m
      → IsNumbered g (events_of g.id db.events)
      → known g.id s.generations ≡ some state
      → state.sequence ≤ g.last_sequence
      → history user_id g.id state.sequence db ≡ ok (ask state.sequence)
      → sequence_of g.id (resync parse_blocks g.id ask now s) ≡ g.last_sequence
  resync-history user_id now db g m state s ask f h n k le answered =
      let sent : ask state.sequence
          ≡ answer g m.content m.blocks state.sequence (unseen g.id state.sequence db.events) =
        ok-injective (sym answered ∙ history-answer user_id g.id state.sequence db g m f h n) in
      ap (sequence_of g.id) (resync_found g.id ask now s state k)
      ∙ ap (λ r. sequence_of g.id (resync_known parse_blocks state r now s)) sent
      ∙ resync-answer g m.content m.blocks state now s db.events n k le

  -- Where an event leaves a gap, and it is one of the events of the numbered log, the browser that
  -- receives it ends with the number of the log's last event.
  pub receive-gap :
      (user_id now : ℕ) (db : Tables) (g : Generation) (m : Message) (state : GenerationState)
      (s : Store) (ask : ℕ → History) (e : StreamEvent)
      → first_where (λ r. r.id == g.id && r.user_id == user_id) db.generations ≡ some g
      → first_where (λ r. r.id == g.response_message_id) db.messages ≡ some m
      → IsNumbered g (events_of g.id db.events)
      → known g.id s.generations ≡ some state
      → state.sequence ≤ g.last_sequence
      → history user_id g.id state.sequence db ≡ ok (ask state.sequence)
      → e.generation_id ≡ g.id
      → e.sequence ≤ g.last_sequence
      → 0 < e.sequence
      → (apply_event e now s).0 ≡ gap
      → sequence_of g.id (receive parse_blocks e ask now s) ≡ g.last_sequence
  receive-gap user_id now db g m state s ask e f h n k le answered own logged pos missing =
      let caught_up : sequence_of g.id (resync parse_blocks e.generation_id ask now s)
          ≡ g.last_sequence =
        ap (λ i. sequence_of g.id (resync parse_blocks i ask now s)) own
        ∙ resync-history user_id now db g m state s ask f h n k le answered in
      let synced = resync parse_blocks e.generation_id ask now s in
      let seen : e.sequence ≤ sequence_of e.generation_id synced =
        subst (λ i. e.sequence ≤ sequence_of i synced) (sym own)
          (omega (arith, caught_up, logged)) in
      ap (sequence_of g.id) (receive_gap_lem e ask now s missing)
      ∙ ap (λ r. sequence_of g.id r.1)
          (apply_event-again e now (resync parse_blocks e.generation_id ask now s) seen pos)
      ∙ caught_up
