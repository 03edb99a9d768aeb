-- ===== src/Tests/Messages.antt =====
-- A job and a terminal payload as they are read from the queue and the outbox.
use gist_agent.Base.{◌≡◌, ◌↔◌, ok}
use gist_agent.Sql.{Node, Entries}
use gist_agent.Contracts.Parsing.{
  TerminalPayload, IsJobFor, IsTerminalFor, parse_generation_job,
  parse_generation_terminal_outbox_payload, parse_generation_job_iff,
  parse_generation_terminal_outbox_payload_iff,
}

abbrev job_value : Node
job_value = Node.object (
    Entries.entry "version" (Node.number 1)
      (Entries.entry "generationId" (Node.text "g-10") Entries.no_entry))

parse_generation_job_iff_example :
    (parse_generation_job job_value ≡ ok (record { generation_id = "g-10" }))
    ↔ IsJobFor job_value "g-10"
parse_generation_job_iff_example =
    parse_generation_job_iff job_value (record { generation_id = "g-10" })

abbrev done_entries : Entries
done_entries = Entries.entry "type" (Node.text "done") Entries.no_entry

abbrev payload : TerminalPayload
payload = record {
  generation_id = "g-10";
  user_id = 1;
  conversation_id = "c-7";
  message_id = "m-12";
  event = done_entries;
}

abbrev payload_value : Node
payload_value = Node.object (
    Entries.entry "version" (Node.number 1) (
      Entries.entry "kind" (Node.text "generation.terminal") (
        Entries.entry "generationId" (Node.text "g-10") (
          Entries.entry "userId" (Node.number 1) (
            Entries.entry "conversationId" (Node.text "c-7") (
              Entries.entry "messageId" (Node.text "m-12")
                (Entries.entry "event" (Node.object done_entries) Entries.no_entry)))))))

parse_generation_terminal_outbox_payload_iff_example :
    (parse_generation_terminal_outbox_payload payload_value ≡ ok payload)
    ↔ IsTerminalFor payload_value payload
parse_generation_terminal_outbox_payload_iff_example =
    parse_generation_terminal_outbox_payload_iff payload_value payload
