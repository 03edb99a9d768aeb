-- ===== src/Tests/Runs.antt =====
-- A generation that runs, and is ended by its worker.
use gist_agent.Base.{ℕ, none, some, [], false, ok, refl}
use gist_agent.Worker.{Writer}
use gist_agent.Worker.Run.{Execution, Draw, end_run}
use gist_agent.Lifecycle.Settling.{Ends, end_run-Ends}
use gist_agent.Tests.{running_row, tables_with}

abbrev worker : Writer
worker = record {
  id = 10;
  conversation_id = 7;
  message_id = 12;
  user_id = 1;
  writer_token = some 5;
}

-- The analysis returned, and left no draft of the state.
abbrev returned : Execution
returned = record {
  started = ok tt;
  thrown = none;
  reason = none;
  ownership_lost = false;
  timed_out = false;
  drained = ok tt;
  blocks = [];
  llm_messages = "[]";
}

abbrev at_time : ℕ → Draw
at_time n = record { event_id = n; now = n }

end_run-Ends_example : Ends worker (
    end_run
      (λ db. db)
      (λ blocks. "[]")
      worker
      returned
      (at_time 200)
      (at_time 201)
      (at_time 202)
      (tables_with running_row))
end_run-Ends_example =
    end_run-Ends (λ db. db) (λ blocks. "[]") worker returned (at_time 200) (at_time 201)
      (at_time 202) (tables_with running_row)
      (record { distinct = λ db d. d; held = λ db h. h; wanted = λ db h k. k })
      (record { row = running_row; found = refl; token = refl; owned = refl }) (refl, tt)
      (λ c. refl)
