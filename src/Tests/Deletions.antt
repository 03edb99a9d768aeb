-- ===== src/Tests/Deletions.antt =====
-- A user removes the conversation in which a question was asked.
