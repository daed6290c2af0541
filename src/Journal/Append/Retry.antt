-- ===== src/Journal/Append/Retry.antt =====
-- An append behind one whose `file.Sync` or `file.Close` failed: `appendFrame` and `readSegment` of
-- internal/persistence/journal/store.go.
use hacker_sprint2_sim.Common.{List}
use hacker_sprint2_sim.Journal.Bytes.{Bytes}
