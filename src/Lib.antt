-- ===== src/Lib.antt =====
-- CheckSyncFiles compares two directory trees on Windows and can make the second equal to the first.
-- This library models the program's decisions: which pairs of entries are equal, which rows a
-- comparison reports, which actions a synchronisation takes, in which order and on which paths, which
-- parts of a file a partial verification reads, and which rows of an interrupted session are reused.
--
-- The parts, the files of the program, and the modules that model them:
--   - src/Filesystem/PathUtil.cpp: Path (NormalizeRoot is normalize_root, and so on).
--   - src/Filesystem/FileEntry.h, the kinds of ReparsePoint.h, src/Comparison/ScanMode.h: Entry.
--   - src/Filesystem/FileIndex.cpp: Index, over Map, the model of std::unordered_map.
--   - src/Filesystem/ReparsePoint.cpp, the forms of a link target: Reparse.
--   - src/Comparison/ComparisonResult.h and RowCapture.h: Result.
--   - src/Comparison/ClassifyUtil.cpp, the verdict on a pair, shared by all comparers: Classify.
--   - src/Comparison/FileComparator.cpp, the serial comparer: Compare (one pair) and Compare.Run (the
--     streaming run, the filter of extra directories, recordMissing).
--   - src/Comparison/MatchTable.h, where the workers of the concurrent comparer meet: MatchTable.
--   - src/Hashing/PartialRead.cpp: Partial. src/Util/StrictNumbers.h: Numbers.
--   - src/Session/ScanSession.h and SessionLogic.cpp: Session; ResumePlan.cpp: Session.Resume (the
--     counters and the rows) and Session.Resume.Plan (PlanResume).
--   - src/Sync/SyncPath.cpp, ResolveWithinRoot: Sync.Path.
--   - src/Sync/SyncPlan.cpp: Sync.Plan (the Append helpers) and Sync.Build (BuildSyncPlan and
--     BuildSingleActionPlan), with the proofs in modules named for what they prove.
--   - src/Sync/SyncExecutor.cpp: Sync.Execute (the pieces of one action) and Sync.Execute.Loop
--     (ExecutePlan), over Sync.Fs, the operations of src/Sync/SyncFs.h, SyncPath.h and ReparsePoint.h
--     that it calls, as a record; State is the notation for code that changes the machine.
--   - src/Sync/SyncFs.cpp, DeleteDirGuarded: Sync.Guarded; its other operations and CheckParentChain
--     of src/Sync/SyncPath.cpp over the calls of Windows: Sync.Disk and Sync.Disk.Write.
--   - src/Export/ExportUtil.cpp, CsvExporter.cpp and JsonExporter.cpp: Export.
--   - src/Filesystem/ReparsePoint.cpp, ParseReparsePayload and the buffer of a junction that CreateLink
--     writes: Reparse.Payload.
--   - src/Filesystem/FileIndexSerializer.cpp: Snapshot, over Snapshot.Stream (Writer and Reader).
-- The comparison hands rows (FileResult) to the plan builder, which checks each path with
-- ResolveWithinRoot; a resumed session hands on rows that it rebuilt from its journal.
--
-- Strings are lists of code units. Case mapping, UTF-8 conversion and SHA-256 belong to Windows, and
-- are the parameter Win of the definitions that use them; where a theorem needs that the case mapping
-- works unit by unit and keeps the backslash, it takes that as the hypothesis IsCharwise. uint64_t
-- and size_t are natural numbers with the wrap-around modulo 2^64 written out (Entry.inc64, add64).
-- Loops are structural recursions, so no fuel is used (std::to_wstring, which is a library function,
-- has the fuel 20, the number of digits of the largest uint64_t). The loop of DeleteDirGuarded ends
-- only if the directory stops changing, which the program does not control: the model runs it for any
-- number of turns, and gives none when it has not ended by then. The machine that the executor works
-- on is any type of states with the operations of Sync.Fs: each call returns a value and the next
-- state, so other processes and the user, who sets the cancel flag, may change it at each call. An enumeration is a list of events, each with
-- the value of the cancel flag that its callback reads. std::sort leaves the order of ties open: the
-- model keeps tied elements in place (Sorting). The iteration order of an unordered map is that of
-- the model's association list.
--
-- Not modelled: threads and locks (each call is one step, and interleavings are sequences of steps),
-- the enumerators, hashing and file I/O, the calls of CreateLink, FreeBytesOnVolume, the store of
-- sessions, and the user interfaces. Text that is only shown to the user is modelled where
-- it stands in a result.
pub mod Common
pub mod Text
pub mod Sorting
pub mod Windows
pub mod Path
pub mod Map
pub mod Entry
pub mod Index
pub mod Result
pub mod Reparse
pub mod Classify
pub mod Compare
pub mod MatchTable
pub mod Numbers
pub mod Partial
pub mod Session
pub mod Snapshot
pub mod Export
pub mod State
pub mod Sync
pub mod Tests
