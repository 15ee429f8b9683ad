-- ===== src/Lib.antt =====
-- Loreline, the live path: from the microphone to the transcript.
--
-- A capture source yields timestamped PCM frames. On the utterance path a voice detector and a
-- chunker group them into utterances, which a router sends to a speech-to-text vendor, with
-- failover to a second one. On the streaming path the frames go to one vendor's socket and the
-- vendor's signals open, update and close turns. Either way the transcript events are labelled
-- with speakers and published on an event bus, which fans them out to the live pages and the
-- stores.
--
-- The files and what they model (paths from the repository's root):
--   Prelude     numbers, lists, strings, insertion-ordered dicts (Python's dict)
--   Transcript  src/loreline/models.py: Word, TranscriptEvent
--   Stream      src/loreline/stt/streaming.py: TranscriptStream. Model is its state, Turns the
--               books of open turns (_open, _apply, _close, _settle_open and what they call),
--               Queue feed, stop and _drain, Gaps the marker of a lost span, Connection one
--               connection (_serve, _send_loop, _write, _read, _teardown), Run the retry loop.
--               Books, Evict, Invariant, Rows, Settle, Endings, Serve, Budget, Late and Marks
--               hold the lemmas, by what they are about.
--   Diarize     src/loreline/diarization/merge.py, and merge_diarization of stt/router.py
--   Router      src/loreline/stt/router.py: SttRouter
--   Audio       src/loreline/audio/chunker.py (Chunker, Chunks), audio/rolling.py (Rolling,
--               Window),
--               audio/client_source.py (Client, Mic, Feed)
--   Session     src/loreline/session/streaming.py: StreamPath (Path, with its lemmas in Feed and
--               Ends), and src/loreline/session/manager.py: the slot of SessionManager (Manager,
--               with its lemmas in Slot, Ledger
--               and Once), its capture loop (Capture, Closing, Recording), the
--               disk watch (Disk), what StreamPath is to the loop (Sink), and the live path, from a
--               stream to a router to a mere recording (Live, Reasons)
--   Export      src/loreline/export.py: the versions of a transcript (Versions, Views) and its
--               subtitles (Spans, Cues, Layout, Clock, with their lemmas in Playable and Runs)
--   Bus         src/loreline/bus.py (Model, Delivery) and src/loreline/logbus.py (Logs)
--   Persistence src/loreline/persistence/repositories.py: TranscriptRepository (Segments), with its
--               lemmas in Turns (one row for a turn), Order and Sorted (reading in order)
--   Reprocess   src/loreline/reprocess/jobs.py: the job and the words of its failures (Job), the
--               table of jobs, which is ReprocessRepository of persistence/repositories.py
--               (Table), the work of a re-transcription, over Router, and of a diarize job
--               (Work), _run (Run), enqueue, cancel and delete_version (Manager). Foreign and
--               OneVersion are about the other versions, Copies, Cut, Shown and Whole about the relabelled
--               copy, Stored, Transcribed and Nothing about a re-transcription's rows, Kept and
--               Settled about the job's row, Deleted, Accepted and Swept about the manager.
--   Backends    src/loreline/stt/backends/assemblyai.py: the audio messages and the signals of a
--               streaming connection (Assembly, Blocks)
--   Sessions    src/loreline/web/routes/sessions.py: merge_sessions (Merge, with its
--               lemmas in Sources, Best, Timeline and Merged)
--   Tests, Examples, SessionExamples, CaptureExamples, ExportExamples and ReprocessExamples hold concrete inputs.
--
-- How state is modelled. Each class is a record, and each method a function from the record and
-- the clock to the record. What leaves the program (a bus publication, a request, an alert) is
-- put on a history in the record, newest first. A call that can raise returns an Option or a data
-- type of how it ended. What comes from outside is an argument: the vendor's signals and answers,
-- the instants the clock gives, the moments at which coroutines take turns, what a native library
-- makes of a block. A coroutine runs undisturbed between two awaits, so the interleavings of one
-- connection are the lists of its Moments. A write to the socket is one step with the bookkeeping
-- around it, and one signal is applied as one step.
--
-- A provider's stream, inside StreamPath, is a script of the stream model together with what the
-- capture loop has done to the path's fields by its end; speaker labels land at the events of a
-- stream and at the path's end. The session manager's operations hold its lock from end to end, so
-- each is one step of a relation, and a teardown step is taken or fails.
--
-- A table is the list of its rows and a statement a function on it, taken as one step that does not
-- fail, but for the statements of the loop in which a diarize job writes its copies: there a row's
-- write or the write of the count may raise an exception or a CancelledError. A run of a job is one
-- function: what its collaborators raise, the utterances at which the cancel flag is up, and the row
-- at which a CancelledError arrives, are its inputs. What the writes of the running count put in the
-- job's row is left out, so the row changes when the run starts and when it ends. The statement that empties a copy before it is written anew is not interrupted.
--
-- Numbers. Instants and spans are whole microseconds as signed integers, where the source has
-- floats of seconds; chunk lengths are whole milliseconds, as in the source; the rolling window
-- counts bytes of audio. PCM is a list of byte values. In the export a text is the list of its
-- code points, since the source counts characters.
--
-- Loops are structural: over the queue, the signals, the script of attempts or the utterances. The
-- eviction loop runs on fuel, the number of open turns, and a turn less is open after each round.
-- The cutting of AssemblyAI's audio messages has fuel for
-- every byte that is held. Numerals are printed on fuel: a number has at most as many digits as it has units, and one.
--
-- Not modelled: sockets, HTTP, storage, the web application but for its merge, the native audio libraries, the
-- log lines, cancellation in the middle of a step, the bodies of the session manager's teardown
-- steps and its level meter, the wording of the export's file formats, the other tables of the
-- database, the speaker bank of a job and the handles of its task, and monitoring.
pub mod Prelude
pub mod Transcript
pub mod Stream
pub mod Diarize
pub mod Reprocess
pub mod Router
pub mod Backends
pub mod Sessions
pub mod Session
pub mod Audio
pub mod Bus
pub mod Export
pub mod Persistence
pub mod Tests
pub mod Examples
pub mod SessionExamples
pub mod ExportExamples
pub mod CaptureExamples
pub mod ReprocessExamples
