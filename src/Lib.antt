-- ===== src/Lib.antt =====
-- audio-server: the queue, the model lifecycle and the audio formats of a speech server in Go.
--
-- The server takes speech, transcription, analysis and separation requests over HTTP, queues them
-- per provider and runs them on models that are native sidecar processes or scripts sharing one
-- GPU. The queue serialises the providers of a resource group and keeps providers warm while they
-- have work; before a job runs, a gate acquires its model from the lifecycle manager, which keeps
-- sidecars loaded within a VRAM budget. Audio passes between them as mono PCM16 WAV.
--
-- Queue (internal/queue/queue.go) is the job manager. A manager is a record of the Go struct's
-- maps as functions, and of the jobs on a heap by number, as the code passes pointers to them.
-- Queue/Jobs models Submit, SubmitStream, Get, Position, NewRunningJob, CompleteJob, FailJob,
-- BumpChunk, SetAlignResult, AlignResult and sweep; Queue/Resources acquireResource and
-- releaseResource; Queue/Worker dequeue and run; Queue/Idle and Queue/Timers the idle timers with
-- fireIdle; Queue/System NewManager and the runs. A worker goroutine is a place in its code, and an
-- event moves one worker by one critical section, so every interleaving of workers, clients, timers
-- and the sweep is a list of events. What a provider, the run gate, the clock and the random source
-- answer stands in the events. The other files of Queue are the proofs: Effect, Exclusion and
-- Reach for resources, Counters for the counters and the lifecycle mutex, Ownership, Balance,
-- Safety, Delivery, Calls and Placement for where a job stands, Privacy and Handoff.
--
-- Lifecycle (internal/lifecycle/lifecycle.go) is the manager of the sidecars. Lifecycle/Types has
-- the instances and their registration, Lifecycle/Room makeRoomLocked and evictOldestIdleLocked,
-- Lifecycle/Start start with tryStartLocked and stopOthersLocked, Lifecycle/Calls the calls of
-- clients and the idle watcher. `startMu` makes each of these one step of a run. The loop of start
-- recurses on fuel: one more than the number of instances, since a round that goes on has evicted an
-- instance that no later round can evict. The order in which Go ranges over the map is the order of
-- a list, which may be any. How a launch ends, what the driver measures and the clock are given with
-- the event; starting and signalling processes, nvidia-smi (DetectVRAMMiB, UsedVRAMMiB) and the
-- recognition of out-of-memory messages (isOOMText) are not modelled.
--
-- Wav (internal/pcmwav/pcmwav.go) reads and writes WAV data: Wav/Parse is Parse, Wav/Encode is
-- Encode, Wav/Bytes the calls of encoding/binary. Parse's loop recurses on fuel: one more than the
-- number of bytes, as each chunk takes at least eight.
--
-- Analysis (internal/analysisjob/manager.go) is the manager of analysis jobs: Analysis/Jobs is Submit,
-- Get and the ends of a job's goroutine, Analysis/Analyze analyze, Analysis/Transcribe
-- transcribeSegments, Analysis/Merge mergeTurns with uniqueStrings and sameStrings, Analysis/Samples
-- collectSpeakerSamples. Int64 is the arithmetic of int64, which wraps around; a position is
-- kept as the number plus 2^63. A computation of Analysis/Effects is the list of the gates that it takes
-- and gives back, and an outcome; the answers of the models are functions. Timeline, Share, Serial,
-- Ensures, Report and Submit are proofs.
--
-- Separation (internal/separationjob/manager.go) is the manager of separation jobs:
-- Separation/Types its state and the answers of its calls out, Separation/Separate separate,
-- Separation/Jobs Submit, Get, Stem and the run of a job. Stored and Stems are proofs. The
-- store is a function from the key of a stem.
--
-- Stt (internal/sttjob/manager.go) is the manager of transcription jobs: Stt/Jobs is Submit, Get and
-- the goroutine of a job as steps that interleave with other calls. Gates and Final are proofs.
--
-- Segment (internal/segment/segment.go) packs sentences into chunks: Segment/Text has the texts with
-- the functions of package strings that the code uses, EndsSentence and Terminate, Segment/Pack is
-- Pack, Segment/Helper what Segment makes of the helper's answer. The cuts of a long sentence recurse
-- on fuel: the number of its words, since each cut takes at least one. Fields, Words, Caps and Endings
-- are proofs.
--
-- Encode (internal/encode/normalize.go) brings uploads to a provider's format: Encode/Wav16 is
-- pcm16WAV, Encode/Matches matchesWAV, Encode/Normalize NormalizeAudio and NormalizeReferenceAudio.
-- The loop of matchesWAV recurses on fuel as Parse does. Again is a proof.
--
-- Corpus (internal/sttcorpus/sttcorpus.go) keeps recordings: Corpus/Types has the recorder's files and
-- manifest, Corpus/Record is RecordUpload, the sessions and Finish. The JSON of a row is a parameter,
-- and a write to the manifest that fails may have written a part. Files, Windows, Kept and Rows are
-- proofs.
--
-- Store (internal/store/store.go) keeps audio files: Store/Files is Write, Read, Delete and sweep over
-- a directory of file names. How each call of package os ends stands in the operation. Names and
-- Refines are proofs.
--
-- Server (internal/server/server.go) answers HTTP requests: Server/Setup is New, Server/Route the
-- checks of a speech request, its voice and its provider up to decodeAndRoute, Server/Form the reading
-- of an uploaded form, Server/Auth the API key, Server/Jobs createJob and jobStatusBody over Queue,
-- with the changes of others between its calls of the manager,
-- Server/Results the goroutine of createJob with getJob, getJobAudio and getJobStream over Queue and
-- Store. Texts are code points; the tables of package unicode and the parsing of numbers are
-- parameters; a float64 is a multiple of 2^-1074, an infinity or NaN. Known, Accepted, Created,
-- Streamed, Decoded and Keys are proofs.
--
-- Transcription (internal/server/server.go, transcriptions) answers uploads for transcription:
-- Transcription/Types has the form, the effects and the answer, Transcription/Prepare the reading of
-- the fields, normalizedWAVFilename and recordTranscribedUpload, Transcription/Handle transcriptions
-- and streamTranscription. The providers, the normalizer and the run gate are functions. Inside and
-- Served are proofs.
--
-- Not modelled: the other handlers of the HTTP server (discovery, live streams to the connection,
-- live transcription, alignment, analysis and separation), the command line (cmd/audio), the clients of
-- the single models (internal/provider and its folders), the ffmpeg processes (internal/encode), and
-- all code in other languages. In the queue job ids are numbers, and the random source that makes them
-- is a parameter; contexts and their cancellation are answers of the provider; logging is left out.
pub mod Analysis
pub mod Common
pub mod Corpus
pub mod Encode
pub mod Int64
pub mod Lifecycle
pub mod Queue
pub mod Segment
pub mod Separation
pub mod Server
pub mod Store
pub mod Stt
pub mod Transcription
pub mod Wav
