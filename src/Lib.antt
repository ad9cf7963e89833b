-- ===== src/Lib.antt =====
-- The over-the-air update service of ffos/ota, as a model with proofs.
--
-- The service is one process. CheckDaemon asks the update server for a new version and starts a
-- Downloader; the Downloader resumes the transfer of the package and checks its size and its MD5
-- digest; its listener sends events; EventLooper queues the events and hands them to the targets that
-- have registered for them, OtaDaemon and ServerDaemonImpl; ServerDaemonImpl writes messages to the
-- home application, which is connected by a socket, as a decimal size, a colon and the text.
--
-- The files, and the code they model:
--   Md5       ffos/ota/src/utils/Md5.cpp. Rounds: the macros and `MD5::transform`. Codec: `encode`,
--             `decode`, `bytesToHexString`. Context: the fields of the class and `reset`, `update`,
--             `final`, `digest`, `toString`. Checksum: `updateFile` and `Md5Checksum`. Padding defines
--             the digest of RFC 1321. Streams: the constructors with input, and the reader of an open
--             stream. Absorb, Digest, Reuse, Rfc and CodecLaws hold the proofs.
--   Socket    ffos/ota/src/socket/ClientSocket.cpp. Framing: the loop of `ReadData` over the read
--             buffer, with the helpers of ffos/ota/src/utils/StringUtils.cpp. Client: `IsConnected`,
--             `Close`, `ReadData`, `WriteData`. Rounds, Stream, Broken and Sending hold the proofs.
--   Message   ffos/ota/src/ota/message: `JoinElements`, `OtaMessage`, `SystemMessage`. Frames and
--             Delivery put the writer and the reader of the socket together.
--   Event     ffos/ota/src/event: the registry of listeners, sending, and the rounds of `doLoop`;
--             Listeners, Registry and Dispatch hold the proofs. Stored: the looper with its queue of
--             pointers, its constructor and destructor; Taking and Refinement hold the proofs.
--   Download  ffos/ota/src/download/Downloader.cpp: `checkDownloadTask`, `requireFileSize`,
--             `download`, the progress callback and `Run`. Sizes, Retries, Outcome and GivingUp hold
--             the proofs.
--   Queue     ffos/ota/include/utils/MutexQueue.h: `Push`, `Pop`, `Front` and the destructor as whole
--             calls, with the lock; Order holds the proofs. Threads: the same as single lines of any
--             number of threads that interleave; Exclusion, Lines, Plan, Consumer, Waiting, Locked,
--             Stuck, Alert and Wakeup hold the proofs. Owned: the objects behind
--             the pointers, as the event loop and the server use and delete them; Addresses, Ownership
--             and Draining hold the proofs.
--   Utf8      ffos/ota/src/utils/StringUtils.cpp: `IsUTF8`, `IsTextUTF8`, `GetFileNameFromUrl`,
--             `StartWith`, `ShiftStringRight`. Encoding, TextTest and Names hold the proofs.
--   Sessions  ffos/ota/src/socket/ServerDaemon.cpp: `addSession`, `findSessionByFd`, `cleanSessions`,
--             `removeSession`. Map and Removal hold the proofs.
--   Server    the round of `ServerDaemon::Run` with the callbacks of
--             ffos/ota/src/ota/daemon/ServerDaemonImpl.cpp (`onNewConnection`, `flushMessage`). Sole,
--             Rounds, Runs and Flush hold the proofs; Flush goes on to the reader at the other end.
--             Stored: the loop of `flushMessage` over the queue of pointers, with its proof.
--   Json      the JSON library as an interface with its laws. Objects has what holds for objects that
--             are built member by member; Sample is a small instance.
--   Files     ffos/ota/src/utils/FsUtils.cpp over a function from paths to contents; Reading holds the
--             proofs.
--   Task      ffos/ota/src/download/DownloadTask.cpp, `HttpResult::Load` and
--             `CheckDaemon::createDownloadTask`. Cache and Choice hold the proofs.
--   Check     ffos/ota/src/net/HttpClient.cpp, `CheckDaemon::check` and a round of `CheckDaemon::Run`.
--             Answer puts the answer, the task and the download together.
--   Recovery  ffos/ota/src/platform/RecoveryManager.cpp with its fixed arrays. Fields, Misc and
--             Clearing hold the proofs on the misc partition, Command those on the command file.
--   Ota       the messages of `DownloadListener`, ffos/ota/src/ota/daemon/OtaDaemon.cpp, and
--             `ServerDaemonImpl::onEvent`. Updates, Chain and Wiring hold the proofs; Wiring uses the
--             event loop of Event.
--   Endpoint  ffos/ota/src/socket/ServerSocket.cpp and `ClientSocket::Connect`; Descriptors holds the
--             proofs.
--   Proc      ffos/ota/src/platform/SystemProperty.cpp: both forms of `GetValueFromProcFile`; Values
--             holds the proofs. Monitor: ffos/ota/src/platform/ProcessMonitor.cpp; Alive holds the
--             proofs.
--   Request   ffos/ota/src/platform/DeviceInfo.cpp and ffos/ota/src/ota/net/HttpParameter.cpp;
--             Parameters holds the proofs.
--   Thread    ffos/ota/src/thread/Thread.cpp; Lifetime holds the proofs.
--   Clock     ffos/ota/src/utils/TimeUtils.cpp.
--   Getip     the sample program c++/getip.cpp; Octets holds the proofs.
--   Common    tests and branching, lists, options, words, bits, text and decimal numbers.
--
-- State is passed explicitly: an operation takes the object's fields as a record and returns the new
-- ones. Bytes and characters are numbers, texts are lists of them, and uint32 values are kept below
-- 2 ^ 32 by `% 2 ^ 32`. What the system calls, curl and the file system answer is an argument of the
-- operation, for every answer: whether a file can be opened, and what `remove` and `rm` really remove. Sizes that the code keeps in a double are numbers of bytes.
--
-- Fuel: the loop of `ReadData` has one round for each byte of the buffer and one more, since a
-- message takes at least one byte from it, and so has `IsUTF8`, whose rounds go on by a byte at
-- least; reading a file has one round for each byte and one more, and so has the loop of `ReadFile` where
-- the file can be opened, while a run that is still in its loop is a value of its own;
-- the retries have the eleven rounds that their counter allows, the size check has ten, and `init` of
-- OtaDaemon has fifteen; the loops that empty a queue have one round for each element.
--
-- The JSON library and the calls of mtdutils and curl are parameters, since they are copies of other
-- projects: the JSON library is an interface whose laws are what it documents (a member that was set is
-- read back, a printed object is parsed again, an object inside another one too, white space behind an
-- object does not matter), and the others are the answers that they give.
--
-- Threads: in Queue/Threads the program of a thread is a place and the threads are a function from
-- numbers to places; a step is one line of one thread, a run is a list of threads and what each does
-- next, and every list is considered. Elsewhere only the order of the calls matters, and a call that waits is one
-- that changes nothing.
--
-- Not modelled: the log and the exception class, which only carry texts, and so not that `ReadData` logs
-- its array of 4096 bytes without a NUL behind a full one; what `recv` delivers may have any length; the main function, which
-- starts OtaDaemon; the property service; and what JSON, curl and mtdutils do inside.
pub mod Common
pub mod Md5
pub mod Socket
pub mod Message
pub mod Event
pub mod Download
pub mod Queue
pub mod Utf8
pub mod Sessions
pub mod Json
pub mod Files
pub mod Task
pub mod Server
pub mod Recovery
pub mod Ota
pub mod Endpoint
pub mod Check
pub mod Proc
pub mod Thread
pub mod Request
pub mod Getip
pub mod Clock
