-- ===== src/Lib.antt =====
-- cross-host-ops: `xho` runs commands and copies files on remote machines through a daemon, `xhod`,
-- which resolves targets, reviews operations and holds the connections.
--
-- The parts, and the files that model them (paths from the repository's root):
--
-- * Resolver.antt and Resolver/ (src/daemon/resolver.rs): a target string becomes a list of routes,
--   a gateway and what to tell it. `resolve_with_warning` and each method it calls have a function
--   of the same name; a method that appends to `candidates` returns what it appends. It looks
--   servers up with Inventory.antt (src/config/inventory.rs), which also resolves a host of
--   ssh_config.
-- * Review.antt and Review/ (src/oversight/review.rs, src/config/review.rs, and `run_review` and
--   `run_decision` of src/daemon/mod.rs): before an operation runs, lists, policies and a language
--   model decide on it, and the daemon enforces the decision, and logs it if the audit log is on.
--   Review/Enforce.antt takes the model's answers as parameters.
-- * Shell.antt and Shell/ (src/daemon/shell.rs, `quote` of src/filepath.rs): the arguments become
--   one command line for the remote shell. Shell/Words.antt is an independent reading of such a
--   line by a POSIX shell, for words, quotes and backslashes.
-- * Pool.antt and Pool/ (`ManagedPool` of src/daemon/connection_manager.rs): connections to a
--   target are shared and reused. The state is the pool with the leases held and the creations that
--   run, and `step` is one event.
-- * Singleton.antt and Singleton/ (`ManagedSingleton` of the same file): one connection that is
--   shared. The state holds the leases too, and `step` is one event.
-- * Sentinel.antt and Sentinel/ (`SentinelScanner` of src/daemon/jumpserver_engine.rs): the output
--   of a command on a bastion is cut off at a marker that carries the exit code.
-- * Base64.antt and Base64/ (src/daemon/session/b64.rs): file contents cross that channel as lines
--   of base64.
-- * PtyShell.antt and PtyShell/ (`run_command_raw_impl` and `feed_raw_chunk` of
--   src/daemon/jumpserver_engine.rs): a command on a bastion runs between a begin and an end marker.
--   `run_raw` puts the prompt detection, the scanner of Sentinel.antt and the decoder of Base64.antt
--   together as the source does. PtyShell/Plain.antt is `run_command_plain`, which looks for the
--   prompt instead.
-- * Menu.antt and Menu/ (`strip_ansi` and the tables of src/daemon/jumpserver_engine.rs,
--   `navigate_to_asset` of src/daemon/gateway/jumpserver.rs): the way from the login through the
--   search to the shell of an asset. A round of the machine takes one chunk. The address is the one
--   that Resolver.antt reads from the target, and the prompt is that of PtyShell.antt. A panic is an
--   error of its own.
-- * SessionCache.antt and SessionCache/ (`SessionCache` of src/daemon/gateway/jumpserver.rs): shells
--   on a bastion are kept for the next command. SessionCache/Queue.antt is the abstract view, a
--   queue without an index.
-- * Filepath.antt and Filepath/ (`NormalizedPath` and `spec` of src/filepath.rs,
--   src/copy_frames.rs): paths that are the same for every system, and the operands of a copy.
-- * Download.antt and Download/ (`CopyDownloadWriter`, `read_download_sidecar` and the end of
--   `run_copy` of src/cli/copy.rs): a file is received, and resumed after a failure.
-- * Upload.antt and Upload/ (src/cli/copy.rs and src/daemon/session/shell_copy.rs): a file is sent
--   from the client through the daemon to the target, over what a failed run has left there. It
--   uses the encoder of Base64.antt and the frames of Download.antt; the digest, the file system's
--   reads and the target's `base64 -d` are parameters.
-- * ShellCopy.antt and ShellCopy/ (`download` of src/daemon/session/shell_copy.rs, and `copy` of
--   src/daemon/gateway/jumpserver.rs): the daemon's side of a download from behind a bastion, with
--   its second attempt. A shell is what its runners answer to a command. The frames go to the client
--   of Download.antt.
-- * Session.antt and Session/ (src/daemon/session/local.rs, mod.rs and direct.rs): the driver of a
--   session on the daemon's own host, and how the events of a session become output and an exit
--   code. What the system takes of a write to a process is a parameter of the driver.
-- * Duration.antt and Duration/ (src/config/duration.rs): durations in the configuration, read and
--   written.
-- * Tokens.antt and Tokens/ (src/daemon/token_store.rs): the tokens with which a client may install
--   its key.
-- * AuthorizedKeys.antt and AuthorizedKeys/ (src/daemon/authorized_keys.rs): the file of the keys
--   that may log in. A token of Tokens.antt lets a client append its own.
-- * Base.antt and Base/ hold what they share: texts and buffers as lists of code points or bytes,
--   maps as association lists with distinct keys, results.
--
-- Bounds and fuel. `find_from` of Sentinel.antt runs on fuel, the length of the buffer and one:
-- each round moves on by the length of the marker, at least one byte. `evict` of SessionCache.antt
-- runs on fuel, the number of entries and two: each round drops one entry. `digits_of` of
-- Base/Numbers.antt runs on fuel 20, the digits of the largest u64. All other loops are structural.
-- Sizes, counters and times are natural numbers without an upper bound, except the generations of
-- the pool and the singleton, which saturate at 2^64 - 1, the seconds of a duration, which wrap
-- around at 2^64, and an exit code: one that is read from a text is 0 beyond an i32, and the status
-- of a channel becomes an i32 as in two's complement; a payload of 2^64 bytes and a pool of
-- 2^64 connections do not occur. The times that are compared are in one unit, whichever it is.
--
-- Not modelled: sockets, SSH, gRPC, PTYs, files, HTTP and JSON; the hash of a token, the random
-- token and the base64 crate's encoding of one group, which are parameters; the wake-ups of waiting
-- checkouts and the lock turns inside one checkout; the texts of the resolver's errors; time-outs,
-- which end a run like a closed channel. Of the jumpserver engine the runners for interactive
-- shells and uploads, of the copy the client's side of whole directories, uploads of directories
-- and SFTP, of the sessions those over tunnels and jumpservers, and the client, the reading of
-- configuration files and the secret vault are not modelled.
pub mod Base
pub mod Sentinel
pub mod Session
pub mod AuthorizedKeys
pub mod Base64
pub mod Shell
pub mod ShellCopy
pub mod Tokens
pub mod Pool
pub mod Singleton
pub mod PtyShell
pub mod SessionCache
pub mod Review
pub mod Inventory
pub mod Menu
pub mod Resolver
pub mod Filepath
pub mod Download
pub mod Duration
pub mod Upload
