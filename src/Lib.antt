-- ===== src/Lib.antt =====
-- TermDock: a terminal in the browser. A Go server (internal/server) bridges a WebSocket to a
-- terminal process and offers the files of the machine over HTTP; the page (internal/app/static)
-- shows the terminal and a file panel.
--
-- What is modelled, by file:
--
-- - Base: names shared by all files; text as code units, lists, association lists. No code.
-- - Filepath: `filePath` of internal/server/server.go with filepath.Clean, Join, Dir and Base of Go.
--   Parts, Rooted, Parents and Joining are proofs on the components of clean paths.
-- - Upload: internal/server/upload.go. The state `Server` holds the map of uploads and the disk;
--   `create_chunk_upload`, and in Upload/Handlers `upload_chunk`, `chunk_upload_status`,
--   `complete_chunk_upload` and `cancel_chunk_upload`, are the handlers of the same names. A handler
--   takes whether the request is authenticated, the request, what the operating system answers
--   (`System`) and the time, and returns the response with the new state.
-- - Upload/Client: the page's side (internal/app/static/app.js, `uploadInput.onchange`,
--   `sendChunkWithRetry`, `sendChunk`, `chunkReceived`, `cancelUpload.onclick`) as a function of a
--   `Network`, which says for every wait of the page what becomes of its request, whether the user
--   presses the cancel button, what the clock shows and which system calls fail. The other files
--   below Upload are proofs: Slices and Store on the bytes of a file, Tracking and Writing on
--   what the server knows of an upload, Creation, Sending, Completion and Delivery on the parts of
--   an upload's life, and Progress, Success and Liveness on an upload where nothing fails. Controls
--   is the page's input, cancel button and progress box with a step relation.
-- - Connection: the page's WebSocket, reconnect timer, login and logout, resize frames and terminal
--   input (internal/app/static/app.js). A socket is an index into the list of all sockets that
--   were made, so that an event of an old socket can arrive late. Connection/Events has the events
--   and `step`; Single, Stopped, Recovery, Messages and Delay are proofs; Expiry adds how
--   `webSocket` of internal/server/server.go ends a connection. The page's reload at the end of a
--   logout is not an event.
-- - FileManager: the file table (internal/app/static/file-manager.js). The root has its state and
--   the comparator, Sorting the sort, View `applyView`, `enhanceRows` and the listeners, Listing
--   `loadFiles` of internal/app/static/app.js and the observer, Menu the context menu, the clipboard
--   and the requests of the actions, Pasting `operation` and `pasteClipboard`, Loading loads whose
--   answers come in any order. Order, Selection and Choices are proofs.
--
-- - Session: internal/session/limiter.go and internal/server/persistent_session.go. The root has the
--   limiter and a session with its operations; Session/Host has `terminalSession` and
--   `closeTerminalSession` of internal/server/server.go with a step relation on all that can happen to
--   the server, where a session is an index into the list of all that were started; Slots, Clients
--   and Reaper are proofs, the last one with the rounds of `reapDetached`.
-- - Auth: internal/auth/manager.go. `exchange`, `validate`, `revoke` and `revoke_all` are the methods
--   of `Manager`. Cookies, Operations, Lifetime and Tokens are proofs, over any list of operations.
-- - Files: the routes `readFile`, `writeFile`, `deleteFile` and `createDirectory` of
--   internal/server/server.go on the disk of the uploads, which is a list of clean paths. Promise has
--   an abstract store of files and the refinement; Editor has `openEditor`, "save-file",
--   `deleteEntry`, "new-directory" and `archiveRequest` of internal/app/static/app.js, split where
--   they wait for a reply; Editing joins the two sides. Directory is `listFiles` and how one goes into
--   a directory and up again. Operations has `renamePath` and
--   `deletePaths` of internal/server/operations.go; Moving and Transfer are proofs on a renaming.
-- - Tmux: internal/server/tmux.go. The root has names, targets and `switchTmuxTarget`, Tmux/Routes the
--   routes, with what is typed into the terminal and the commands that tmux is given; Typing, Names
--   and Safety are proofs. Tmux/Panel is the page's dialog
--   (internal/app/static/app.js, from `closeTmux` on), and Order is about its list.
-- - Page: the files panel, the scroll position, `size` and the percentage of `uploadDetail`
--   (internal/app/static/app.js); Sizes is proofs.
-- - Config: internal/config/config.go. The root has `defaults`, `merge` and `apply_environment`,
--   Loading `validate` and `load`; Sources, Complete and Settings are proofs. Numbers are integers.
-- - Access: internal/server/address.go and `forwardedTrusted`, `proxyMatches`, `cookieSecure`,
--   `validOrigin` and the first checks of `webSocket` of internal/server/server.go; Spoofing is about
--   the headers of a peer that is not trusted.
-- - Archive: `extractionTarget` and `extractTarGz` of internal/server/archive.go. What changes files is
--   a list of effects, in the order of the calls, and a failure ends it. Zip has `extractZip` and
--   `extractArchive`; Target, Confinement, Limits, Extraction and Unpacking are proofs.
-- - Tunnel: `superviseFixed` of internal/tunnel/manager.go on a list of turns, each of which says how a
--   process ends and whether the next one starts; Backoff is about the delays.
--
-- The parts meet where the page's upload calls the handlers of the server, and where the way in
-- which the server ends a connection becomes the close code that the page reads. The editor's requests
-- go to the file routes, the tmux routes change the target of a persistent session, and the file
-- routes and the uploads share one disk. Every path of a request goes through `file_path`, also the
-- destination of an archive, and the settings that Config loads are the ones that Access (`Trust`)
-- and Session (the limit and the retention) are given.
--
-- Bounds: a chunk is sent at most 3 times, as in the code, and the loop over the chunks runs over
-- their number. The split of the input takes the length of the input as fuel, which is enough as
-- each round takes at least one byte. Numbers have no width: sizes are at most 512 MiB by the
-- handler's check, and times are nanoseconds since a common origin.
--
-- Parameters: the browser's `toLowerCase`, `toLocaleLowerCase`, `localeCompare` and `Date.parse`,
-- and the size that the terminal's fit addon proposes; how a browser turns bytes into text and back and
-- what a text area gives back (`Browser`); Go's hashes, signatures, base64 and the text form of a time
-- (`Crypto`, with its documented laws in `IsCrypto`); the answers of the tmux program, `strconv.Atoi`
-- and `%d` (`Tools`); what the operating system and Go's parsers say of the settings (`Start`) and of
-- addresses and origins (`Network`); the headers and bytes that Go's tar and zip readers give (`Item`,
-- `ZipFile`), of which the first one is documented to give no more bytes than a header says (`IsTar`).
-- `trim` and `trim_space` cover the spaces within Latin-1.
--
-- Not modelled: the terminal emulator (xterm.js, a copy of another project), markup, styles and the
-- texts of a card or row; of the server the loops of `bridge` and of the terminal's reader, the parsers
-- of tmux output, `downloadFile`, the older `uploadFile`, `createZip`, `transferPaths` with `copyTree`,
-- symbolic links, the quick
-- tunnel and the start of the program. Handlers run one at a time; the interleaving of the server's
-- two mutexes within a handler is left out, as are removals of temporary files that fail unseen.
-- One `Exchange` reads the clock once. The encoding of paths in requests and of JSON is left out. The random number behind a reconnect's delay is a fraction, and the
-- delay and an upload's percentage are computed exactly.
pub mod Base
pub mod Filepath
pub mod Upload
pub mod Connection
pub mod FileManager
pub mod Session
pub mod Auth
pub mod Files
pub mod Tmux
pub mod Page
pub mod Config
pub mod Access
pub mod Archive
pub mod Tunnel
