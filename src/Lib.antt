-- ===== src/Lib.antt =====
-- The browser client of claude-docker: the shell, the terminal page and the file manager that run
-- in the browser against the server's HTTP endpoints and its WebSocket (web/src); and the parts of
-- the server (backend/internal) that decide what a request may touch.
--
-- The program's parts and the files that model them:
-- - web/src/terminal.js, mountTerminal: Terminal. The variables of the closure and what lives in
--   the browser for them (the current socket, the timeouts that wait, the requests of the restart
--   button) are the record Term of Terminal.State; attach, scheduleReconnect (schedule_reconnect),
--   ws.onopen, ws.onmessage, ws.onclose (on_open, on_message, on_close), the callback of a timeout
--   (on_timer), the restart button before and after its request (kill, kill_answered) and the first
--   attach are functions on it in Terminal.Connection, and handle is all of them over events; paste
--   is pasteClipboard, Keys decides which key copies or pastes, and Wording has the texts of the
--   status line. Terminal.Invariant says when the browser can deliver an event; Terminal.Rejected
--   and Terminal.Recovery follow a page that is left alone. Terminal.Protocol is what a connection
--   may do, as a state machine of its own: Link is where the connection stands, link reads that off
--   a Term, and Transition is indexed by the event. Clipboard is copySelection, and Resize the
--   handler of the window's resize event.
-- - web/src/files.js, class FileView: Files. FilePath has join, parent and the breadcrumbs; Kind
--   has isText, isImage, iconFor, open and the lines of the context menu; Sort has sort; View has
--   the object's fields and go, split at its await into go and listed, with back, fwd, up, the tree
--   rows and the preview overlay; Selection has onItemClick, selectAll and the selection of
--   openMenu; Preview has the contents of the overlay, Keys has bindKeys, Listing has filterText
--   and renderList, Tree the cache of the directory tree and the rows that treeNode draws; Actions
--   has the commands that change files, where what a loop reads between two requests is given round
--   by round; Menu is openMenu with the timeout and the listener that close the menu, in whole
--   pixels; Session joins the handlers into one step function.
-- - web/src/main.js: App has boot, the login and the password screen, nav, renderSidebar,
--   applyTheme and themeToggle as functions on the state of the module, and step is all of them
--   over events; App.Tables has the HTML of the rows of refreshUsers and viewAudit, App.Accounts
--   the buttons there, the form for a new user, the token and the meters of refreshTraffic,
--   App.Modals which dialogs for a new user are in the document and which their buttons close,
--   App.Rows the tables as they are put together, and App.UsageCells the cells that the answers for
--   the usage fill. App.Pages has renderLogin, renderChangePassword, renderSidebar, navBtn and
--   themeToggle as trees of elements, App.Pages.Drawn what renderApp, nav and the clicks redraw,
--   App.Templates the HTML that a view sets as a whole, with the ids that its code looks up, and
--   App.Mounted the objects of the terminal and of the file manager that the visits of their pages
--   make.
-- - el of web/src/main.js: Dom.
-- - The addresses of requests in web/src/files.js and web/src/terminal.js: Url, with
--   encodeURIComponent. Url.Address is how a server reads an address.
-- - postJson, putJson, patchJson and del of web/src/api.js, all calls of them, download, and the
--   messages that the terminal sends: Requests, on JSON.stringify in Json; Requests.Stream joins
--   them to the life of a terminal page. Json.Reader is how a server reads an object.
-- - web/src/api.js: Api has what getJson, uploadFile and the callback of openWs make of an answer.
-- - esc of web/src/files.js and web/src/main.js: Escape.
-- - fmtSize of web/src/files.js and fmtBytes of web/src/main.js: Size.
-- - backend/internal/files/resolve.go, ops.go and backend/internal/server/files_api.go: Server.Paths
--   has Resolve and isUnder, with filepath.Clean and filepath.Join of Go on Unix, and
--   Server.FilesApi the handlers of /api/files, as the calls of the operating system that they lead
--   to, and safeFilename. EvalSymlinks and what the calls return are parameters. Server.Reached joins
--   the page's paths and addresses to them.
-- - backend/internal/sessions/manager.go and backend/internal/store/sessions.go, with ensureSession of
--   backend/internal/server/server.go, handleDeleteSession of backend/internal/server/sessions_api.go
--   and the start and end of a process in backend/internal/pty/manager.go: Server.Sessions. The pool is
--   the map of live PTYs and the table of sessions; an operation is a step on it. A killed process ends
--   later, by a step of its own that may come after any others.
-- - handleTerminalWS of backend/internal/server/terminal.go: Server.Terminals is the handshake with
--   the page of Terminal, up to the session message, and the restart button with its request;
--   Server.Input the loop that reads the page's messages, up to one that is too large, with Write and
--   Resize of the PTY, which gets the bytes of UTF-8.
-- - Text has the methods of JavaScript strings that these parts call, on lists of UTF-16 code
--   units; Common has the shared names and the lemmas on lists. Examples runs the program on small
--   inputs.
--
-- Choices and bounds:
-- - An asynchronous function is cut at its awaits. What happens in between is an event, or is given
--   as a function of the round of the loop, so every order of answers and clicks is a sequence.
-- - Lower-casing needs the tables of Unicode: it is the parameter to_lower of what uses it; and
--   to_locale is the text that the browser has for a date.
-- - Sizes are whole numbers below 2^53, where a JavaScript number is exact and division by a power
--   of 1024 loses nothing. Twenty digits are enough for them, and four divisions reach the last
--   unit.
-- - Drawing the tree takes fuel for its levels: two more than the length of the longest open path.
-- - Array.prototype.sort is a stable sort, computed by insertion.
-- - A control message of the server has the fields that the server writes; a text that is no JSON,
--   or on which reading a field throws, is one case.
-- - A URIError of encodeURIComponent is `none`. JSON objects have strings and whole numbers as
--   values, which is all that the client sends. The reader of an object has as many rounds as the
--   text has units, which is more than it has fields.
--
-- Not modelled: styles that are set on elements afterwards, but for the place of the context menu,
-- the clipboard, fonts and the terminal emulator (browser and third-party code), the built bundle,
-- the accounts, quota, traffic, other tables and authentication of the server, and errors of the
-- database or of the start of a process. A step of Server.Sessions is a whole operation, though the
-- code writes the table after it has released its lock; only Kill is cut there too (unmap, mark_row).
-- Deleting an account changes nothing in the pool.
mod Common
pub mod Text
pub mod Escape
pub mod Size
pub mod Api
pub mod Dom
pub mod App
pub mod Files
pub mod Terminal
pub mod Server
pub mod Url
pub mod Json
pub mod Requests
mod Examples
