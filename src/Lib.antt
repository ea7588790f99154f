-- ===== src/Lib.antt =====
-- qfreerdp: a remote desktop client on FreeRDP and Qt. This library models the parts of it that hold
-- its own logic: the handler between a virtual channel and its plugin, the exchange of the clipboard in
-- both directions, and the mouse and key input.
--
-- The parts and their files:
--   Channel    qf_channel_client_handler.c. `Channel.Defs` has the handler's state (`msg_proc_internals`),
--              `channel_client_post_message` in the steps FIRST, append, LAST, and the thread's loop;
--              `Channel.Lifecycle` has creation, freeing and quitting as lists of what is acquired and
--              released. WinPR's streams are the interface `StreamApi`, and `buffer_api` meets it.
--              `Channel.Pipe` states what the handler promises, a sequence of whole messages, and
--              `Channel.Interleaved` lets the posting thread and the serving one move in any order.
--   Entry      clipboard-entry.h, class `clipboard_entry`. `Entry.Serve` answers requests for the
--              local files, `Entry.Download` fetches a remote file, `Entry.Path` judges the names that
--              come from the remote side, `Entry.Pending` is the response that the worker, the channel
--              and the destructor share, and `Entry.Batch` the queue of jobs and their batches,
--              with the worker's rounds and its end. `Entry.Pending.Mailbox` states what the shared
--              response promises, a box for the one request that is open, and `Entry.Pending.Exchange`
--              puts it together with the stream ids. `Entry.Fetch` is the download on that response
--              and on the local files, with what the other threads do around each request (`Traffic`),
--              and `Entry.Fetch.World` the worker's loop with such downloads;
--              `Entry.Fetch.World.Confined` joins it with the names from the remote side.
--   Keys       qf_util.h, `to_freerdp_key_code`.
--   Client     mini-qf-client.cc: `Client.Formats` is the choice of a remote format, `Client.Files` the
--              callbacks for a data response and a data request, `Client.Setup` the initialisation of
--              the clipboard channel, `Client.Session` the session's thread (`rdp_loop_thread`),
--              `Client.Frame` the rectangle to repaint (`scale_frame`), `Client.Paint` the callback
--              behind a drawing with the item's frame, `Client.Connect` the callbacks around the
--              connection, and `Client.Program` the order of the main thread. `Client.Copy` puts the
--              callbacks and the entries of two clients together, and `Client.Copy.Whole` follows a
--              copy from the file list to the files on the other side.
--   View       rdp-view-item.h, class `RdpViewItem`: `View.Mouse` the mouse and the wheel,
--              `View.Keyboard` the keyboard and the mouse buttons, `View.Dib` the file header put
--              before a bitmap, `View.Show` what the remote side's data do to the local clipboard,
--              `View.Local` the announcement of the local clipboard with the list of its files and URLs;
--              `View.Local.Names` follows the name of a listed file to the receiver.
--   Log        qf_log.h: the start of the log and the lines in it.
--   Base, Status, Wire hold shared helpers, the result codes, and constants of the protocol.
--
-- How they interact: a data response that is a list of files goes to the entry as a batch, whose worker
-- requests each file; the other client's entry answers such requests from the list that its view made
-- of the local clipboard. Data of another kind go to the view, which marks them as remote so that its
-- own change signal does not announce them.
--
-- State is passed explicitly. What threads do under a mutex is one step, and their interleavings are
-- lists of moves (`Entry.Batch`, `Channel.Interleaved`), lists of events around a request
-- (`Entry.Fetch`) or a step relation (`Entry.Pending.Run`). A wait without an end is a result of its
-- own. What the memory of a destroyed QString holds, which the answer to a request for text is read
-- from, is a field of the state (`text_memory`). A fixed-width integer is a natural number with its
-- wrap-around written out. The loop over a file's chunks runs on fuel, one more than the file's size,
-- since each round that goes on writes at least one byte.
--
-- Interfaces, as the code is not part of the repository: WinPR's streams, QFile (`Disk`), the path
-- functions of Qt (`PathApi`, `DirApi`), QString::fromUtf16 (`KeepsUnmarked`), image decoders, and
-- FreeRDP's regions (`RegionApi`), serializer and parser of file lists.
--
-- Not modelled: the debug output of the static channels, the drawing callbacks that only return TRUE,
-- and the callback for a disconnected channel, which is empty. The copy of FreeRDP's clipboard channel
-- under ref-tmp/ belongs to that project. Directory trees on the clipboard are finite here.
pub mod Base
pub mod Status
pub mod Channel
pub mod Entry
pub mod Keys
pub mod Wire
pub mod Client
pub mod View
pub mod Log
