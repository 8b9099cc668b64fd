-- ===== src/Lib.antt =====
-- A distributed chat system in Go. Central keeps the register of the clients and of the chat
-- servers, and brings two clients together on the server that suits both; the chat servers pass
-- messages on within rooms; the chat client talks to both; TLS is a TLS 1.2 library of its own,
-- with a handshake on both sides.
--
-- How the parts interact: a chat server posts and patches its heartbeat to Central
-- (Server.Heartbeat to Central.ServiceApi), which lists it for ten seconds. A client registers
-- over HTTP (Central.ClientApi), reports its delays to the servers, and asks for a chat over TCP
-- (Central.Matchmaking.Session); Central asks the other client, chooses a server from the two
-- delay lists (Central.Matchmaking.Optimal), tells both clients its address and a room, and
-- records a chat instance (Central.ClientStore). The clients follow the session line by line
-- (Client.Requests, Client.Runner), join the room on the server (Server.Chat, Client.Chat) and
-- split what it sends into messages (Client.Messages). When Central finds a better server it
-- redirects both (Central.Matchmaking.Rerouting, Client.Chat).
--
-- Which file models which source, with the Go names in snake case:
--
--   Central/ClientStore.antt: Central/internal/client/store.go. Registry and Instances hold the
--   laws of the two halves of the store.
--
--   Central/ServiceStore.antt: Central/internal/service/store.go.
--
--   Central/ClientApi.antt, Central/ServiceApi.antt, Central/Responses.antt: the handlers of
--   api.go beside each store.
--
--   Central/Matchmaking/Optimal.antt: compute_optimal_server of
--   Central/internal/matchmaking/matchmaking.go. Latencies, Search and Choice follow its three
--   loops.
--
--   Central/Matchmaking/Session.antt: handleConnection, requestMatch, generateRoomId and
--   GetRequestedUsername of the same file. Protocol states what its clients are sent.
--   Central/Matchmaking/Rerouting.antt: a tick of its backgroundAnalysis, with Moves on one
--   instance, and Keeping and Ticks on the loop, over cells that its own moves change
--   (Central/Slices/Cells.antt). Session/Effect.antt and Session/Placing.antt say what a session
--   itself does to the store, Session/Unanswered.antt is a session whose other client never
--   replies. Central/History.antt: the store under requests, sessions and ticks, as a relation of
--   steps.
--
--   Server/Chat.antt: Server/internal/chat/chat.go. Server/Heartbeat.antt:
--   Server/jobs/heartbeat.go.
--
--   Client/Runes.antt: how Go's range decodes UTF-8, for splitMessages. Client/Messages.antt and
--   Client/Requests.antt: splitMessages and the reading loop of StartChat; StartMatchmaking,
--   messageRequestListener, handleChatRequest and AcceptMessageRequest of Client/client/client.go,
--   with Requests/Inbox on the requests that come in.
--
--   Client/Chat.antt: StartChat, with its redirections, and SendMessage of
--   Client/client/client.go. Client/Startup.antt: GetClient, Register, Initialize and
--   updateServerDelays of the same file, with Startup/Reporting on reportDelaysToCentral and
--   Central's handler, GetServers of Client/service/server_registry_api.go and startup of
--   Client/runner/client_runner.go.
--
--   Client/Runner.antt: startMatchMaking of Client/runner/client_runner.go, with Steps, Waiting
--   and Sessions on its phases. Client/Runner/Pages.antt: acceptChatRequest, chatPage and the
--   loading bar of the same file.
--
--   Tls/Prf.antt: prf and generateMasterSecret of TLS/tls/crypto-utils.go. Tls/Cipher.antt and
--   Tls/Connection.antt: internal-tls-api.go, models.go and tls.go. Tls/Messages.antt:
--   client-handlers.go, server-handlers.go and how the messages are read. Tls/Handshake.antt,
--   Tls/ClientFsm.antt and Tls/ServerFsm.antt: tls-client-fsm.go and tls-server-fsm.go, with
--   Tls/Hello.antt, Tls/KeyExchange.antt, Tls/CertificateVerify.antt and Tls/Keys.antt on how
--   their two sides fit together. Tls/Flight.antt, Tls/Secrets.antt and Tls/Finish.antt are the
--   runs of longer stretches, and Tls/Agreement.antt, with its children, is a whole handshake:
--   what is assumed of the two ends and of the crypto library, the states of both, and what is
--   left. Tls/Connection/Usage.antt counts the bytes that a call uses up.
--
--   Tls/Files.antt: the certificate and key files of crypto-utils.go and NewTLSConn with them.
--   Tls/Echo.antt, with its children: TLS/client.go and TLS/server.go, the two programs over the
--   library.
--
--   Central/Slices.antt: Go slices over shared backing arrays, since chat instances are removed in
--   place under the headers that callers keep. Base: lists, texts, maps and the state monad of all
--   stateful code.
--
-- How Go is read: a string or byte slice is a list of bytes; a map is an association list in the
-- order in which an iteration visits it, with distinct keys where a law needs that; an error is a
-- value of a data type with one constructor for each message, and an index out of range or os.Exit
-- an outcome of its own. A nil pointer is `none`, and a method that is called through it panics at
-- its first use of a field. A method under a mutex is one step; the calls of several goroutines
-- are lists of such steps, or a function that says what the others did before each call. A time is
-- a number of nanoseconds. Of a float64 the choice of a server reads nothing but the order, so it
-- is a place in that order.
--
-- Parameters, for what is not under the repository's own source or is not determined by it: RSA,
-- X.509, SHA-256, HMAC and single AES blocks (Tls/Crypto.antt), crypto/rand (what a buffer holds
-- after a read, and whether the read succeeds) and math/rand, the growth of slices, the clock,
-- what the network delivers, and what gin extracts from a request. Padding, CBC mode, the records
-- and the trimming of spaces are written out.
--
-- Loops are structural except four. The loop of prf has one more than the output's length as fuel,
-- which is enough because a round adds a digest, and the loop of receiveServerMessages one more
-- than the bytes left to read, which is enough because a round uses up a header. The loop of the
-- TLS server has one more than the bytes that are left after its handshake, for the same reason.
-- Trimming spaces has the length of the text, each space being a byte at least. The loop of a
-- session that waits for the other client has no bound in the code: it is followed for as many
-- turns as an argument says, and where no result ever comes, the session is then still waiting, an
-- outcome of its own.
--
-- Not modelled: the programs that only start the components, the widgets of the client's terminal
-- and their layout, HTTP and JSON (they are parameters where the client uses them), the loops that
-- accept connections, logging, and that the padding of encryptContent may be written into the
-- spare capacity of the slice of the caller.
pub mod Base
pub mod Central
pub mod Tls
pub mod Client
pub mod Server
