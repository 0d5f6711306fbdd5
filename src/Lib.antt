-- ===== src/Lib.antt =====
-- A verification library for briefmail, a mail server.
--
-- A client speaks SMTP or POP3 over a text connection. The protocol reads a line, hands the
-- command to a handler, and the handler changes the session and replies. A mail arrives over SMTP
-- as a dot-encoded block: it is limited, put under its header lines, cached, shown to the hooks,
-- and delivered. A delivery writes a blob, records the mail, and adds it to mailboxes or to the
-- queue of outbound mails. A worker takes the mails from that queue, looks up the hosts of each
-- domain and speaks SMTP with them; it sleeps until a delivery or its timer wakes it. The address
-- book says which addresses are mailboxes of the server, and an administrator adds them in a shell.
-- A cleaner removes the mails that nothing refers to.
--
-- Base and its children hold the shared names, tests and lists. Outcome has Go's errors and
-- results, and `Exec`, code that changes a state and may return an error; `Outcome.Ends` says what
-- holds when such code returns none. Stream is an io.Reader as its bytes and its end, Text the
-- functions of the standard library on byte strings, written out on bytes.
--
-- TextProto.Dot is internal/textproto/dot.go and the line reader of reader.go: readByte is
-- `read_byte`, Read is `read`, dotWriter.Write is `write`. TextProto.Io is io.Copy over a Read.
-- TextProto.Conn is conn.go and writer.go, with wrapConn and RemoteAddr in TextProto.Conn.Remote, and
-- TextProto.Server is server.go. Model.Address is internal/model/address.go, envelope.go
-- and internal/normalize; Model.Body is internal/model/body.go. Addressbook is
-- internal/addressbook. Storage.Tables holds the tables and statements of
-- internal/storage/db.go, Storage.Db its methods, each one transaction (`transact` is DB.do);
-- Storage.Blobs, Storage.Cache and Storage.Cleaner are the files of these names.
-- Delivery.Mailman is internal/delivery/mailman.go. Of queue.go, Delivery.Worker has the state and
-- WakeUp, Delivery.Client the client, Delivery.Queue next, do (`deliver_element`, with `settle` for
-- what it tells the queue), scheduleAttempt and addressesByDomain, and Delivery.Work the loop of work
-- as a step relation beside its callers. Dns is internal/dns, Certs internal/certs, Hooks
-- internal/smtp/hook, Shell the commands of cmd/briefmail/shell.go. Smtp.Command, Smtp.Session (with
-- reply.go), Smtp.Limit and Smtp.Proto are the files of internal/smtp; handler.go is in
-- Smtp.Handlers, Smtp.Data and Smtp.Auth, one definition for each handler under its name
-- (`data_handler` for data). Pop3.Session has lock.go, command.go, reply.go
-- and session.go of internal/pop3, Pop3.Handlers its handler.go, and Pop3.Proto its proto.go;
-- Pop3.Exclusion puts several sessions side by side, which share the locks and the store. Start is
-- instanceManager of cmd/briefmail/start.go, and Start.Process its goroutines with the signals; Main is
-- cmd/briefmail/main.go, and Settings has the defaults that the init functions set. Journey follows a
-- mail from DATA through Deliver and the storage to RETR, Delivery.Outbound one from Deliver to
-- the worker's queue, and Delivery.Restart one across a stop of the process, where Storage.Open has
-- the constructors of internal/storage. Tests applies the theorems to concrete inputs.
--
-- What the environment does is an argument: the tokens of bufio.Scanner, and, for each call that
-- may fail, whether it does (`Faults`). The normalizations of precis and idna, bcrypt, the hooks of a
-- session, the decoded address book and the format of dates are parameters; so are net/smtp and the
-- dialling (`Network`), the exchange with a DNS server (`Resolver`), crypto/tls and the decoders
-- (`Os`), the SPF library (`HookConfig`), viper (`Viper`), what a database driver
-- hands over for a text (`Driver`), and what main calls (`Calls`). Strings are lists of bytes; the
-- 64-bit sizes and offsets are natural numbers, since none of them reaches 2^63 on a real disk.
-- A session runs alone, with the shared objects in its state; where sessions or the worker meet, each
-- step between two points where another may come in is a step of a relation (Pop3.Exclusion,
-- Delivery.Work, TextProto.Server, and Start.Process, which holds the steps of all its servers),
-- which takes a round of POP3, an attempt of the worker and what a mutex guards as one.
--
-- Fuel: `handle` of SMTP and of POP3 gives the loop one round more than there are lines to read, and
-- each round reads a line or ends; io.Copy needs a call more than there are bytes; Prepend's loop has
-- as many rounds as the value has bytes, and each takes at least one.
--
-- Not modelled: logging, the parsing of flags, the declarations for wire, and the terminal of the
-- shell. They do not change what the modelled code does with its arguments.
pub mod Base
pub mod Outcome
pub mod Stream
pub mod Text
pub mod TextProto
pub mod Model
pub mod Dns
pub mod Addressbook
pub mod Storage
pub mod Delivery
pub mod Smtp
pub mod Pop3
pub mod Journey
pub mod Certs
pub mod Hooks
pub mod Shell
pub mod Settings
pub mod Start
pub mod Main
pub mod Tests
