-- ===== src/Lib.antt =====
-- Verification of opencom, a peer-to-peer voice chat: a daemon keeps a list of friends, exchanges
-- invites, signals calls and plays audio. Each file names the Go file that it is about.
--
-- Parts and how they interact
--   Base            the Boolean tests, lists, association lists for Go's maps (Base/Dict), and the
--                   publish-subscribe pattern of internal/call/session.go and
--                   internal/friends/presence.go (Base/Hub): buffered channels that drop what does
--                   not fit. Base/Text, Base/Decimal, Base/Base64 and Base/Query are what the code uses of
--                   Go's strings, strconv, encoding/base64 and net/url, Base/Result its early returns.
--   Audio/Jitter    internal/audio/jitter.go: NewJitterBuffer, Push, Pop as new_jitter_buffer, push,
--                   pop. Ideal is the specification with unbounded sequence numbers, Window and Wrap
--                   relate 16-bit numbers to it, Refines and Lift are about the refinement, Order about the
--                   order of what is given out, Loop about the loop of Push.
--   Audio/Manager   internal/audio/manager.go: the audio sessions of connected calls, started and
--                   stopped by the events of Call/Session.
--   Call/Session    internal/call/session.go: the state machine of a call and its subscribers. Overlap
--                   interleaves the two halves of transition and End, under s.mu and the broadcast;
--                   InTurn is about calls that do not overlap.
--   Call/Manager    internal/call/manager.go: the registry of sessions and the forwarders that bring
--                   their events to the manager's subscribers.
--   Call/Engine     internal/call/streams.go and internal/call/protocol.go: INVITE, ACCEPT, DECLINE and
--                   HANGUP over streams. Reader is runScanner and handleStream, Dial the part of Place
--                   that opens the stream, with the resolver and libp2p as `Host`, Place the whole of
--                   it; Scanner, Inbound, Live, Duplicate are about one engine, Dialogue about the two
--                   of a call.
--   Friends/Store   internal/friends/store.go: the list of friends in memory and in the file.
--   Friends/Presence  internal/friends/presence.go: who is online, and the events about it.
--   Invite/Code     internal/invite/code.go: Generate, Parse, Pretty.
--   Invite/Store    internal/invite/store.go: the map of active invites; Disk is the file under
--                   overlapping calls.
--   Invite/Handshake  handleStream of internal/invite/manager.go and the messages of
--                   internal/invite/handshake.go, over Invite/Store and Friends/Store; Race is the
--                   same with overlapping handlers.
--   Invite/Record   internal/invite/record.go over `RecordCiphers`.
--   Invite/Url      internal/invite/url.go over `UrlKeys`.
--   Invite/Redeem   Create and Revoke of internal/invite/manager.go, and in Invitee its Redeem,
--                   RedeemURL and dialAndHandshake, over Invite/Record, Invite/Url and the state of
--                   Invite/Handshake. Targets is about whom the invitee finds, Created about what Create
--                   leaves, Sound about any URL, Together about the two managers, where the network
--                   answers as the inviter's handler does.
--   Discovery/Record  internal/discovery/record.go: Encode and Decode over `Ciphers`.
--   Discovery/Keys  internal/discovery/keys.go and unmarshalFriendPubKey of
--                   internal/discovery/publisher.go over `KeyOps`; DeriveEncryptionKey only calls HKDF
--                   and is left out.
--   Discovery/Cache  internal/discovery/cache.go.
--   Discovery/Resolver  internal/discovery/resolver.go over the cache, the friends, the keys and the
--                   records.
--   Discovery/Publisher  internal/discovery/publisher.go, and in Delivery the two ends together.
--   Version         internal/version/version.go: splitVersion, isNewer, Compare, in Written on versions with
--                   suffixes; Checker is its cache file
--                   and Refresh, with runVersionChecker of internal/app/daemon.go and VersionCheck of
--                   internal/ipc/methods/version.go, Polled is about all of them together.
--
-- Conventions
--   A method that holds a mutex is one step; where one releases it before it broadcasts, the two halves
--   are definitions of their own. A function that reads the clock takes the time as a
--   natural number; a function that writes a file takes the outcome of the write as a Boolean, and a
--   failed write leaves the file as it was, since internal/iox/atomicfile.go writes another file and
--   renames it. A file is the value that its JSON text encodes. uint16 and uint64 keep their
--   wrap-around. The milliseconds of the jitter buffer's settings are natural numbers. The loop of Push
--   that enforces the cap runs on the number of frames plus one as fuel; Loop is about why that is enough.
--   Keys, ciphers, JSON and Unicode's tables are parameters.
--
-- Not modelled
--   The network, the devices and codecs, which are calls of libraries; the command line and the terminal
--   interface; the daemon's wiring and configuration. Of audio, the pipeline, the statistics and the
--   transport, which run on goroutines, floating point and sockets, are left out, and of IPC all but
--   VersionCheck.
pub mod Audio
pub mod Base
pub mod Call
pub mod Discovery
pub mod Friends
pub mod Invite
pub mod Version
