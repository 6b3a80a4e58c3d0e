-- ===== src/Lib.antt =====
-- UDPlex, a packet forwarder: components (listeners, forwarders, tunnels, filters, load balancers)
-- hand packets to each other through a router. This library models the parts of src/*.go that carry
-- the program's own logic, and proves what makes them correct.
--
-- Packets and queues. Packet is src/packet.go: the packet, its buffer and its reference count. Fifo is
-- shaperQueue of src/shaper.go (Fifo.push, Fifo.pop as its methods); Fifo.Refine compares it with a
-- list. Codel is src/codel.go (shouldDrop). TunnelQueue is src/tcp_tunnel_queue.go, the send queue of a
-- TCP tunnel connection: TunnelQueue.Config resolves the settings, TunnelQueue.Push and TunnelQueue.Pop
-- are push, pop and close, and TunnelQueue.Invariant is what holds between calls. Shaper is
-- pathShaper of src/shaper.go, with its settings in Shaper.Config, enqueue in Shaper.Enqueue, dequeue and
-- reset in Shaper.Dequeue and what holds between calls in Shaper.Invariant; Autorate is src/autorate.go,
-- which sets a shaper's rate, and Autorate.Probe its messages. Float stands for float64: an abstract type
-- with its operations; the laws that a theorem needs are its hypotheses (RateLaws, BucketLaws), and
-- int_floats runs examples.
--
-- TCP streams. Stream is the state of tcpStream in src/tcp_stream.go, Stream.Receive and Stream.Send are
-- processSegmentLocked and processAckLocked with what they call, Stream.Life is handleFrame, the timers,
-- the bodies of the copy loops and the end. A method is a function on the state; frames to send are
-- collected in `out`, and dialing, closing and starting loops in `effects`. Wire.StreamFrame is the
-- format of the frames (parseTcpFrame, putTcpFrame), Wire.Header that of the authenticated messages.
--
-- TCP tunnels. Tunnel is the connections and their pool in src/tcp_tunnel.go (GetNextConn, PickConn, Close,
-- enqueue), on a heap of connections by address; Tunnel.Batch is the batch of writeLoop and
-- Tunnel.Read the loop of readLoop, over any state with Handlers for what a message does.
-- TunnelForward is src/tcp_tunnel_forward.go: the index from connection ids to pools, and HandlePacket,
-- which picks a pool, wraps the packet (a parameter there; Auth.Data has WrapData) and hands it to a
-- connection.
--
-- UDP listener. Listen is the mappings of src/listen.go, from addresses to connections, with the handlers
-- of its messages and the targets of HandlePacket.
--
-- Authentication. Auth.Dedup is DeduplicationManager of src/auth_protocol.go, with the marks, the runs of
-- its operations and the nonces that it issues in child modules; Auth.Challenge is the handshake on the
-- bytes of its messages, with HMAC as a parameter of 32 bytes (IsMac); Auth.Data is WrapData and UnwrapData, with AES-GCM as a parameter and its
-- documented laws as GcmLaws; Auth.Delay is the ring of delays there and in src/component.go.
--
-- Routing. Router is src/router.go: Register, routePacket and, in Router.ConnData, the data of
-- connections. LoadBalancer is src/load_balancer.go, with the expression library as a parameter.
-- Detector is src/protocol_detector.go and src/filter.go, with bytes.Contains as a
-- parameter (IsContains). Heartbeat is src/heartbeat_tracker.go. Table
-- is Go's map, and Prelude holds the shared names, tests, lists, integers and bits.
--
-- Times are nanoseconds on natural numbers (milliseconds in Auth.Challenge) and are arguments; locks and
-- atomics make each method one step. Go's panics (an index out of range, an empty window) are `none`.
-- The loops of TunnelQueue run on fuel: one more than the packets of the queue for evictions and for
-- `close`, two more for `pop`, since each round takes a packet or is the last; the loop over early
-- segments gets one more than their number. A shaper's dequeue gets two more than its packets, the loop
-- that makes room one more than the bulk packets, the walk over a write batch one more than its slots,
-- and the loop over messages one more than the bytes, since a message has at least eight. Sequence
-- numbers and byte counts that cannot reach 2^64 do not wrap; counters that the source lets wrap do.
--
-- Not modelled: sockets, system calls and goroutines, so the accept, dial, check and send loops of
-- tcp_tunnel*.go, listen.go, forward.go, tcp_listen.go and tcp_forward.go, and udp_batch*.go, outbound_*.go
-- and tcp_sockopt*.go; the adapters of tunnel libraries (wireguard.go, openvpn.go, tun_netconfig.go,
-- ip_router.go); and the API, configuration and logging, which are input and output.
pub mod Prelude
pub mod Packet
pub mod Fifo
pub mod Float
pub mod Wire
pub mod Autorate
pub mod Codel
pub mod Tunnel
pub mod TunnelForward
pub mod TunnelQueue
pub mod Shaper
pub mod Stream
pub mod Auth
pub mod Listen
pub mod LoadBalancer
pub mod Detector
pub mod Router
pub mod Heartbeat
pub mod Table
