-- ===== src/Net.antt =====
-- include/net and src/net: the reactor, its channels, the connections and the server.
pub mod Buffer
pub mod Channel
pub mod Poller
pub mod EventLoop
pub mod EventLoopThread
pub mod EventLoopThreadPool
pub mod TcpConnection
pub mod InetAddress
pub mod Acceptor
pub mod TcpServer
