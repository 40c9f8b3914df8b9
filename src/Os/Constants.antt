-- ===== src/Os/Constants.antt =====
-- The system headers' constants that the code names, with their values on Linux, and the sizes of
-- the native address structures there.
use yonaa.Base.{ℕ}

-- sys/socket.h
abbrev pub af_inet : ℕ
af_inet = 2

abbrev pub af_inet6 : ℕ
af_inet6 = 10

abbrev pub sock_stream : ℕ
sock_stream = 1

abbrev pub msg_peek : ℕ
msg_peek = 0x2

abbrev pub msg_dontroute : ℕ
msg_dontroute = 0x4

abbrev pub msg_eor : ℕ
msg_eor = 0x80

abbrev pub msg_nosignal : ℕ
msg_nosignal = 0x4000

-- poll.h
abbrev pub pollin : ℕ
pollin = 0x1

abbrev pub pollout : ℕ
pollout = 0x4

abbrev pub pollerr : ℕ
pollerr = 0x8

abbrev pub pollhup : ℕ
pollhup = 0x10

-- netdb.h
abbrev pub ai_passive : ℕ
ai_passive = 0x1

abbrev pub ai_addrconfig : ℕ
ai_addrconfig = 0x20

abbrev pub af_unspec : ℕ
af_unspec = 0

-- netinet/in.h
abbrev pub inet_addrstrlen : ℕ
inet_addrstrlen = 16

abbrev pub inet6_addrstrlen : ℕ
inet6_addrstrlen = 46

-- sizeof(sockaddr_storage)
abbrev pub sockaddr_storage_size : ℕ
sockaddr_storage_size = 128

-- offsetof(sockaddr_in, sin_addr) and offsetof(sockaddr_in6, sin6_addr)
abbrev pub sin_addr_offset : ℕ
sin_addr_offset = 4

abbrev pub sin6_addr_offset : ℕ
sin6_addr_offset = 8
