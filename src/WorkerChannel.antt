-- ===== src/WorkerChannel.antt =====
-- app/src/worker_channel.cpp: one end of a datagram socket pair between the service and a worker.
-- What the system calls return is an argument of the operations.
use youyeetoo_rk3588_toolkit.Prelude.{
  ℕ, ℤ, minus_one, pos, is_nonneg, eq_ℤ, Bool, ◌&&◌, Option, none, some, leb, length, if◌then◌else◌,
}
use youyeetoo_rk3588_toolkit.Prelude.Text.{Text}

-- kWorkerMaxMessageSize
abbrev pub max_message_size : ℕ
max_message_size = 65536

pub record WorkerChannel : Type 0 where
  pub fd : ℤ

-- poll: a failure, no event, an event with POLLHUP or POLLERR, or one without them.
pub data PollResult : Type 0 where
  poll_failed nothing_ready hung_up readable : PollResult

-- recv into a buffer of the maximal size: a datagram, 0, or an error, EAGAIN apart from the others.
pub data RecvResult : Type 0 where
  datagram : Text → RecvResult
  end_of_file would_block recv_failed : RecvResult

-- What TryRecv gives: true and the message, or false and `*error`.
pub data Received : Type 0 where
  message : Text → Received
  no_message : Received
  broken : Received

-- The end of TryRecv.
abbrev of_recv : RecvResult → Received
of_recv (datagram msg) = message msg
of_recv end_of_file = broken
of_recv would_block = no_message
of_recv recv_failed = broken

abbrev of_poll : PollResult → RecvResult → Received
of_poll poll_failed r = broken
of_poll nothing_ready r = no_message
of_poll hung_up r = broken
of_poll readable r = of_recv r

-- TryRecv
unfoldable pub try_recv : PollResult → RecvResult → WorkerChannel → Received
try_recv poll recv ch = if is_nonneg ch.fd then of_poll poll recv else broken

-- Send, for the result of ::send.
unfoldable pub send : ℤ → Text → WorkerChannel → Bool
send sent msg ch =
    is_nonneg ch.fd && (leb (length msg) max_message_size && eq_ℤ sent (pos (length msg)))

-- Close
unfoldable pub close : WorkerChannel → WorkerChannel
close ch = if is_nonneg ch.fd then record { fd = minus_one } else ch

-- CreateChannelPair, for the descriptors that socketpair gives: those of the parent and the child.
unfoldable pub create_channel_pair : Option (ℤ × ℤ) → Option (ℤ × ℤ)
create_channel_pair none = none
create_channel_pair (some (first, second)) = some (first, second)
