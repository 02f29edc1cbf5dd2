-- ===== src/TcpSocket/Tests.antt =====
-- Runs of the theorems on a socket whose kernel answers are given.
use frnetlib.TcpSocket.{transport}
use frnetlib.TcpSocket.Stream.{
  pending, wire, read_budget, write_budget, receive_raw-Reads, send_raw-Writes,
}
use frnetlib.TcpSocket.Steady.{Calm, receive_raw-Steady}
use frnetlib.Socket.Steady.{Steady}
use frnetlib.Socket.Contract.{Reads}
use frnetlib.Socket.Sending.{Writes}

receive_raw-Reads_example : Reads (transport 1024) pending read_budget
receive_raw-Reads_example = receive_raw-Reads 1024

send_raw-Writes_example : Writes (transport 1024) wire write_budget
send_raw-Writes_example = send_raw-Writes 1024

receive_raw-Steady_example : Steady (transport 1024) pending Calm
receive_raw-Steady_example = receive_raw-Steady 1024
