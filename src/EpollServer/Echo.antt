-- ===== src/EpollServer/Echo.antt =====
-- The bytes that a client is sent are those that it sent.
use cs_lab.Base.{◌-◌, ℕ, ◌≡◌, ap, sym, ◌∙◌, List, [], ◌∷◌, ◌++◌, ◌==◌, if◌then◌else◌, ==-refl}
use mathlib.Core.List.{append_assoc, append-nil}
use cs_lab.Net.{
  Call, opens, closes, sends, shuts, Received, data_bytes, nothing_yet, recv_failed, take,
}
use cs_lab.EpollServer.{Server, read_all, echo, drop_client, buf_size}

-- The bytes sent to `d`, in their order.
unfoldable pub sent : ℕ → List Call → List ℕ
sent d [] = []
sent d (opens e ∷ calls) = sent d calls
sent d (closes e ∷ calls) = sent d calls
sent d (sends e bytes ∷ calls) = sent d calls ++ (if e == d then bytes else [])
sent d (shuts e ∷ calls) = sent d calls

-- The bytes received up to the end of the stream, EAGAIN or an error, one `recv` after the other.
unfoldable pub chunk_then : List ℕ → List ℕ → List ℕ
chunk_then [] later = []
chunk_then (b ∷ more) later = (b ∷ more) ++ later

unfoldable pub stream : List Received → List ℕ
stream [] = []
stream (data_bytes bytes ∷ later) = chunk_then (take (buf_size - 1) bytes) (stream later)
stream (nothing_yet ∷ later) = []
stream (recv_failed ∷ later) = []

sent-echo :
    (fd : ℕ) (bytes rest : List ℕ) (later : Server → Server) (st : Server)
    → ((u : Server) → sent fd (later u).calls ≡ sent fd u.calls ++ rest)
    → sent fd (echo fd bytes later st).calls ≡ sent fd st.calls ++ chunk_then bytes rest
unfolding echo sent chunk_then drop_client
sent-echo fd [] rest later st ih = sym (append-nil _)
sent-echo fd (b ∷ more) rest later st ih =
    ih (record st { calls = sends fd (b ∷ more) ∷ st.calls })
    ∙ ap (λ t. (sent fd st.calls ++ (if t then b ∷ more else [])) ++ rest) (==-refl fd)
    ∙ append_assoc (sent fd st.calls) (b ∷ more) rest

-- What the epoll server sends to a client in one event are the bytes that it receives from it up to
-- the end of the stream, EAGAIN or an error, in their order.
pub sent-read_all :
    (fd : ℕ) (recvs : List Received) (st : Server)
    → sent fd (read_all fd recvs st).calls ≡ sent fd st.calls ++ stream recvs
unfolding read_all stream sent drop_client
sent-read_all fd [] st = sym (append-nil _)
sent-read_all fd (data_bytes bytes ∷ later) st =
    sent-echo fd (take 1023 bytes) (stream later) (read_all fd later) st (sent-read_all fd later)
sent-read_all fd (nothing_yet ∷ later) st = sym (append-nil _)
sent-read_all fd (recv_failed ∷ later) st = sym (append-nil _)
