-- ===== src/Grpc/Sequence.antt =====
-- Calls of `SendMsg` one after another in larking/grpc.go, and calls of `RecvMsg` on what they wrote.
use larking.Base.{
  ◌+◌, ◌^◌, ◌≤◌, ◌<◌, ◌≡◌, refl, ◌∙◌, false, List, [], ◌∷◌, ◌++◌, Bytes, length, append_assoc,
}
use larking.Io.{Reader, received, AllRead}
use larking.Grpc.Frame.{Wire, frame, make_frame, Received, received_msg, recv_frame}
use larking.Grpc.FrameLaws.{IsFaithful, Arrives, arrives, panics, recv_frame-make_frame}

module _ {Msg : Type 0} (w : Wire Msg) where
  -- The bytes that the calls of `SendMsg` write, each frame within the limits of `RecvMsg`.
  pub data Sent : List Msg → Bytes → Type 0 where
    sent_none : Sent [] []
    sent_next :
        {m : Msg} {ms : List Msg} {x b : Bytes}
        → make_frame w m ≡ frame x
        → length x < 2 ^ 32
        → length x ≤ w.max_receive + 5
        → Sent ms b
        → Sent (m ∷ ms) (x ++ b)

  -- The calls of `RecvMsg` return the messages, and the rest is still to come.
  pub data ReceivesAll (rest : Bytes) : List Msg → Reader → Type 0 where
    received_all : {r : Reader} → received r ≡ rest → AllRead r → ReceivesAll rest [] r
    receives_next :
        {m : Msg} {ms : List Msg} {r r' : Reader}
        → recv_frame w r ≡ received_msg m r'
        → ReceivesAll rest ms r'
        → ReceivesAll rest (m ∷ ms) r

  -- The messages that calls of `SendMsg` wrote are received in their order, all of them, by as many
  -- calls of `RecvMsg`, however the reads divide the bytes and whatever follows, if no read fails, every
  -- frame is within the limits, the codec and the compressor give back what they took, and there is no
  -- handler of statistics.
  pub recv_frames-Sent :
      (ms : List Msg) (b rest : Bytes) (r : Reader)
      → IsFaithful w
      → w.has_stats ≡ false
      → Sent ms b
      → AllRead r
      → received r ≡ b ++ rest
      → ReceivesAll rest ms r
  recv_frames-Sent [] b rest r f q sent_none a t = received_all t a
  recv_frames-Sent (m ∷ ms) b rest r f q (sent_next {x = x} {b = b'} e l k later) a t =
      go (recv_frame w r) refl
        (recv_frame-make_frame w m x (b' ++ rest) r f e l k a (t ∙ append_assoc x b' rest))
        (λ r' a' t'. recv_frames-Sent ms b' rest r' f q later a' t')
    where
      go :
          (y : Received w)
          → recv_frame w r ≡ y
          → Arrives w m (b' ++ rest) y
          → ((r' : Reader) → AllRead r' → received r' ≡ b' ++ rest → ReceivesAll rest ms r')
          → ReceivesAll rest (m ∷ ms) r
      go y s (arrives {r = r'} e fine t' a') all = receives_next s (all r' a' t')
      go y s (panics e stats short) all = cc
