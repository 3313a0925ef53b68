-- ===== src/Http/Triples.antt =====
-- The calls that receive leave what a streamHTTP of larking/http.go has sent alone.
use larking.Base.{
  ℕ, ◌+◌, ◌&&◌, Bool, true, false, Option, none, some, [], ◌≡◌, Bytes, ◌==◌, if◌then◌else◌,
  Bool-cases, Option-cases, inl, inr, arith,
}
use larking.Codec.Json.{
  NextRead, message, no_message, last_message, waiting, negative_length, out_of_range,
}
use larking.Codec.Body.{read_all, AllData, all_data, over_limit, all_waits}
use larking.Http.Action.{
  Messages, Coder, Config, Stream, StreamError, end_of_stream, no_codec, unmarshal_failed,
  bad_params, Result, ok, err, panic, wait, Action, pure, or_raise, ◌>>=◌,
}
use larking.Http.Stream.{
  get_codec, keep_rest, keep_all, read_msg, decode_request_args, take_empty, with_params, recv_msg,
  read_bytes, decode_body, store_args, read_args, receive,
}

-- Whatever an action ends with, its state has the property.
abbrev pub Triple : {A : Type 0} → (Stream → Type 0) → Action A → (Stream → Type 0) → Type 0
Triple P m Q = (s : Stream) → P s → Q (m s).1

pub seq :
    {A B : Type 0} (P Q : Stream → Type 0) (m : Action A) (f : A → Action B)
    → Triple P m Q
    → ((a : A) → Triple Q (f a) Q)
    → Triple P (m >>= f) Q
seq {A} {B} P Q m f h k s p = go (m s).0 (m s).1 (h s p)
  where
    go :
        (r : Result A) (s' : Stream)
        → Q s'
        → Q (
            (let r' : Result B × Stream = elim r [
              | ok a ↦ f a s'
              | err e ↦ (err e, s')
              | panic ↦ (panic, s')
              | wait ↦ (wait, s')
            ] in
              r').1)
    go (ok a) s' q = k a s' q
    go (err e) s' q = q
    go panic s' q = q
    go wait s' q = q

pub branch-keeps :
    {A : Type 0} (P : Stream → Type 0) (b : Bool) (x y : Result A × Stream)
    → P x.1
    → P y.1
    → P (if b then x else y).1
branch-keeps P true x y h k = h
branch-keeps P false x y h k = k

pub or_raise-keeps :
    {A : Type 0} (P : Stream → Type 0) (o : Option A) (e : StreamError) → Triple P (or_raise o e) P
or_raise-keeps P none e s p = p
or_raise-keeps P (some a) e s p = p

-- The part of a stream that reads leave alone.
abbrev pub IsSame : Stream → Stream → Type 0
IsSame s t =
    (t.sent_header ≡ s.sent_header)
    × (t.send_count ≡ s.send_count)
    × (t.written ≡ s.written)
    × (t.header ≡ s.header)
    × (t.w_header ≡ s.w_header)

module _ {p : Messages} (c : Config p) (s₀ : Stream) where
  keep_rest-IsSame : (x : NextRead) → Triple (IsSame s₀) (keep_rest c x) (IsSame s₀)
  unfolding keep_rest
  keep_rest-IsSame (message b n r) s h = h
  keep_rest-IsSame (no_message b e r) s h = ground arith
  keep_rest-IsSame (last_message b n e r) s h = ground arith
  keep_rest-IsSame (waiting b) s h = h
  keep_rest-IsSame (negative_length b n r) s h = h
  keep_rest-IsSame out_of_range s h = h

  keep_all-IsSame : (x : AllData) → Triple (IsSame s₀) (keep_all c x) (IsSame s₀)
  unfolding keep_all
  keep_all-IsSame (all_data b e r) s h = ground arith
  keep_all-IsSame (over_limit r) s h = h
  keep_all-IsSame (all_waits b) s h = h

  read_bytes-IsSame : (k : Coder p.Msg) → Triple (IsSame s₀) (read_bytes c k) (IsSame s₀)
  unfolding read_bytes
  read_bytes-IsSame k s h = elim (Bool-cases c.is_streaming_client) [
    | inr unary ↦ rw (unary, read_bytes) (keep_all-IsSame (read_all c.max_receive [] s.reader) s h)
    | inl streams ↦ elim (Option-cases k.framing) [
      | inl plain ↦ rw (streams, read_bytes, plain) h
      | inr (f, framed) ↦
          rw (streams, read_bytes, framed)
            (keep_rest-IsSame (f.read_next c.max_receive s.rbuf s.reader) s h)
    ]
  ]

  read_msg-IsSame : (k : Coder p.Msg) → Triple (IsSame s₀) (read_msg c k) (IsSame s₀)
  unfolding read_msg
  read_msg-IsSame k s h =
      branch-keeps (IsSame s₀) s.r_eof (err end_of_stream, s) _ h
        (seq (IsSame s₀) (IsSame s₀) (read_bytes c k) (λ b. pure {A = ℕ × Bytes} (s.recv_count, b))
          (read_bytes-IsSame k) (λ b t q. q) (record s { recv_count = s.recv_count + 1 }) h)

  take_empty-IsSame : (m : p.Msg) → Triple (IsSame s₀) (take_empty c m) (IsSame s₀)
  unfolding take_empty
  take_empty-IsSame m s h = branch-keeps (IsSame s₀) s.r_eof _ _ h h

  store_args-IsSame :
      (k : Coder p.Msg) (m : p.Msg) (a : ℕ × Bytes)
      → Triple (IsSame s₀) (store_args c k m a) (IsSame s₀)
  unfolding store_args
  store_args-IsSame k m a =
      seq (IsSame s₀) (IsSame s₀) (or_raise (decode_body c k a.1 (p.at c.body m)) unmarshal_failed)
        (λ cur. pure (a.0, p.put_at c.body cur m))
        (or_raise-keeps (IsSame s₀) (decode_body c k a.1 (p.at c.body m)) unmarshal_failed)
        (λ cur t q. q)

  read_args-IsSame :
      (m : p.Msg) (k : Coder p.Msg) → Triple (IsSame s₀) (read_args c m k) (IsSame s₀)
  unfolding read_args
  read_args-IsSame m k =
      seq (IsSame s₀) (IsSame s₀) (read_msg c k) (store_args c k m) (read_msg-IsSame k)
        (store_args-IsSame k m)

  receive-IsSame : (b : Bool) (m : p.Msg) → Triple (IsSame s₀) (receive c b m) (IsSame s₀)
  unfolding receive decode_request_args
  receive-IsSame false m = take_empty-IsSame m
  receive-IsSame true m =
      seq (IsSame s₀) (IsSame s₀) (or_raise (get_codec c c.content_type (p.at c.body m)) no_codec)
        (read_args c m)
        (or_raise-keeps (IsSame s₀) (get_codec c c.content_type (p.at c.body m)) no_codec)
        (read_args-IsSame m)

  with_params-IsSame : (n : ℕ) (m : p.Msg) → Triple (IsSame s₀) (with_params c n m) (IsSame s₀)
  unfolding with_params
  with_params-IsSame n m s h = elim (Bool-cases (n == 0)) [
    | inl e ↦ rw e (or_raise-keeps (IsSame s₀) (p.set_params c.params m) bad_params s h)
    | inr e ↦ rw e h
  ]

  pub recv_msg-IsSame : (m : p.Msg) → Triple (IsSame s₀) (recv_msg c m) (IsSame s₀)
  unfolding recv_msg
  recv_msg-IsSame m =
      seq (IsSame s₀) (IsSame s₀) (receive c (c.method_has_body && c.has_body) m)
        (λ a. with_params c a.0 a.1) (receive-IsSame (c.method_has_body && c.has_body) m)
        (λ a. with_params-IsSame a.0 a.1)
