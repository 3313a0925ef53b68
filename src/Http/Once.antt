-- ===== src/Http/Once.antt =====
-- The single message of a call that does not stream, as streamHTTP of larking/http.go receives it.
use larking.Http.HeadersFirst.{Call, calls}
use larking.Http.Ended.{AtEnd, with_params-keeps, store_args-keeps, calls-AtEnd}
use larking.Base.{List}
use larking.Base.{
  ℕ, ◌+◌, ◌&&◌, Bool, true, false, Option, none, some, [], ◌≡◌, ◌≢◌, refl, Bytes, if◌then◌else◌,
}
use larking.Codec.Body.{AllData, all_data, over_limit, all_waits, read_all}
use larking.Http.Action.{
  Messages, Coder, Config, Stream, StreamError, end_of_stream, no_codec, Result, ok, err, panic,
  wait, Action, pure, or_raise, ◌>>=◌,
}
use larking.Http.Stream.{
  is_eof, get_codec, keep_all, read_bytes, read_msg, store_args, read_args, decode_request_args,
  take_empty, with_params, receive, recv_msg,
}
use larking.Http.Triples.{Triple}

-- What holds of the state if the action succeeds.
abbrev OkThen : {A : Type 0} → (Stream → Type 0) → Result A × Stream → Type 0
OkThen P (ok a, s) = P s
OkThen P (err e, s) = Unit
OkThen P (panic, s) = Unit
OkThen P (wait, s) = Unit

module _ {A B : Type 0} (P : Stream → Type 0) where
  seq-first :
      (m : Action A) (f : A → Action B) (s : Stream)
      → OkThen P (m s)
      → ((a : A) → Triple P (f a) P)
      → OkThen P ((m >>= f) s)
  seq-first m f s h k = go (m s).0 (m s).1 h
    where
      last : (x : Result B × Stream) → P x.1 → OkThen P x
      last (ok a, t) q = q
      last (err e, t) q = tt
      last (panic, t) q = tt
      last (wait, t) q = tt

      go :
          (r : Result A) (t : Stream)
          → OkThen P (r, t)
          → OkThen P (
              (let r' : Result B × Stream = elim r [
                | ok a ↦ f a t
                | err e ↦ (err e, t)
                | panic ↦ (panic, t)
                | wait ↦ (wait, t)
              ] in
                r'))
      go (ok a) t q = last (f a t) (k a t q)
      go (err e) t q = tt
      go panic t q = tt
      go wait t q = tt

or_raise-then :
    {A B : Type 0} (P : Stream → Type 0) (o : Option A) (e : StreamError) (f : A → Action B)
    (s : Stream)
    → ((a : A) → OkThen P (f a s))
    → OkThen P ((or_raise o e >>= f) s)
or_raise-then P none e f s h = tt
or_raise-then P (some a) e f s h = h a

branch-OkThen :
    {A : Type 0} (P : Stream → Type 0) (b : Bool) (x y : Result A × Stream)
    → (b ≡ true → OkThen P x)
    → (b ≡ false → OkThen P y)
    → OkThen P (if b then x else y)
branch-OkThen P true x y h k = h refl
branch-OkThen P false x y h k = k refl

module _ {p : Messages} (c : Config p) where
  keep_all-AtEnd : (x : AllData) (s : Stream) → OkThen AtEnd (keep_all c x s)
  unfolding keep_all
  keep_all-AtEnd (all_data b e r) s = branch-OkThen AtEnd (is_eof e) _ _ (λ _. refl) (λ _. tt)
  keep_all-AtEnd (over_limit r) s = tt
  keep_all-AtEnd (all_waits b) s = tt

  read_bytes-AtEnd :
      (k : Coder p.Msg) (s : Stream)
      → c.is_streaming_client ≡ false
      → OkThen AtEnd (read_bytes c k s)
  unfolding read_bytes
  read_bytes-AtEnd k s unary =
      rw (unary, read_bytes) (keep_all-AtEnd (read_all c.max_receive [] s.reader) s)

  read_msg-AtEnd :
      (k : Coder p.Msg) (s : Stream) → c.is_streaming_client ≡ false → OkThen AtEnd (read_msg c k s)
  unfolding read_msg
  read_msg-AtEnd k s unary =
      branch-OkThen AtEnd s.r_eof (err end_of_stream, s) _ (λ _. tt)
        (λ _.
          seq-first AtEnd (read_bytes c k) (λ b. pure {A = ℕ × Bytes} (s.recv_count, b))
            (record s { recv_count = s.recv_count + 1 })
            (read_bytes-AtEnd k (record s { recv_count = s.recv_count + 1 }) unary) (λ b t q. q))

  receive-AtEnd :
      (b : Bool) (m : p.Msg) (s : Stream)
      → c.is_streaming_client ≡ false
      → OkThen AtEnd (receive c b m s)
  unfolding receive decode_request_args read_args take_empty
  receive-AtEnd true m s unary =
      or_raise-then AtEnd (get_codec c c.content_type (p.at c.body m)) no_codec (read_args c m) s
        (λ k.
          seq-first AtEnd (read_msg c k) (store_args c k m) s (read_msg-AtEnd k s unary)
            (store_args-keeps c AtEnd k m))
  receive-AtEnd false m s unary = branch-OkThen AtEnd s.r_eof _ _ (λ _. tt) (λ _. refl)

  recv_msg-AtEnd :
      (m : p.Msg) (s : Stream) → c.is_streaming_client ≡ false → OkThen AtEnd (recv_msg c m s)
  unfolding recv_msg
  recv_msg-AtEnd m s unary =
      seq-first AtEnd (receive c (c.method_has_body && c.has_body) m) (λ a. with_params c a.0 a.1) s
        (receive-AtEnd (c.method_has_body && c.has_body) m s unary) (with_params-keeps c AtEnd)

  ended-receive : (b : Bool) (m : p.Msg) (s : Stream) → AtEnd s → OkThen (λ _. ⊥) (receive c b m s)
  unfolding receive decode_request_args read_args take_empty read_msg
  ended-receive true m s e =
      or_raise-then (λ _. ⊥) (get_codec c c.content_type (p.at c.body m)) no_codec (read_args c m) s
        (λ k.
          seq-first (λ _. ⊥) (read_msg c k) (store_args c k m) s
            (branch-OkThen (λ _. ⊥) s.r_eof (err end_of_stream, s) _ (λ _. tt) (λ f. cc))
            (store_args-keeps c (λ _. ⊥) k m))
  ended-receive false m s e = branch-OkThen (λ _. ⊥) s.r_eof _ _ (λ _. tt) (λ f. cc)

  ended-recv_msg : (m : p.Msg) (s : Stream) → AtEnd s → OkThen (λ _. ⊥) (recv_msg c m s)
  unfolding recv_msg
  ended-recv_msg m s e =
      seq-first (λ _. ⊥) (receive c (c.method_has_body && c.has_body) m)
        (λ a. with_params c a.0 a.1) s (ended-receive (c.method_has_body && c.has_body) m s e)
        (with_params-keeps c (λ _. ⊥))

at-OkThen :
    {A : Type 0} (P : Stream → Type 0) (x : Result A × Stream) (a : A)
    → x.0 ≡ ok a
    → OkThen P x
    → P x.1
at-OkThen P (ok b, s) a e q = q
at-OkThen P (err x, s) a e q = cc
at-OkThen P (panic, s) a e q = cc
at-OkThen P (wait, s) a e q = cc

-- A method whose client does not stream receives its message once: after a receive that succeeds, with a
-- body or without, no later receive on the same stream does, whatever calls the handler makes between.
pub recv_msg-once :
    {p : Messages} (c : Config p) (xs : List (Call p)) (m m' a b : p.Msg) (s : Stream)
    → c.is_streaming_client ≡ false
    → (recv_msg c m s).0 ≡ ok a
    → (recv_msg c m' (calls c xs (recv_msg c m s).1)).0 ≢ ok b
recv_msg-once c xs m m' a b s unary e again =
    let t = (recv_msg c m s).1 in
    at-OkThen (λ _. ⊥) (recv_msg c m' (calls c xs t)) b again
      (ended-recv_msg c m' (calls c xs t)
        (calls-AtEnd c xs t (at-OkThen AtEnd (recv_msg c m s) a e (recv_msg-AtEnd c m s unary))))
