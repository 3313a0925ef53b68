-- ===== src/Http/WebsocketOrder.antt =====
-- The messages that a streamWS of larking/websocket.go receives.
use larking.Base.{
  ℕ, zero, suc, ◌+◌, Bool, true, false, Option, none, some, List, [], ◌∷◌, ◌≡◌, refl, ap, ◌∙◌, ◌==◌,
  length, Bytes, if◌then◌else◌, Option-cases, inl, inr, arith,
}
use larking.Http.Action.{Messages}
use larking.Http.Websocket.{
  WsStream, WsConfig, WsError, ws_unmarshal, read_body, first_params, recv_body, recv_msg,
}

module _ {p : Messages} (c : WsConfig p) where
  open p use {Msg, at, put_at}

  -- So many receives, each into the message `m`.
  abbrev pub receives : ℕ → Msg → WsStream → List (Option WsError × Msg)
  receives zero m s = []
  receives (suc n) m s = let (r, s') = recv_msg c m s in r ∷ receives n m s'

  abbrev read_as : Bool → Msg → Option Msg → Option WsError × Msg
  read_as first m none = (some ws_unmarshal, m)
  read_as first m (some cur) = first_params c first (put_at c.body cur m)

  -- The texts decoded, and the params set on the first alone.
  abbrev pub decoded : Bool → Msg → List Bytes → List (Option WsError × Msg)
  decoded first m [] = []
  decoded first m (b ∷ bs) = read_as first m (c.unmarshal b (at c.body m)) ∷ decoded false m bs

  recv_msg-body :
      (m : Msg) (s : WsStream)
      → c.has_body ≡ true
      → recv_msg c m s ≡ recv_body c (s.recv_n + 1 == 1) m (record s { recv_n = s.recv_n + 1 })
  unfolding recv_msg
  recv_msg-body m s h =
      ap
        (λ b.
          if b
          then recv_body c (s.recv_n + 1 == 1) m (record s { recv_n = s.recv_n + 1 })
          else (first_params c (s.recv_n + 1 == 1) m, record s { recv_n = s.recv_n + 1 }))
        h

  abbrev read_one : Msg → Option Msg → Option WsError × Msg
  read_one m none = (some ws_unmarshal, m)
  read_one m (some cur) = (none, put_at c.body cur m)

  read_body-step :
      (m : Msg) (s : WsStream) (b : Bytes) (bs : List Bytes)
      → read_body c m (record s { incoming = b ∷ bs })
        ≡ (read_one m (c.unmarshal b (at c.body m)), record s { incoming = bs })
  unfolding read_body
  read_body-step m s b bs = elim (Option-cases (c.unmarshal b (at c.body m))) [
    | inl bad ↦ rw (bad, read_body) refl
    | inr (cur, good) ↦ rw (good, read_body) refl
  ]

  abbrev after_read : Bool → Option WsError × Msg → Option WsError × Msg
  after_read first (e, m') = elim e [ some x ↦ (some x, m') | none ↦ first_params c first m' ]

  after-read_one :
      (first : Bool) (m : Msg) (o : Option Msg)
      → after_read first (read_one m o) ≡ read_as first m o
  after-read_one first m none = refl
  after-read_one first m (some cur) = refl

  recv_body-step :
      (first : Bool) (m : Msg) (s : WsStream) (b : Bytes) (bs : List Bytes)
      → recv_body c first m (record s { incoming = b ∷ bs })
        ≡ (read_as first m (c.unmarshal b (at c.body m)), record s { incoming = bs })
  unfolding recv_body
  recv_body-step first m s b bs =
      ap (λ x. (after_read first x.0, x.1)) (read_body-step m s b bs)
      ∙ ap (λ r. (r, record s { incoming = bs }))
          (after-read_one first m (c.unmarshal b (at c.body m)))

  first_is : (n : ℕ) → (n + 1 == 1) ≡ (n == 0)
  first_is n = ground arith

  -- On a method with a body, as many receives as the client has sent messages yield these messages in
  -- the order in which they were sent, each decoded into the message given; the params are set on the
  -- first of the stream and on no other. A text that does not decode is an error of its own receive.
  pub receives-decoded :
      (bs : List Bytes) (m : Msg) (s : WsStream)
      → c.has_body ≡ true
      → receives (length bs) m (record s { incoming = bs }) ≡ decoded (s.recv_n == 0) m bs
  receives-decoded [] m s h = refl
  receives-decoded (b ∷ bs) m s h =
      let counted : WsStream = record s { recv_n = s.recv_n + 1 } in
      let one : recv_msg c m (record s { incoming = b ∷ bs }) ≡ (
        read_as (s.recv_n == 0) m (c.unmarshal b (at c.body m)),
        record counted { incoming = bs },
      ) =
        recv_msg-body m (record s { incoming = b ∷ bs }) h
        ∙ (recv_body-step (s.recv_n + 1 == 1) m counted b bs
            ∙ ap
                (λ f. (read_as f m (c.unmarshal b (at c.body m)), record counted { incoming = bs }))
                (first_is s.recv_n)) in
      let later : (s.recv_n + 1 == 0) ≡ false = ground arith in
      ap (λ x. x.0 ∷ receives (length bs) m x.1) one
      ∙ ap (λ l. read_as (s.recv_n == 0) m (c.unmarshal b (at c.body m)) ∷ l)
          (receives-decoded bs m counted h ∙ ap (λ f. decoded f m bs) later)
