-- ===== src/Grpc/Status.antt =====
-- The status that `serveGRPC` of larking/grpc.go ends a call with.
use larking.Base.{
  ℕ, Bool, true, false, Option, none, some, List, [], ◌∷◌, ◌≡◌, refl, ◌∙◌, ◌⊎◌, Bytes, codes, beq,
  if◌then◌else◌, Bool-cases, inl, inr,
}
use larking.Rules.Tree.{lookup, insert}
use larking.Grpc.Headers.{Header, is_reserved_header, outgoing_values, set_outgoing}
use larking.Http.Action.{Metadata}
use larking.Mux.Removal.{lookup-insert}
use larking.Grpc.Serve.{
  with_header, SendError, context_done, already_sent, end_call, Sending, Status, send_header,
  write_status, details_header, text_header, finish,
}

abbrev status_key : Bytes
status_key = codes "Grpc-Status"

-- The keys whose canonical form is that of the status are reserved.
abbrev pub KeepsStatus : Metadata → Header → Type 0
KeepsStatus md [] = Unit
KeepsStatus md ((k, vs) ∷ h) =
    (beq (md.canonical k) (codes "Grpc-Status") ≡ true → is_reserved_header k ≡ true)
    × KeepsStatus md h

-- The status is that of the code.
abbrev HasStatus : Bytes → Header → Type 0
HasStatus v h = lookup status_key h ≡ some (v ∷ [])

other-HasStatus :
    (v k : Bytes) (vs : List Bytes) (h : Header)
    → beq k status_key ≡ false
    → HasStatus v h
    → HasStatus v (insert k vs h)
other-HasStatus v k vs h e q = lookup-insert status_key k vs h ∙ rw e q

set_outgoing-HasStatus :
    (md : Metadata) (v : Bytes) (h t : Header)
    → KeepsStatus md t
    → HasStatus v h
    → HasStatus v (set_outgoing md.encode md.canonical h t)
unfolding set_outgoing
set_outgoing-HasStatus md v h [] keeps q = q
set_outgoing-HasStatus md v h ((k, vs) ∷ t) (reserved, keeps) q =
    elim (Bool-cases (is_reserved_header k)) [
      | inl e ↦ rw (e, set_outgoing) (set_outgoing-HasStatus md v h t keeps q)
      | inr e ↦ elim (Bool-cases (beq (md.canonical k) status_key)) [
        | inl same ↦ cc (reserved same)
        | inr other ↦
            rw (e, set_outgoing)
              (set_outgoing-HasStatus md v
                (insert (md.canonical k) (outgoing_values md.encode md.canonical k vs) h) t keeps
                (other-HasStatus v (md.canonical k) _ h other q))
      ]
    ]

-- A stream ends with a status, or as it was.
pub data Ends (v : Bytes) (done : Bool) (s : Sending) : Sending → Type 0 where
  with_status :
      {t : Sending}
      → (s.sent_header ≡ true) ⊎ (done ≡ false)
      → lookup (codes "Grpc-Status") t.w_header ≡ some (v ∷ [])
      → Ends v done s t
  without_status : {t : Sending} → s.sent_header ≡ false → done ≡ true → t ≡ s → Ends v done s t

-- The choice at the end of `serveGRPC`, when the headers of the stream are refused only once sent.
pick-Ends :
    {v : Bytes} (b done : Bool) (s t u : Sending) (k : Sending → Sending)
    → (s.sent_header ≡ b)
    → (b ≡ true → Ends v done s t)
    → (done ≡ false → Ends v done s (k u))
    → Ends v done s (
        if b
        then t
        else (let (e', s') : Option SendError × Sending =
              if done
              then (some context_done, s)
              else if b
              then (some already_sent, s)
              else (none, u) in
            elim e' [ none ↦ k s' | some x ↦ s' ]))
pick-Ends true done s t u k e h l = h refl
pick-Ends false true s t u k e h l = without_status e refl refl
pick-Ends false false s t u k e h l = l refl

module _ (md : Metadata) (format_int : ℕ → Bytes) (content_type encoding : Bytes) where
  text-HasStatus :
      (v t : Bytes) (h : Header)
      → HasStatus v h
      → HasStatus v (text_header md format_int content_type encoding t h)
  unfolding beq
  text-HasStatus v [] h q = q
  text-HasStatus v (c ∷ t) h q = other-HasStatus v (codes "Grpc-Message") _ h refl q

  details-HasStatus :
      (v : Bytes) (o : Option Bytes) (h : Header)
      → HasStatus v h
      → HasStatus v (details_header md format_int content_type encoding o h)
  unfolding beq
  details-HasStatus v none h q = q
  details-HasStatus v (some b) h q = other-HasStatus v (codes "Grpc-Status-Details-Bin") _ h refl q

  write_status-HasStatus :
      (st : Status) (t h : Header)
      → KeepsStatus md t
      → HasStatus (format_int st.code) (write_status md format_int content_type encoding st t h)
  unfolding write_status beq
  write_status-HasStatus st t h keeps = set_outgoing-HasStatus md (format_int st.code) _ t keeps (
      details-HasStatus (format_int st.code) st.details _ (
        text-HasStatus (format_int st.code) st.text _
          (lookup-insert status_key status_key (format_int st.code ∷ []) h)))

  end_call-HasStatus :
      (has_stats : Bool) (st : Status) (s : Sending)
      → KeepsStatus md s.trailer
      → HasStatus
          (format_int st.code)
          (end_call md format_int content_type encoding has_stats st s).w_header
  unfolding end_call
  end_call-HasStatus true st s keeps =
      set_outgoing-HasStatus md (format_int st.code) _ s.trailer keeps
        (write_status-HasStatus st s.trailer s.w_header keeps)
  end_call-HasStatus false st s keeps = write_status-HasStatus st s.trailer s.w_header keeps

  -- A call ends with the status of its handler's error in the header "Grpc-Status", whatever trailers
  -- the handler set, if their keys leave it to the reserved ones; only where the context is done before
  -- the headers are sent, the stream stays as it was.
  pub finish-Ends :
      (has_stats done : Bool) (st : Status) (s : Sending)
      → KeepsStatus md s.trailer
      → Ends
          (format_int st.code)
          done
          s
          (finish md format_int content_type encoding has_stats done st s)
  unfolding finish send_header with_header
  finish-Ends has_stats done st s keeps =
      let later = with_header md format_int content_type encoding [] s in
      pick-Ends s.sent_header done s _ later
        (end_call md format_int content_type encoding has_stats st) refl
        (λ sent. with_status (inl sent) (end_call-HasStatus has_stats st s keeps))
        (λ early. with_status (inr early) (end_call-HasStatus has_stats st later keeps))
