-- ===== src/Mux/Proxy/InOrder.antt =====
-- What a forwarded call of larking/mux.go passes on, however its two goroutines are interleaved.
use larking.Base.{◌≤◌, Bool, true, false, none, List, ◌≡◌, refl, sym, ◌∙◌, length, arith}
use larking.Mux.Proxy.Forward.{
  InPc, at_start, over, receiving, opening, sending_first, forwarding, in_done, OutPc, before,
  awaiting, replying, out_done, returned, Call, Streaming, new_call, Reach, here, next,
}
use larking.Mux.Proxy.Invariant.{
  Passes, passes_all, one_left, InOk, OutOk, IsQuiet, Inv, one_reply, end_at, Step-Inv,
}

new_call-Inv : {Msg Reply : Type 0} (d : Streaming) → Inv {Msg = Msg} {Reply = Reply} d new_call
new_call-Inv d = record {
  in_ok = (refl, refl);
  out_ok = (refl, refl);
  end_ok = refl;
  alone = λ f. tt;
}

Reach-Inv :
    {Msg Reply : Type 0} {d : Streaming} {s t : Call Msg Reply} → Reach d s t → Inv d s → Inv d t
Reach-Inv here v = v
Reach-Inv (next r st) v = Step-Inv st (Reach-Inv r v)

InOk-Passes :
    {Msg : Type 0} (i : InPc Msg) (got passed : List Msg) → InOk i got passed → Passes got passed
InOk-Passes at_start got passed (a, b) = passes_all (a ∙ sym b)
InOk-Passes (opening m) got passed e = one_left m e
InOk-Passes (sending_first m) got passed e = one_left m e
InOk-Passes receiving got passed e = passes_all e
InOk-Passes (forwarding m) got passed e = one_left m e
InOk-Passes over got passed h = h
InOk-Passes (in_done e) got passed h = h

OutOk-Passes :
    {Reply : Type 0} (b : Bool) (o : OutPc Reply) (came answered : List Reply)
    → OutOk b o came answered
    → Passes came answered × (b ≡ false → length came ≤ 1)
OutOk-Passes b before came answered (h, k) = (passes_all (h ∙ sym k), (λ f. rw h (omega arith)))
OutOk-Passes b awaiting came answered (h, k) = (passes_all h, (λ f. rw (h, k f) (omega arith)))
OutOk-Passes b (replying r) came answered (h, k) =
    (one_left r h, (λ f. one_reply r came answered h (k f)))
OutOk-Passes b (out_done o) came answered h = h
OutOk-Passes b (returned o) came answered h = h

-- What holds of a forwarded call at all times.
pub record InOrder {Msg Reply : Type 0} (d : Streaming) (s : Call Msg Reply) : Type 0 where
  pub to_connection : Passes s.got s.passed
  pub to_client : Passes s.came s.answered
  pub at_most_one : d.server ≡ false → length s.came ≤ 1

-- However the two goroutines of a forwarded call are interleaved and whatever their calls return, the
-- connection gets the client's messages in order, none lost, changed or sent twice, but for at most the
-- last one received; so does the client the replies, of which there is at most one from a server that
-- does not stream.
pub Reach-InOrder :
    {Msg Reply : Type 0} (d : Streaming) (s : Call Msg Reply) → Reach d new_call s → InOrder d s
Reach-InOrder d s r =
    let v = Reach-Inv r (new_call-Inv d) in
    let (out, few) = OutOk-Passes d.server s.out_pc s.came s.answered v.out_ok in
    record {
      to_connection = InOk-Passes s.in_pc s.got s.passed v.in_ok;
      to_client = out;
      at_most_one = few;
    }

-- A forwarded call that ends without an error has set its trailer, and leaves no goroutine behind; the
-- one that passed on the client's messages ended with the end of the stream or was canceled.
pub returned-IsQuiet :
    {Msg Reply : Type 0} (d : Streaming) (s : Call Msg Reply)
    → Reach d new_call s
    → s.out_pc ≡ returned none
    → (s.trailer ≡ true) × IsQuiet s.in_pc
returned-IsQuiet d s r e = end_at (Reach-Inv r (new_call-Inv d)) (returned none) e
